-- ===== src/Auth/Signer/Init.antt =====
-- aws_auth/mod.rs: `init`, the check of all credentials at the start.
pub mod Laws
pub mod Safe
use http_dragonfly.Prelude.{
  String, Bool, true, false, not, Option, none, some, List, [], ◌∷◌, ◌++◌, map, or_else, unwrap_or,
  is_some, is_empty, any, hash_set, push_some, if◌then◌else◌,
}
use http_dragonfly.Config.Types.{AwsSigV4Config, TargetConfig, ListenerConfig, AppConfig}
use http_dragonfly.Auth.Cache.{ProviderResult, provided, provider_error}
use http_dragonfly.Auth.Signer.{AwsAuthError, credentials_error, SdkConfig, Aws}

-- The result of `init`, with what it leaves in `SDK_CONFIG`.
pub data Initialized : Type 0 where
  initialized : Option SdkConfig → Initialized
  init_failed : AwsAuthError → Initialized

-- `filter_map(TargetConfig::aws_sigv4)`
unfoldable pub aws_configs : {F : Type 0} → List (TargetConfig F) → List AwsSigV4Config
aws_configs [] = []
aws_configs (t ∷ ts) = push_some t.aws_sigv4 (aws_configs ts)

unfoldable pub all_targets : {F : Type 0} → List (ListenerConfig F) → List (TargetConfig F)
all_targets [] = []
all_targets (l ∷ ls) = l.targets ++ all_targets ls

unfoldable pub all_aws_sigv4_configs : {F : Type 0} → AppConfig F → List AwsSigV4Config
unfolding aws_configs all_targets
all_aws_sigv4_configs app = aws_configs (all_targets app.listeners)

unfoldable pub is_signing_required : {F : Type 0} → AppConfig F → Bool
unfolding all_aws_sigv4_configs
is_signing_required app = not (is_empty (all_aws_sigv4_configs app))

-- `filter_map(|c| c.role_arn())`
unfoldable pub role_arns : List AwsSigV4Config → List String
role_arns [] = []
role_arns (c ∷ cs) = push_some c.role_arn (role_arns cs)

abbrev pub has_default : List AwsSigV4Config → Bool
has_default cs = any (λ c. not (is_some c.role_arn)) cs

abbrev pub warmed : Option String → ProviderResult → Option AwsAuthError
warmed role (provided credentials) = none
warmed role (provider_error cause) = some (credentials_error (unwrap_or role "<default>") cause)

-- The roles that are warmed, in the order of the program; `visit` is the order of the set.
unfoldable pub roles_to_warm :
    (List String → List String) → List AwsSigV4Config → List (Option String)
unfolding role_arns
roles_to_warm visit cs =
    (if has_default cs then none ∷ [] else []) ++ map some (visit (hash_set (role_arns cs)))

module _ {M : Type 0} (aws : Aws M) where
  -- `none` stands for `Ok(())`.
  unfoldable pub warm : Option String → Option AwsAuthError
  warm role = warmed role (aws.provide_credentials role)

  -- The first error ends the loop.
  unfoldable pub warm_all : List (Option String) → Option AwsAuthError
  warm_all [] = none
  warm_all (role ∷ roles) = or_else (warm role) (warm_all roles)

  abbrev pub finish : Option AwsAuthError → Initialized
  finish none = initialized (some aws.load)
  finish (some e) = init_failed e

  unfoldable pub init : {F : Type 0} → (List String → List String) → AppConfig F → Initialized
  unfolding is_signing_required warm_all roles_to_warm
  init visit app =
      if is_signing_required app
      then finish (warm_all (roles_to_warm visit (all_aws_sigv4_configs app)))
      else initialized none
