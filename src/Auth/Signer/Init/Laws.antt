-- ===== src/Auth/Signer/Init/Laws.antt =====
-- aws_auth/mod.rs: when the start succeeds, and what signing then relies on.
use http_dragonfly.Prelude.{
  String, ◌≡◌, refl, ◌↔◌, Bool, true, false, not, Option, none, some, List, [], ◌∷◌, ◌++◌, map,
  push_some, is_empty, ◌∙◌, sym, ◌||◌, Bool-cases, inl, inr, is_some, All, member, hash_set,
  member-hash_set, arith, ◌==◌, eq_iff, if◌then◌else◌,
}
use http_dragonfly.Platform.Laws.{VisitsAll}
use http_dragonfly.Config.Types.{AwsSigV4Config, AppConfig}
use http_dragonfly.Auth.Cache.{Credentials, ProviderResult, provided}
use http_dragonfly.Auth.Signer.{SdkConfig, AwsAuthError, Aws}
use http_dragonfly.Auth.Signer.Init.{
  initialized, all_aws_sigv4_configs, is_signing_required, role_arns, has_default, warm, finish,
  warm_all, roles_to_warm, init,
}
use mathlib.Core.Path.{subst}

-- The provider of a role answers with credentials.
abbrev pub Provides : ProviderResult → Type 0
Provides r = (c : Credentials) × (r ≡ provided c)

module _ (Q : String → Type 0) where
  All-member : (ks : List String) (k : String) → All Q ks → member k ks ≡ true → Q k
  All-member [] k a e = cc
  All-member (j ∷ ks) k a e = elim (Bool-cases (j == k)) [
    | inl same ↦ subst Q ((eq_iff j k).0 same) a.0
    | inr apart ↦ All-member ks k a.1 (ground (arith))
  ]

  member-All : (ks : List String) → ((k : String) → member k ks ≡ true → Q k) → All Q ks
  member-All [] h = tt
  member-All (j ∷ ks) h =
      (h j (ground (arith, eq_iff j j)), member-All ks (λ k e. h k (ground arith)))

  All-same :
      (js ks : List String) → ((k : String) → member k js ≡ member k ks) → All Q ks → All Q js
  All-same js ks same a = member-All js (λ k e. All-member ks k a (cc (same k)))

module _ (visit : List String → List String) (v : VisitsAll visit) (cs : List AwsSigV4Config) where
  member-there : (k : String) → member k (visit (hash_set (role_arns cs))) ≡ member k (role_arns cs)
  member-there k = v (hash_set (role_arns cs)) k ∙ member-hash_set k (role_arns cs)

  member-back : (k : String) → member k (role_arns cs) ≡ member k (visit (hash_set (role_arns cs)))
  member-back k = sym (member-there k)

module _ (P : Option String → Type 0) where
  All-some_iff : (ks : List String) → All P (map some ks) ↔ All (λ k. P (some k)) ks
  All-some_iff [] = (λ a. tt, λ a. tt)
  All-some_iff (k ∷ ks) = (λ a. (a.0, (All-some_iff ks).0 a.1), λ a. (a.0, (All-some_iff ks).1 a.1))

  -- The roles that some configurations name, and the default where one names none.
  abbrev Covered : List AwsSigV4Config → Type 0
  Covered cs = (has_default cs ≡ true → P none) × All (λ k. P (some k)) (role_arns cs)

  -- One configuration: the default is needed if it names no role.
  cover :
      (o : Option String) (ks : List String) (d : Bool)
      → P o × ((d ≡ true → P none) × All (λ k. P (some k)) ks)
      → (not (is_some o) || d ≡ true → P none) × All (λ k. P (some k)) (push_some o ks)
  cover none ks d h = (λ e. h.0, h.1.1)
  cover (some r) ks d h = (h.1.0, (h.0, h.1.1))

  uncover :
      (o : Option String) (ks : List String) (d : Bool)
      → (not (is_some o) || d ≡ true → P none) × All (λ k. P (some k)) (push_some o ks)
      → P o × ((d ≡ true → P none) × All (λ k. P (some k)) ks)
  uncover none ks d h = (h.0 refl, (λ e. h.0 refl, h.1))
  uncover (some r) ks d h = (h.1.0, (h.0, h.1.1))

  Covered-All_iff : (cs : List AwsSigV4Config) → Covered cs ↔ All (λ c. P c.role_arn) cs
  unfolding role_arns
  Covered-All_iff [] = (λ h. tt, λ a. (λ e. cc, tt))
  Covered-All_iff (c ∷ cs) =
      let (to, from) = Covered-All_iff cs in
      (
        λ h.
            let (first, rest) = uncover c.role_arn (role_arns cs) (has_default cs) h in
            (first, to rest),
        λ a. cover c.role_arn (role_arns cs) (has_default cs) (a.0, from a.1),
      )

  prefix_iff :
      (d : Bool) (ks : List String)
      → All P ((if d then none ∷ [] else []) ++ map some ks)
        ↔ ((d ≡ true → P none) × All (λ k. P (some k)) ks)
  prefix_iff true ks =
      (λ a. (λ e. a.0, (All-some_iff ks).0 a.1), λ h. (h.0 refl, (All-some_iff ks).1 h.1))
  prefix_iff false ks = (λ a. (λ e. cc, (All-some_iff ks).0 a), λ h. (All-some_iff ks).1 h.1)

  -- Warming covers the roles of all the configurations.
  roles_to_warm_iff :
      (visit : List String → List String)
      → VisitsAll visit
      → (cs : List AwsSigV4Config) → All P (roles_to_warm visit cs) ↔ Covered cs
  unfolding roles_to_warm
  roles_to_warm_iff visit v cs =
      let names = visit (hash_set (role_arns cs)) in
      let (to, from) = prefix_iff (has_default cs) names in
      let to_named = All-same (λ k. P (some k)) (role_arns cs) names (member-back visit v cs) in
      let from_named = All-same (λ k. P (some k)) names (role_arns cs) (member-there visit v cs) in
      (λ a. ((to a).0, to_named (to a).1), λ h. from (h.0, from_named h.1))

module _ {M : Type 0} (aws : Aws M) where
  abbrev Ready : Option String → Type 0
  Ready role = Provides (aws.provide_credentials role)

  warm_all_iff :
      (roles : List (Option String))
      → (warm_all aws roles ≡ none) ↔ All (λ r. Provides (aws.provide_credentials r)) roles
  unfolding warm_all warm
  warm_all_iff [] = (λ e. tt, λ a. refl)
  warm_all_iff (r ∷ rs) = ground (arith, warm_all_iff rs)

  finish_iff : (o : Option AwsAuthError) → (finish aws o ≡ initialized (some aws.load)) ↔ (o ≡ none)
  finish_iff none = (λ e. refl, λ e. refl)
  finish_iff (some e) = (λ h. cc, λ h. cc)

  start_iff :
      (visit : List String → List String)
      → VisitsAll visit
      → (cs : List AwsSigV4Config)
      → ((if not (is_empty cs)
            then finish aws (warm_all aws (roles_to_warm visit cs))
            else initialized none)
          ≡ initialized (if not (is_empty cs) then some aws.load else none))
        ↔ All (λ c. Provides (aws.provide_credentials c.role_arn)) cs
  start_iff visit v [] = (λ e. tt, λ a. refl)
  start_iff visit v (c ∷ cs) =
      let roles = roles_to_warm visit (c ∷ cs) in
      let (to, from) = finish_iff (warm_all aws roles) in
      let (warm_to, warm_from) = warm_all_iff roles in
      let (roles_to, roles_from) = roles_to_warm_iff Ready visit v (c ∷ cs) in
      let (all_to, all_from) = Covered-All_iff Ready (c ∷ cs) in
      (λ e. all_to (roles_to (warm_to (to e))), λ a. from (warm_from (roles_from (all_from a))))

  -- The start succeeds exactly if the provider of every role that a target names, or of no role,
  -- answers with credentials, be there a region for the targets or not; the SDK's configuration is
  -- then loaded if some target needs it.
  pub init_iff :
      {F : Type 0} (visit : List String → List String)
      → VisitsAll visit
      → (app : AppConfig F)
      → (init aws visit app ≡ initialized (if is_signing_required app then some aws.load else none))
        ↔ All (λ c. Provides (aws.provide_credentials c.role_arn)) (all_aws_sigv4_configs app)
  unfolding init is_signing_required
  init_iff visit v app = start_iff visit v (all_aws_sigv4_configs app)

  finish-configured :
      (o : Option AwsAuthError) {sdk : Option SdkConfig}
      → finish aws o ≡ initialized sdk
      → sdk ≡ some aws.load
  finish-configured none e = cc
  finish-configured (some f) e = cc

  -- A successful start loads the SDK's configuration exactly if some target is signed.
  pub init-configured :
      {F : Type 0} (visit : List String → List String) (app : AppConfig F) {sdk : Option SdkConfig}
      → init aws visit app ≡ initialized sdk
      → sdk ≡ (if is_signing_required app then some aws.load else none)
  unfolding init
  init-configured visit app e = elim (Bool-cases (is_signing_required app)) [
    | inl needed ↦
        ground (
          arith,
          finish-configured (warm_all aws (roles_to_warm visit (all_aws_sigv4_configs app))),
        )
    | inr free ↦ ground arith
  ]
