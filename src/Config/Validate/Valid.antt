-- ===== src/Config/Validate/Valid.antt =====
-- The configurations that pass validation, described without the checks' order.
use http_dragonfly.Prelude.{
  ℕ, ◌≤◌, String, true, false, ◌≡◌, ◌≢◌, refl, ◌↔◌, Option, none, some, List, [], ◌∷◌, length,
  is_some, select, any, member, hash_set, length-hash_set_iff, length-map, Distinct, All, OnSome,
  arith, eqb,
}
use http_dragonfly.Prelude.Text.{trim, contains, starts_with, is_empty_str_iff}
use http_dragonfly.Platform.{Uri, Platform}
use http_dragonfly.Config.Types.{
  AwsSigV4Config, ResponseConfig, TargetOnErrorAction, propagate, status, drop, TargetConfig,
  ResponseStrategy, always_target_id, ok_then_target_id, failed_then_target_id, conditional_routing,
  ListenerConfig, AppConfig,
}
use http_dragonfly.Config.Target
use http_dragonfly.Config.Validate.{
  Validation, pass, fail, ◌and_then◌, condition_missing, has_default, target_ids, selector_check,
  error_status_check, aws_check, validate_aws, validate_response, validate_strategy,
  validate_target, validate_each, validate_targets, validate_listener, validate_listeners, validate,
}

abbrev IsArn : String → Type 0
IsArn arn = (starts_with "arn:" arn ≡ true) × (contains ":role/" arn ≡ true)

abbrev pub ValidAws : AwsSigV4Config → Type 0
ValidAws c = (trim c.service ≢ "") × OnSome IsArn c.role_arn

-- An error status is there exactly where errors are turned into it.
abbrev pub StatusFits : TargetOnErrorAction → Option ℕ → Type 0
StatusFits status s = s ≢ none
StatusFits propagate s = s ≡ none
StatusFits drop s = s ≡ none

module _ {F : Type 0} where
  abbrev NamesTarget : Option String → List (TargetConfig F) → Type 0
  NamesTarget selector targets =
      (id : String) × (selector ≡ some id) × (member id (target_ids targets) ≡ true)

  -- A strategy that needs a selector has one that names a target; conditional routing has a
  -- condition on every target, and one default at most.
  abbrev pub ValidStrategy : ResponseStrategy → ResponseConfig → List (TargetConfig F) → Type 0
  ValidStrategy conditional_routing rc targets =
      All (λ t. is_some t.condition ≡ true) targets × (length (select has_default targets) ≤ 1)
  ValidStrategy always_target_id rc targets = NamesTarget rc.target_selector targets
  ValidStrategy failed_then_target_id rc targets = NamesTarget rc.target_selector targets
  ValidStrategy ok_then_target_id rc targets = NamesTarget rc.target_selector targets
  ValidStrategy _ rc targets = Unit

module _ {M F J : Type 0} (p : Platform M F J) where
  abbrev pub ValidTarget : TargetConfig F → Type 0
  ValidTarget t =
      ((u : Uri) × (Target.uri p t ≡ some u))
      × StatusFits t.on_error t.error_status
      × OnSome ValidAws t.aws_sigv4

  abbrev pub ValidTargets : List (TargetConfig F) → Type 0
  ValidTargets ts = (ts ≢ []) × All ValidTarget ts × Distinct (target_ids ts)

  abbrev pub ValidListener : ListenerConfig F → Type 0
  ValidListener cfg = ValidTargets cfg.targets × ValidStrategy cfg.strategy cfg.response cfg.targets

  abbrev pub ValidApp : AppConfig F → Type 0
  ValidApp app = (app.listeners ≢ []) × All ValidListener app.listeners

and_then_iff :
    {P Q : Type 0} (a b : Validation)
    → (a ≡ pass) ↔ P
    → (b ≡ pass) ↔ Q
    → (a and_then b ≡ pass) ↔ (P × Q)
and_then_iff pass b f g = (λ e. (f.0 refl, g.0 e), λ h. g.1 h.1)
and_then_iff (fail x) b f g = (λ e. cc, λ h. f.1 h.0)

validate_aws_iff : (c : AwsSigV4Config) → (validate_aws c ≡ pass) ↔ ValidAws c
unfolding validate_aws
validate_aws_iff c = ground (arith, is_empty_str_iff (trim c.service))

any-condition_missing :
    {F : Type 0} (ts : List (TargetConfig F))
    → (any condition_missing ts ≡ false) ↔ All (λ t. is_some t.condition ≡ true) ts
any-condition_missing [] = (λ e. tt, λ a. refl)
any-condition_missing (t ∷ ts) = ground (arith, any-condition_missing ts)

selector_check_iff :
    {F : Type 0} (selector : Option String) (ts : List (TargetConfig F))
    → (selector_check selector ts ≡ pass) ↔ NamesTarget selector ts
selector_check_iff none ts = (λ e. cc, λ h. cc h.1)
selector_check_iff (some id) ts = (λ e. (id, refl, ground arith), λ h. ground (arith, h.2))

validate_strategy_iff :
    {F : Type 0} (s : ResponseStrategy) (rc : ResponseConfig) (ts : List (TargetConfig F))
    → (validate_strategy s rc ts ≡ pass) ↔ ValidStrategy s rc ts
unfolding validate_strategy
validate_strategy_iff conditional_routing rc ts = ground (arith, any-condition_missing ts)
validate_strategy_iff always_target_id rc ts = selector_check_iff rc.target_selector ts
validate_strategy_iff failed_then_target_id rc ts = selector_check_iff rc.target_selector ts
validate_strategy_iff ok_then_target_id rc ts = selector_check_iff rc.target_selector ts
validate_strategy_iff _ rc ts = (λ e. tt, λ h. refl)

module _ {M F J : Type 0} (p : Platform M F J) where
  error_status_check_iff :
      (a : TargetOnErrorAction) (t : TargetConfig F)
      → (error_status_check p a t ≡ pass) ↔ StatusFits a t.error_status
  error_status_check_iff status t = ground arith
  error_status_check_iff propagate t = ground arith
  error_status_check_iff drop t = ground arith

  aws_check_iff : (c : Option AwsSigV4Config) → (aws_check p c ≡ pass) ↔ OnSome ValidAws c
  aws_check_iff none = (λ e. tt, λ h. refl)
  aws_check_iff (some c) = validate_aws_iff c

  uri_check_iff :
      (t : TargetConfig F)
      → (is_some (Target.uri p t) ≡ true) ↔ ((u : Uri) × (Target.uri p t ≡ some u))
  uri_check_iff t = ground arith

  validate_target_iff : (t : TargetConfig F) → (validate_target p t ≡ pass) ↔ ValidTarget p t
  unfolding validate_target
  validate_target_iff t =
      ground
        (arith, uri_check_iff t, error_status_check_iff t.on_error t, aws_check_iff t.aws_sigv4)

  validate_each_iff :
      (ts : List (TargetConfig F)) → (validate_each p ts ≡ pass) ↔ All (ValidTarget p) ts
  unfolding validate_each
  validate_each_iff [] = (λ e. tt, λ a. refl)
  validate_each_iff (t ∷ ts) =
      and_then_iff (validate_target p t) (validate_each p ts) (validate_target_iff t)
        (validate_each_iff ts)

  unique_ids_iff :
      (ts : List (TargetConfig F))
      → (eqb (length (hash_set (target_ids ts))) (length ts) ≡ true) ↔ Distinct (target_ids ts)
  unique_ids_iff ts = ground (arith, length-hash_set_iff (target_ids ts), length-map Target.id ts)

  validate_targets_iff :
      (ts : List (TargetConfig F)) → (validate_targets p ts ≡ pass) ↔ ValidTargets p ts
  unfolding validate_targets
  validate_targets_iff [] = ground arith
  validate_targets_iff (t ∷ ts) =
      ground (arith, validate_each_iff (t ∷ ts), unique_ids_iff (t ∷ ts))

  -- A listener passes validation exactly if its targets are valid, with distinct ids, and fit its
  -- strategy.
  pub validate_listener_iff :
      (cfg : ListenerConfig F) → (validate_listener p cfg ≡ pass) ↔ ValidListener p cfg
  unfolding validate_listener validate_response
  validate_listener_iff cfg =
      and_then_iff (validate_targets p cfg.targets)
        (validate_strategy cfg.strategy cfg.response cfg.targets) (validate_targets_iff cfg.targets)
        (validate_strategy_iff cfg.strategy cfg.response cfg.targets)

  validate_listeners_iff :
      (ls : List (ListenerConfig F)) → (validate_listeners p ls ≡ pass) ↔ All (ValidListener p) ls
  unfolding validate_listeners
  validate_listeners_iff [] = (λ e. tt, λ a. refl)
  validate_listeners_iff (l ∷ ls) =
      and_then_iff (validate_listener p l) (validate_listeners p ls) (validate_listener_iff l)
        (validate_listeners_iff ls)

  -- A configuration passes validation exactly if it has a listener and all its listeners are valid.
  pub validate_iff : (app : AppConfig F) → (validate p app ≡ pass) ↔ ValidApp p app
  unfolding validate
  validate_iff app = ground (arith, validate_listeners_iff app.listeners)
