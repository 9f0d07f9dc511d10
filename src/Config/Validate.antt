-- ===== src/Config/Validate.antt =====
-- `ConfigValidator::validate` of config.rs, config/aws_sigv4.rs, config/listener.rs,
-- config/response.rs and config/target.rs.
pub mod Valid
use http_dragonfly.Prelude.{
  ℕ, String, Bool, true, false, ◌&&◌, ◌||◌, not, Option, none, some, List, [], ◌∷◌, map, length,
  is_empty, is_some, any, select, member, hash_set, ltb, eqb, if◌then◌else◌,
}
use http_dragonfly.Prelude.Text.{trim, is_empty_str, contains, starts_with}
use http_dragonfly.Platform.{Platform}
use http_dragonfly.Config.Types.{
  AwsSigV4Config, ResponseConfig, TargetOnErrorAction, propagate, status, drop, TargetConfig,
  TargetConditionConfig, default, filter, ResponseStrategy, always_override, always_target_id,
  ok_then_failed, ok_then_target_id, ok_then_override, failed_then_ok, failed_then_target_id,
  failed_then_override, conditional_routing, ListenerConfig, AppConfig,
}
use http_dragonfly.Config.Target

-- The causes that `ConfigError::ValidateConfig` is made with, with what their texts name.
pub data ConfigError : Type 0 where
  empty_service : ConfigError
  invalid_role_arn : String → ConfigError
  invalid_url : String → ConfigError
  error_status_without_action : String → ConfigError
  action_without_error_status : String → ConfigError
  no_targets duplicate_target_ids : ConfigError
  missing_condition two_defaults : ConfigError
  unknown_target_selector : String → ConfigError
  missing_target_selector : ConfigError
  no_listeners : ConfigError

-- `Result<(), ConfigError>`
pub data Validation : Type 0 where
  pass : Validation
  fail : ConfigError → Validation

infixr 5 ◌and_then◌
-- `first?; second`
abbrev pub ◌and_then◌ : Validation → Validation → Validation
pass and_then v = v
fail e and_then v = fail e

abbrev pub check : Bool → ConfigError → Validation
check true e = pass
check false e = fail e

abbrev is_arn : String → Bool
is_arn arn = starts_with "arn:" arn && contains ":role/" arn

abbrev role_arn_check : Option String → Validation
role_arn_check none = pass
role_arn_check (some arn) = check (is_arn arn) (invalid_role_arn arn)

unfoldable pub validate_aws : AwsSigV4Config → Validation
validate_aws c =
    check (not (is_empty_str (trim c.service))) empty_service and_then role_arn_check c.role_arn

-- `ResponseConfig::validate` accepts every value.
unfoldable pub validate_response : ResponseConfig → Validation
validate_response rc = pass

module _ {F : Type 0} where
  abbrev condition_missing : TargetConfig F → Bool
  condition_missing t = not (is_some t.condition)

  abbrev pub is_default : Option (TargetConditionConfig F) → Bool
  is_default (some default) = true
  is_default _ = false

  abbrev has_default : TargetConfig F → Bool
  has_default t = is_default t.condition

  abbrev pub target_ids : List (TargetConfig F) → List String
  target_ids targets = map Target.id targets

  -- The selector of a strategy that needs one.
  abbrev selector_check : Option String → List (TargetConfig F) → Validation
  selector_check none targets = fail missing_target_selector
  selector_check (some id) targets =
      check (member id (target_ids targets)) (unknown_target_selector id)

  -- `validate_strategy`
  unfoldable pub validate_strategy :
      ResponseStrategy → ResponseConfig → List (TargetConfig F) → Validation
  validate_strategy conditional_routing rc targets =
      check (not (any condition_missing targets)) missing_condition
      and_then check (ltb (length (select has_default targets)) 2) two_defaults
  validate_strategy always_target_id rc targets = selector_check rc.target_selector targets
  validate_strategy failed_then_target_id rc targets = selector_check rc.target_selector targets
  validate_strategy ok_then_target_id rc targets = selector_check rc.target_selector targets
  validate_strategy _ rc targets = pass

module _ {M F J : Type 0} (p : Platform M F J) where
  abbrev error_status_check : TargetOnErrorAction → TargetConfig F → Validation
  error_status_check status t =
      check (is_some t.error_status) (action_without_error_status (Target.id t))
  error_status_check _ t =
      check (not (is_some t.error_status)) (error_status_without_action (Target.id t))

  abbrev aws_check : Option AwsSigV4Config → Validation
  aws_check none = pass
  aws_check (some c) = validate_aws c

  unfoldable pub validate_target : TargetConfig F → Validation
  validate_target t =
      check (is_some (Target.uri p t)) (invalid_url t.url)
      and_then error_status_check t.on_error t
      and_then aws_check t.aws_sigv4

  unfoldable pub validate_each : List (TargetConfig F) → Validation
  validate_each [] = pass
  validate_each (t ∷ ts) = validate_target t and_then validate_each ts

  unfoldable pub validate_targets : List (TargetConfig F) → Validation
  unfolding validate_each
  validate_targets targets =
      check (not (is_empty targets)) no_targets
      and_then validate_each targets
      and_then check (eqb (length (hash_set (target_ids targets))) (length targets))
          duplicate_target_ids

  unfoldable pub validate_listener : ListenerConfig F → Validation
  unfolding validate_response
  validate_listener cfg =
      validate_targets cfg.targets
      and_then validate_response cfg.response
      and_then validate_strategy cfg.strategy cfg.response cfg.targets

  unfoldable pub validate_listeners : List (ListenerConfig F) → Validation
  validate_listeners [] = pass
  validate_listeners (l ∷ ls) = validate_listener l and_then validate_listeners ls

  unfoldable pub validate : AppConfig F → Validation
  unfolding validate_listeners
  validate app =
      check (not (is_empty app.listeners)) no_listeners and_then validate_listeners app.listeners
