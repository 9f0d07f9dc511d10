-- ===== src/Tests/Suite/Configs.antt =====
-- config.rs, `mod test`: the files of tests/configs, as the parser gives them.
use http_dragonfly.Prelude.{
  ℕ, String, Bool, true, false, ◌≡◌, refl, Option, none, some, List, [], ◌∷◌, ◌==◌, hash_set,
  if◌then◌else◌,
}
use http_dragonfly.Prelude.Text.{trim, starts_with, contains}
use http_dragonfly.Prelude.Decimal.{parse_unsigned}
use http_dragonfly.Platform.{Platform}
use http_dragonfly.Platform.Sample.{Headers, sample}
use http_dragonfly.Config.Types.{AppConfig}
use http_dragonfly.Config.Load
use http_dragonfly.Config.Load.{Loaded, loaded, load_failed, parse_config_file, validate_config}
use http_dragonfly.Config.Validate.{
  ConfigError, empty_service, invalid_role_arn, error_status_without_action,
  action_without_error_status, no_targets, duplicate_target_ids, missing_condition, two_defaults,
  unknown_target_selector, missing_target_selector, no_listeners, validate, validate_target,
  validate_targets, validate_listener, validate_strategy, validate_aws,
}
use http_dragonfly.Config.Yaml.{
  Value, scalar, sequence, mapping, Items, nil, cons, Entries, end, entry, Scalars, ◌>>=◌,
}
use http_dragonfly.Config.Decode.{decode_app}
use http_dragonfly.Config.Decode.Loaded.{files_of}
use http_dragonfly.Config.Target
use http_dragonfly.Target.{from_str}
use http_dragonfly.Context.{root_context}

-- A reader of scalars that knows what the examples need.
abbrev boolean_of : String → Option Bool
boolean_of s = if s == "true" then some true else if s == "false" then some false else none

abbrev pub reader : Scalars String
reader = record {
  text = λ s. some s;
  u16 = parse_unsigned 65535;
  boolean = boolean_of;
  is_null = λ s. s == "";
  is_empty = λ s. s == "";
  duration =
      λ s. if s == "30s" then some 30000000000 else if s == "60s" then some 60000000000 else none;
}

-- An expression that does not compile.
abbrev pub jq : Platform Headers String ℕ
jq = record sample { compile = λ s. if s == "/" then none else some s }

infix 70 ◌is◌
abbrev pub ◌is◌ : String → Value String → String × Value String
key is v = (key, v)

abbrev entries : List (String × Value String) → Entries String
entries [] = end
entries ((key, v) ∷ rest) = entry key v (entries rest)

abbrev pub map_of : List (String × Value String) → Value String
map_of fields = mapping (entries fields)

abbrev items : List (Value String) → Items String
items [] = nil
items (v ∷ vs) = cons v (items vs)

abbrev pub list : List (Value String) → Value String
list vs = sequence (items vs)

abbrev pub text : String → Value String
text s = scalar s

-- One listener.
abbrev pub listening : List (String × Value String) → Value String
listening fields = map_of ("listeners" is list (map_of fields ∷ []) ∷ [])

abbrev pub google : String × Value String
google = "url" is text "https://www.google.com/"

abbrev pub load : Value String → Loaded (AppConfig String)
load tree =
    Load.new jq (files_of jq reader (λ name. some (some name)) (λ buf. some tree)) (root_context [])
      none "config.yaml"

abbrev Refuses : Value String → ConfigError → Type 0
Refuses tree cause = load tree ≡ load_failed (validate_config cause)

abbrev pub one : String × Value String → Value String
one field = map_of (field ∷ [])

-- A target with the same URL and more fields.
abbrev pub also : List (String × Value String) → Value String
also fields = map_of (google ∷ fields)

abbrev pub targets : List (Value String) → String × Value String
targets ts = "targets" is list ts

abbrev pub with_strategy : String → List (Value String) → Value String
with_strategy strategy ts = listening ("strategy" is text strategy ∷ targets ts ∷ [])

-- 01, 02, 03
abbrev WrongTargets : Type 0
WrongTargets =
    Refuses (listening ("targets" is text "" ∷ [])) no_targets
    × Refuses (listening (targets (one google ∷ one google ∷ []) ∷ [])) duplicate_target_ids
    × Refuses
        (listening (
          targets (
            map_of ("url" is text "https://www-1.google.com/" ∷ "id" is text "google-1" ∷ [])
            ∷ map_of ("url" is text "https://www-2.google.com/" ∷ "id" is text "google-1" ∷ [])
            ∷ [])
          ∷ []))
        duplicate_target_ids

runs : Unit {0}
unfolding ◌>>=◌ decode_app Load.new validate validate_listener validate_targets validate_target
    validate_strategy validate_aws parse_unsigned Target.uri Target.id hash_set trim starts_with
    contains from_str
runs = tt

wrong_targets : WrongTargets
unfolding runs
wrong_targets = (refl, refl, refl)

-- 05, 06, 07, 95, 96
abbrev WrongFields : Type 0
WrongFields =
    (load (
        listening (
          targets (
            also ("on_error" is text "propagate" ∷ "error_status" is text "500 Internal error" ∷ [])
            ∷ [])
          ∷ []))
      ≡ load_failed parse_config_file)
    × Refuses (listening (targets (also ("on_error" is text "status" ∷ []) ∷ []) ∷ []))
        (action_without_error_status "TARGET-https://www.google.com/")
    × Refuses
        (listening (
          targets (also ("on_error" is text "propagate" ∷ "error_status" is text "500" ∷ []) ∷ [])
          ∷ []))
        (error_status_without_action "TARGET-https://www.google.com/")
    × Refuses
        (listening (targets (also ("aws_sigv4" is one ("service" is text "") ∷ []) ∷ []) ∷ []))
        empty_service
    × Refuses
        (listening (
          targets (
            also (
              "aws_sigv4" is map_of ("service" is text "s3" ∷ "role_arn" is text "not-an-arn" ∷ [])
              ∷ [])
            ∷ [])
          ∷ []))
        (invalid_role_arn "not-an-arn")

wrong_fields : WrongFields
unfolding runs
wrong_fields = (refl, refl, refl, refl, refl)

abbrev pub google_1 : String × Value String
google_1 = "id" is text "google-1"

abbrev google_2 : String × Value String
google_2 = "id" is text "google-2"

abbrev pub by_default : String × Value String
by_default = "condition" is text "default"

-- 04, 08, 20, 21, 40, 70
abbrev WrongListeners : Type 0
WrongListeners =
    (load (listening (targets (one google ∷ []) ∷ "methods" is list (text "ANY" ∷ []) ∷ []))
      ≡ load_failed parse_config_file)
    × Refuses (one ("listeners" is list [])) no_listeners
    × Refuses (with_strategy "always_target_id" (one google ∷ [])) missing_target_selector
    × Refuses
        (listening (
          "strategy" is text "always_target_id"
          ∷ targets (also (google_1 ∷ []) ∷ [])
          ∷ "response" is one ("target_selector" is text "google-2")
          ∷ []))
        (unknown_target_selector "google-2")
    × Refuses (with_strategy "ok_then_target_id" (one google ∷ [])) missing_target_selector
    × Refuses (with_strategy "failed_then_target_id" (one google ∷ [])) missing_target_selector

wrong_listeners : WrongListeners
unfolding runs
wrong_listeners = (refl, refl, refl, refl, refl, refl)

-- 90, 91, 92, 93
abbrev WrongConditions : Type 0
WrongConditions =
    Refuses (with_strategy "conditional_routing" (one google ∷ [])) missing_condition
    × Refuses
        (with_strategy "conditional_routing"
          (also (google_1 ∷ by_default ∷ []) ∷ also (google_2 ∷ by_default ∷ []) ∷ []))
        two_defaults
    × Refuses
        (with_strategy "conditional_routing"
          (also (google_1 ∷ by_default ∷ []) ∷ also (google_2 ∷ []) ∷ []))
        missing_condition
    × (load (
          with_strategy "conditional_routing" (
            also (google_1 ∷ by_default ∷ [])
            ∷ also (google_2 ∷ "condition" is text "/" ∷ [])
            ∷ []))
        ≡ load_failed parse_config_file)

wrong_conditions : WrongConditions
unfolding runs
wrong_conditions = (refl, refl, refl, refl)
