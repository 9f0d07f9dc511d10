-- ===== src/Platform.antt =====
-- The crates and system services that the program calls: http (headers, URIs, statuses), regex,
-- shellexpand, jaq, serde_json, tracing, and the Unicode tables and the hash order of the standard
-- library. They are parameters: `M` is `HeaderMap`, `F` a compiled jq filter, `J` a JSON value.
pub mod Laws
pub mod Sample
use http_dragonfly.Prelude.{ℕ, String, Bool, Option, List}

-- The bytes of a `HeaderValue`.
abbrev pub HeaderValue : Type 0
HeaderValue = List ℕ

-- `HeaderMap`. A header name that the map holds is a `HeaderName`, lower case; a key that is given
-- as text is turned into one first.
pub record HeaderMapOps (M : Type 0) : Type 0 where
  pub empty : M
  pub contains_key : M → String → Bool
  pub get_all : M → String → List HeaderValue
  pub insert : String → HeaderValue → M → M
  pub append : String → HeaderValue → M → M
  pub remove : String → M → M
  pub iter : M → List (String × HeaderValue)

-- What the accessors of a parsed `Uri` return.
pub record Uri : Type 0 where
  pub full : String
  pub host : Option String
  pub path : String
  pub query : Option String

-- The object that `check_condition` hands to a filter.
pub record FilterInput (J : Type 0) : Type 0 where
  pub body : J
  pub env : List (String × String)
  pub headers : List (String × String)
  pub uri : Uri

pub record Platform (M F J : Type 0) : Type 0 where
  pub headers : HeaderMapOps M
  -- `HeaderName::from_bytes`, `HeaderValue::from_str`, `HeaderValue::to_str`
  pub header_name : String → Option String
  pub header_value : String → Option HeaderValue
  pub to_str : HeaderValue → Option String
  -- `str::to_lowercase`, `str::to_uppercase`
  pub lowercase : String → String
  pub uppercase : String → String
  -- `shellexpand::env_with_context_no_errors`
  pub expand : (String → Option String) → String → String
  -- `str::parse::<Uri>`
  pub parse_uri : String → Option Uri
  -- `Regex::new`, and `is_match` of the result
  pub regex : String → Option (String → Bool)
  -- `StatusCode::from_u16` succeeds; `StatusCode::to_string`
  pub is_status : ℕ → Bool
  pub status_text : ℕ → String
  -- jaq: loading and compiling a filter; its outputs as texts, `none` for an error
  pub compile : String → Option F
  pub run_filter : F → FilterInput J → List (Option String)
  -- serde_json: `from_slice`, and `{}`
  pub parse_json : List ℕ → Option J
  pub empty_object : J
  -- whether the `debug!` lines are written, and so their arguments evaluated
  pub debug_enabled : Bool
  -- the order in which a `HashMap` or a `HashSet` is visited, from its keys
  pub visit : List String → List String
