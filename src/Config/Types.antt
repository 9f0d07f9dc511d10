-- ===== src/Config/Types.antt =====
-- The configuration's data: config.rs and config/{aws_sigv4,headers,listener,response,target}.rs.
-- `F` is the compiled jq filter of a condition. A `Duration` is its number of nanoseconds.
use http_dragonfly.Prelude.{ℕ, String, Bool, Option, List}

pub data HeaderTransformActon : Type 0 where
  add update drop : String → HeaderTransformActon

pub record HeaderTransform : Type 0 where
  pub action : HeaderTransformActon
  pub value : Option String

pub record OverrideConfig : Type 0 where
  pub status : Option ℕ
  pub body : Option String
  pub headers : Option (List HeaderTransform)

pub record ResponseConfig : Type 0 where
  pub target_selector : Option String
  pub failed_status_regex : String
  pub no_targets_status : ℕ
  pub override_config : Option OverrideConfig

pub data TlsVerifyConfig : Type 0 where
  verify_no verify_yes : TlsVerifyConfig

pub record TlsConfig : Type 0 where
  pub verify : TlsVerifyConfig
  pub ca : Option String

pub record AwsSigV4Config : Type 0 where
  pub service : String
  pub region : Option String
  pub role_arn : Option String

pub data TargetOnErrorAction : Type 0 where
  propagate status drop : TargetOnErrorAction

pub data TargetConditionConfig (F : Type 0) : Type 0 where
  default : TargetConditionConfig F
  filter : F → TargetConditionConfig F

pub record TargetConfig (F : Type 0) : Type 0 where
  pub given_id : Option String
  pub url : String
  pub headers : Option (List HeaderTransform)
  pub body : Option String
  pub timeout : ℕ
  pub on_error : TargetOnErrorAction
  pub error_status : Option ℕ
  pub condition : Option (TargetConditionConfig F)
  pub tls : Option TlsConfig
  pub aws_sigv4 : Option AwsSigV4Config

pub data ResponseStrategy : Type 0 where
  always_override always_target_id ok_then_failed ok_then_target_id : ResponseStrategy
  ok_then_override failed_then_ok failed_then_target_id failed_then_override : ResponseStrategy
  conditional_routing : ResponseStrategy

pub data HttpMethod : Type 0 where
  get post put patch delete options head : HttpMethod

-- An IPv4 address is its four octets.
pub record Ipv4Addr : Type 0 where
  pub a : ℕ
  pub b : ℕ
  pub c : ℕ
  pub d : ℕ

pub record ListenOn : Type 0 where
  pub ip : Ipv4Addr
  pub port : ℕ

-- `SocketAddr` with an IPv4 address.
pub record SocketAddr : Type 0 where
  pub addr : Ipv4Addr
  pub addr_port : ℕ

pub record ListenerConfig (F : Type 0) : Type 0 where
  pub given_id : Option String
  pub listen_on : ListenOn
  pub timeout : ℕ
  pub strategy : ResponseStrategy
  pub headers : Option (List HeaderTransform)
  pub methods : Option (List HttpMethod)
  pub targets : List (TargetConfig F)
  pub log_target_status : Bool
  pub response : ResponseConfig
  pub tls : TlsConfig

pub record AppConfig (F : Type 0) : Type 0 where
  pub listeners : List (ListenerConfig F)
