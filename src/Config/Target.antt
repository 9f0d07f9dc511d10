-- ===== src/Config/Target.antt =====
-- config/target.rs: the accessors of a target.
use http_dragonfly.Prelude.{ℕ, ◌*◌, String, Option, none, some, unwrap_or}
use http_dragonfly.Prelude.Text.{concat}
use http_dragonfly.Config.Types.{TargetConfig}
use http_dragonfly.Platform.{Uri, Platform}

abbrev pub default_target_timeout : ℕ
default_target_timeout = 60 * 1000000000

module _ {F : Type 0} where
  unfoldable pub id : TargetConfig F → String
  id t = unwrap_or t.given_id (concat "TARGET-" t.url)

module _ {M F J : Type 0} (p : Platform M F J) where
  unfoldable pub uri : TargetConfig F → Option Uri
  uri t = p.parse_uri t.url

  abbrev host_of : Option Uri → String
  host_of none = ""
  host_of (some u) = p.lowercase (unwrap_or u.host "")

  unfoldable pub host : TargetConfig F → String
  unfolding uri
  host t = host_of (uri t)
