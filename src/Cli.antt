-- ===== src/Cli.antt =====
-- cli.rs: the values that the command line is checked for.
pub mod Laws
pub mod Args
use http_dragonfly.Prelude.{
  ℕ, String, Bool, true, false, ◌||◌, not, Option, none, some, is_some, ◌==◌, ltb, if◌then◌else◌,
}
use http_dragonfly.Prelude.Text.{concat, trim, is_empty_str}
use http_dragonfly.Prelude.Decimal.{parse_unsigned}
use http_dragonfly.Platform.{Platform}

pub data CliError : Type 0 where
  invalid_mask port_out_of_range timeout_out_of_range : CliError
  unable_to_parse : String → CliError

pub data Checked (A : Type 0) : Type 0 where
  accepted : A → Checked A
  rejected : CliError → Checked A

abbrev pub in_range : ℕ → Checked ℕ
in_range port = if ltb 0 port then accepted port else rejected port_out_of_range

abbrev pub checked_port : String → Option ℕ → Checked ℕ
checked_port text none = rejected (unable_to_parse text)
checked_port text (some port) = in_range port

-- `parse::<u16>` and the test of the range.
unfoldable pub parse_health_check_port : String → Checked ℕ
unfolding parse_unsigned
parse_health_check_port port = checked_port port (parse_unsigned 65535 port)

module _ {M F J : Type 0} (p : Platform M F J) where
  abbrev pub checked_mask : String → Checked String
  checked_mask mask =
      if is_empty_str mask || mask == "*"
      then accepted ".+"
      else if not (is_some (p.regex mask))
      then rejected invalid_mask
      else accepted mask

  unfoldable pub parse_env_mask : String → Checked String
  unfolding trim
  parse_env_mask mask = checked_mask (trim mask)

-- `CliConfig`; a port and a number of seconds.
pub record CliConfig : Type 0 where
  pub debug : Bool
  pub verbose : Bool
  pub json_log : Bool
  pub config : String
  pub env_mask : String
  pub health_check_port : Option ℕ
  pub health_check_timeout : ℕ

-- `CliConfig::default`
abbrev pub default_cli : CliConfig
default_cli = record {
  debug = false;
  verbose = false;
  json_log = false;
  config = "";
  env_mask = "^HTTP_ENV_[a-zA-Z0-9_]+$";
  health_check_port = none;
  health_check_timeout = 5;
}

abbrev pub from_config_path : String → CliConfig
from_config_path config = record default_cli { config = config }

pub data LevelFilter : Type 0 where
  debug_level info_level warn_level : LevelFilter

abbrev pub level_filter : CliConfig → LevelFilter
level_filter cli = if cli.debug then debug_level else if cli.verbose then info_level else warn_level

pub data LogFormat : Type 0 where
  json compact : LogFormat

-- What the global logger is set up with.
pub record Logger : Type 0 where
  pub level : LevelFilter
  pub with_target : Bool
  pub format : LogFormat

unfoldable pub setup_logger : CliConfig → Logger
setup_logger cli = record {
  level = level_filter cli;
  with_target = cli.debug;
  format = if cli.json_log then json else compact;
}
