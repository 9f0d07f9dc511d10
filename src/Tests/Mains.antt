-- ===== src/Tests/Mains.antt =====
-- main.rs: a whole start from the command line.
use http_dragonfly.Prelude.{◌≡◌, refl, true, false, none, some}
use http_dragonfly.Prelude.Decimal.{parse_unsigned}
use http_dragonfly.Platform.Sample.{sample}
use http_dragonfly.Cli.{
  accepted, rejected, timeout_out_of_range, CliConfig, Logger, info_level, compact, parse_env_mask,
  parse_health_check_port, setup_logger,
}
use http_dragonfly.Cli.Args.{Args, parse_args, parse_timeout, InOrder}
use http_dragonfly.Server.Run.{stopped, panicked, start}
use http_dragonfly.Server.Main.{main, Panics, main_lem}
use http_dragonfly.Tests.Runs.{sys}

abbrev args : Args
args = record {
  debug = false;
  verbose = true;
  json_log = false;
  config = "config.yaml";
  env_mask = some " * ";
  health_check_port = some "3000";
  health_check_timeout = none;
}

abbrev cli : CliConfig
cli = record {
  debug = false;
  verbose = true;
  json_log = false;
  config = "config.yaml";
  env_mask = ".+";
  health_check_port = some 3000;
  health_check_timeout = 5;
}

accepts : parse_args sample args ≡ accepted cli
unfolding parse_args parse_env_mask parse_health_check_port
accepts = refl

-- A minute is too long.
refuses : parse_timeout "60" ≡ rejected timeout_out_of_range
unfolding parse_timeout parse_unsigned
refuses = refl

abbrev logger : Logger
logger = record { level = info_level; with_target = false; format = compact }

runs : main sample args sys ≡ accepted (logger, start sample cli sys)
unfolding main setup_logger parse_env_mask parse_health_check_port
runs = refl

main_lem_example :
    (config : CliConfig) × InOrder sample args config
    × (logger.with_target ≡ args.debug)
    × (start sample cli sys ≡ start sample config sys)
    × (start sample cli sys ≡ stopped panicked → Panics sample config sys)
main_lem_example = main_lem sample args sys (λ e. cc) runs
