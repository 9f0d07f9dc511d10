-- ===== src/Server/Run/Serves.antt =====
-- lib.rs: the requests to the listeners of a program that has started.
use http_dragonfly.Prelude.{ℕ, List}
use http_dragonfly.Platform.{Platform}
use http_dragonfly.Clients.{Connectors, Clients}
use http_dragonfly.Config.Types.{TargetConfig}
use http_dragonfly.Context.{Request}
use http_dragonfly.Handler.Dispatch.{Exchange, Network}
use http_dragonfly.Handler.Handle
use http_dragonfly.Server.Run.{System, Started}

-- What a request meets after `start`: the AWS services of the start, with the configuration that
-- it has left.
abbrev pub network_of :
    {M F : Type 0}
    → System M F
    → Started F
    → Connectors ℕ (List ℕ)
    → Clients ℕ
    → (TargetConfig F → Clients ℕ → Clients ℕ)
    → (TargetConfig F → Request M → Exchange M)
    → Network M F
network_of sys s connectors clients meanwhile exchange = record {
  aws = sys.aws;
  sdk_config = s.sdk_config;
  connectors = connectors;
  clients = clients;
  meanwhile = meanwhile;
  exchange = exchange;
}
