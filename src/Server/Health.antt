-- ===== src/Server/Health.antt =====
-- health_check.rs: the answer of the health check, to every request, and its loop.
use http_dragonfly.Prelude.Text.{into_bytes}
use http_dragonfly.Platform.{Platform}
use http_dragonfly.Context.{Response}
use http_dragonfly.Server.{Service, Step}

abbrev pub handle : {M F J : Type 0} → Platform M F J → Response M
handle p = record { status = 200; headers = p.headers.empty; body = into_bytes "OK\n" }

-- The loop of `health_check::new` has the arms of a listener's loop: a signal, after which it
-- joins its tasks and ends; a connection, for which it spawns a task; an error of `accept`.
abbrev pub HealthStep : Service → Service → Type 0
HealthStep = Step
