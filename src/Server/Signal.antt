-- ===== src/Server/Signal.antt =====
-- signal.rs: `SignalHandler`. Installing a handler and the arrival of a signal are the operating
-- system's.
use http_dragonfly.Prelude.{Bool, ◌&&◌}

pub data SignalKind : Type 0 where
  terminate interrupt quit hangup : SignalKind

-- Whether `SignalHandler::new` returns, from whether a handler of each kind can be installed: a
-- failure is a panic.
unfoldable pub can_install : (SignalKind → Bool) → Bool
can_install installs = installs terminate && installs interrupt && installs quit && installs hangup
