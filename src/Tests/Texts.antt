-- ===== src/Tests/Texts.antt =====
-- config/listener.rs and cli.rs: texts that are read.
use http_dragonfly.Prelude.{◌≡◌, refl, arith}
use http_dragonfly.Config.Types.{ListenOn}
use http_dragonfly.Config.Listener.{on}
use http_dragonfly.Config.Listen.{parsed, refused, invalid_token, port_zero, from_str, any_ip}
use http_dragonfly.Config.Listen.Laws.{from_str-on}

abbrev local : ListenOn
local = record { ip = record { a = 127; b = 0; c = 0; d = 1 }; port = 8080 }

shown : on local ≡ "127.0.0.1:8080"
unfolding on
shown = refl

reads :
    (from_str " *:80 " ≡ parsed (record { ip = any_ip; port = 80 }))
    × (from_str "0" ≡ refused port_zero)
    × (from_str "1:2:3" ≡ refused invalid_token)
unfolding from_str
reads = (refl, refl, refl)

from_str-on_example : from_str (on local) ≡ parsed local
from_str-on_example = from_str-on local (omega arith) (omega arith) (omega arith)

local_read : from_str "127.0.0.1:8080" ≡ parsed local
unfolding from_str
local_read = refl
