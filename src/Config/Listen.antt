-- ===== src/Config/Listen.antt =====
-- config/listener.rs: `ListenOn::from_str`. An address is read as `Ipv4Addr::from_str` of the
-- standard library reads it.
pub mod Laws
pub mod Bounds
use Prim.Native.String
use Prim.Native.Char.{code}
use http_dragonfly.Prelude.{
  ℕ, String, Bool, true, false, ◌||◌, Option, none, some, List, [], ◌∷◌, ◌==◌, eqb, if◌then◌else◌,
}
use http_dragonfly.Prelude.Text.{trim, is_empty_str}
use http_dragonfly.Prelude.Split.{split}
use http_dragonfly.Prelude.Decimal.{read_digits, parse_unsigned}
use http_dragonfly.Config.Types.{Ipv4Addr, ListenOn}

pub data ListenError : Type 0 where
  invalid_port : String → ListenError
  port_zero invalid_ip_address invalid_token : ListenError

pub data Parsed {ℓ} (A : Type ℓ) : Type ℓ where
  parsed : A → Parsed A
  refused : ListenError → Parsed A

module _ {ℓ κ} {A : Type ℓ} {B : Type κ} where
  infixl 5 ◌>>=◌
  abbrev pub ◌>>=◌ : Parsed A → (A → Parsed B) → Parsed B
  refused cause >>= next = refused cause
  parsed value >>= next = next value

-- What `map_err` and `?` do with a failed parse.
abbrev pub or_refuse {ℓ} : {A : Type ℓ} → ListenError → Option A → Parsed A
or_refuse cause none = refused cause
or_refuse cause (some value) = parsed value

-- An octet has no leading zero.
unfoldable pub octet : String → Option ℕ
octet String.[] = none
octet (String.◌∷◌ c String.[]) = read_digits 255 0 (String.◌∷◌ c String.[])
octet (String.◌∷◌ c (String.◌∷◌ d s)) =
    if eqb (code c) b'0' then none else read_digits 255 0 (String.◌∷◌ c (String.◌∷◌ d s))

abbrev pub four : Option ℕ → Option ℕ → Option ℕ → Option ℕ → Option Ipv4Addr
four (some a) (some b) (some c) (some d) = some (record { a = a; b = b; c = c; d = d })
four _ _ _ _ = none

abbrev pub ip_of : List String → Option Ipv4Addr
ip_of (a ∷ b ∷ c ∷ d ∷ []) = four (octet a) (octet b) (octet c) (octet d)
ip_of _ = none

-- `ListenOn::parse_ip_address`
unfoldable pub parse_ip_address : String → Parsed Ipv4Addr
unfolding split octet
parse_ip_address ip = or_refuse invalid_ip_address (ip_of (split b'.' ip))

abbrev pub any_ip : Ipv4Addr
any_ip = record { a = 0; b = 0; c = 0; d = 0 }

-- `ListenOn::new`
abbrev pub new : Ipv4Addr → ℕ → Parsed ListenOn
new ip port = if eqb port 0 then refused port_zero else parsed (record { ip = ip; port = port })

abbrev pub ip_or_any : String → Parsed Ipv4Addr
ip_or_any ip = if is_empty_str ip || ip == "*" then parsed any_ip else parse_ip_address ip

abbrev pub from_pieces : List String → Parsed ListenOn
from_pieces (port ∷ []) = do
  n ← or_refuse (invalid_port port) (parse_unsigned 65535 port)
  new any_ip n
from_pieces (ip ∷ port ∷ []) = do
  n ← or_refuse (invalid_port port) (parse_unsigned 65535 port)
  addr ← ip_or_any ip
  new addr n
from_pieces _ = refused invalid_token

unfoldable pub from_str : String → Parsed ListenOn
unfolding split trim parse_unsigned parse_ip_address
from_str v = from_pieces (split b':' (trim v))
