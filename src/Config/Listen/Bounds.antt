-- ===== src/Config/Listen/Bounds.antt =====
-- config/listener.rs: the bounds of a `listen_on` that is read.
use Prim.Native.String.{◌∷◌}
use mathlib.Core.Path.{subst}
use http_dragonfly.Prelude.{
  ℕ, ◌≤◌, String, ◌≡◌, refl, Bool, true, false, ◌||◌, Option, none, some, List, ◌==◌, eqb, arith,
  if◌then◌else◌,
}
use http_dragonfly.Prelude.Text.{trim, is_empty_str}
use http_dragonfly.Prelude.Split.{split}
use http_dragonfly.Prelude.Decimal.{parse_unsigned}
use http_dragonfly.Prelude.Decimal.Laws.{read_digits-le, parse_unsigned-le}
use http_dragonfly.Config.Types.{Ipv4Addr, ListenOn}
use http_dragonfly.Config.Listen.{
  Parsed, parsed, ◌>>=◌, refused, ListenError, invalid_port, port_zero, invalid_ip_address, octet,
  four, ip_of, parse_ip_address, or_refuse, ip_or_any, any_ip, new, from_pieces, from_str,
}
use http_dragonfly.Config.Listen.Laws.{InBytes}

octet-le : (s : String) (n : ℕ) → octet s ≡ some n → n ≤ 255
unfolding octet
octet-le String.[] n e = cc
octet-le (c ∷ String.[]) n e = read_digits-le 255 0 (c ∷ String.[]) n (omega arith) e
octet-le (c ∷ d ∷ s) n e = ground (arith, read_digits-le 255 0 (c ∷ d ∷ s) n)

four-InBytes :
    (a b c d : Option ℕ) (ip : Ipv4Addr)
    → ((n : ℕ) → a ≡ some n → n ≤ 255)
    → ((n : ℕ) → b ≡ some n → n ≤ 255)
    → ((n : ℕ) → c ≡ some n → n ≤ 255)
    → ((n : ℕ) → d ≡ some n → n ≤ 255)
    → four a b c d ≡ some ip
    → InBytes ip
four-InBytes (some a) (some b) (some c) (some d) ip ha hb hc hd e =
    ground (arith, ha a refl, hb b refl, hc c refl, hd d refl)
four-InBytes _ _ _ _ ip ha hb hc hd e = cc

ip_of-InBytes : (pieces : List String) (ip : Ipv4Addr) → ip_of pieces ≡ some ip → InBytes ip
ip_of-InBytes (List.◌∷◌ a (List.◌∷◌ b (List.◌∷◌ c (List.◌∷◌ d List.[])))) ip e =
    four-InBytes (octet a) (octet b) (octet c) (octet d) ip (octet-le a) (octet-le b) (octet-le c)
      (octet-le d) e
ip_of-InBytes _ ip e = cc

or_refuse-eq-parsed {ℓ} :
    {A : Type ℓ} (cause : ListenError) (o : Option A) {a : A}
    → or_refuse cause o ≡ parsed a
    → o ≡ some a
or_refuse-eq-parsed cause none e = cc
or_refuse-eq-parsed cause (some a) e = cc

parsed-injective : {A : Type 0} {a b : A} → Parsed.parsed a ≡ parsed b → a ≡ b
parsed-injective e = cc

>>=-eq-parsed :
    {A B : Type 0} (first : Parsed A) (following : A → Parsed B) {b : B}
    → (first >>= following) ≡ parsed b
    → (a : A) × (first ≡ parsed a) × (following a ≡ parsed b)
>>=-eq-parsed (refused cause) following e = cc
>>=-eq-parsed (parsed a) following e = (a, refl, e)

-- A `ListenOn` with octets in a byte and a port from 1 to 65535.
pub record InRange (l : ListenOn) : Type 0 where
  pub ip : InBytes l.ip
  pub least : 1 ≤ l.port
  pub most : l.port ≤ 65535

positive : (n : ℕ) → eqb n 0 ≡ false → 1 ≤ n
positive n e = ground arith

tested-InRange :
    (b : Bool) (l : ListenOn) (ip : Ipv4Addr) (port : ℕ)
    → InBytes ip
    → (b ≡ false → 1 ≤ port)
    → port ≤ 65535
    → (if b then refused port_zero else parsed (record { ip = ip; port = port })) ≡ parsed l
    → InRange l
tested-InRange true l ip port i h k e = cc
tested-InRange false l ip port i h k e =
    subst InRange (parsed-injective e) (record { ip = i; least = h refl; most = k })

new-InRange :
    (l : ListenOn) (ip : Ipv4Addr) (port : ℕ)
    → InBytes ip
    → port ≤ 65535
    → new ip port ≡ parsed l
    → InRange l
new-InRange l ip port i k e = tested-InRange (eqb port 0) l ip port i (positive port) k e

parse_ip_address-InBytes :
    (s : String) (ip : Ipv4Addr) → parse_ip_address s ≡ parsed ip → InBytes ip
unfolding parse_ip_address
parse_ip_address-InBytes s ip e =
    ip_of-InBytes (split b'.' s) ip
      (or_refuse-eq-parsed invalid_ip_address (ip_of (split b'.' s)) e)

either-InBytes :
    (b : Bool) (r : Parsed Ipv4Addr) (ip : Ipv4Addr)
    → (r ≡ parsed ip → InBytes ip)
    → (if b then parsed any_ip else r) ≡ parsed ip
    → InBytes ip
either-InBytes true r ip h e = let same : any_ip ≡ ip = cc e in subst InBytes same (omega arith)
either-InBytes false r ip h e = h e

ip_or_any-InBytes : (s : String) (ip : Ipv4Addr) → ip_or_any s ≡ parsed ip → InBytes ip
ip_or_any-InBytes s ip e =
    either-InBytes (is_empty_str s || s == "*") (parse_ip_address s) ip
      (parse_ip_address-InBytes s ip) e

port-le :
    (s : String) (n : ℕ)
    → or_refuse (invalid_port s) (parse_unsigned 65535 s) ≡ parsed n
    → n ≤ 65535
port-le s n e =
    parse_unsigned-le 65535 s n (or_refuse-eq-parsed (invalid_port s) (parse_unsigned 65535 s) e)

from_pieces-InRange :
    (pieces : List String) (l : ListenOn) → from_pieces pieces ≡ parsed l → InRange l
from_pieces-InRange (List.◌∷◌ port List.[]) l e =
    let (n, en, el) =
      >>=-eq-parsed (or_refuse (invalid_port port) (parse_unsigned 65535 port)) (λ n. new any_ip n)
        e in
    new-InRange l any_ip n (omega arith) (port-le port n en) el
from_pieces-InRange (List.◌∷◌ ip (List.◌∷◌ port List.[])) l e =
    let (n, en, rest) =
      >>=-eq-parsed (or_refuse (invalid_port port) (parse_unsigned 65535 port))
        (λ n. ip_or_any ip >>= λ addr. new addr n) e in
    let (addr, ea, el) = >>=-eq-parsed (ip_or_any ip) (λ addr. new addr n) rest in
    new-InRange l addr n (ip_or_any-InBytes ip addr ea) (port-le port n en) el
from_pieces-InRange _ l e = cc

-- What is read has octets in a byte and a port from 1 to 65535.
pub from_str-InRange : (v : String) (l : ListenOn) → from_str v ≡ parsed l → InRange l
unfolding from_str
from_str-InRange v l e = from_pieces-InRange (split b':' (trim v)) l e
