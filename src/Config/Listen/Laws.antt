-- ===== src/Config/Listen/Laws.antt =====
-- config/listener.rs: reading a `listen_on` back, and the bounds of what is read.
use Prim.Native.String.{◌∷◌}
use Prim.Native.Char.{Char, code}
use text.Mathlib.TextLemmas.{nil-append, cons-append}
use http_dragonfly.Prelude.{
  ℕ, zero, suc, ◌≤◌, String, ◌≡◌, refl, ap, ◌∙◌, Bool, true, false, not, ◌||◌, some, List, ◌==◌,
  eq_iff, eqb, arith, Bool-cases, inl, inr,
}
use http_dragonfly.Prelude.Text.{concat, is_whitespace, is_empty_str, is_empty_str_iff}
use http_dragonfly.Prelude.Split.{
  split, every, every-concat, every_weaker, split-without, split-concat, trim_solid,
}
use http_dragonfly.Prelude.Decimal.{decimal, is_digit, read_digits}
use http_dragonfly.Prelude.Decimal.Laws.{
  Leads, read-decimal, decimal-Leads, every-decimal, parse_unsigned-decimal,
}
use http_dragonfly.Config.Types.{Ipv4Addr, ListenOn}
use http_dragonfly.Config.Listener.{ip_to_string, on}
use http_dragonfly.Config.Listen.{
  parsed, refused, invalid_ip_address, octet, parse_ip_address, ip_or_any, from_str,
}

-- An address whose octets fit in a byte.
abbrev pub InBytes : Ipv4Addr → Type 0
InBytes ip = (ip.a ≤ 255) × (ip.b ≤ 255) × (ip.c ≤ 255) × (ip.d ≤ 255)

octet-Leads : (s : String) → Leads 1 s → octet s ≡ read_digits 255 0 s
unfolding octet
octet-Leads s (c, String.[], e, l, u) = rw e refl
octet-Leads s (c, d ∷ t, e, l, u) = rw e (ground arith)

octet_zero : octet (decimal 0) ≡ some 0
unfolding octet decimal read_digits
octet_zero = refl

octet-decimal : (n : ℕ) → n ≤ 255 → octet (decimal n) ≡ some n
octet-decimal zero k = octet_zero
octet-decimal (suc n) k =
    octet-Leads (decimal (suc n)) (decimal-Leads (suc n) (omega arith)) ∙ read-decimal 255 (suc n) k

-- A character that stands alone before a text.
concat_char : (c : Char) (t : String) → concat (c ∷ "") t ≡ (c ∷ t)
concat_char c t = cons-append c "" t ∙ ap (λ r. c ∷ r) (nil-append t)

digit_no_dot : (c : ℕ) → is_digit c ≡ true → not (eqb c b'.') ≡ true
unfolding is_digit
digit_no_dot c h = ground arith

no_dot : (n : ℕ) → every (λ c. not (eqb c b'.')) (decimal n) ≡ true
no_dot n = every_weaker is_digit (λ c. not (eqb c b'.')) digit_no_dot (decimal n) (every-decimal n)

split-octet :
    (n : ℕ) (t : String)
    → split b'.' (concat (decimal n) (concat "." t)) ≡ List.◌∷◌ (decimal n) (split b'.' t)
split-octet n t = rw (concat_char "." t) (split-concat "." (decimal n) t (no_dot n))

split-ip_to_string :
    (ip : Ipv4Addr)
    → split b'.' (ip_to_string ip)
      ≡ List.◌∷◌
          (decimal ip.a)
          (List.◌∷◌ (decimal ip.b) (List.◌∷◌ (decimal ip.c) (List.◌∷◌ (decimal ip.d) List.[])))
unfolding ip_to_string
split-ip_to_string ip = simp (split-octet, split-without b'.' (decimal ip.d) (no_dot ip.d))

parse_ip_address-ip_to_string :
    (ip : Ipv4Addr) → InBytes ip → parse_ip_address (ip_to_string ip) ≡ parsed ip
unfolding parse_ip_address
parse_ip_address-ip_to_string ip (a, b, c, d) = rw (split-ip_to_string ip) (
    rw (octet-decimal ip.a a, octet-decimal ip.b b, octet-decimal ip.c c, octet-decimal ip.d d)
      refl)

-- The characters of an address.
abbrev in_address : ℕ → Bool
in_address c = is_digit c || eqb c b'.'

in_address_dot : in_address b'.' ≡ true
unfolding is_digit
in_address_dot = refl

octet_every :
    (test : ℕ → Bool) (n : ℕ)
    → ((c : ℕ) → in_address c ≡ true → test c ≡ true)
    → every test (decimal n) ≡ true
octet_every test n w =
    every_weaker is_digit test (λ c d. w c (ground arith)) (decimal n) (every-decimal n)

octet_then :
    (test : ℕ → Bool) (n : ℕ) (t : String)
    → ((c : ℕ) → in_address c ≡ true → test c ≡ true)
    → every test t ≡ true
    → every test (concat (decimal n) t) ≡ true
octet_then test n t w h = every-concat test (decimal n) t (octet_every test n w) h

dot_then :
    (test : ℕ → Bool) (t : String)
    → ((c : ℕ) → in_address c ≡ true → test c ≡ true)
    → every test t ≡ true
    → every test (concat "." t) ≡ true
unfolding every
dot_then test t w h = rw (concat_char "." t) (ground (arith, w b'.' in_address_dot))

every-ip_to_string :
    (test : ℕ → Bool) (ip : Ipv4Addr)
    → ((c : ℕ) → in_address c ≡ true → test c ≡ true)
    → every test (ip_to_string ip) ≡ true
unfolding ip_to_string
every-ip_to_string test ip w = octet_then test ip.a _ w (
    dot_then test _ w (
      octet_then test ip.b _ w (
        dot_then test _ w
          (octet_then test ip.c _ w (dot_then test _ w (octet_every test ip.d w))))))

no_space : (c : ℕ) → in_address c ≡ true → not (is_whitespace c) ≡ true
unfolding is_digit is_whitespace
no_space c h = ground arith

no_colon : (c : ℕ) → in_address c ≡ true → not (eqb c b':') ≡ true
unfolding is_digit
no_colon c h = ground arith

char_then :
    (test : ℕ → Bool) (c : Char) (t : String)
    → test (code c) ≡ true
    → every test t ≡ true
    → every test (concat (c ∷ "") t) ≡ true
unfolding every
char_then test c t w h = rw (concat_char c t) (rw w h)

colon_no_space : not (is_whitespace b':') ≡ true
unfolding is_whitespace
colon_no_space = refl

solid-on : (l : ListenOn) → every (λ c. not (is_whitespace c)) (on l) ≡ true
unfolding on
solid-on l =
    every-concat (λ c. not (is_whitespace c)) (ip_to_string l.ip) (concat ":" (decimal l.port))
      (every-ip_to_string (λ c. not (is_whitespace c)) l.ip no_space)
      (char_then (λ c. not (is_whitespace c)) ":" (decimal l.port) colon_no_space
        (octet_every (λ c. not (is_whitespace c)) l.port no_space))

split-on :
    (l : ListenOn)
    → split b':' (on l) ≡ List.◌∷◌ (ip_to_string l.ip) (List.◌∷◌ (decimal l.port) List.[])
unfolding on
split-on l = rw (concat_char ":" (decimal l.port)) (
    split-concat ":" (ip_to_string l.ip) (decimal l.port)
      (every-ip_to_string (λ c. not (eqb c b':')) l.ip no_colon)
    ∙ ap (List.◌∷◌ (ip_to_string l.ip))
        (split-without b':' (decimal l.port) (octet_every (λ c. not (eqb c b':')) l.port no_colon)))

-- Neither the empty text nor `*` is an address.
no_address :
    (parse_ip_address "" ≡ refused invalid_ip_address)
    × (parse_ip_address "*" ≡ refused invalid_ip_address)
unfolding parse_ip_address
no_address = (refl, refl)

address_text :
    (s : String) {ip : Ipv4Addr}
    → parse_ip_address s ≡ parsed ip
    → (is_empty_str s ≡ false) × ((s == "*") ≡ false)
address_text s e = (
  (is_empty_str_iff s).1 (λ q. cc (q, e, no_address.0)),
  elim (Bool-cases (s == "*")) [
    | inl same ↦ absurd (cc ((eq_iff s "*").0 same, e, no_address.1))
    | inr apart ↦ apart
  ],
)

ip_or_any-ip_to_string : (ip : Ipv4Addr) → InBytes ip → ip_or_any (ip_to_string ip) ≡ parsed ip
ip_or_any-ip_to_string ip h =
    let read = parse_ip_address-ip_to_string ip h in
    let (filled, no_star) = address_text (ip_to_string ip) read in rw (filled, no_star) read

-- A `ListenOn` with octets in a byte and a port from 1 to 65535 is read back from its text.
pub from_str-on :
    (l : ListenOn) → InBytes l.ip → 1 ≤ l.port → l.port ≤ 65535 → from_str (on l) ≡ parsed l
unfolding from_str
from_str-on l h least most = rw (trim_solid (on l) (solid-on l)) (
    rw (split-on l)
      (rw (parse_unsigned-decimal 65535 l.port most, ip_or_any-ip_to_string l.ip h) (ground arith)))
