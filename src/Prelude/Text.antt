-- ===== src/Prelude/Text.antt =====
-- The string functions of the standard library that the program calls.
use Prim.Native.Nat.{ℕ, ◌+◌, ◌/◌, ◌%◌}
use Prim.Native.Char.{Char, code}
use Prim.Native.String
use Prim.Native.String.{String, [], ◌∷◌}
use mathlib.Core.Path.{◌≡◌, refl, sym}
use mathlib.Core.Logic.{◌≢◌, ◌↔◌}
use text.Mathlib.TextLemmas.{cons≢nil}
use mathlib.Core.Bool.{Bool, true, false, false≢true, ◌&&◌, ◌||◌}
use mathlib.Core.List
use mathlib.Core.List.{List}
use http_dragonfly.Prelude.Tests.{ltb, leb, eqb, if◌then◌else◌}

-- `format!("{a}{b}")`.
abbrev pub concat : String → String → String
concat a b = String.◌++◌ a b

-- `replace('-', "_")`.
unfoldable pub dash_to_underscore : String → String
dash_to_underscore [] = []
dash_to_underscore (c ∷ s) =
    let rest = dash_to_underscore s in if eqb (code c) b'-' then "_" ∷ rest else c ∷ rest

-- `trim_start_matches('/')`.
unfoldable pub trim_start_slashes : String → String
trim_start_slashes [] = []
trim_start_slashes (c ∷ s) =
    let rest = trim_start_slashes s in if eqb (code c) b'/' then rest else c ∷ s

-- `char::is_whitespace`.
unfoldable pub is_whitespace : ℕ → Bool
is_whitespace c =
    (leb 9 c && leb c 13)
    || eqb c 32
    || eqb c 0x85
    || eqb c 0xa0
    || eqb c 0x1680
    || (leb 0x2000 c && leb c 0x200a)
    || eqb c 0x2028
    || eqb c 0x2029
    || eqb c 0x202f
    || eqb c 0x205f
    || eqb c 0x3000

unfoldable pub trim_start : String → String
unfolding is_whitespace
trim_start [] = []
trim_start (c ∷ s) = let rest = trim_start s in if is_whitespace (code c) then rest else c ∷ s

abbrev pub keep_solid : Bool → Char → String → String
keep_solid true c [] = []
keep_solid true c (d ∷ r) = c ∷ d ∷ r
keep_solid false c r = c ∷ r

-- White space at the end goes: a character stays if it is none, or if something stays behind it.
unfoldable pub trim_end : String → String
unfolding is_whitespace
trim_end [] = []
trim_end (c ∷ s) = keep_solid (is_whitespace (code c)) c (trim_end s)

-- `str::trim`.
unfoldable pub trim : String → String
unfolding trim_start trim_end
trim s = trim_end (trim_start s)

-- `str::is_empty`.
abbrev pub is_empty_str : String → Bool
is_empty_str [] = true
is_empty_str (c ∷ s) = false

pub is_empty_str_iff : (s : String) → (is_empty_str s ≡ false) ↔ (s ≢ "")
is_empty_str_iff [] = (λ e. absurd (false≢true (sym e)), λ h. absurd (h refl))
is_empty_str_iff (c ∷ s) = (λ e. cons≢nil, λ h. refl)

-- The UTF-8 bytes of a code point, and of a text (`into_bytes`).
unfoldable pub utf8_char : ℕ → List ℕ
utf8_char c =
    if ltb c 0x80
    then List.◌∷◌ c List.[]
    else if ltb c 0x800
    then List.◌∷◌ (0xc0 + c / 64) (List.◌∷◌ (0x80 + c % 64) List.[])
    else if ltb c 0x10000
    then List.◌∷◌ (0xe0 + c / 4096)
        (List.◌∷◌ (0x80 + (c / 64) % 64) (List.◌∷◌ (0x80 + c % 64) List.[]))
    else List.◌∷◌ (0xf0 + c / 262144) (
        List.◌∷◌ (0x80 + (c / 4096) % 64)
          (List.◌∷◌ (0x80 + (c / 64) % 64) (List.◌∷◌ (0x80 + c % 64) List.[])))

unfoldable pub into_bytes : String → List ℕ
unfolding utf8_char
into_bytes [] = List.[]
into_bytes (c ∷ s) = List.◌++◌ (utf8_char (code c)) (into_bytes s)

-- `to_ascii_lowercase` of a code point.
unfoldable pub ascii_lower : ℕ → ℕ
ascii_lower c = if leb b'A' c && leb c b'Z' then c + 32 else c

-- `str::eq_ignore_ascii_case`.
unfoldable pub eq_ignore_ascii_case : String → String → Bool
unfolding ascii_lower
eq_ignore_ascii_case [] [] = true
eq_ignore_ascii_case [] (d ∷ t) = false
eq_ignore_ascii_case (c ∷ s) [] = false
eq_ignore_ascii_case (c ∷ s) (d ∷ t) =
    eqb (ascii_lower (code c)) (ascii_lower (code d)) && eq_ignore_ascii_case s t

-- `str::starts_with` and `str::contains`, by code points; the pattern comes first.
unfoldable pub starts_with : String → String → Bool
starts_with [] s = true
starts_with (c ∷ r) [] = false
starts_with (c ∷ r) (d ∷ s) = eqb (code c) (code d) && starts_with r s

unfoldable pub contains : String → String → Bool
unfolding starts_with
contains r [] = starts_with r []
contains r (d ∷ s) = starts_with r (d ∷ s) || contains r s
