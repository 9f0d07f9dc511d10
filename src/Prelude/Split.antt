-- ===== src/Prelude/Split.antt =====
-- `str::split` at a character, and the shape of texts without it.
use Prim.Native.Nat.{ℕ}
use Prim.Native.Char.{Char, code}
use Prim.Native.String.{String, [], ◌∷◌}
use mathlib.Core.Path.{◌≡◌, refl}
use mathlib.Core.Bool.{Bool, true, false, ◌&&◌, not}
use mathlib.Core.List.{List}
use text.Mathlib.TextLemmas.{nil-append, cons-append}
use native.Mathlib.Omega.{arith}
use http_dragonfly.Prelude.Tests.{eqb}
use http_dragonfly.Prelude.Text.{concat, is_whitespace, trim, trim_start, trim_end}

-- A character before the pieces of the rest.
abbrev pub before_pieces : Bool → Char → List String → List String
before_pieces true c pieces = List.◌∷◌ "" pieces
before_pieces false c List.[] = List.◌∷◌ (c ∷ []) List.[]
before_pieces false c (List.◌∷◌ piece pieces) = List.◌∷◌ (c ∷ piece) pieces

unfoldable pub split : ℕ → String → List String
split sep [] = List.◌∷◌ "" List.[]
split sep (c ∷ s) = before_pieces (eqb (code c) sep) c (split sep s)

-- Whether all characters pass a test.
unfoldable pub every : (ℕ → Bool) → String → Bool
every test [] = true
every test (c ∷ s) = test (code c) && every test s

pub every-concat :
    (test : ℕ → Bool) (s t : String)
    → every test s ≡ true
    → every test t ≡ true
    → every test (concat s t) ≡ true
unfolding every
every-concat test [] t h k = rw (nil-append t) k
every-concat test (c ∷ s) t h k = rw (cons-append c s t) (ground (arith, every-concat test s t))

pub every_weaker :
    (test weaker : ℕ → Bool)
    → ((c : ℕ) → test c ≡ true → weaker c ≡ true)
    → (s : String) → every test s ≡ true
    → every weaker s ≡ true
unfolding every
every_weaker test weaker w [] h = refl
every_weaker test weaker w (c ∷ s) h = ground (arith, every_weaker test weaker w s, w (code c))

-- A text without the separator is one piece.
pub split-without :
    (sep : ℕ) (s : String)
    → every (λ c. not (eqb c sep)) s ≡ true
    → split sep s ≡ List.◌∷◌ s List.[]
unfolding split every
split-without sep [] h = refl
split-without sep (c ∷ s) h = ground (arith, split-without sep s)

-- The first piece ends at the first separator.
pub split-concat :
    (c : Char) (s t : String)
    → every (λ d. not (eqb d (code c))) s ≡ true
    → split (code c) (concat s (c ∷ t)) ≡ List.◌∷◌ s (split (code c) t)
unfolding split every
split-concat c [] t h = rw (nil-append (c ∷ t)) (ground arith)
split-concat c (d ∷ s) t h = rw (cons-append d s (c ∷ t)) (ground (arith, split-concat c s t))

trim_end_solid : (s : String) → every (λ c. not (is_whitespace c)) s ≡ true → trim_end s ≡ s
unfolding trim_end every
trim_end_solid [] h = refl
trim_end_solid (c ∷ []) h = ground arith
trim_end_solid (c ∷ d ∷ s) h = ground (arith, trim_end_solid (d ∷ s))

trim_start_solid : (s : String) → every (λ c. not (is_whitespace c)) s ≡ true → trim_start s ≡ s
unfolding trim_start every
trim_start_solid [] h = refl
trim_start_solid (c ∷ s) h = ground arith

-- A text without white space is not changed.
pub trim_solid : (s : String) → every (λ c. not (is_whitespace c)) s ≡ true → trim s ≡ s
unfolding trim
trim_solid s h = rw (trim_start_solid s h) (trim_end_solid s h)
