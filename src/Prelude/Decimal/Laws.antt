-- ===== src/Prelude/Decimal/Laws.antt =====
-- Reading back the decimal text of a number.
use Prim.Native.Nat.{ℕ, zero, suc, ◌+◌, ◌-◌, ◌*◌, ◌/◌, ◌%◌, ◌≤◌, ◌<◌}
use Prim.Native.Char.{Char, code}
use Prim.Native.String.{String, [], ◌∷◌}
use mathlib.Core.Path.{◌≡◌, refl, ◌∙◌}
use mathlib.Core.Logic.{inl, inr}
use mathlib.Core.Bool.{true, false}
use mathlib.Core.Option.{some}
use native.Mathlib.Omega.{arith}
use http_dragonfly.Prelude.Tests.{ltb, Bool-cases, ltb→lt}
use http_dragonfly.Prelude.Split.{every}
use http_dragonfly.Prelude.Decimal.{
  digit, print_before, decimal, is_digit, read_digits, parse_unsigned,
}

not_ltb : (a b : ℕ) → ltb a b ≡ false → b ≤ a
not_ltb a b h = ground arith

code-digit : (n : ℕ) → n < 10 → code (digit n) ≡ 48 + n
unfolding digit
code-digit zero h = refl
code-digit (suc zero) h = refl
code-digit (suc (suc zero)) h = refl
code-digit (suc (suc (suc zero))) h = refl
code-digit (suc (suc (suc (suc zero)))) h = refl
code-digit (suc (suc (suc (suc (suc zero))))) h = refl
code-digit (suc (suc (suc (suc (suc (suc zero)))))) h = refl
code-digit (suc (suc (suc (suc (suc (suc (suc zero))))))) h = refl
code-digit (suc (suc (suc (suc (suc (suc (suc (suc zero)))))))) h = refl
code-digit (suc (suc (suc (suc (suc (suc (suc (suc (suc zero))))))))) h = refl
code-digit (suc (suc (suc (suc (suc (suc (suc (suc (suc (suc n)))))))))) h = absurd (omega arith)

is_digit_range : (n : ℕ) → n < 10 → is_digit (48 + n) ≡ true
unfolding is_digit
is_digit_range n h = ground arith

-- Reading one more digit.
read_one :
    (most acc n m : ℕ) (s : String)
    → n < 10
    → acc * 10 + n ≡ m
    → m ≤ most
    → read_digits most acc (digit n ∷ s) ≡ read_digits most m s
unfolding read_digits
read_one most acc n m s h e k =
    let value : acc * 10 + (code (digit n) - 48) ≡ m = omega (arith, code-digit n h) in
    let is_one : is_digit (code (digit n)) ≡ true = rw (code-digit n h) (is_digit_range n h) in
    rw value (rw is_one (ground arith))

read-print_before :
    (most f n : ℕ) (s : String)
    → n ≤ f
    → n ≤ most
    → read_digits most 0 (print_before f n s) ≡ read_digits most n s
unfolding print_before
read-print_before most zero n s h k =
    read_one most 0 n n s (omega arith) (omega arith) (omega arith)
read-print_before most (suc f) n s h k = ground (
  arith,
  read_one most 0 n n s,
  read-print_before most f (n / 10) (digit (n % 10) ∷ s),
  read_one most (n / 10) (n % 10) n s,
)

-- The first character is a digit, and not `0` but for the number 0.
abbrev pub Leads : ℕ → String → Type 0
Leads least text =
    (c : Char) × (t : String) × (text ≡ (c ∷ t)) × (48 + least ≤ code c) × (code c ≤ 57)

print_before-Leads : (f n : ℕ) (s : String) → 1 ≤ n → n ≤ f → Leads 1 (print_before f n s)
unfolding print_before
print_before-Leads zero n s h k = absurd (omega arith)
print_before-Leads (suc f) n s h k = elim (Bool-cases (ltb n 10)) [
  | inl small ↦
      let shown = code-digit n (ltb→lt n 10 small) in
      (digit n, s, rw small refl, omega (arith, shown), omega (arith, shown, ltb→lt n 10 small))
  | inr large ↦
      let many = not_ltb n 10 large in
      rw large (
        print_before-Leads f (n / 10) (digit (n % 10) ∷ s) (omega (arith, many))
          (omega (arith, many)))
]

digit-every :
    (n : ℕ) (s : String) → n < 10 → every is_digit s ≡ true → every is_digit (digit n ∷ s) ≡ true
unfolding every
digit-every n s h k =
    let is_one : is_digit (code (digit n)) ≡ true = rw (code-digit n h) (is_digit_range n h) in
    rw is_one k

every-print_before :
    (f n : ℕ) (s : String)
    → n ≤ f
    → every is_digit s ≡ true
    → every is_digit (print_before f n s) ≡ true
unfolding print_before
every-print_before zero n s h k = digit-every n s (omega arith) k
every-print_before (suc f) n s h k = ground (
  arith,
  digit-every n s,
  every-print_before f (n / 10) (digit (n % 10) ∷ s),
  digit-every (n % 10) s,
)

pub read-decimal : (most n : ℕ) → n ≤ most → read_digits most 0 (decimal n) ≡ some n
unfolding decimal read_digits
read-decimal most n k = read-print_before most n n [] (omega arith) k

pub decimal-Leads : (n : ℕ) → 1 ≤ n → Leads 1 (decimal n)
unfolding decimal
decimal-Leads n h = print_before-Leads n n [] h (omega arith)

pub every-decimal : (n : ℕ) → every is_digit (decimal n) ≡ true
unfolding decimal every
every-decimal n = every-print_before n n [] (omega arith) refl

-- A `+` stands before no digit.
parse_unsigned-Leads :
    (most : ℕ) (s : String) → Leads 1 s → parse_unsigned most s ≡ read_digits most 0 s
unfolding parse_unsigned
parse_unsigned-Leads most s (c, [], e, l, u) = rw e refl
parse_unsigned-Leads most s (c, d ∷ t, e, l, u) = rw e (ground arith)

parse_unsigned_zero : (most : ℕ) → parse_unsigned most (decimal 0) ≡ some 0
unfolding parse_unsigned decimal
parse_unsigned_zero most = ground arith

pub parse_unsigned-decimal : (most n : ℕ) → n ≤ most → parse_unsigned most (decimal n) ≡ some n
parse_unsigned-decimal most zero k = parse_unsigned_zero most
parse_unsigned-decimal most (suc n) k =
    parse_unsigned-Leads most (decimal (suc n)) (decimal-Leads (suc n) (omega arith))
    ∙ read-decimal most (suc n) k

-- What is read is within the bound.
pub read_digits-le :
    (most n : ℕ) (s : String) (m : ℕ) → n ≤ most → read_digits most n s ≡ some m → m ≤ most
unfolding read_digits
read_digits-le most n [] m k e = ground arith
read_digits-le most n (c ∷ s) m k e =
    ground (arith, read_digits-le most (n * 10 + (code c - 48)) s m)

pub parse_unsigned-le : (most : ℕ) (s : String) (m : ℕ) → parse_unsigned most s ≡ some m → m ≤ most
unfolding parse_unsigned
parse_unsigned-le most [] m e = cc
parse_unsigned-le most (c ∷ []) m e = read_digits-le most 0 (c ∷ []) m (omega arith) e
parse_unsigned-le most (c ∷ d ∷ s) m e =
    ground (arith, read_digits-le most 0 (d ∷ s) m, read_digits-le most 0 (c ∷ d ∷ s) m)
