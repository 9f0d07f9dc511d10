-- ===== src/Prelude/Lists.antt =====
-- Lists: Boolean quantifiers, membership of texts, distinctness, predicates by recursion.
use Prim.Native.Nat.{ℕ, suc, ◌+◌, ◌≤◌}
use Prim.Native.String.{String}
use mathlib.Core.Path.{◌≡◌, refl, ap, sym, ◌∙◌}
use mathlib.Core.Logic.{◌↔◌}
use mathlib.Core.Bool.{Bool, true, false, ◌||◌}
use mathlib.Core.Option.{Option, none, some}
use mathlib.Core.List.{List, [], ◌∷◌, ◌++◌, map, append_assoc}
use native.Mathlib.Omega.{arith}
use text.Mathlib.Text.{◌==◌}
use text.Mathlib.TextEquality.{eq_iff}
use http_dragonfly.Prelude.Tests.{if◌then◌else◌}

module _ {ℓ} {A : Type ℓ} where
  abbrev pub length : List A → ℕ
  length [] = 0
  length (x ∷ xs) = suc (length xs)

  pub length-append : (xs ys : List A) → length (xs ++ ys) ≡ length xs + length ys
  length-append [] ys = omega arith
  length-append (x ∷ xs) ys = omega (arith, length-append xs ys)

  abbrev pub is_empty : List A → Bool
  is_empty [] = true
  is_empty (x ∷ xs) = false

  abbrev pub any : (A → Bool) → List A → Bool
  any p [] = false
  any p (x ∷ xs) = p x || any p xs

  -- The items that satisfy a test, in their order.
  abbrev pub select : (A → Bool) → List A → List A
  select p [] = []
  select p (x ∷ xs) = let rest = select p xs in if p x then x ∷ rest else rest

  -- What `filter_map` does with one item's result.
  abbrev pub push_some : Option A → List A → List A
  push_some none xs = xs
  push_some (some x) xs = x ∷ xs

  abbrev pub All {κ} : (A → Type κ) → List A → Type κ
  All P [] = Unit
  All P (x ∷ xs) = P x × All P xs

  pub All-select {κ} :
      (P : A → Type κ) (test : A → Bool) (xs : List A) → All P xs → All P (select test xs)
  All-select P test [] h = tt
  All-select P test (x ∷ xs) h = ground (arith, All-select P test xs h.1)

  pub All-append {κ} : (P : A → Type κ) (xs ys : List A) → All P xs → All P ys → All P (xs ++ ys)
  All-append P [] ys h k = k
  All-append P (x ∷ xs) ys h k = (h.0, All-append P xs ys h.1 k)

  pub All-prefix {κ} : (P : A → Type κ) (xs ys : List A) → All P (xs ++ ys) → All P xs
  All-prefix P [] ys h = tt
  All-prefix P (x ∷ xs) ys h = (h.0, All-prefix P xs ys h.1)

  pub All-suffix {κ} : (P : A → Type κ) (xs ys : List A) → All P (xs ++ ys) → All P ys
  All-suffix P [] ys h = h
  All-suffix P (x ∷ xs) ys h = All-suffix P xs ys h.1

  pub All-zip {κ} : (P Q : A → Type κ) (xs : List A) → All P xs → All Q xs → All (λ x. P x × Q x) xs
  All-zip P Q [] h k = tt
  All-zip P Q (x ∷ xs) h k = ((h.0, k.0), All-zip P Q xs h.1 k.1)

  -- What holds of every item of a list, given by its place, holds of all.
  pub All-by_place {κ} :
      (P : A → Type κ) (xs before rest : List A)
      → ((b a : List A) (x : A) → xs ≡ b ++ x ∷ a → P x)
      → xs ≡ before ++ rest
      → All P rest
  All-by_place P xs before [] h e = tt
  All-by_place P xs before (x ∷ rest) h e = (
    h before rest x e,
    All-by_place P xs (before ++ x ∷ []) rest h (e ∙ sym (append_assoc before (x ∷ []) rest)),
  )

pub length-map {ℓ κ} :
    {A : Type ℓ} {B : Type κ} (f : A → B) (xs : List A) → length (map f xs) ≡ length xs
length-map f [] = refl
length-map f (x ∷ xs) = ap suc (length-map f xs)

-- Whether a text is in a list of texts.
abbrev pub member : String → List String → Bool
member k [] = false
member k (j ∷ ks) = j == k || member k ks

-- No text stands twice.
abbrev pub Distinct : List String → Type 0
Distinct [] = Unit
Distinct (k ∷ ks) = (member k ks ≡ false) × Distinct ks

-- A list of texts collected into a `HashSet`: every text once.
unfoldable pub hash_set : List String → List String
hash_set [] = []
hash_set (k ∷ ks) = let rest = hash_set ks in if member k ks then rest else k ∷ rest

pub length-hash_set-le : (ks : List String) → length (hash_set ks) ≤ length ks
unfolding hash_set
length-hash_set-le [] = omega arith
length-hash_set-le (k ∷ ks) = ground (arith, length-hash_set-le ks)

-- The set is as large as the list exactly when no text stands twice.
pub length-hash_set_iff : (ks : List String) → (length (hash_set ks) ≡ length ks) ↔ Distinct ks
unfolding hash_set
length-hash_set_iff [] = (λ e. tt, λ d. refl)
length-hash_set_iff (k ∷ ks) = ground (arith, length-hash_set-le ks, length-hash_set_iff ks)

pub member-hash_set : (k : String) (ks : List String) → member k (hash_set ks) ≡ member k ks
unfolding hash_set
member-hash_set k [] = refl
member-hash_set k (j ∷ ks) = ground (arith, eq_iff j k, member-hash_set k ks)
