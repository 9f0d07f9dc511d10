-- ===== src/Prelude/Table.antt =====
-- `HashMap<String, V>`: an association list whose `insert` overwrites. The order in which a
-- `HashMap` is visited is not the list's; code that depends on it takes the order as a parameter.
use Prim.Native.String.{String}
use mathlib.Core.Path.{◌≡◌, refl}
use mathlib.Core.Option.{Option, none, some}
use mathlib.Core.List.{List, [], ◌∷◌, ◌++◌}
use native.Mathlib.Omega.{arith}
use text.Mathlib.Text.{◌==◌}
use text.Mathlib.TextEquality.{eq_iff}
use text.Mathlib.TextPositions.{eq_refl}
use http_dragonfly.Prelude.Tests.{if◌then◌else◌, is_some, or_else}
use http_dragonfly.Prelude.Lists.{member, Distinct}

module _ {ℓ} {V : Type ℓ} where
  unfoldable pub get : List (String × V) → String → Option V
  get ((held, value) ∷ rest) key = if held == key then some value else get rest key
  get [] key = none

  unfoldable pub insert : String → V → List (String × V) → List (String × V)
  insert key value ((held, old) ∷ rest) =
      if held == key then (key, value) ∷ rest else (held, old) ∷ insert key value rest
  insert key value [] = (key, value) ∷ []

  -- `extend` and `collect`: the pairs are inserted in turn, so that a later one wins.
  unfoldable pub extend : List (String × V) → List (String × V) → List (String × V)
  extend m [] = m
  extend m ((k, v) ∷ kvs) = extend (insert k v m) kvs

  unfoldable pub keys : List (String × V) → List String
  keys [] = []
  keys ((k, v) ∷ m) = k ∷ keys m

  pub get-insert :
      (m : List (String × V)) (key sought : String) (value : V)
      → get (insert key value m) sought ≡ (if key == sought then some value else get m sought)
  unfolding get insert
  get-insert [] key sought value = refl
  get-insert ((held, old) ∷ rest) key sought value =
      let induction = get-insert rest key sought value in
      ground (arith, induction, eq_iff held sought, eq_iff held key, eq_iff key sought)

  pub get-append :
      (m n : List (String × V)) (k : String) → get (m ++ n) k ≡ or_else (get m k) (get n k)
  unfolding get
  get-append [] n k = refl
  get-append ((j, v) ∷ m) n k = ground (arith, get-append m n k)

  pub member-keys : (m : List (String × V)) (k : String) → member k (keys m) ≡ is_some (get m k)
  unfolding get keys
  member-keys [] k = refl
  member-keys ((j, v) ∷ m) k = ground (arith, member-keys m k)

  pub get-insert_self :
      (m : List (String × V)) (key : String) (value : V) → get (insert key value m) key ≡ some value
  get-insert_self m key value = simp (get-insert, eq_refl)

  -- `insert` keeps one entry for a key.
  pub insert-Distinct :
      (m : List (String × V)) (key : String) (value : V)
      → Distinct (keys m)
      → Distinct (keys (insert key value m))
  unfolding insert keys
  insert-Distinct [] key value d = (refl, tt)
  insert-Distinct ((held, old) ∷ rest) key value d = ground (
    arith,
    insert-Distinct rest key value d.1,
    member-keys rest held,
    member-keys (insert key value rest) held,
    get-insert rest key held value,
    eq_iff held key,
    eq_iff key held,
  )
