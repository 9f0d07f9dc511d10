-- ===== src/Context/Iterator/Drain.antt =====
-- context.rs: what a `ContextIterator` yields until it is exhausted, and afterwards.
use mathlib.Core.Path.{ap₂, subst}
use mathlib.Core.List.{append-nil}
use http_dragonfly.Prelude.{
  ℕ, zero, suc, ◌<◌, ◌≡◌, refl, sym, ◌∙◌, Bool, true, false, Option, none, some, List, [], ◌∷◌,
  ◌++◌, length, arith,
}
use http_dragonfly.Context.{Context, root_context, child_context}
use http_dragonfly.Context.Iterator.{
  Item, ContextIterator, Source, iterator, entries, nested, iter, first, next, after, exhausted,
  items,
}

abbrev ancestors : Context → List Item
ancestors (root_context m) = []
ancestors (child_context m c) = items c

-- What an iterator has still to yield.
mutual
  left : ContextIterator → List Item
  left (iterator c s finished) = left_source c s

  left_source : Context → Source → List Item
  left_source c (entries xs) = xs ++ ancestors c
  left_source c (nested it) = left it

-- The states that `next` reaches: over the own map before the parent, over the parent afterwards.
mutual
  Reached : ContextIterator → Type 0
  Reached (iterator c s finished) = ReachedSource finished s

  ReachedSource : Bool → Source → Type 0
  ReachedSource finished (entries xs) = finished ≡ false
  ReachedSource finished (nested it) = (finished ≡ true) × Reached it

abbrev Yields : List Item → Option Item → ContextIterator → Type 0
Yields [] none it = (left it ≡ []) × Reached it
Yields [] (some x) it = ⊥
Yields (x ∷ xs) none it = ⊥
Yields (x ∷ xs) (some y) it = (x ≡ y) × (left it ≡ xs) × Reached it

Yields-wrap :
    (c : Context) (xs : List Item) (x : Option Item) (it : ContextIterator)
    → Yields xs x it
    → Yields xs x (iterator c (nested it) true)
unfolding left Reached
Yields-wrap c [] none it (e, r) = (e, (refl, r))
Yields-wrap c [] (some x) it h = absurd h
Yields-wrap c (x ∷ xs) none it h = absurd h
Yields-wrap c (x ∷ xs) (some y) it (e, l, r) = (e, l, (refl, r))

first-Yields : (c : Context) → Yields (items c) (first c).0 (first c).1
unfolding first items left Reached
first-Yields (root_context []) = (refl, refl)
first-Yields (root_context (x ∷ xs)) = (refl, append-nil xs, refl)
first-Yields (child_context [] c) =
    Yields-wrap (child_context [] c) (items c) (first c).0 (first c).1 (first-Yields c)
first-Yields (child_context (x ∷ xs) c) = (refl, refl, refl)

after-Yields :
    (c : Context) (xs : List Item) (x : Option Item) (it : ContextIterator)
    → Yields xs x it
    → Yields xs (after first c true (x, nested it)).0 (after first c true (x, nested it)).1
unfolding after exhausted left Reached
after-Yields c (x ∷ xs) (some y) it h = Yields-wrap c (x ∷ xs) (some y) it h
after-Yields c (x ∷ xs) none it h = absurd h
after-Yields c [] (some y) it h = absurd h
after-Yields (root_context m) [] none it h = Yields-wrap (root_context m) [] none it h
after-Yields (child_context m c) [] none it h = Yields-wrap (child_context m c) [] none it h

next-Yields : (it : ContextIterator) → Reached it → Yields (left it) (next it).0 (next it).1
unfolding next left Reached
next-Yields (iterator c (entries (x ∷ xs)) false) r = (refl, refl, refl)
next-Yields (iterator (root_context m) (entries []) false) r = (refl, refl)
next-Yields (iterator (child_context m c) (entries []) false) r =
    Yields-wrap (child_context m c) (items c) (first c).0 (first c).1 (first-Yields c)
next-Yields (iterator c (entries xs) true) r = cc r
next-Yields (iterator c (nested it) false) r = cc r.0
next-Yields (iterator c (nested it) true) r =
    after-Yields c (left it) (next it).0 (next it).1 (next-Yields it r.1)

-- Calling `next` until it returns `None`, at most `fuel` times.
abbrev drained :
    Option Item → ContextIterator → List Item × ContextIterator → List Item × ContextIterator
drained none it rest = ([], it)
drained (some y) it rest = (y ∷ rest.0, rest.1)

unfoldable pub drain : ℕ → ContextIterator → List Item × ContextIterator
drain zero it = ([], it)
drain (suc fuel) it = let p = next it in let rest = drain fuel p.1 in drained p.0 p.1 rest

abbrev IsDrained : List Item → List Item × ContextIterator → Type 0
IsDrained xs d = (d.0 ≡ xs) × ((next d.1).0 ≡ none)

none_of_Yields :
    (xs : List Item) (x : Option Item) (it : ContextIterator) → xs ≡ [] → Yields xs x it → x ≡ none
none_of_Yields [] none it e h = refl
none_of_Yields [] (some x) it e h = absurd h
none_of_Yields (y ∷ xs) x it e h = cc

drained-IsDrained :
    (fuel : ℕ) (xs : List Item) (x : Option Item) (it : ContextIterator)
    → Yields xs x it
    → length xs < suc fuel
    → (Reached it → length (left it) < fuel → IsDrained (left it) (drain fuel it))
    → IsDrained xs (drained x it (drain fuel it))
drained-IsDrained fuel [] none it (e, r) h ih =
    (refl, none_of_Yields (left it) (next it).0 (next it).1 e (next-Yields it r))
drained-IsDrained fuel [] (some x) it h _ ih = absurd h
drained-IsDrained fuel (x ∷ xs) none it h _ ih = absurd h
drained-IsDrained fuel (x ∷ xs) (some y) it (e, l, r) h ih =
    let d : IsDrained (left it) (drain fuel it) = ih r (rw l (omega arith)) in
    (ap₂ ◌∷◌ (sym e) (d.0 ∙ l), d.1)

drain-left :
    (fuel : ℕ) (it : ContextIterator)
    → Reached it
    → length (left it) < fuel
    → IsDrained (left it) (drain fuel it)
unfolding drain
drain-left zero it r h = elim h [ ]
drain-left (suc fuel) it r h =
    drained-IsDrained fuel (left it) (next it).0 (next it).1 (next-Yields it r) h
      (drain-left fuel (next it).1)

left-iter : (c : Context) → left (iter c) ≡ items c
unfolding left items
left-iter (root_context m) = append-nil m
left-iter (child_context m c) = refl

-- Iterating over a context yields its own variables, then those of its ancestors from the nearest
-- on, and ends: the next call returns `None`.
pub drain-iter :
    (fuel : ℕ) (c : Context)
    → length (items c) < fuel
    → ((drain fuel (iter c)).0 ≡ items c) × ((next (drain fuel (iter c)).1).0 ≡ none)
unfolding Reached
drain-iter fuel c h =
    subst (λ xs. IsDrained xs (drain fuel (iter c))) (left-iter c)
      (drain-left fuel (iter c) refl (rw (left-iter c) h))
