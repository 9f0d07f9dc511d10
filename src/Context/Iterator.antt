-- ===== src/Context/Iterator.antt =====
-- context.rs: `ContextIterator` and its `next`.
pub mod Drain
use http_dragonfly.Prelude.{
  ℕ, zero, suc, ◌<◌, ◌+◌, ◌≡◌, refl, String, Bool, true, false, Option, none, some, List, [], ◌∷◌,
  ◌++◌, length, arith,
}
use http_dragonfly.Context.{Context, ContextMap, root_context, child_context, own}

abbrev pub Item : Type 0
Item = String × String

-- `ContextIterator { ctx, iter, finished }`; `iter` is over a map, or over the parent.
mutual
  pub data ContextIterator : Type 0 where
    iterator : Context → Source → Bool → ContextIterator

  pub data Source : Type 0 where
    entries : List Item → Source
    nested : ContextIterator → Source

-- `Context::iter`.
abbrev pub iter : Context → ContextIterator
iter c = iterator c (entries (own c)) false

abbrev Polled : Type 0
Polled = Option Item × ContextIterator

abbrev PolledSource : Type 0
PolledSource = Option Item × Source

-- What `next` does once `self.iter` is exhausted; `fetch c` is `next` on a new iterator of `c`.
exhausted : (Context → Polled) → Context → Source → Bool → Polled
exhausted fetch (root_context m) s finished = (none, iterator (root_context m) s finished)
exhausted fetch (child_context m c) s true = (none, iterator (child_context m c) s true)
exhausted fetch (child_context m c) s false =
    let (x, it) = fetch c in (x, iterator (child_context m c) (nested it) true)

after : (Context → Polled) → Context → Bool → PolledSource → Polled
after fetch c finished (some x, s) = (some x, iterator c s finished)
after fetch c finished (none, s) = exhausted fetch c s finished

unfoldable mutual
  next_with : (Context → Polled) → ContextIterator → Polled
  next_with fetch (iterator c s finished) = after fetch c finished (next_source fetch s)

  next_source : (Context → Polled) → Source → PolledSource
  next_source fetch (entries []) = (none, entries [])
  next_source fetch (entries (x ∷ xs)) = (some x, entries xs)
  next_source fetch (nested it) = let (x, it') = next_with fetch it in (x, nested it')

-- `next` on a new iterator.
first : Context → Polled
unfolding next_with after exhausted
first (root_context m) = next_with (λ c. (none, iter c)) (iter (root_context m))
first (child_context m c) = next_with (λ _. first c) (iter (child_context m c))

unfoldable pub next : ContextIterator → Option Item × ContextIterator
unfolding next_with after exhausted first
next it = next_with first it

-- What a client of `iter` sees: the items of the context, then those of its ancestors.
unfoldable pub items : Context → List Item
items (root_context m) = m
items (child_context m c) = m ++ items c
