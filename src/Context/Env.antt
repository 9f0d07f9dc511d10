-- ===== src/Context/Env.antt =====
-- config/target.rs hands a condition the variables of a context as a `HashMap` that is collected
-- from `Context::iter`: which value a name has there, beside the one that `Context::get` gives.
use Prim.Native.String.{String}
use http_dragonfly.Prelude.{◌≡◌, refl, Option, [], ◌∷◌, ◌++◌, eq_iff, Distinct, or_else, arith}
use http_dragonfly.Prelude.Table
use http_dragonfly.Prelude.Table.{get-insert, member-keys}
use http_dragonfly.Context
use http_dragonfly.Context.{Context, ContextMap, root_context, child_context}
use http_dragonfly.Context.Iterator.{items}

-- `ctx.iter().collect::<HashMap<_, _>>()`
abbrev pub env : Context → ContextMap
env c = Table.extend [] (items c)

-- The value of the outermost context that has the variable.
unfoldable pub outermost : Context → String → Option String
outermost (root_context m) var = Table.get m var
outermost (child_context m c) var = or_else (outermost c var) (Table.get m var)

-- No map of the chain has a key twice, as no `HashMap` does.
abbrev pub DistinctKeys : Context → Type 0
DistinctKeys (root_context m) = Distinct (Table.keys m)
DistinctKeys (child_context m c) = Distinct (Table.keys m) × DistinctKeys c

extend-append :
    (m xs ys : ContextMap) → Table.extend m (xs ++ ys) ≡ Table.extend (Table.extend m xs) ys
unfolding Table.extend
extend-append m [] ys = refl
extend-append m ((k, v) ∷ xs) ys = extend-append (Table.insert k v m) xs ys

pub get-extend :
    (m xs : ContextMap) (k : String)
    → Distinct (Table.keys xs)
    → Table.get (Table.extend m xs) k ≡ or_else (Table.get xs k) (Table.get m k)
unfolding Table.extend Table.get Table.keys
get-extend m [] k d = refl
get-extend m ((j, v) ∷ xs) k d = ground (
  arith,
  get-extend (Table.insert j v m) xs k d.1,
  get-insert m j k v,
  member-keys xs j,
  eq_iff j k,
)

get-extend-items :
    (m : ContextMap) (c : Context) (k : String)
    → DistinctKeys c
    → Table.get (Table.extend m (items c)) k ≡ or_else (outermost c k) (Table.get m k)
unfolding outermost items
get-extend-items m (root_context n) k d = get-extend m n k d
get-extend-items m (child_context n c) k d =
    rw (extend-append m n (items c))
      (ground (arith, get-extend-items (Table.extend m n) c k d.1, get-extend m n k d.0))

-- In the map that a condition gets, a variable has the value of the outermost context that has it.
get-env : (c : Context) (var : String) → DistinctKeys c → Table.get (env c) var ≡ outermost c var
unfolding Table.get
get-env c var d = ground (arith, get-extend-items [] c var d)

module _ (vars own : ContextMap) (var : String) (vd : Distinct (Table.keys vars))
    (od : Distinct (Table.keys own)) where
  -- The context of a request: over the root context. `get` prefers the request's own variable, the
  -- map of a condition prefers the root's.
  pub get-env_request :
      (Context.get (child_context own (root_context vars)) var
        ≡ or_else (Table.get own var) (Table.get vars var))
      × (Table.get (env (child_context own (root_context vars))) var
          ≡ or_else (Table.get vars var) (Table.get own var))
  unfolding Context.get outermost
  get-env_request = (refl, get-env (child_context own (root_context vars)) var (od, vd))
