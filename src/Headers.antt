-- ===== src/Headers.antt =====
-- config/headers.rs: reading a header transformation, and applying a list of them to a header map.
pub mod Parse
pub mod View
pub mod Accepts
pub mod Entries
use http_dragonfly.Prelude.{
  String, Bool, true, false, ◌≡◌, Option, none, some, List, [], ◌∷◌, ◌==◌, Outcome, ok, panic,
  ◌>>=◌, ◌>>◌, unwrap, if◌then◌else◌,
}
use http_dragonfly.Platform.{HeaderValue, Platform}
use http_dragonfly.Config.Types.{HeaderTransform, HeaderTransformActon, add, update, drop}
use http_dragonfly.Context
use http_dragonfly.Context.{Context}

module _ {M F J : Type 0} (p : Platform M F J) where
  -- `env_with_context_no_errors(s, |v| ctx.get(&v.into()))`
  abbrev pub expand_in : Context → String → String
  expand_in ctx s = p.expand (Context.get ctx) s

  -- `old.to_str().unwrap()`, an argument of a `debug!` line.
  debug_old : List HeaderValue → Outcome (Unit {0})
  debug_old [] = ok tt
  debug_old (v ∷ vs) = if p.debug_enabled then (do _ ← unwrap (p.to_str v); ok tt) else ok tt

  -- Setting a header: the expanded value, `from_bytes(key)`, `from_str(value)`.
  set_header : Context → String → Option String → M → Outcome M
  set_header ctx key value headers = do
    text ← unwrap value
    name ← unwrap (p.header_name key)
    v ← unwrap (p.header_value (expand_in ctx text))
    ok (p.headers.insert name v headers)

  -- The values that `remove(key)` or `insert(key, _)` finds in the map; the first is `old`.
  abbrev old_values : Option String → M → List HeaderValue
  old_values none headers = []
  old_values (some n) headers = p.headers.get_all headers n

  -- The `match` on the action.
  apply_action : Context → HeaderTransformActon → Option String → M → Outcome M
  apply_action ctx (add key) value headers =
      if p.headers.contains_key headers key then ok headers else set_header ctx key value headers
  apply_action ctx (update key) value headers =
      if p.headers.contains_key headers key
      then (do
        new ← set_header ctx key value headers
        debug_old (old_values (p.header_name key) headers)
        ok new)
      else ok headers
  apply_action ctx (drop key) value headers = if key == "*" then ok p.headers.empty else (do
    debug_old (old_values (p.header_name key) headers)
    ok (p.headers.remove key headers))

  -- One round of the loop of `transform`.
  unfoldable pub transform_one : Context → HeaderTransform → M → Outcome M
  unfolding apply_action set_header debug_old
  transform_one ctx t headers = apply_action ctx t.action t.value headers

  unfoldable pub transform : Context → List HeaderTransform → M → Outcome M
  unfolding transform_one
  transform ctx [] headers = ok headers
  transform ctx (t ∷ ts) headers = do
    headers' ← transform_one ctx t headers
    transform ctx ts headers'

  -- `if let Some(transforms) = ... { transforms.transform(..) }`
  abbrev pub transform_opt : Context → Option (List HeaderTransform) → M → Outcome M
  transform_opt ctx none headers = ok headers
  transform_opt ctx (some ts) headers = transform ctx ts headers
