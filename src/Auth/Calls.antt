-- ===== src/Auth/Calls.antt =====
-- aws_auth/cache.rs: calls of `provide_credentials` one after the other, over an inner provider that
-- keeps a state.
pub mod Pace
use http_dragonfly.Prelude.{
  ℕ, ◌≡◌, refl, Bool, true, false, Option, none, some, List, [], ◌∷◌, if◌then◌else◌,
}
use http_dragonfly.Auth.Cache.{
  Credentials, CachedEntry, ProviderResult, provided, fresh_entry, after_fetch, get_or_refresh,
}

-- `RefreshingCredentials` with the state of its inner provider, and what the last call gave.
pub record Wrapped (P : Type 0) : Type 0 where
  pub cache : Option CachedEntry
  pub inner : P
  pub last : Option ProviderResult

module _ {P : Type 0} where
  -- `RefreshingCredentials::new`
  abbrev pub new : P → Wrapped P
  new inner = record { cache = none; inner = inner; last = none }

  -- What the inner provider answers at a time.
  module _ (answer : ℕ → P → ProviderResult × P) where
    -- A call at a time `t`, at which all readings of the clock are made.
    unfoldable pub provide_credentials : ℕ → Wrapped P → Wrapped P
    unfolding get_or_refresh
    provide_credentials t w =
        let fetched = answer t w.inner in
        let (result, cache, called) = get_or_refresh t t t w.cache fetched.0 in
        record { cache = cache; inner = if called then fetched.1 else w.inner; last = some result }

    -- Calls at the times of a list.
    unfoldable pub calls_at : List ℕ → Wrapped P → Wrapped P
    unfolding provide_credentials
    calls_at [] w = w
    calls_at (t ∷ ts) w = calls_at ts (provide_credentials t w)

    -- A call that finds a fresh entry, and one that does not.
    pub provide_credentials-cached :
        (t : ℕ) (w : Wrapped P) (c : Credentials)
        → fresh_entry t w.cache ≡ some c
        → provide_credentials t w ≡ record w { last = some (provided c) }
    unfolding provide_credentials
    provide_credentials-cached t w c e = rw (e, get_or_refresh) refl

    pub provide_credentials-fetched :
        (t : ℕ) (w : Wrapped P)
        → fresh_entry t w.cache ≡ none
        → provide_credentials t w ≡ record {
          cache = (after_fetch t t w.cache (answer t w.inner).0).1;
          inner = (answer t w.inner).1;
          last = some (after_fetch t t w.cache (answer t w.inner).0).0;
        }
    unfolding provide_credentials
    provide_credentials-fetched t w e = rw (e, e, get_or_refresh) refl
