-- ===== src/Tests/Auth.antt =====
-- aws_auth/cache.rs
use http_dragonfly.Prelude.{
  ℕ, ◌-◌, ◌*◌, ◌/◌, ◌≤◌, suc, [], ◌∷◌, ◌+◌, ◌≡◌, refl, inl, true, Option, none, some, length, arith,
}
use http_dragonfly.Auth.Cache.{
  Credentials, CachedEntry, provided, provider_error, fresh_entry, new_entry, after_fetch,
  get_or_refresh,
}
use http_dragonfly.Auth.Cache.Laws.{SoundCache, Serves, get_or_refresh-Serves}
use http_dragonfly.Auth.Refresh.{
  System, reading, waiting, fetching, finished, moved, tick, begin, read_miss, write_miss,
  fetch_done, Reach, here, next, new,
}
use http_dragonfly.Auth.Refresh.Collapse.{Run, started, going, at_most_one_fetch}
use http_dragonfly.Auth.Calls
use http_dragonfly.Auth.Calls.{calls_at}
use http_dragonfly.Auth.Calls.Pace.{lasting, Spaced, calls_at_pace}
use http_dragonfly.Auth.Refresh.SingleFlight.{single_flight}

abbrev key : Credentials
key = record { access_key_id = "AKIDFAKE"; secret = "fake-secret"; expiry = some 300 }

abbrev cached : Option CachedEntry
cached = some (record { credentials = key; refresh_at = some 200; expires_at = some 300 })

stale : get_or_refresh 250 251 260 cached (provider_error "down") ≡ (provided key, cached, true)
unfolding get_or_refresh
stale = refl

cached-SoundCache : SoundCache 250 cached
unfolding new_entry
cached-SoundCache = record { expiry = refl; in_order = inl (omega arith) }

get_or_refresh-Serves_example :
    (let out = get_or_refresh 250 251 260 cached (provider_error "down") in
      Serves 250 251 260 cached (provider_error "down") out.0 out.2)
get_or_refresh-Serves_example =
    get_or_refresh-Serves 250 251 260 cached (provider_error "down") (omega arith) cached-SoundCache

-- A task that has found nothing fetches.
abbrev s₀ : System
s₀ = new 100

abbrev s₁ : System
s₁ = record s₀ { phase = moved s₀.phase 0 (reading 100) }

abbrev s₂ : System
s₂ = record s₁ { phase = moved s₁.phase 0 waiting }

abbrev s₃ : System
s₃ = record s₂ { phase = moved s₂.phase 0 (fetching 100); writer = some 0; calls = s₂.calls + 1 }

to_fetch : Reach s₀ s₃
unfolding fresh_entry
to_fetch =
    next (next (next here (begin s₀ 0 refl)) (read_miss s₁ 0 100 refl refl refl))
      (write_miss s₂ 0 refl refl refl)

abbrev s₄ : System
s₄ = record s₃ { cache = cached; phase = moved s₃.phase 0 (finished (provided key)); writer = none }

abbrev s₅ : System
s₅ = record s₄ { clock = s₄.clock + 50 }

abbrev s₆ : System
s₆ = record s₅ { phase = moved s₅.phase 1 (reading 150) }

more_calls : Reach s₄ s₆
more_calls = next (next here (tick s₄ 50)) (begin s₅ 1 refl)

single_flight_example : (s₆.calls ≡ s₄.calls) × (s₆.cache ≡ cached)
single_flight_example =
    single_flight (record { credentials = key; refresh_at = some 200; expires_at = some 300 }) refl
      refl more_calls refl

-- Task 0 fetches, and task 1 calls later.
lasting_run : Run 200 s₀ s₆
unfolding fresh_entry after_fetch
lasting_run =
    going
      (going
        (going
          (going (going (going started (begin s₀ 0 refl) tt) (read_miss s₁ 0 100 refl refl refl) tt)
            (write_miss s₂ 0 refl refl refl) tt)
          (fetch_done s₃ 0 100 (provided key) refl refl) (omega arith))
        (tick s₄ 50) tt)
      (begin s₅ 1 refl) tt

at_most_one_fetch_example : s₆.calls ≤ s₀.calls + 1
at_most_one_fetch_example = at_most_one_fetch refl lasting_run (omega arith)

calls_at_pace_example :
    Spaced (200 / 2) (calls_at (lasting (some 200)) (0 ∷ 40 ∷ 120 ∷ []) (Calls.new [])).inner
    × ((count : ℕ) × (length
            (calls_at (lasting (some 200)) (0 ∷ 40 ∷ 120 ∷ []) (Calls.new [])).inner
          ≡ suc count)
        × (count * (200 / 2) ≤ 120 - 0))
calls_at_pace_example = calls_at_pace 200 0 (40 ∷ 120 ∷ []) (omega arith)
