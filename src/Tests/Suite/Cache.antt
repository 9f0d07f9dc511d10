-- ===== src/Tests/Suite/Cache.antt =====
-- aws_auth/cache.rs, `mod tests`. Times are milliseconds here.
use http_dragonfly.Prelude.{ℕ, ◌+◌, ◌≡◌, refl, Option, none, some, List, [], ◌∷◌}
use http_dragonfly.Auth.Cache.{ProviderResult, provided, provider_error, fresh_entry, after_fetch}
use http_dragonfly.Auth.Calls.{Wrapped, new, calls_at}

data FakeResponse : Type 0 where
  fake_creds : Option ℕ → FakeResponse
  fake_err : FakeResponse

-- The script has an answer at least: the one that comes next, and those behind it.
record FakeProvider : Type 0 where
  calls : ℕ
  head : FakeResponse
  tail : List FakeResponse

abbrev fake_provider : FakeResponse → List FakeResponse → FakeProvider
fake_provider head tail = record { calls = 0; head = head; tail = tail }

abbrev expiry_of : ℕ → Option ℕ → Option ℕ
expiry_of now none = none
expiry_of now (some validity) = some (now + validity)

abbrev responds : ℕ → FakeResponse → ProviderResult
responds now (fake_creds validity) =
    provided (record {
      access_key_id = "AKIDFAKE";
      secret = "fake-secret";
      expiry = expiry_of now validity;
    })
responds now fake_err = provider_error "fake failure"

-- `script.remove(0)`, but for the last answer, which stays.
abbrev removed : FakeProvider → List FakeResponse → FakeProvider
removed fake [] = record fake { calls = fake.calls + 1 }
removed fake (r ∷ rest) = record { calls = fake.calls + 1; head = r; tail = rest }

abbrev fake_next : ℕ → FakeProvider → ProviderResult × FakeProvider
fake_next now fake = (responds now fake.head, removed fake fake.tail)

abbrev after_calls : List ℕ → FakeProvider → Wrapped FakeProvider
after_calls times fake = calls_at fake_next times (new fake)

abbrev call_count : List ℕ → FakeProvider → ℕ
call_count times fake = (after_calls times fake).inner.calls

abbrev steady : FakeProvider
steady = fake_provider (fake_creds (some 200)) []

abbrev CachesUntilHalfLifeThenRefreshes : Type 0
CachesUntilHalfLifeThenRefreshes =
    (call_count (0 ∷ []) steady ≡ 1)
    × (call_count (0 ∷ 40 ∷ []) steady ≡ 1)
    × (call_count (0 ∷ 40 ∷ 120 ∷ []) steady ≡ 2)

caches_until_half_life_then_refreshes : CachesUntilHalfLifeThenRefreshes
unfolding calls_at fresh_entry after_fetch
caches_until_half_life_then_refreshes = (refl, refl, refl)

abbrev NoExpiryIsCachedForever : Type 0
NoExpiryIsCachedForever =
    call_count (0 ∷ 0 ∷ 0 ∷ 0 ∷ 0 ∷ []) (fake_provider (fake_creds none) []) ≡ 1

no_expiry_is_cached_forever : NoExpiryIsCachedForever
unfolding calls_at fresh_entry after_fetch
no_expiry_is_cached_forever = refl

abbrev failing_later : ℕ → FakeProvider
failing_later validity = fake_provider (fake_creds (some validity)) (fake_err ∷ [])

abbrev first_key : ProviderResult
first_key = responds 0 (fake_creds (some 100))

abbrev ServesStaleCredentialsWhenRefreshFails : Type 0
ServesStaleCredentialsWhenRefreshFails =
    ((after_calls (0 ∷ []) (failing_later 100)).last ≡ some first_key)
    × ((after_calls (0 ∷ 70 ∷ []) (failing_later 100)).last ≡ some first_key)
    × (call_count (0 ∷ 70 ∷ []) (failing_later 100) ≡ 2)

serves_stale_credentials_when_refresh_fails : ServesStaleCredentialsWhenRefreshFails
unfolding calls_at fresh_entry after_fetch
serves_stale_credentials_when_refresh_fails = (refl, refl, refl)

abbrev ErrorsOnceStaleCredentialsTrulyExpire : Type 0
ErrorsOnceStaleCredentialsTrulyExpire =
    (after_calls (0 ∷ 60 ∷ []) (failing_later 30)).last ≡ some (provider_error "fake failure")

errors_once_stale_credentials_truly_expire : ErrorsOnceStaleCredentialsTrulyExpire
unfolding calls_at fresh_entry after_fetch
errors_once_stale_credentials_truly_expire = refl
