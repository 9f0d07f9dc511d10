-- ===== src/Auth/Calls/Pace.antt =====
-- aws_auth/cache.rs: how often the inner provider is asked.
use http_dragonfly.Prelude.{
  ℕ, suc, ◌+◌, ◌-◌, ◌*◌, ◌/◌, ◌≤◌, ◌<◌, ◌≡◌, ◌⊎◌, inl, inr, refl, ap, Option, none, some, List, [],
  ◌∷◌, length, arith, Bool-cases, ltb,
}
use http_dragonfly.Auth.Cache.{
  CachedEntry, ProviderResult, provided, fresh_entry, new_entry, after_fetch,
}
use http_dragonfly.Auth.Calls.{
  Wrapped, new, provide_credentials, calls_at, provide_credentials-cached,
  provide_credentials-fetched,
}

-- A provider that always answers, with credentials of the same validity; its state is the times at
-- which it has been asked, the last one first.
abbrev pub lasting : Option ℕ → ℕ → List ℕ → ProviderResult × List ℕ
lasting validity now times = (
  provided (record {
    access_key_id = "AKIDFAKE";
    secret = "fake-secret";
    expiry = elim validity [ none ↦ none | some v ↦ some (now + v) ];
  }),
  now ∷ times,
)

-- The times of the calls do not go back.
abbrev pub InOrder : ℕ → List ℕ → Type 0
InOrder now [] = Unit
InOrder now (t ∷ ts) = (now ≤ t) × InOrder t ts

abbrev pub last_of : ℕ → List ℕ → ℕ
last_of now [] = now
last_of now (t ∷ ts) = last_of t ts

-- Each fetch comes `gap` after the one before it, at the earliest.
abbrev pub Spaced : ℕ → List ℕ → Type 0
Spaced gap [] = Unit
Spaced gap (t ∷ []) = Unit
Spaced gap (t ∷ earlier ∷ times) = (earlier + gap ≤ t) × Spaced gap (earlier ∷ times)

-- The last fetch was at `at`, and those before it took half a validity each, from `start` on.
record Paced (validity start now : ℕ) (w : Wrapped (List ℕ)) (at count : ℕ) : Type 0 where
  cached : (e : CachedEntry) × (w.cache ≡ some e) × (e.refresh_at ≡ some (at + validity / 2))
  before : List ℕ
  listed : w.inner ≡ at ∷ before
  spaced : Spaced (validity / 2) (at ∷ before)
  counted : length before ≡ count
  spent : start + count * (validity / 2) ≤ at
  past : at ≤ now

first_call :
    (validity t : ℕ)
    → Paced validity t t (provide_credentials (lasting (some validity)) t (new [])) t 0
unfolding provide_credentials fresh_entry after_fetch new_entry
first_call validity t = record {
  cached = (_, refl, ap some (omega arith));
  before = [];
  listed = refl;
  spaced = tt;
  counted = refl;
  spent = omega arith;
  past = omega arith;
}

-- A fresh entry stays, and an entry that is due is replaced.
fresh_entry_due :
    (t at half : ℕ) (e : CachedEntry)
    → e.refresh_at ≡ some (at + half)
    → ((t < at + half) × (fresh_entry t (some e) ≡ some e.credentials))
      ⊎ ((at + half ≤ t) × (fresh_entry t (some e) ≡ none))
unfolding fresh_entry
fresh_entry_due t at half e h = elim (Bool-cases (ltb t (at + half))) [
  | inl b ↦ inl (ground arith, rw h (rw b refl))
  | inr b ↦ inr (ground arith, rw h (rw b refl))
]

Paced-fetched :
    (validity start now t at count : ℕ) (w : Wrapped (List ℕ))
    → (h : Paced validity start now w at count) → fresh_entry t w.cache ≡ none
    → at + validity / 2 ≤ t
    → Paced validity start t (provide_credentials (lasting (some validity)) t w) t (suc count)
unfolding after_fetch new_entry
Paced-fetched validity start now t at count w h e due =
    rw (provide_credentials-fetched (lasting (some validity)) t w e) record {
      cached = (_, refl, ap some (omega arith));
      before = at ∷ h.before;
      listed = ap (λ times. t ∷ times) h.listed;
      spaced = (due, h.spaced);
      counted = ap suc h.counted;
      spent = grind (arith, h.spent);
      past = omega arith;
    }

later_call-Paced :
    (validity start now t at count : ℕ) (w : Wrapped (List ℕ))
    → now ≤ t
    → Paced validity start now w at count
    → (at' : ℕ) × (count' : ℕ) × Paced validity start t
        (provide_credentials (lasting (some validity)) t w)
        at'
        count'
later_call-Paced validity start now t at count w l h =
    let (e, ec, er) = h.cached in
    elim (fresh_entry_due t at (validity / 2) e er) [
      | inl (before, f) ↦ (
        at,
        count,
        rw (provide_credentials-cached (lasting (some validity)) t w e.credentials (rw ec f))
            record {
              cached = (e, ec, er);
              before = h.before;
              listed = h.listed;
              spaced = h.spaced;
              counted = h.counted;
              spent = h.spent;
              past = omega (arith, h.past);
            },
      )
      | inr (due, f) ↦ (t, suc count, Paced-fetched validity start now t at count w h (rw ec f) due)
    ]

calls-Paced :
    (validity start now : ℕ) (ts : List ℕ) (w : Wrapped (List ℕ)) (at count : ℕ)
    → InOrder now ts
    → Paced validity start now w at count
    → (at' : ℕ) × (count' : ℕ) × Paced validity start
        (last_of now ts)
        (calls_at (lasting (some validity)) ts w)
        at'
        count'
unfolding calls_at
calls-Paced validity start now [] w at count o h = (at, count, h)
calls-Paced validity start now (t ∷ ts) w at count o h =
    let (at₁, count₁, h₁) = later_call-Paced validity start now t at count w o.0 h in
    calls-Paced validity start t ts (provide_credentials (lasting (some validity)) t w) at₁ count₁
      o.1 h₁

-- However many calls follow a first one, at times that do not go back: where the credentials of the
-- provider are valid for `validity`, each fetch comes half of this time after the one before it, at
-- the earliest; so after the first fetch there are at most as many as halves have passed.
pub calls_at_pace :
    (validity t : ℕ) (ts : List ℕ)
    → InOrder t ts
    → Spaced (validity / 2) (calls_at (lasting (some validity)) (t ∷ ts) (new [])).inner
      × ((count : ℕ) × (length (calls_at (lasting (some validity)) (t ∷ ts) (new [])).inner
            ≡ suc count)
          × (count * (validity / 2) ≤ last_of t ts - t))
unfolding calls_at
calls_at_pace validity t ts o =
    let (at, count, h) = calls-Paced validity t t ts _ t 0 o (first_call validity t) in
    (rw h.listed h.spaced, (count, rw h.listed (ap suc h.counted), omega (arith, h.spent, h.past)))

-- Credentials without an expiry are fetched once.
record Kept (w : Wrapped (List ℕ)) : Type 0 where
  kept : (e : CachedEntry) × (w.cache ≡ some e) × (e.refresh_at ≡ none)
  once : length w.inner ≡ 1

fresh_entry-endless :
    (t : ℕ) (e : CachedEntry) → e.refresh_at ≡ none → fresh_entry t (some e) ≡ some e.credentials
unfolding fresh_entry
fresh_entry-endless t e h = rw h refl

calls-Kept :
    (ts : List ℕ) (w : Wrapped (List ℕ)) → Kept w → length (calls_at (lasting none) ts w).inner ≡ 1
unfolding calls_at
calls-Kept [] w k = k.once
calls-Kept (t ∷ ts) w k =
    let (e, ec, er) = k.kept in
    calls-Kept ts (provide_credentials (lasting none) t w) (
      rw
        (provide_credentials-cached (lasting none) t w e.credentials
          (rw ec (fresh_entry-endless t e er)))
        record { kept = (e, ec, er); once = k.once })

-- However many calls there are: where the credentials do not expire, the provider is asked once.
pub calls_at_once :
    (t : ℕ) (ts : List ℕ) → length (calls_at (lasting none) (t ∷ ts) (new [])).inner ≡ 1
unfolding calls_at provide_credentials fresh_entry after_fetch new_entry
calls_at_once t ts = calls-Kept ts _ (record { kept = (_, refl, refl); once = refl })
