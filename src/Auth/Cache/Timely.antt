-- ===== src/Auth/Cache/Timely.antt =====
-- aws_auth/cache.rs: entries that are refreshed before they expire, and what is served from them.
use mathlib.Core.Path.{subst}
use http_dragonfly.Prelude.{
  ℕ, ◌≤◌, ◌≡◌, refl, true, String, Option, none, some, inl, inr, OnSome, arith, Bool-cases,
}
use http_dragonfly.Auth.Cache.{
  Credentials, CachedEntry, ProviderResult, provided, provider_error, is_before, half_life,
  fresh_entry, new_entry, stale_or_error, after_fetch,
}

abbrev pub Alive : ℕ → ProviderResult → Type 0
Alive now (provided c) = is_before now c.expiry ≡ true
Alive now (provider_error e) = Unit

abbrev pub Before : Option ℕ → Option ℕ → Type 0
Before none none = Unit
Before none (some e) = ⊥
Before (some r) none = ⊥
Before (some r) (some e) = r ≤ e

-- The entry is refreshed before it expires, and the readings of the clock are in the past.
abbrev pub Timely : CachedEntry → Type 0
Timely entry =
    (entry.expires_at ≡ entry.credentials.expiry) × Before entry.refresh_at entry.expires_at

half_life-Before : (now : ℕ) (e : Option ℕ) → is_before now e ≡ true → Before (half_life now e) e
half_life-Before now none h = tt
half_life-Before now (some e) h = ground arith

fresh-Alive : (t : ℕ) (r e : Option ℕ) → Before r e → is_before t r ≡ true → is_before t e ≡ true
fresh-Alive t none none b h = refl
fresh-Alive t none (some e) b h = absurd b
fresh-Alive t (some r) none b h = absurd b
fresh-Alive t (some r) (some e) b h = ground arith

pub fresh_entry-Alive :
    (t : ℕ) (cache : Option CachedEntry) {c : Credentials}
    → OnSome Timely cache
    → fresh_entry t cache ≡ some c
    → is_before t c.expiry ≡ true
unfolding fresh_entry
fresh_entry-Alive t none h e = cc
fresh_entry-Alive t (some entry) h e =
    ground (arith, fresh-Alive t entry.refresh_at entry.expires_at h.1)

Alive-earlier : (t now : ℕ) (e : Option ℕ) → t ≤ now → is_before now e ≡ true → is_before t e ≡ true
Alive-earlier t now none l h = refl
Alive-earlier t now (some e) l h = ground arith

stale_or_error-Alive :
    (t : ℕ) (cache : Option CachedEntry) (e : String)
    → OnSome Timely cache
    → Alive t (stale_or_error t cache e)
unfolding stale_or_error
stale_or_error-Alive t none e h = tt
stale_or_error-Alive t (some entry) e h = elim (Bool-cases (is_before t entry.expires_at)) [
  | inl b ↦ rw b (subst (λ x. is_before t x ≡ true) h.0 b)
  | inr b ↦ rw b tt
]

pub after_fetch-Alive :
    (t now : ℕ) (cache : Option CachedEntry) (r : ProviderResult)
    → t ≤ now
    → OnSome Timely cache
    → Alive now r
    → Alive t (after_fetch t now cache r).0 × OnSome Timely (after_fetch t now cache r).1
unfolding after_fetch new_entry
after_fetch-Alive t now cache (provided c) l h a =
    (Alive-earlier t now c.expiry l a, (refl, half_life-Before now c.expiry a))
after_fetch-Alive t now cache (provider_error e) l h a = (stale_or_error-Alive t cache e h, h)
