-- ===== src/Auth/Service/Pure.antt =====
-- aws_auth/cache.rs: what a shared provider holds and gives out, it has been given by its inner
-- provider.
use mathlib.Core.Path.{subst}
use http_dragonfly.Prelude.{
  ℕ, String, ◌≡◌, Option, none, some, OnSome, inl, inr, arith, Bool-cases, eqb,
}
use http_dragonfly.Auth.Cache.{
  Credentials, CachedEntry, ProviderResult, provided, provider_error, fresh_entry, new_entry,
  stale_or_error, after_fetch, is_before,
}
use http_dragonfly.Auth.Refresh
use http_dragonfly.Auth.Refresh.{
  System, idle, finished, tick, begin, read_hit, read_miss, write_hit, write_miss, fetch_done,
  leave,
}
use http_dragonfly.Auth.Service.{fetched}

fresh_entry-cached :
    (P : Credentials → Type 0) (now : ℕ) (cache : Option CachedEntry) (c : Credentials)
    → OnSome (λ (e : CachedEntry). P e.credentials) cache
    → fresh_entry now cache ≡ some c
    → P c
unfolding fresh_entry
fresh_entry-cached P now none c h e = cc
fresh_entry-cached P now (some entry) c h e = elim (Bool-cases (is_before now entry.refresh_at)) [
  | inl b ↦ subst P (ground arith) h
  | inr b ↦ absurd (ground arith)
]

module _ (Issued : Option String → ProviderResult → Type 0) where
  abbrev pub OfRole : Option String → Credentials → Type 0
  OfRole role c = Issued role (provided c)

  abbrev pub OfRoleIn : Option String → Option CachedEntry → Type 0
  OfRoleIn role cache = OnSome (λ (e : CachedEntry). OfRole role e.credentials) cache

  abbrev OfRoleOut : Option String → ProviderResult → Type 0
  OfRoleOut role (provided c) = OfRole role c
  OfRoleOut role (provider_error e) = Unit

  -- All that a cache holds and has given out was issued for one role.
  pub record Pure (role : Option String) (s : System) : Type 0 where
    pub cached : OfRoleIn role s.cache
    pub given : (i : ℕ) (c : Credentials) → s.phase i ≡ finished (provided c) → OfRole role c

  stale_or_error-OfRole :
      (role : Option String) (now : ℕ) (cache : Option CachedEntry) (e : String)
      → OfRoleIn role cache
      → OfRoleOut role (stale_or_error now cache e)
  unfolding stale_or_error
  stale_or_error-OfRole role now none e h = tt
  stale_or_error-OfRole role now (some entry) e h =
      elim (Bool-cases (is_before now entry.expires_at)) [ inl b ↦ rw b h | inr b ↦ rw b tt ]

  after_fetch-OfRole :
      (role : Option String) (t now : ℕ) (cache : Option CachedEntry) (r : ProviderResult)
      → OfRoleIn role cache
      → Issued role r
      → OfRoleOut role (after_fetch t now cache r).0 × OfRoleIn role (after_fetch t now cache r).1
  unfolding after_fetch new_entry
  after_fetch-OfRole role t now cache (provided c) h r = (r, r)
  after_fetch-OfRole role t now cache (provider_error e) h r =
      (stale_or_error-OfRole role t cache e h, h)

  module _ (role : Option String) where
    moved-given :
        (s : System) (i : ℕ) (ph : Refresh.Phase)
        → Pure role s
        → ((c : Credentials) → ph ≡ finished (provided c) → OfRole role c)
        → (j : ℕ) (c : Credentials) → Refresh.moved s.phase i ph j ≡ finished (provided c)
        → OfRole role c
    moved-given s i ph h new j c e = elim (Bool-cases (eqb i j)) [
      | inl b ↦ new c (rw b at e)
      | inr b ↦ h.given j c (rw b at e)
    ]

    finished-OfRole :
        (out : ProviderResult) (c : Credentials)
        → OfRoleOut role out
        → finished out ≡ finished (provided c)
        → OfRole role c
    finished-OfRole out c h e = let q : out ≡ provided c = cc e in subst (OfRoleOut role) q h

    pub Step-Pure :
        {s t : System} (st : Refresh.Step s t)
        → OnSome (Issued role) (fetched st)
        → Pure role s
        → Pure role t
    Step-Pure (tick s n) f h = record { cached = h.cached; given = h.given }
    Step-Pure (begin s i e) f h = record {
      cached = h.cached;
      given = moved-given s i _ h (λ c q. cc q);
    }
    Step-Pure (read_hit s i t c e w q) f h = record {
      cached = h.cached;
      given = moved-given s i _ h (λ c'.
          finished-OfRole (provided c) c'
            (fresh_entry-cached (OfRole role) t s.cache c h.cached q));
    }
    Step-Pure (read_miss s i t e w q) f h = record {
      cached = h.cached;
      given = moved-given s i _ h (λ c q. cc q);
    }
    Step-Pure (write_hit s i c e w q) f h = record {
      cached = h.cached;
      given = moved-given s i _ h (λ c'.
          finished-OfRole (provided c) c'
            (fresh_entry-cached (OfRole role) s.clock s.cache c h.cached q));
    }
    Step-Pure (write_miss s i e w q) f h = record {
      cached = h.cached;
      given = moved-given s i _ h (λ c q. cc q);
    }
    Step-Pure (fetch_done s i t r e w) f h =
        let (out, kept) = after_fetch-OfRole role t s.clock s.cache r h.cached f in
        record {
          cached = kept;
          given =
              moved-given s i _ h (λ c. finished-OfRole (after_fetch t s.clock s.cache r).0 c out);
        }
    Step-Pure (leave s i r e) f h = record {
      cached = h.cached;
      given = moved-given s i _ h (λ c q. cc q);
    }
