-- ===== src/Auth/Service/Roles.antt =====
-- aws_auth: a task never gets the credentials of another role.
use mathlib.Core.Path.{subst}
use native.Mathlib.Decide.{dec_lt}
use http_dragonfly.Prelude.{
  ℕ, ◌≤◌, String, ◌≡◌, refl, sym, Option, none, OnSome, inl, inr, arith, Bool-cases, eqb,
}
use http_dragonfly.Auth.Cache.{Credentials, ProviderResult, provided}
use http_dragonfly.Auth.Refresh
use http_dragonfly.Auth.Refresh.{
  System, idle, finished, tick, begin, read_hit, read_miss, write_hit, write_miss, fetch_done,
  leave,
}
use http_dragonfly.Auth.Providers.{Provider, returned}
use http_dragonfly.Auth.Providers.Owned.{Owned, Step-Owned, start-Owned}
use http_dragonfly.Auth.Service.Pure.{OfRoleIn, Pure, Step-Pure}
use http_dragonfly.Auth.Service.{
  fetched, Service, Step, resolve, time, provide, Reach, here, next, start,
}

module _ (Issued : Option String → ProviderResult → Type 0) where
  -- No task has called it.
  pub record Untouched (s : System) : Type 0 where
    pub empty : s.cache ≡ none
    pub nobody : (i : ℕ) → s.phase i ≡ idle

  Untouched-Pure : (role : Option String) (s : System) → Untouched s → Pure Issued role s
  Untouched-Pure role s u = record {
    cached = subst (OfRoleIn Issued role) (sym u.empty) tt;
    given = λ i c e. cc (e, u.nobody i);
  }

  -- Every allocation is owned by one role, and holds what was issued for it.
  pub record Sound (s : Service) : Type 0 where
    pub owner : ℕ → Option String
    pub owned : Owned owner s.providers
    pub pure : (a : ℕ) → Pure Issued (owner a) (s.shared a)
    pub untouched : (a : ℕ) → s.providers.built ≤ a → Untouched (s.shared a)

  Step-Sound : {s t : Service} → Step Issued s t → Sound s → Sound t
  Step-Sound (resolve s {q} st) h =
      let after = Step-Owned st h.owned in
      record {
        owner = after.owner';
        owned = after.owned;
        pure = λ a. elim (dec_lt a s.providers.built) [
          | yes l ↦ subst (λ r. Pure Issued r (s.shared a)) (sym (after.kept a l)) (h.pure a)
          | no l ↦ Untouched-Pure (after.owner' a) (s.shared a) (h.untouched a (omega arith))
        ];
        untouched = λ a l. h.untouched a (omega (arith, after.grows));
      }
  Step-Sound (time s n) h = record {
    owner = h.owner;
    owned = h.owned;
    pure = λ a. record { cached = (h.pure a).cached; given = (h.pure a).given };
    untouched = λ a l. let u = h.untouched a l in record { empty = u.empty; nobody = u.nobody };
  }
  Step-Sound (provide s i role p {t} st e k f) h =
      let (below, asks, owns) = h.owned.handed i role p e in
      let same : p.inner ≡ h.owner p.allocation = cc (asks, owns) in
      let f' = subst (λ r. OnSome (Issued r) (fetched st)) same f in
      record {
        owner = h.owner;
        owned = h.owned;
        pure = λ a. elim (Bool-cases (eqb p.allocation a)) [
          | inl b ↦ rw b (
              subst (λ r. Pure Issued r t) (ground arith)
                (Step-Pure Issued (h.owner p.allocation) st f' (h.pure p.allocation)))
          | inr b ↦ rw b (h.pure a)
        ];
        untouched = λ a l. elim (Bool-cases (eqb p.allocation a)) [
          | inl b ↦ absurd (ground arith)
          | inr b ↦ rw b (h.untouched a l)
        ];
      }

  Reach-Sound : {now : ℕ} {s : Service} → Reach Issued (start now) s → Sound s
  Reach-Sound {now} here = record {
    owner = λ a. none;
    owned = start-Owned;
    pure = λ a. Untouched-Pure none (Refresh.new now) (record { empty = refl; nobody = λ i. refl });
    untouched = λ a l. record { empty = refl; nobody = λ i. refl };
  }
  Reach-Sound (next r st) = Step-Sound st (Reach-Sound r)

  -- Whatever the tasks do from an empty map, the credentials that a task gets from the provider
  -- that it was given for its role have been issued for this role.
  pub role_isolation :
      {now : ℕ} {s : Service} (i : ℕ) (role : Option String) (p : Provider) (c : Credentials)
      → Reach Issued (start now) s
      → s.providers.phase i ≡ returned role p
      → (s.shared p.allocation).phase i ≡ finished (provided c)
      → Issued role (provided c)
  role_isolation i role p c r e g =
      let h = Reach-Sound r in
      let (below, asks, owns) = h.owned.handed i role p e in
      subst (λ r. Issued r (provided c)) owns ((h.pure p.allocation).given i c g)
