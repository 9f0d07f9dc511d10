-- ===== src/Auth/Service/Single.antt =====
-- aws_auth: what holds of each shared provider holds among all tasks.
use mathlib.Core.Path.{subst}
use http_dragonfly.Prelude.{ℕ, String, ◌≡◌, sym, Option, inl, inr, Bool-cases, eqb}
use http_dragonfly.Auth.Cache.{ProviderResult}
use http_dragonfly.Auth.Refresh
use http_dragonfly.Auth.Refresh.{System, fetching, tick}
use http_dragonfly.Auth.Refresh.Exclusive.{one_fetch}
use http_dragonfly.Auth.Providers
use http_dragonfly.Auth.Providers.{Provider, returned}
use http_dragonfly.Auth.Providers.Shared.{one_provider}
use http_dragonfly.Auth.Service.{Service, resolve, time, provide, Reach, here, next, start}

module _ (Issued : Option String → ProviderResult → Type 0) {now : ℕ} where
  providers-Reach :
      {s : Service} → Reach Issued (start now) s → Providers.Reach Providers.start s.providers
  providers-Reach here = Providers.here
  providers-Reach (next r (resolve s st)) = Providers.next (providers-Reach r) st
  providers-Reach (next r (time s n)) = providers-Reach r
  providers-Reach (next r (provide s i role p st e k f)) = providers-Reach r

  -- Each shared provider goes through steps of its own.
  shared-Reach :
      {s : Service}
      → Reach Issued (start now) s
      → (a : ℕ) → Refresh.Reach (Refresh.new now) (s.shared a)
  shared-Reach here a = Refresh.here
  shared-Reach (next r (resolve s st)) a = shared-Reach r a
  shared-Reach (next r (time s n)) a = Refresh.next (shared-Reach r a) (tick (s.shared a) n)
  shared-Reach (next r (provide s i role p st e k f)) a = elim (Bool-cases (eqb p.allocation a)) [
    | inl b ↦ rw b (Refresh.next (shared-Reach r p.allocation) st)
    | inr b ↦ rw b (shared-Reach r a)
  ]

  -- Whatever the tasks do from an empty map of providers, two tasks that fetch the credentials of
  -- one role at the same time, each from the provider that it was given, are the same task.
  pub one_fetch_per_role :
      {s : Service} (i j : ℕ) (role : Option String) (p q : Provider) (t t' : ℕ)
      → Reach Issued (start now) s
      → s.providers.phase i ≡ returned role p
      → s.providers.phase j ≡ returned role q
      → (s.shared p.allocation).phase i ≡ fetching t
      → (s.shared q.allocation).phase j ≡ fetching t'
      → i ≡ j
  one_fetch_per_role {s} i j role p q t t' r e f g h =
      let same : p ≡ q = (one_provider i j role p q (providers-Reach r) e f).0 in
      one_fetch i j t t' (shared-Reach r p.allocation) g
        (subst (λ (o : Provider). (s.shared o.allocation).phase j ≡ fetching t') (sym same) h)
