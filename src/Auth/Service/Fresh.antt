-- ===== src/Auth/Service/Fresh.antt =====
-- aws_auth: what a task is served for its role, and when it expires.
use mathlib.Core.Path.{subst}
use http_dragonfly.Prelude.{ℕ, String, ◌≡◌, Option, arith, inl, inr, Bool-cases, eqb}
use http_dragonfly.Auth.Cache.{Credentials, ProviderResult, provided}
use http_dragonfly.Auth.Refresh
use http_dragonfly.Auth.Refresh.{finished, tick}
use http_dragonfly.Auth.Refresh.Unexpired
use http_dragonfly.Auth.Refresh.Unexpired.{Answered, Served, Run-Served}
use http_dragonfly.Auth.Providers.{Provider, returned}
use http_dragonfly.Auth.Service.{Service, Step, resolve, time, provide, Reach, here, next, start}
use http_dragonfly.Auth.Service.Roles.{role_isolation}

module _ (Issued : Option String → ProviderResult → Type 0) where
  -- What AWS answers in this step has not expired then.
  abbrev pub InTime : {s t : Service} → Step Issued s t → Type 0
  InTime (resolve s st) = Unit
  InTime (time s n) = Unit
  InTime (provide s i role p st e k f) = Answered st

  pub data Run (s : Service) : Service → Type 0 where
    started : Run s s
    going : {t u : Service} → Run s t → (st : Step Issued t u) → InTime st → Run s u

  Run-Reach : {s t : Service} → Run s t → Reach Issued s t
  Run-Reach started = here
  Run-Reach (going r st a) = next (Run-Reach r) st

  module _ {now : ℕ} where
    shared-Run :
        {s : Service} → Run (start now) s → (a : ℕ) → Unexpired.Run (Refresh.new now) (s.shared a)
    shared-Run started a = Unexpired.started
    shared-Run (going r (resolve s st) l) a = shared-Run r a
    shared-Run (going r (time s n) l) a = Unexpired.going (shared-Run r a) (tick (s.shared a) n) tt
    shared-Run (going r (provide s i role p st e k f) l) a =
        elim (Bool-cases (eqb p.allocation a)) [
          | inl b ↦ rw b (Unexpired.going (shared-Run r p.allocation) st l)
          | inr b ↦ rw b (shared-Run r a)
        ]

    Step-Served :
        {s t : Service}
        → Run (start now) s
        → (st : Step Issued s t) → InTime st
        → (a i : ℕ) (c : Credentials) → (t.shared a).phase i ≡ finished (provided c)
        → Served (s.shared a) i c
    Step-Served r (resolve s st) l a i c e = inl e
    Step-Served r (time s n) l a i c e = inl e
    Step-Served r (provide s j role p st q k f) l a i c e = elim (Bool-cases (eqb p.allocation a)) [
      | inl b ↦
          let same : p.allocation ≡ a = ground arith in
          subst (λ n. Served (s.shared n) i c) same
            (Run-Served (shared-Run r p.allocation) st l i c (rw b at e))
      | inr b ↦ inl (rw b at e)
    ]

    -- From an empty map of providers, whatever the tasks do, as long as AWS never answers with
    -- credentials that have expired when it answers: the credentials that a task gets in a step from
    -- the provider that it was given for its role have been issued for this role, and had not
    -- expired when the task last read the clock, unless the task had got them before the step.
    pub unexpired_for_role :
        {s t : Service}
        → Run (start now) s
        → (st : Step Issued s t) → InTime st
        → (i : ℕ) (role : Option String) (p : Provider) (c : Credentials)
        → t.providers.phase i ≡ returned role p
        → (t.shared p.allocation).phase i ≡ finished (provided c)
        → Issued role (provided c) × Served (s.shared p.allocation) i c
    unexpired_for_role r st l i role p c e g = (
      role_isolation Issued i role p c (next (Run-Reach r) st) e g,
      Step-Served r st l p.allocation i c g,
    )
