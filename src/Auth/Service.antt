-- ===== src/Auth/Service.antt =====
-- aws_auth: the tasks that sign requests. Each asks `provider_for` for the shared provider of its
-- role and then calls `provide_credentials` of the provider that it was given.
pub mod Fresh
pub mod Roles
pub mod Pure
pub mod Single
pub mod Signs
use http_dragonfly.Prelude.{ℕ, ◌+◌, String, ◌≡◌, Option, none, some, OnSome, eqb, if◌then◌else◌}
use http_dragonfly.Auth.Cache.{ProviderResult}
use http_dragonfly.Auth.Refresh
use http_dragonfly.Auth.Refresh.{
  System, tick, begin, read_hit, read_miss, write_hit, write_miss, fetch_done, leave,
}
use http_dragonfly.Auth.Providers
use http_dragonfly.Auth.Providers.{Provider, returned, Providers}

-- The task that makes a step.
abbrev pub caller : {s t : System} → Refresh.Step s t → Option ℕ
caller (tick s n) = none
caller (begin s i e) = some i
caller (read_hit s i t c e w f) = some i
caller (read_miss s i t e w f) = some i
caller (write_hit s i c e w f) = some i
caller (write_miss s i e w f) = some i
caller (fetch_done s i t r e w) = some i
caller (leave s i r e) = some i

-- What the inner provider answers in a step.
abbrev pub fetched : {s t : System} → Refresh.Step s t → Option ProviderResult
fetched (tick s n) = none
fetched (begin s i e) = none
fetched (read_hit s i t c e w f) = none
fetched (read_miss s i t e w f) = none
fetched (write_hit s i c e w f) = none
fetched (write_miss s i e w f) = none
fetched (fetch_done s i t r e w) = some r
fetched (leave s i r e) = none

-- `CREDENTIALS` with its tasks, and the `RefreshingCredentials` at each allocation.
pub record Service : Type 0 where
  pub providers : Providers
  pub shared : ℕ → System

abbrev pub updated : (ℕ → System) → ℕ → System → ℕ → System
updated shared a t b = if eqb a b then t else shared b

-- `Issued role r` says that AWS may answer r to a request for the credentials of this role.
module _ (Issued : Option String → ProviderResult → Type 0) where
  pub data Step : Service → Service → Type 0 where
    -- a step of `provider_for`
    resolve :
        (s : Service) {q : Providers}
        → Providers.Step s.providers q
        → Step s (record s { providers = q })
    -- the one clock that all read
    time :
        (s : Service) (n : ℕ)
        → Step s (record s { shared = λ a. record (s.shared a) { clock = (s.shared a).clock + n } })
    -- a step of `get_or_refresh` of the provider that the task has been given; a fetch asks the
    -- inner provider of it
    provide :
        (s : Service) (i : ℕ) (role : Option String) (p : Provider) {t : System}
        → (st : Refresh.Step (s.shared p.allocation) t) → s.providers.phase i ≡ returned role p
        → caller st ≡ some i
        → OnSome (Issued p.inner) (fetched st)
        → Step s (record s { shared = updated s.shared p.allocation t })

  pub data Reach (s : Service) : Service → Type 0 where
    here : Reach s s
    next : {t u : Service} → Reach s t → Step t u → Reach s u

-- Before any request.
abbrev pub start : ℕ → Service
start now = record { providers = Providers.start; shared = λ a. Refresh.new now }
