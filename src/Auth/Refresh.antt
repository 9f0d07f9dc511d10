-- ===== src/Auth/Refresh.antt =====
-- aws_auth/cache.rs: tasks that share one `RefreshingCredentials`, as interleaved steps. A step is
-- what a task of `get_or_refresh` does between two points where it may have to wait. A lock that is
-- free may go to any task that waits for it; so every order in which the fair lock of tokio serves
-- its queue is among the sequences of steps.
pub mod Exclusive
pub mod SingleFlight
pub mod Collapse
pub mod Unexpired
use http_dragonfly.Prelude.{ℕ, suc, ◌+◌, ◌≤◌, ◌≡◌, Option, none, some, eqb, if◌then◌else◌}
use http_dragonfly.Auth.Cache.{
  Credentials, CachedEntry, ProviderResult, provided, fresh_entry, after_fetch,
}

-- Where a task stands: before a call; with the clock read, before the read lock; waiting for the
-- write lock; fetching under it, with the clock read again; finished.
pub data Phase : Type 0 where
  idle : Phase
  reading : ℕ → Phase
  waiting : Phase
  fetching : ℕ → Phase
  finished : ProviderResult → Phase

-- `writer` is the task that holds the write lock across its fetch; `calls` counts the fetches.
pub record System : Type 0 where
  pub clock : ℕ
  pub cache : Option CachedEntry
  pub writer : Option ℕ
  pub phase : ℕ → Phase
  pub calls : ℕ

abbrev pub moved : (ℕ → Phase) → ℕ → Phase → ℕ → Phase
moved phase i ph j = if eqb i j then ph else phase j

pub data Step : System → System → Type 0 where
  -- time passes
  tick : (s : System) (n : ℕ) → Step s (record s { clock = s.clock + n })
  -- a call begins: `let now = SystemTime::now()`
  begin :
      (s : System) (i : ℕ)
      → s.phase i ≡ idle
      → Step s (record s { phase = moved s.phase i (reading s.clock) })
  -- under the read lock the entry is fresh, or it is not
  read_hit :
      (s : System) (i t : ℕ) (c : Credentials)
      → s.phase i ≡ reading t
      → s.writer ≡ none
      → fresh_entry t s.cache ≡ some c
      → Step s (record s { phase = moved s.phase i (finished (provided c)) })
  read_miss :
      (s : System) (i t : ℕ)
      → s.phase i ≡ reading t
      → s.writer ≡ none
      → fresh_entry t s.cache ≡ none
      → Step s (record s { phase = moved s.phase i waiting })
  -- the write lock is granted, and the second check finds a fresh entry, or the fetch begins
  write_hit :
      (s : System) (i : ℕ) (c : Credentials)
      → s.phase i ≡ waiting
      → s.writer ≡ none
      → fresh_entry s.clock s.cache ≡ some c
      → Step s (record s { phase = moved s.phase i (finished (provided c)) })
  write_miss :
      (s : System) (i : ℕ)
      → s.phase i ≡ waiting
      → s.writer ≡ none
      → fresh_entry s.clock s.cache ≡ none
      → Step s (record s {
        phase = moved s.phase i (fetching s.clock);
        writer = some i;
        calls = s.calls + 1;
      })
  -- the fetch ends, and the lock is released
  fetch_done :
      (s : System) (i t : ℕ) (r : ProviderResult)
      → s.phase i ≡ fetching t
      → s.writer ≡ some i
      → Step s (record s {
        cache = (after_fetch t s.clock s.cache r).1;
        phase = moved s.phase i (finished (after_fetch t s.clock s.cache r).0);
        writer = none;
      })
  -- the caller takes the result, and may call again
  leave :
      (s : System) (i : ℕ) (r : ProviderResult)
      → s.phase i ≡ finished r
      → Step s (record s { phase = moved s.phase i idle })

pub data Reach (s : System) : System → Type 0 where
  here : Reach s s
  next : {t u : System} → Reach s t → Step t u → Reach s u

-- `RefreshingCredentials::new`, before any call.
abbrev pub new : ℕ → System
new now = record { clock = now; cache = none; writer = none; phase = λ _. idle; calls = 0 }
