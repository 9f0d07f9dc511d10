-- ===== src/Auth/Refresh/Unexpired.antt =====
-- aws_auth/cache.rs: whatever the tasks do, no call serves credentials that had expired when it last
-- read the clock, as long as the provider answers with none.
use mathlib.Core.Path.{subst}
use http_dragonfly.Prelude.{
  ℕ, ◌+◌, ◌≤◌, ◌≡◌, ◌≢◌, true, ◌⊎◌, inl, inr, OnSome, arith, Bool-cases, eqb,
}
use http_dragonfly.Auth.Cache.{Credentials, ProviderResult, provided, is_before, after_fetch}
use http_dragonfly.Auth.Cache.Timely.{Alive, Timely, fresh_entry-Alive, after_fetch-Alive}
use http_dragonfly.Auth.Refresh.{
  Phase, idle, reading, waiting, fetching, finished, moved, System, Step, tick, begin, read_hit,
  read_miss, write_hit, write_miss, fetch_done, leave, new,
}

-- What the provider answers in this step has not expired then.
abbrev pub Answered : {s u : System} → Step s u → Type 0
Answered (tick s n) = Unit
Answered (begin s i e) = Unit
Answered (read_hit s i t c e w f) = Unit
Answered (read_miss s i t e w f) = Unit
Answered (write_hit s i c e w f) = Unit
Answered (write_miss s i e w f) = Unit
Answered (fetch_done s i t r e w) = Alive s.clock r
Answered (leave s i r e) = Unit

pub data Run (s : System) : System → Type 0 where
  started : Run s s
  going : {t u : System} → Run s t → (st : Step t u) → Answered st → Run s u

-- When a task last read the clock.
abbrev pub read_at : Phase → ℕ → ℕ
read_at idle clock = clock
read_at (reading t) clock = t
read_at waiting clock = clock
read_at (fetching t) clock = t
read_at (finished r) clock = clock

record Prompt (s : System) : Type 0 where
  timely : OnSome Timely s.cache
  past : (i : ℕ) → read_at (s.phase i) s.clock ≤ s.clock

read_at_later :
    (ph : Phase) (clock n : ℕ) → read_at ph clock ≤ clock → read_at ph (clock + n) ≤ clock + n
read_at_later idle clock n h = omega arith
read_at_later (reading t) clock n h = omega arith
read_at_later waiting clock n h = omega arith
read_at_later (fetching t) clock n h = omega arith
read_at_later (finished r) clock n h = omega arith

moved-past :
    (s : System) (i : ℕ) (ph : Phase)
    → Prompt s
    → read_at ph s.clock ≤ s.clock
    → (j : ℕ) → read_at (moved s.phase i ph j) s.clock ≤ s.clock
moved-past s i ph h l j = elim (Bool-cases (eqb i j)) [ inl b ↦ rw b l | inr b ↦ rw b (h.past j) ]

module _ (s : System) (h : Prompt s) where
  fetching-past : (i t : ℕ) → s.phase i ≡ fetching t → t ≤ s.clock
  fetching-past i t e = subst (λ ph. read_at ph s.clock ≤ s.clock) e (h.past i)

Step-Prompt : {s u : System} (st : Step s u) → Answered st → Prompt s → Prompt u
Step-Prompt (tick s n) a h = record {
  timely = h.timely;
  past = λ i. read_at_later (s.phase i) s.clock n (h.past i);
}
Step-Prompt (begin s i e) a h = record {
  timely = h.timely;
  past = moved-past s i _ h (omega arith);
}
Step-Prompt (read_hit s i t c e w f) a h = record {
  timely = h.timely;
  past = moved-past s i _ h (omega arith);
}
Step-Prompt (read_miss s i t e w f) a h = record {
  timely = h.timely;
  past = moved-past s i _ h (omega arith);
}
Step-Prompt (write_hit s i c e w f) a h = record {
  timely = h.timely;
  past = moved-past s i _ h (omega arith);
}
Step-Prompt (write_miss s i e w f) a h = record {
  timely = h.timely;
  past = moved-past s i _ h (omega arith);
}
Step-Prompt (fetch_done s i t r e w) a h = record {
  timely = (after_fetch-Alive t s.clock s.cache r (fetching-past s h i t e) h.timely a).1;
  past = moved-past s i _ h (omega arith);
}
Step-Prompt (leave s i r e) a h = record {
  timely = h.timely;
  past = moved-past s i _ h (omega arith);
}

Run-Prompt : {now : ℕ} {s : System} → Run (new now) s → Prompt s
Run-Prompt started = record { timely = tt; past = λ i. omega arith }
Run-Prompt (going r st a) = Step-Prompt st a (Run-Prompt r)

-- The task had finished with this before, or the credentials had not expired at its last reading.
abbrev pub Served : System → ℕ → Credentials → Type 0
Served s i c =
    (s.phase i ≡ finished (provided c)) ⊎ (is_before (read_at (s.phase i) s.clock) c.expiry ≡ true)

moved-Served :
    (s : System) (i : ℕ) (out : ProviderResult) (j : ℕ) (c : Credentials)
    → Alive (read_at (s.phase i) s.clock) out
    → moved s.phase i (finished out) j ≡ finished (provided c)
    → Served s j c
moved-Served s i out j c a e = elim (Bool-cases (eqb i j)) [
  | inl b ↦
      let same : i ≡ j = ground arith in
      let q : finished out ≡ finished (provided c) = rw b at e in
      let given : out ≡ provided c = cc q in
      inr (
        subst (λ k. is_before (read_at (s.phase k) s.clock) c.expiry ≡ true) same
          (subst (Alive (read_at (s.phase i) s.clock)) given a))
  | inr b ↦ inl (rw b at e)
]

other-Served :
    (s : System) (i : ℕ) (ph : Phase) (j : ℕ) (c : Credentials)
    → ph ≢ finished (provided c)
    → moved s.phase i ph j ≡ finished (provided c)
    → Served s j c
other-Served s i ph j c n e = elim (Bool-cases (eqb i j)) [
  | inl b ↦ absurd (n (rw b at e))
  | inr b ↦ inl (rw b at e)
]

at_phase :
    (s : System) (i : ℕ) (ph : Phase) (out : ProviderResult)
    → s.phase i ≡ ph
    → Alive (read_at ph s.clock) out
    → Alive (read_at (s.phase i) s.clock) out
at_phase s i ph out e a = rw e a

Step-Served :
    {s u : System} (st : Step s u)
    → Answered st
    → Prompt s
    → (j : ℕ) (c : Credentials) → u.phase j ≡ finished (provided c)
    → Served s j c
Step-Served (tick s n) a h j c q = inl q
Step-Served (begin s i e) a h j c q = other-Served s i _ j c (λ x. cc x) q
Step-Served (read_hit s i t d e w f) a h j c q =
    moved-Served s i (provided d) j c
      (at_phase s i (reading t) (provided d) e (fresh_entry-Alive t s.cache h.timely f)) q
Step-Served (read_miss s i t e w f) a h j c q = other-Served s i _ j c (λ x. cc x) q
Step-Served (write_hit s i d e w f) a h j c q =
    moved-Served s i (provided d) j c
      (at_phase s i waiting (provided d) e (fresh_entry-Alive s.clock s.cache h.timely f)) q
Step-Served (write_miss s i e w f) a h j c q = other-Served s i _ j c (λ x. cc x) q
Step-Served (fetch_done s i t r e w) a h j c q =
    let (alive, timely) =
      after_fetch-Alive t s.clock s.cache r (fetching-past s h i t e) h.timely a in
    moved-Served s i (after_fetch t s.clock s.cache r).0 j c
      (at_phase s i (fetching t) (after_fetch t s.clock s.cache r).0 e alive) q
Step-Served (leave s i r e) a h j c q = other-Served s i _ j c (λ x. cc x) q

-- From a new cache, whatever the tasks do, as long as the provider never answers with credentials
-- that have expired when it answers: a step after which a task has finished with credentials is one
-- before which it had finished with them, or these had not expired when the task last read the
-- clock, be they cached, fetched, or stale after a failed fetch.
pub Run-Served :
    {now : ℕ} {s u : System}
    → Run (new now) s
    → (st : Step s u) → Answered st
    → (i : ℕ) (c : Credentials) → u.phase i ≡ finished (provided c)
    → Served s i c
Run-Served r st a i c e = Step-Served st a (Run-Prompt r) i c e
