-- ===== src/Server.antt =====
-- lib.rs: `service_loop`, the accept loop of a listener with its shutdown, as steps. health_check.rs
-- has the same loop around its own handler.
pub mod Shutdown
pub mod Signal
pub mod Health
pub mod Run
pub mod Join
pub mod Ending
pub mod Main
pub mod Bounded
use http_dragonfly.Prelude.{
  ℕ, suc, ◌+◌, ◌<◌, ◌≡◌, Bool, true, false, List, [], ◌∷◌, ◌++◌, eqb, if◌then◌else◌,
}

-- The loop; the loop over `join_next` after a signal; past both.
pub data LoopPhase : Type 0 where
  accepting draining stopped : LoopPhase

-- Connections are numbered as they are accepted. A task stays in the `JoinSet` until it is joined,
-- also after it has ended.
pub record Service : Type 0 where
  pub phase : LoopPhase
  pub signalled : Bool
  pub accepted : ℕ
  pub join_set : List ℕ
  pub ended : ℕ → Bool

abbrev pub marked : (ℕ → Bool) → ℕ → ℕ → Bool
marked ended i j = if eqb i j then true else ended j

-- `select!` is biased: it accepts only while no signal has arrived.
pub data Step : Service → Service → Type 0 where
  signal : (s : Service) → Step s (record s { signalled = true })
  -- the task of a connection ends
  end : (s : Service) (i : ℕ) → i < s.accepted → Step s (record s { ended = marked s.ended i })
  accept :
      (s : Service)
      → s.phase ≡ accepting
      → s.signalled ≡ false
      → Step s (record s { accepted = suc s.accepted; join_set = s.accepted ∷ s.join_set })
  accept_error : (s : Service) → s.phase ≡ accepting → s.signalled ≡ false → Step s s
  shut_down :
      (s : Service)
      → s.phase ≡ accepting
      → s.signalled ≡ true
      → Step s (record s { phase = draining })
  join_next :
      (s : Service) (before after : List ℕ) (i : ℕ)
      → s.phase ≡ draining
      → s.join_set ≡ before ++ i ∷ after
      → s.ended i ≡ true
      → Step s (record s { join_set = before ++ after })
  stop :
      (s : Service) → s.phase ≡ draining → s.join_set ≡ [] → Step s (record s { phase = stopped })

pub data Reach (s : Service) : Service → Type 0 where
  here : Reach s s
  next : {t u : Service} → Reach s t → Step t u → Reach s u

abbrev pub service : Service
service = record {
  phase = accepting;
  signalled = false;
  accepted = 0;
  join_set = [];
  ended = λ i. false;
}
