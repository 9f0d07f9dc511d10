-- ===== src/Server/Bounded.antt =====
-- lib.rs: how many steps the loop of a listener takes once a signal has arrived, and that it does not
-- get stuck.
use http_dragonfly.Prelude.{
  ℕ, ◌+◌, ◌≡◌, ◌≢◌, refl, true, List, [], ◌∷◌, length, length-append, All, arith,
}
use http_dragonfly.Server.{
  LoopPhase, accepting, draining, stopped, Service, Step, signal, end, accept, accept_error,
  shut_down, join_next, stop, Reach, here, next,
}
use http_dragonfly.Server.Shutdown.{Reach-signalled}

-- The steps that the loop itself takes; a signal arrives and a connection ends beside it.
abbrev pub own : {s u : Service} → Step s u → ℕ
own (signal s) = 0
own (end s i l) = 0
own (accept s p g) = 1
own (accept_error s p g) = 1
own (shut_down s p g) = 1
own (join_next s before after i p e f) = 1
own (stop s p e) = 1

abbrev pub loop_steps : {s u : Service} → Reach s u → ℕ
loop_steps here = 0
loop_steps (next r st) = loop_steps r + own st

-- What the loop has still to do after a signal.
abbrev pub left_in : LoopPhase → ℕ → ℕ
left_in accepting tasks = tasks + 2
left_in draining tasks = tasks + 1
left_in stopped tasks = 0

abbrev pub remaining : Service → ℕ
remaining s = left_in s.phase (length s.join_set)

Step-remaining :
    {s u : Service} (st : Step s u) → s.signalled ≡ true → own st + remaining u ≡ remaining s
Step-remaining (signal s) g = omega arith
Step-remaining (end s i l) g = omega arith
Step-remaining (accept s p f) g = cc
Step-remaining (accept_error s p f) g = cc
Step-remaining (shut_down s p f) g = rw p (omega arith)
Step-remaining (join_next s before after i p e f) g =
    rw (p, e) (omega (arith, length-append before (i ∷ after), length-append before after))
Step-remaining (stop s p e) g = rw (p, e) (omega arith)

Reach-remaining :
    {s u : Service} (r : Reach s u) → s.signalled ≡ true → loop_steps r + remaining u ≡ remaining s
Reach-remaining here g = omega arith
Reach-remaining (next {t} r st) g =
    omega (arith, Reach-remaining r g, Step-remaining st (Reach-signalled r g).0)

-- The loop can take a step.
abbrev pub Moves : Service → Type 0
Moves s = (u : Service) × (st : Step s u) × (own st ≡ 1)

draining-Moves :
    (s : Service) (js : List ℕ)
    → s.phase ≡ draining
    → s.join_set ≡ js
    → All (λ i. s.ended i ≡ true) js
    → Moves s
draining-Moves s [] p e a = (_, stop s p e, refl)
draining-Moves s (i ∷ js) p e a = (_, join_next s [] js i p e a.0, refl)

signalled-Moves :
    (s : Service) (phase : LoopPhase)
    → s.phase ≡ phase
    → s.signalled ≡ true
    → phase ≢ stopped
    → All (λ i. s.ended i ≡ true) s.join_set
    → Moves s
signalled-Moves s accepting p g n a = (_, shut_down s p g, refl)
signalled-Moves s draining p g n a = draining-Moves s s.join_set p refl a
signalled-Moves s stopped p g n a = absurd (n refl)

-- Once a signal has arrived, whatever the connections do: no connection is accepted any more; every
-- step of the loop brings it nearer to its end by one, and from the accept loop there are two steps
-- and one for each task in the set, from the loop over join_next one less; and where the tasks in
-- the set have ended and the loop has not stopped, it can take a step.
pub shutdown_ends :
    {s u : Service} (r : Reach s u)
    → s.signalled ≡ true
    → (u.accepted ≡ s.accepted)
      × (loop_steps r + remaining u ≡ remaining s)
      × (u.phase ≢ stopped → All (λ i. u.ended i ≡ true) u.join_set → Moves u)
shutdown_ends {u} r g =
    let (signalled, accepted) = Reach-signalled r g in
    (accepted, Reach-remaining r g, signalled-Moves u u.phase refl signalled)
