-- ===== src/Server/Ending.antt =====
-- lib.rs: no state of `run` is stuck: its tasks can always come to their end.
use mathlib.Core.Path.{subst}
use mathlib.Core.List.{append_assoc}
use http_dragonfly.Prelude.{
  ℕ, ◌<◌, ◌≡◌, refl, sym, ◌∙◌, ◌⊎◌, inl, inr, Bool, true, List, [], ◌∷◌, ◌++◌, map, All, arith,
}
use http_dragonfly.Server.{
  LoopPhase, accepting, draining, stopped, marked, Service, signal, end, shut_down, Reach, here,
  next, service,
}
use http_dragonfly.Server.Shutdown.{Reach-Accounted, Reach_trans, drains}
use http_dragonfly.Server.Signal.{SignalKind}
use http_dragonfly.Server.Run.{Spawned}
use http_dragonfly.Server.Join.{
  Task, looping, responding, crashed, at, at_health, RunReach, begun, went, IsOver, FromStart,
  task_of, tasks-FromStart, RunReach-FromStart,
}

-- What a service keeps while connections end.
abbrev Alike : Service → Service → Type 0
Alike s u = (u.phase ≡ s.phase) × (u.join_set ≡ s.join_set) × (u.accepted ≡ s.accepted)

marked_keeps :
    (ended : ℕ → Bool) (i : ℕ) (js : List ℕ)
    → All (λ j. ended j ≡ true) js
    → All (λ j. marked ended i j ≡ true) js
marked_keeps ended i [] a = tt
marked_keeps ended i (j ∷ js) a = (ground (arith, a.0), marked_keeps ended i js a.1)

-- Connections can end.
end_all :
    (js : List ℕ) (s : Service)
    → All (λ i. i < s.accepted) js
    → (u : Service) × Reach s u × Alike s u × All (λ i. u.ended i ≡ true) js
end_all [] s a = (s, here, (refl, refl, refl), tt)
end_all (i ∷ js) s a =
    let (u, r, (p, j, c), e) = end_all js s a.1 in
    (
      record u { ended = marked u.ended i },
      next r (end u i (subst (λ n. i < n) (sym c) a.0)),
      (p, j, c),
      (ground arith, marked_keeps u.ended i js e),
    )

drain_all :
    (s : Service)
    → s.phase ≡ draining
    → All (λ i. i < s.accepted) s.join_set
    → (u : Service) × Reach s u × (u.phase ≡ stopped)
drain_all s q a =
    let (u, r, (p, j, c), e) = end_all s.join_set s a in
    let (v, r', over) = drains s.join_set u (p ∙ q) j e in (v, Reach_trans r r', over)

phase-cases : (p : LoopPhase) → (p ≡ accepting) ⊎ (p ≡ draining) ⊎ (p ≡ stopped)
phase-cases accepting = inl refl
phase-cases draining = inr (inl refl)
phase-cases stopped = inr (inr refl)

-- A loop can stop.
can_stop : (s : Service) → Reach service s → (u : Service) × Reach s u × (u.phase ≡ stopped)
can_stop s from =
    let known = (Reach-Accounted from).known in
    elim (phase-cases s.phase) [
      | inl p ↦
          let (u, r, over) =
            drain_all (record s { signalled = true; phase = draining }) refl known in
          (
            u,
            Reach_trans
                (next (next here (signal s)) (shut_down (record s { signalled = true }) p refl)) r,
            over,
          )
      | inr (inl p) ↦ drain_all s p known
      | inr (inr p) ↦ (s, here, p)
    ]

RunReach-trans : {ts us vs : List Task} → RunReach ts us → RunReach us vs → RunReach ts vs
RunReach-trans r begun = r
RunReach-trans r (went q st) = went (RunReach-trans r q) st

looping-RunReach :
    (before after : List Task) {s u : Service}
    → Reach s u
    → RunReach (before ++ looping s ∷ after) (before ++ looping u ∷ after)
looping-RunReach before after here = begun
looping-RunReach before after (next r st) =
    went (looping-RunReach before after r) (at before after st)

responding-RunReach :
    (before after : List Task) {s u : Service}
    → Reach s u
    → RunReach (before ++ responding s ∷ after) (before ++ responding u ∷ after)
responding-RunReach before after here = begun
responding-RunReach before after (next r st) =
    went (responding-RunReach before after r) (at_health before after st)

-- The first task comes to its end beside the others.
first-IsOver :
    (before after : List Task) (t : Task)
    → FromStart t
    → (t' : Task) × RunReach (before ++ t ∷ after) (before ++ t' ∷ after) × IsOver t'
first-IsOver before after (looping s) from =
    let (u, r, over) = can_stop s from in (looping u, looping-RunReach before after r, over)
first-IsOver before after (responding s) from =
    let (u, r, over) = can_stop s from in (responding u, responding-RunReach before after r, over)
first-IsOver before after crashed from = (crashed, begun, tt)

all-IsOver :
    (before ts : List Task)
    → All FromStart ts
    → (us : List Task) × RunReach (before ++ ts) (before ++ us) × All IsOver us
all-IsOver before [] a = ([], begun, tt)
all-IsOver before (t ∷ ts) a =
    let (t', r, over) = first-IsOver before ts t a.0 in
    let (us, q, rest) = all-IsOver (before ++ t' ∷ []) ts a.1 in
    (
      t' ∷ us,
      RunReach-trans r (
          subst (λ l. RunReach l (before ++ t' ∷ us)) (append_assoc before (t' ∷ []) ts)
            (subst (λ l. RunReach ((before ++ t' ∷ []) ++ ts) l) (append_assoc before (t' ∷ []) us)
              q)),
      (over, rest),
    )

-- From every state that the tasks of `run` reach, they can all come to their end: signals arrive,
-- the connections end, and every loop drains its set and stops.
pub can_join :
    {F : Type 0} (installs : SignalKind → Bool) (servers : List (Spawned F)) {ts : List Task}
    → RunReach (map (task_of installs) servers) ts
    → (us : List Task) × RunReach ts us × All IsOver us
can_join installs servers r =
    all-IsOver [] _ (RunReach-FromStart r (tasks-FromStart installs servers))
