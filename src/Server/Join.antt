-- ===== src/Server/Join.antt =====
-- lib.rs: the tasks of `run` side by side, until `join_all` has joined them.
use http_dragonfly.Prelude.{
  ℕ, ◌<◌, ◌≡◌, refl, Bool, true, false, List, [], ◌∷◌, ◌++◌, map, length, length-append, length-map,
  ◌∙◌, All, All-append, All-prefix, All-suffix, if◌then◌else◌, arith,
}
use http_dragonfly.Server.{stopped, Service, Step, Reach, here, next, service}
use http_dragonfly.Server.Shutdown.{stopped_lem}
use http_dragonfly.Server.Signal.{SignalKind, can_install}
use http_dragonfly.Server.Health.{HealthStep}
use http_dragonfly.Server.Run.{Spawned, listener_server, health_server}

-- A task of `run`: the loop of a listener, that of the health check, or a panic before it.
pub data Task : Type 0 where
  looping : Service → Task
  responding : Service → Task
  crashed : Task

-- `service_loop` installs its signal handlers in the task; the health check has installed its own
-- before.
abbrev pub task_of : {F : Type 0} → (SignalKind → Bool) → Spawned F → Task
task_of installs (listener_server cfg) = if can_install installs then looping service else crashed
task_of installs (health_server port timeout) = responding service

-- One of the loops takes a step.
pub data RunStep : List Task → List Task → Type 0 where
  at :
      (before after : List Task) {s u : Service}
      → Step s u
      → RunStep (before ++ looping s ∷ after) (before ++ looping u ∷ after)
  at_health :
      (before after : List Task) {s u : Service}
      → HealthStep s u
      → RunStep (before ++ responding s ∷ after) (before ++ responding u ∷ after)

pub data RunReach (ts : List Task) : List Task → Type 0 where
  begun : RunReach ts ts
  went : {us vs : List Task} → RunReach ts us → RunStep us vs → RunReach ts vs

-- The task is over, so that it can be joined.
abbrev pub IsOver : Task → Type 0
IsOver (looping s) = s.phase ≡ stopped
IsOver (responding s) = s.phase ≡ stopped
IsOver crashed = Unit

-- Every connection that the task accepted has been served to its end.
abbrev pub IsServed : Task → Type 0
IsServed (looping s) = (i : ℕ) → i < s.accepted → s.ended i ≡ true
IsServed (responding s) = (i : ℕ) → i < s.accepted → s.ended i ≡ true
IsServed crashed = Unit

-- A loop has been started as `service_loop` does.
abbrev pub FromStart : Task → Type 0
FromStart (looping s) = Reach service s
FromStart (responding s) = Reach service s
FromStart crashed = Unit

either : (b : Bool) → FromStart (if b then looping service else crashed)
either true = here
either false = tt

pub tasks-FromStart :
    {F : Type 0} (installs : SignalKind → Bool) (servers : List (Spawned F))
    → All FromStart (map (task_of installs) servers)
tasks-FromStart installs [] = tt
tasks-FromStart installs (listener_server cfg ∷ servers) =
    (either (can_install installs), tasks-FromStart installs servers)
tasks-FromStart installs (health_server port timeout ∷ servers) =
    (here, tasks-FromStart installs servers)

RunStep-FromStart : {ts us : List Task} → RunStep ts us → All FromStart ts → All FromStart us
RunStep-FromStart (at before after {s} {u} st) h =
    let (from, rest) = All-suffix FromStart before (looping s ∷ after) h in
    All-append FromStart before (looping u ∷ after)
      (All-prefix FromStart before (looping s ∷ after) h) (next from st, rest)
RunStep-FromStart (at_health before after {s} {u} st) h =
    let (from, rest) = All-suffix FromStart before (responding s ∷ after) h in
    All-append FromStart before (responding u ∷ after)
      (All-prefix FromStart before (responding s ∷ after) h) (next from st, rest)

pub RunReach-FromStart : {ts us : List Task} → RunReach ts us → All FromStart ts → All FromStart us
RunReach-FromStart begun h = h
RunReach-FromStart (went r st) h = RunStep-FromStart st (RunReach-FromStart r h)

IsOver-IsServed : (t : Task) → FromStart t → IsOver t → IsServed t
IsOver-IsServed (looping s) r over = λ i l. stopped_lem i r over l
IsOver-IsServed (responding s) r over = λ i l. stopped_lem i r over l
IsOver-IsServed crashed r over = tt

over-IsServed : (ts : List Task) → All FromStart ts → All IsOver ts → All IsServed ts
over-IsServed [] h o = tt
over-IsServed (t ∷ ts) h o = (IsOver-IsServed t h.0 o.0, over-IsServed ts h.1 o.1)

length-RunStep : {ts us : List Task} → RunStep ts us → length us ≡ length ts
length-RunStep (at before after {s} {u} st) =
    omega
      (arith, length-append before (looping s ∷ after), length-append before (looping u ∷ after))
length-RunStep (at_health before after {s} {u} st) = omega (
  arith,
  length-append before (responding s ∷ after),
  length-append before (responding u ∷ after),
)

length-RunReach : {ts us : List Task} → RunReach ts us → length us ≡ length ts
length-RunReach begun = refl
length-RunReach (went r st) = length-RunStep st ∙ length-RunReach r

-- Once all tasks are over, so that `run` has joined them and returns, every connection that any of
-- them accepted has been served to its end; there is still one task for each server.
pub joined_lem :
    {F : Type 0} (installs : SignalKind → Bool) (servers : List (Spawned F)) {ts : List Task}
    → RunReach (map (task_of installs) servers) ts
    → All IsOver ts
    → (length ts ≡ length servers) × All IsServed ts
joined_lem installs servers r over = (
  length-RunReach r ∙ length-map (task_of installs) servers,
  over-IsServed _ (RunReach-FromStart r (tasks-FromStart installs servers)) over,
)
