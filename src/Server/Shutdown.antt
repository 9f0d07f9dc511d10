-- ===== src/Server/Shutdown.antt =====
-- lib.rs: what `service_loop` has done when it returns, and what its `JoinSet` holds before.
use mathlib.Core.Path.{subst}
use http_dragonfly.Prelude.{
  suc, All-append, All-prefix, All-suffix, ℕ, ◌<◌, ◌≡◌, refl, ◌⊎◌, Bool, true, List, [], ◌∷◌, ◌++◌,
  eqb, any, All, length, arith,
}
use http_dragonfly.Server.{
  accepting, draining, stopped, Service, Step, signal, end, accept, accept_error, shut_down,
  join_next, stop, Reach, here, next, service,
}

abbrev held : ℕ → List ℕ → Bool
held i js = any (eqb i) js

-- A removed number is the only one that may be missing.
held-remove :
    (before after : List ℕ) (i j : ℕ)
    → held j (before ++ i ∷ after) ≡ true
    → (held j (before ++ after) ≡ true) ⊎ (i ≡ j)
held-remove [] after i j h = ground arith
held-remove (k ∷ before) after i j h = ground (arith, held-remove before after i j)

-- Every accepted connection is in the set or has ended, and none is left when the loop stops.
pub record Accounted (s : Service) : Type 0 where
  pub kept : (i : ℕ) → i < s.accepted → (held i s.join_set ≡ true) ⊎ (s.ended i ≡ true)
  pub empty : s.phase ≡ stopped → s.join_set ≡ []
  pub whole : s.phase ≡ accepting → length s.join_set ≡ s.accepted
  pub known : All (λ i. i < s.accepted) s.join_set

All-suc : (n : ℕ) (js : List ℕ) → All (λ i. i < n) js → All (λ i. i < suc n) js
All-suc n [] a = tt
All-suc n (j ∷ js) a = (omega (arith, a.0), All-suc n js a.1)

All-remove :
    (P : ℕ → Type 0) (before after : List ℕ) (i : ℕ)
    → All P (before ++ i ∷ after)
    → All P (before ++ after)
All-remove P before after i a =
    All-append P before after (All-prefix P before (i ∷ after) a)
      (All-suffix P before (i ∷ after) a).1

Step-Accounted : {s u : Service} → Step s u → Accounted s → Accounted u
Step-Accounted (signal s) h = record {
  kept = h.kept;
  empty = h.empty;
  whole = h.whole;
  known = h.known;
}
Step-Accounted (end s i l) h = record {
  kept = λ j k. ground (arith, h.kept j k);
  empty = h.empty;
  whole = h.whole;
  known = h.known;
}
Step-Accounted (accept s p g) h = record {
  kept = λ j k. ground (arith, h.kept j);
  empty = λ q. cc;
  whole = λ q. ground (arith, h.whole p);
  known = (omega arith, All-suc s.accepted s.join_set h.known);
}
Step-Accounted (accept_error s p g) h = h
Step-Accounted (shut_down s p g) h = record {
  kept = h.kept;
  empty = λ q. cc;
  whole = λ q. cc;
  known = h.known;
}
Step-Accounted (join_next s before after i p e f) h = record {
  kept = λ j k. ground (arith, h.kept j k, held-remove before after i j);
  empty = λ q. cc;
  whole = λ q. cc;
  known =
      All-remove (λ j. j < s.accepted) before after i (subst (All (λ j. j < s.accepted)) e h.known);
}
Step-Accounted (stop s p e) h = record {
  kept = h.kept;
  empty = λ q. e;
  whole = λ q. cc;
  known = h.known;
}

pub Reach-Accounted : {s : Service} → Reach service s → Accounted s
Reach-Accounted here = record {
  kept = λ i l. ground arith;
  empty = λ q. refl;
  whole = λ q. refl;
  known = tt;
}
Reach-Accounted (next r st) = Step-Accounted st (Reach-Accounted r)

-- When the loop of a listener has stopped, every connection that it accepted has been served to its
-- end.
pub stopped_lem :
    {s : Service} (i : ℕ) → Reach service s → s.phase ≡ stopped → i < s.accepted → s.ended i ≡ true
stopped_lem i r q l = let h = Reach-Accounted r in ground (arith, h.kept i l, h.empty q)

-- Until a signal is handled, the set holds a task for every connection since the start, also for
-- those that have ended.
pub join_set_grows :
    {s : Service} → Reach service s → s.phase ≡ accepting → length s.join_set ≡ s.accepted
join_set_grows r q = (Reach-Accounted r).whole q

Step-signalled :
    {s u : Service}
    → Step s u
    → s.signalled ≡ true
    → (u.signalled ≡ true) × (u.accepted ≡ s.accepted)
Step-signalled (signal s) h = (refl, refl)
Step-signalled (end s i l) h = (h, refl)
Step-signalled (accept s p g) h = cc
Step-signalled (accept_error s p g) h = cc
Step-signalled (shut_down s p g) h = (h, refl)
Step-signalled (join_next s before after i p e f) h = (h, refl)
Step-signalled (stop s p e) h = (h, refl)

-- Once a signal has arrived, no connection is accepted.
pub Reach-signalled :
    {s u : Service}
    → Reach s u
    → s.signalled ≡ true
    → (u.signalled ≡ true) × (u.accepted ≡ s.accepted)
Reach-signalled here h = (h, refl)
Reach-signalled (next r st) h =
    let (g, e) = Reach-signalled r h in let (g', e') = Step-signalled st g in (g', cc (e, e'))

pub Reach_trans : {s t u : Service} → Reach s t → Reach t u → Reach s u
Reach_trans r here = r
Reach_trans r (next q st) = next (Reach_trans r q) st

-- After a signal, where the connections in the set have ended, the loop can stop.
pub drains :
    (js : List ℕ) (s : Service)
    → s.phase ≡ draining
    → s.join_set ≡ js
    → All (λ i. s.ended i ≡ true) js
    → (u : Service) × Reach s u × (u.phase ≡ stopped)
drains [] s p e a = (record s { phase = stopped }, next here (stop s p e), refl)
drains (i ∷ js) s p e a =
    let (u, r, q) = drains js (record s { join_set = js }) p refl a.1 in
    (u, Reach_trans (next here (join_next s [] js i p e a.0)) r, q)
