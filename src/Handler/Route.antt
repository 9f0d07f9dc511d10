-- ===== src/Handler/Route.antt =====
-- handler.rs: which targets a request goes to (the loop over the listener's targets).
pub mod Laws
pub mod Safe
pub mod Order
use http_dragonfly.Prelude.{
  ℕ, String, Bool, true, false, Option, none, some, List, [], ◌∷◌, ◌++◌, Outcome, ok, panic, ◌>>=◌,
  unwrap, if◌then◌else◌,
}
use http_dragonfly.Platform.{Platform}
use http_dragonfly.Config.Types.{
  TargetConfig, TargetConditionConfig, default, filter, ResponseStrategy, conditional_routing,
}
use http_dragonfly.Config.Target
use http_dragonfly.Context.{Context, RequestParts}
use http_dragonfly.Target.{check_condition}

-- `too_many` is the early return with `no_target_response`.
pub data Routed (F : Type 0) : Type 0 where
  routed : List (TargetConfig F) → Option String → Routed F
  too_many : Routed F

abbrev pub is_conditional : ResponseStrategy → Bool
is_conditional conditional_routing = true
is_conditional _ = false

module _ {F : Type 0} where
  abbrev is_default : TargetConditionConfig F → Bool
  is_default default = true
  is_default (filter f) = false

  -- A filter came true: `targets` is empty, or holds a default, or holds another target.
  push_true : TargetConfig F → List (TargetConfig F) → Outcome (Option (List (TargetConfig F)))
  push_true t [] = ok (some (t ∷ []))
  push_true t (t' ∷ ts) = do
    condition ← unwrap t'.condition
    ok (if is_default condition then some (t ∷ []) else none)

  push_default : TargetConfig F → List (TargetConfig F) → List (TargetConfig F)
  push_default t [] = t ∷ []
  push_default t (t' ∷ ts) = t' ∷ ts

  -- `if !targets.is_empty() { conditional_target_id = Some(targets[0].id()) }`
  abbrev id_after : List (TargetConfig F) → Option String → Option String
  id_after [] id = id
  id_after (t ∷ ts) id = some (Target.id t)

module _ {M F J : Type 0} (p : Platform M F J) (ctx : Context) (req : RequestParts M)
    (body : List ℕ) where
  -- A round under conditional routing; `none` is the early return.
  conditional_round :
      TargetConfig F
      → TargetConditionConfig F
      → List (TargetConfig F)
      → Outcome (Option (List (TargetConfig F)))
  unfolding push_true push_default
  conditional_round t default targets = ok (some (push_default t targets))
  conditional_round t (filter f) targets = do
    holds ← check_condition p t ctx req body
    if holds then push_true t targets else ok (some targets)

  unfoldable pub route_conditional :
      List (TargetConfig F) → List (TargetConfig F) → Option String → Outcome (Routed F)
  unfolding conditional_round
  route_conditional [] targets id = ok (routed targets id)
  route_conditional (t ∷ ts) targets id = do
    condition ← unwrap t.condition
    round ← conditional_round t condition targets
    elim round [
      | none ↦ ok too_many
      | some targets' ↦ route_conditional ts targets' (id_after targets' id)
    ]

  -- A round under any other strategy.
  allowed : TargetConfig F → Option (TargetConditionConfig F) → Outcome Bool
  allowed t none = ok true
  allowed t (some default) = ok true
  allowed t (some (filter f)) = check_condition p t ctx req body

  unfoldable pub route_allowed : List (TargetConfig F) → List (TargetConfig F) → Outcome (Routed F)
  unfolding allowed
  route_allowed [] targets = ok (routed targets none)
  route_allowed (t ∷ ts) targets = do
    holds ← allowed t t.condition
    route_allowed ts (if holds then targets ++ (t ∷ []) else targets)

  unfoldable pub route : ResponseStrategy → List (TargetConfig F) → Outcome (Routed F)
  unfolding route_conditional route_allowed
  route strategy targets =
      if is_conditional strategy
      then route_conditional targets [] none
      else route_allowed targets []
