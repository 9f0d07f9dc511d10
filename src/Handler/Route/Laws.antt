-- ===== src/Handler/Route/Laws.antt =====
-- handler.rs: the targets of a request, described without the loop.
use mathlib.Core.List.{append-nil, append_assoc}
use http_dragonfly.Prelude.{
  ℕ, Bool, true, false, ◌≡◌, refl, Option, none, some, List, [], ◌∷◌, ◌++◌, ok, select, All,
  is_some, arith, ◌⊎◌, inl, inr,
}
use http_dragonfly.Platform.{FilterInput, Platform}
use http_dragonfly.Config.Types.{
  TargetConfig, TargetConditionConfig, default, filter, ResponseStrategy, conditional_routing,
}
use http_dragonfly.Config.Target
use http_dragonfly.Context.{Context, RequestParts}
use http_dragonfly.Target.{run, filter_input, check_condition}
use http_dragonfly.Handler.Route.{
  Routed, routed, too_many, is_conditional, route_conditional, allowed, route_allowed, route,
}

module _ {M F J : Type 0} (p : Platform M F J) (input : FilterInput J) where
  -- The condition is a filter that is true of the input.
  abbrev pub filter_holds : Option (TargetConditionConfig F) → Bool
  filter_holds (some (filter f)) = run p f input
  filter_holds _ = false

  abbrev pub holds : TargetConfig F → Bool
  holds t = filter_holds t.condition

module _ {F : Type 0} where
  abbrev pub default_condition : Option (TargetConditionConfig F) → Bool
  default_condition (some default) = true
  default_condition _ = false

  abbrev pub is_default_target : TargetConfig F → Bool
  is_default_target t = default_condition t.condition

  -- One true target is chosen, or else the first default; two true targets are an error.
  unfoldable pub verdict : (trues defaults : List (TargetConfig F)) → Routed F
  verdict [] [] = routed [] none
  verdict [] (d ∷ ds) = routed (d ∷ []) (some (Target.id d))
  verdict (t ∷ []) ds = routed (t ∷ []) (some (Target.id t))
  verdict (t ∷ t' ∷ ts) ds = too_many

  -- Under the other strategies: no condition, the default, or a true filter.
  abbrev pub allowed_condition : (F → Bool) → Option (TargetConditionConfig F) → Bool
  allowed_condition true_of none = true
  allowed_condition true_of (some default) = true
  allowed_condition true_of (some (filter f)) = true_of f

module _ {M F J : Type 0} (p : Platform M F J) (ctx : Context) (req : RequestParts M)
    (body : List ℕ) (input : FilterInput J)
    (readable : filter_input p ctx req body ≡ ok input) where
  check_condition-filter :
      (t : TargetConfig F) (f : F)
      → t.condition ≡ some (filter f)
      → check_condition p t ctx req body ≡ ok (run p f input)
  unfolding check_condition
  check_condition-filter t f e = rw (readable, e)

  abbrev HasCondition : TargetConfig F → Type 0
  HasCondition t = is_some t.condition ≡ true

  abbrev trues : List (TargetConfig F) → List (TargetConfig F)
  trues ts = select (holds p input) ts

  abbrev defaults : List (TargetConfig F) → List (TargetConfig F)
  defaults ts = select is_default_target ts

  -- The two sorts of condition.
  condition-cases :
      (c : Option (TargetConditionConfig F))
      → is_some c ≡ true
      → (c ≡ some default) ⊎ ((f : F) × (c ≡ some (filter f)))
  condition-cases none h = cc
  condition-cases (some default) h = inl refl
  condition-cases (some (filter f)) h = inr (f, refl)

  -- A true target `t` has been found.
  route-true :
      (ts : List (TargetConfig F)) (t : TargetConfig F) (f : F) (ds : List (TargetConfig F))
      → All HasCondition ts
      → t.condition ≡ some (filter f)
      → route_conditional p ctx req body ts (t ∷ []) (some (Target.id t))
        ≡ ok (verdict (t ∷ trues ts) ds)
  unfolding route_conditional verdict
  route-true [] t f ds a e = refl
  route-true (u ∷ ts) t f ds (h, a) e = elim (condition-cases u.condition h) [
    | inl eu ↦ ground (arith, eu, route-true ts t f ds a e)
    | inr (g, eu) ↦ ground (arith, eu, e, check_condition-filter u g eu, route-true ts t f ds a e)
  ]

  -- No true target yet, and the default `d`.
  route-default :
      (ts : List (TargetConfig F)) (d : TargetConfig F) (ds : List (TargetConfig F))
      → All HasCondition ts
      → d.condition ≡ some default
      → route_conditional p ctx req body ts (d ∷ []) (some (Target.id d))
        ≡ ok (verdict (trues ts) (d ∷ ds))
  unfolding route_conditional verdict
  route-default [] d ds a e = refl
  route-default (u ∷ ts) d ds (h, a) e = elim (condition-cases u.condition h) [
    | inl eu ↦ ground (arith, eu, route-default ts d ds a e)
    | inr (g, eu) ↦ ground (
      arith,
      eu,
      e,
      check_condition-filter u g eu,
      route-true ts u g (d ∷ ds) a eu,
      route-default ts d ds a e,
    )
  ]

  -- Nothing yet.
  route-none :
      (ts : List (TargetConfig F))
      → All HasCondition ts
      → route_conditional p ctx req body ts [] none ≡ ok (verdict (trues ts) (defaults ts))
  unfolding route_conditional verdict
  route-none [] a = refl
  route-none (u ∷ ts) (h, a) = elim (condition-cases u.condition h) [
    | inl eu ↦ ground (arith, eu, route-default ts u (defaults ts) a eu)
    | inr (g, eu) ↦ ground (
      arith,
      eu,
      check_condition-filter u g eu,
      route-true ts u g (defaults ts) a eu,
      route-none ts a,
    )
  ]

  -- Under conditional routing, with a condition on every target and readable request headers, the
  -- request goes to the one target whose filter is true; to the first default, if no filter is; to
  -- none, if there is no default either. Two true filters end it early.
  pub route_conditional_lem :
      (targets : List (TargetConfig F))
      → All HasCondition targets
      → route p ctx req body conditional_routing targets
        ≡ ok (verdict (select (holds p input) targets) (select is_default_target targets))
  unfolding route
  route_conditional_lem targets a = route-none targets a

  allowed_lem :
      (t : TargetConfig F) (c : Option (TargetConditionConfig F))
      → t.condition ≡ c
      → allowed p ctx req body t c ≡ ok (allowed_condition (λ f. run p f input) c)
  unfolding allowed
  allowed_lem t none e = refl
  allowed_lem t (some default) e = refl
  allowed_lem t (some (filter f)) e = check_condition-filter t f e

  abbrev is_allowed : TargetConfig F → Bool
  is_allowed t = allowed_condition (λ f. run p f input) t.condition

  route_allowed-select :
      (ts targets : List (TargetConfig F))
      → route_allowed p ctx req body ts targets ≡ ok (routed (targets ++ select is_allowed ts) none)
  unfolding route_allowed
  route_allowed-select [] targets = rw append-nil
  route_allowed-select (t ∷ ts) targets = rw (allowed_lem t t.condition refl) (
      ground (
        arith,
        route_allowed-select ts targets,
        route_allowed-select ts (targets ++ (t ∷ [])),
        append_assoc targets (t ∷ []) (select is_allowed ts),
      ))

  -- Under every other strategy, with readable request headers, the request goes to the targets
  -- without a condition, those with the default and those with a true filter, in their order.
  pub route_allowed_lem :
      (strategy : ResponseStrategy) (targets : List (TargetConfig F))
      → is_conditional strategy ≡ false
      → route p ctx req body strategy targets
        ≡ ok
            (routed (select (λ t. allowed_condition (λ f. run p f input) t.condition) targets) none)
  unfolding route
  route_allowed_lem strategy targets e = rw e (route_allowed-select targets [])
