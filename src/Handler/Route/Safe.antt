-- ===== src/Handler/Route/Safe.antt =====
-- handler.rs: routing ends, and only with targets of the listener.
use mathlib.Core.Path.{subst}
use http_dragonfly.Prelude.{
  HttpError, ℕ, String, true, false, ◌≡◌, ◌≢◌, refl, sym, ap, ◌⊎◌, inl, inr, none, List, [], ◌∷◌,
  ok, All, All-select, Option-cases, Ensures, returned, is_some, unwrap_or, select,
}
use http_dragonfly.Prelude.Table
use http_dragonfly.Platform.{HeaderValue, FilterInput, Platform}
use http_dragonfly.Config.Types.{TargetConfig, ResponseStrategy, conditional_routing}
use http_dragonfly.Context.{Context, RequestParts}
use http_dragonfly.Context.Iterator.{items}
use http_dragonfly.Target.{run, header_strings, filter_input}
use http_dragonfly.Handler.Route.{Routed, routed, too_many, is_conditional, route}
use http_dragonfly.Handler.Route.Laws.{
  holds, is_default_target, verdict, allowed_condition, route_conditional_lem, route_allowed_lem,
}

-- The value of every header is a text.
abbrev pub Readable : {M F J : Type 0} → Platform M F J → List (String × HeaderValue) → Type 0
Readable p hs = All (λ h. p.to_str h.1 ≢ none) hs

-- The targets of a routed request satisfy a predicate.
abbrev pub AllRouted : {F : Type 0} → (TargetConfig F → Type 0) → Routed F → Type 0
AllRouted P (routed targets id) = All P targets
AllRouted P too_many = Unit

module _ {M F J : Type 0} (p : Platform M F J) where
  header_strings-ok :
      (hs : List (String × HeaderValue))
      → Readable p hs
      → (texts : List (String × String)) × (header_strings p hs ≡ ok texts)
  unfolding header_strings
  header_strings-ok [] h = ([], refl)
  header_strings-ok ((n, v) ∷ hs) h = elim (Option-cases (p.to_str v)) [
    | inl e ↦ absurd (h.0 e)
    | inr (text, e) ↦
        let (texts, es) = header_strings-ok hs h.1 in ((n, text) ∷ texts, rw (e, es) refl)
  ]

  filter_input-ok :
      (ctx : Context) (req : RequestParts M) (body : List ℕ)
      → Readable p (p.headers.iter req.headers)
      → (input : FilterInput J) × (filter_input p ctx req body ≡ ok input)
  unfolding filter_input
  filter_input-ok ctx req body h =
      let (texts, e) = header_strings-ok (p.headers.iter req.headers) h in
      (
        record {
          body = unwrap_or (p.parse_json body) p.empty_object;
          env = Table.extend [] (items ctx);
          headers = Table.extend [] texts;
          uri = req.uri;
        },
        rw e refl,
      )

pub conditional-cases :
    (s : ResponseStrategy) → (s ≡ conditional_routing) ⊎ (is_conditional s ≡ false)
conditional-cases conditional_routing = inl refl
conditional-cases _ = inr refl

module _ {F : Type 0} (P : TargetConfig F → Type 0) where
  verdict-AllRouted :
      (trues defaults : List (TargetConfig F))
      → All P trues
      → All P defaults
      → AllRouted P (verdict trues defaults)
  unfolding verdict
  verdict-AllRouted [] [] h k = tt
  verdict-AllRouted [] (d ∷ ds) h k = (k.0, tt)
  verdict-AllRouted (t ∷ []) ds h k = (h.0, tt)
  verdict-AllRouted (t ∷ u ∷ ts) ds h k = tt

  -- The strategy of a validated listener, with readable headers: the loop ends, and a predicate that
  -- holds of the targets of the listener holds of those that it routes to.
  pub route-AllRouted :
      {M J : Type 0} (E : HttpError → Type 0) (p : Platform M F J) (ctx : Context)
      (req : RequestParts M) (body : List ℕ) (strategy : ResponseStrategy)
      (targets : List (TargetConfig F))
      → Readable p (p.headers.iter req.headers)
      → (is_conditional strategy ≡ true → All (λ t. is_some t.condition ≡ true) targets)
      → All P targets
      → Ensures E (AllRouted P) (route p ctx req body strategy targets)
  route-AllRouted E p ctx req body strategy targets r v h =
      let (input, e) = filter_input-ok p ctx req body r in
      elim (conditional-cases strategy) [
        | inl c ↦
            subst (λ s. Ensures E (AllRouted P) (route p ctx req body s targets)) (sym c)
              (rw (route_conditional_lem p ctx req body input e targets (v (ap is_conditional c))) (
                returned (
                  verdict-AllRouted (select (holds p input) targets)
                    (select is_default_target targets) (All-select P (holds p input) targets h)
                    (All-select P is_default_target targets h))))
        | inr other ↦ rw (route_allowed_lem p ctx req body input e strategy targets other) (
            returned
              (All-select P (λ t. allowed_condition (λ f. run p f input) t.condition) targets h))
      ]
