-- ===== src/Handler/Handle/Spec.antt =====
-- handler.rs: `handle` as a whole, against a description of its stages.
use mathlib.Core.Path.{subst}
use http_dragonfly.Prelude.{
  ℕ, String, Bool, true, false, ◌≡◌, refl, sym, ap, ◌∙◌, Option, none, some, List, [], ◌∷◌, map, ok,
  Bool-cases, >>=-eq-ok, ok-injective, All, select, member, Distinct, is_some, arith, ◌⊎◌, inl, inr,
  if◌then◌else◌,
}
use http_dragonfly.Prelude.Table
use http_dragonfly.Platform.{FilterInput, Platform}
use http_dragonfly.Platform.Laws.{VisitsAll}
use http_dragonfly.Config.Types.{TargetConfig, ListenerConfig, ResponseStrategy}
use http_dragonfly.Config.Target
use http_dragonfly.Config.Listener
use http_dragonfly.Config.Validate.{target_ids}
use http_dragonfly.Config.Validate.Valid.{ValidListener}
use http_dragonfly.Context
use http_dragonfly.Context.{Context, RequestParts, Response}
use http_dragonfly.Headers.{transform_opt}
use http_dragonfly.Response.{ResponsesMap, empty_response, no_target_response}
use http_dragonfly.Target.{run, filter_input}
use http_dragonfly.Handler.Route.{Routed, routed, too_many, is_conditional, route}
use http_dragonfly.Handler.Route.Laws.{
  holds, is_default_target, verdict, allowed_condition, route_conditional_lem, route_allowed_lem,
}
use http_dragonfly.Handler.Route.Safe.{conditional-cases}
use http_dragonfly.Handler.Dispatch.{Network, Dispatched, dispatch_targets}
use http_dragonfly.Handler.Dispatch.Sent.{Sent, dispatch_targets-Sent}
use http_dragonfly.Handler.Collect.{collect}
use http_dragonfly.Handler.Collect.Laws.{ids_of, Gathered, collect-Gathered}
use http_dragonfly.Handler.Handle.{answer, handle_allowed, handle}
use http_dragonfly.Handler.Handle.Choice.{Chosen, select_response-Chosen}
use http_dragonfly.Handler.Handle.Safe.{conditional_strategy}

module _ {M F J : Type 0} (p : Platform M F J) (input : FilterInput J) where
  -- The targets that a request goes to.
  abbrev plan : ResponseStrategy → List (TargetConfig F) → Routed F
  plan s targets =
      if is_conditional s
      then verdict (select (holds p input) targets) (select is_default_target targets)
      else routed (select (λ t. allowed_condition (λ f. run p f input) t.condition) targets) none

  module _ (ctx : Context) (req : RequestParts M) (body : List ℕ)
      (readable : filter_input p ctx req body ≡ ok input) where
    route-plan :
        (s : ResponseStrategy) (targets : List (TargetConfig F))
        → (is_conditional s ≡ true → All (λ t. is_some t.condition ≡ true) targets)
        → route p ctx req body s targets ≡ ok (plan s targets)
    route-plan s targets v = elim (conditional-cases s) [
      | inl c ↦
          subst (λ s. route p ctx req body s targets ≡ ok (plan s targets)) (sym c)
            (route_conditional_lem p ctx req body input readable targets (v (ap is_conditional c)))
      | inr other ↦ rw other (route_allowed_lem p ctx req body input readable s targets other)
    ]

module _ {F : Type 0} where
  abbrev DistinctRouted : Routed F → Type 0
  DistinctRouted (routed targets id) = Distinct (target_ids targets)
  DistinctRouted too_many = Unit

  member-select :
      (test : TargetConfig F → Bool) (k : String) (ts : List (TargetConfig F))
      → member k (target_ids ts) ≡ false
      → member k (target_ids (select test ts)) ≡ false
  member-select test k [] h = h
  member-select test k (t ∷ ts) h = ground (arith, member-select test k ts)

  select-Distinct :
      (test : TargetConfig F → Bool) (ts : List (TargetConfig F))
      → Distinct (target_ids ts)
      → Distinct (target_ids (select test ts))
  select-Distinct test [] d = d
  select-Distinct test (t ∷ ts) d =
      ground (arith, select-Distinct test ts d.1, member-select test (Target.id t) ts d.0)

  verdict-Distinct :
      (trues defaults : List (TargetConfig F)) → DistinctRouted (verdict trues defaults)
  unfolding verdict
  verdict-Distinct [] [] = tt
  verdict-Distinct [] (d ∷ ds) = (refl, tt)
  verdict-Distinct (t ∷ []) ds = (refl, tt)
  verdict-Distinct (t ∷ u ∷ ts) ds = tt

module _ {M F J : Type 0} (p : Platform M F J) (net : Network M F) (cfg : ListenerConfig F)
    (is_match : String → Bool) (ctx : Context) (req : RequestParts M) (headers : M)
    (body : List ℕ) where
  -- A response to a request that goes to `targets`: each is sent its request, what came of it is in
  -- the map, and the response is the one that the strategy promises of this map.
  pub record Handled (targets : List (TargetConfig F)) (id : Option String) (out : Response M)
      : Type 0 where
    pub dispatched : List (Dispatched M F)
    pub in_order : map (λ d. d.target) dispatched ≡ targets
    pub sent : All (Sent p net ctx req headers body) dispatched
    pub responses : ResponsesMap M
    pub gathered : All (Gathered p responses) dispatched
    pub others :
        (k : String) → member k (ids_of p dispatched) ≡ false → Table.get responses k ≡ none
    pub chosen : Chosen p cfg.response is_match responses ctx (ok out) cfg.strategy id

  abbrev Answers : Routed F → Response M → Type 0
  Answers too_many out = no_target_response p cfg.response ctx ≡ ok out
  Answers (routed targets id) out = Handled targets id out

  ids_of-targets : (ds : List (Dispatched M F)) → ids_of p ds ≡ target_ids (map (λ d. d.target) ds)
  ids_of-targets [] = refl
  ids_of-targets (d ∷ ds) = ap (λ js. Target.id d.target ∷ js) (ids_of-targets ds)

  answer-Answers :
      (visits : VisitsAll p.visit)
      → p.regex cfg.response.failed_status_regex ≡ some is_match
      → (r : Routed F) (out : Response M) → DistinctRouted r
      → answer p net cfg ctx req headers body r ≡ ok out
      → Answers r out
  unfolding answer
  answer-Answers visits er too_many out d e = e
  answer-Answers visits er (routed targets id) out d e =
      let (ds, ed, e₁) =
        >>=-eq-ok (dispatch_targets p net ctx req headers body cfg.tls targets net.clients) _ e in
      let (m, em, e₂) = >>=-eq-ok (collect p ds) _ e₁ in
      let (in_order, sent) =
        dispatch_targets-Sent p net ctx req headers body cfg.tls targets net.clients ds ed in
      let distinct = subst Distinct (sym (ids_of-targets ds ∙ ap target_ids in_order)) d in
      let (gathered, others) = collect-Gathered p ds m distinct em in
      record {
        dispatched = ds;
        in_order = in_order;
        sent = sent;
        responses = m;
        gathered = gathered;
        others = others;
        chosen =
            subst (λ o. Chosen p cfg.response is_match m ctx o cfg.strategy id) e₂
              (select_response-Chosen p cfg.strategy cfg.response is_match id m ctx visits er);
      }

module _ {M F J : Type 0} (p : Platform M F J) (net : Network M F) (cfg : ListenerConfig F)
    (valid : ValidListener p cfg) where
  plan-Distinct : (input : FilterInput J) → DistinctRouted (plan p input cfg.strategy cfg.targets)
  plan-Distinct input = elim (Bool-cases (is_conditional cfg.strategy)) [
    | inl c ↦ rw c (
        verdict-Distinct (select (holds p input) cfg.targets)
          (select is_default_target cfg.targets))
    | inr other ↦ rw other (
        select-Distinct (λ t. allowed_condition (λ f. run p f input) t.condition) cfg.targets
          (valid.0).2)
  ]

  -- What handling a request with an allowed method amounts to: the headers are transformed without
  -- `Host`, and the response answers the plan.
  abbrev pub Completed :
      (String → Bool) → FilterInput J → Context → RequestParts M → List ℕ → Response M → Type 0
  Completed is_match input ctx req body out =
      (headers : M) × (transform_opt p ctx cfg.headers (p.headers.remove "host" req.headers)
        ≡ ok headers)
      × Answers p net cfg is_match ctx req headers body (plan p input cfg.strategy cfg.targets) out

  handle_allowed-Completed :
      VisitsAll p.visit
      → {is_match : String → Bool} → p.regex cfg.response.failed_status_regex ≡ some is_match
      → (root_ctx : Context) (ip : String) (req : RequestParts M) (body : List ℕ)
        (input : FilterInput J)
      → filter_input p (Context.with_request p root_ctx ip req (Listener.id cfg)) req body
        ≡ ok input
      → (out : Response M) → handle_allowed p net cfg root_ctx ip req body ≡ ok out
      → Completed is_match input
          (Context.with_request p root_ctx ip req (Listener.id cfg))
          req
          body
          out
  unfolding handle_allowed
  handle_allowed-Completed visits er root_ctx ip req body input readable out e =
      let ctx = Context.with_request p root_ctx ip req (Listener.id cfg) in
      let (headers, eh, e₁) =
        >>=-eq-ok (transform_opt p ctx cfg.headers (p.headers.remove "host" req.headers)) _ e in
      let (r, et, e₂) = >>=-eq-ok (route p ctx req body cfg.strategy cfg.targets) _ e₁ in
      let planned = ok-injective (
        sym et
        ∙ route-plan p input ctx req body readable cfg.strategy cfg.targets
            (conditional_strategy cfg.strategy cfg.response cfg.targets valid.1)) in
      (
        headers,
        eh,
        answer-Answers p net cfg _ ctx req headers body visits er
            (plan p input cfg.strategy cfg.targets) out (plan-Distinct input)
            (subst (λ r. answer p net cfg ctx req headers body r ≡ ok out) planned e₂),
      )

  -- For a valid listener, with a failure regex that compiles, a map that is visited key by key in
  -- any order and request headers that are texts: whenever handling a request returns a response,
  -- either its method is not allowed and the response is the empty one with status 405, or its
  -- method is allowed, the headers of the listener have been transformed without `Host` in the
  -- context of the request, and this response answers the routed request. If two filters are true,
  -- it is the no-target response. Else every routed target, in their order, was sent the
  -- request that is built and signed for it in its context; the map holds for each its response or
  -- what stands for its error, and nothing else; and the response is the one that the strategy
  -- promises of this map.
  pub handle-Answers :
      VisitsAll p.visit
      → {is_match : String → Bool} → p.regex cfg.response.failed_status_regex ≡ some is_match
      → (root_ctx : Context) (ip : String) (req : RequestParts M) (body : List ℕ)
        (input : FilterInput J)
      → filter_input p (Context.with_request p root_ctx ip req (Listener.id cfg)) req body
        ≡ ok input
      → (out : Response M) → handle p net cfg root_ctx ip req (some body) ≡ ok out
      → ((Listener.is_method_allowed cfg req.method ≡ false) × (empty_response p 405 ≡ ok out))
        ⊎ ((Listener.is_method_allowed cfg req.method ≡ true)
            × Completed is_match input
                (Context.with_request p root_ctx ip req (Listener.id cfg))
                req
                body
                out)
  unfolding handle
  handle-Answers visits er root_ctx ip req body input readable out e =
      let branch = λ (b : Bool).
        if b then handle_allowed p net cfg root_ctx ip req body else empty_response p 405 in
      elim (Bool-cases (Listener.is_method_allowed cfg req.method)) [
        | inl allowed ↦ inr (
          allowed,
          handle_allowed-Completed visits er root_ctx ip req body input readable out
              (ap branch (sym allowed) ∙ e),
        )
        | inr refused ↦ inl (refused, ap branch (sym refused) ∙ e)
      ]
