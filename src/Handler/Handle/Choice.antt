-- ===== src/Handler/Handle/Choice.antt =====
-- handler.rs: the response that each strategy chooses, described on the map of responses.
use http_dragonfly.Prelude.{
  String, Bool, ◌≡◌, refl, ◌⊎◌, inl, inr, Option, none, some, Outcome, expect,
}
use http_dragonfly.Prelude.Table
use http_dragonfly.Platform.{Platform}
use http_dragonfly.Platform.Laws.{VisitsAll}
use http_dragonfly.Config.Types.{
  ResponseConfig, ResponseStrategy, always_override, always_target_id, ok_then_failed,
  ok_then_target_id, ok_then_override, failed_then_ok, failed_then_target_id, failed_then_override,
  conditional_routing,
}
use http_dragonfly.Context.{Context, Response}
use http_dragonfly.Response.{
  ResponsesMap, ResponseKind, kind_ok, kind_failed, no_target_response, override_empty_response,
}
use http_dragonfly.Response.Find.{FoundAt, NoneFound, Finds, find_first_response_lem}
use http_dragonfly.Response.Select.{
  override_target, of_selected, select_second, select_from_two_targets_response,
  select_target_or_override_response, select_target_or_error_response,
}
use http_dragonfly.Handler.Handle.{select_by, select_response}

module _ {M F J : Type 0} (p : Platform M F J) (rc : ResponseConfig) (is_match : String → Bool)
    (m : ResponsesMap M) (ctx : Context) (out : Outcome (Response M)) where
  -- Some response of the kind, overridden in its own context; or, if there is none, `Else`.
  abbrev pub FirstOf : ResponseKind → Type 0 → Type 0
  FirstOf kind Else =
      ((k : String) × (found : FoundAt p is_match kind m k) × (out
          ≡ override_target p rc found.0 found.1))
      ⊎ (NoneFound p is_match kind m × Else)

  abbrev pub NoTarget : Type 0
  NoTarget = out ≡ expect (no_target_response p rc ctx)

  abbrev pub Overrides : Type 0
  Overrides = out ≡ expect (override_empty_response p rc 200 ctx)

  -- The response of one target, whatever its status; the no-target response, in the context of the
  -- target if that has dropped its error, and in that of the request if the target was not queried.
  abbrev pub ResponseAt : Option String → Type 0
  ResponseAt none = NoTarget
  ResponseAt (some id) =
      ((resp : Response M) × (target_ctx : Context) × (Table.get m id
          ≡ some (some resp, target_ctx))
        × (out ≡ override_target p rc resp target_ctx))
      ⊎ ((target_ctx : Context) × (Table.get m id ≡ some (none, target_ctx))
          × (out ≡ expect (no_target_response p rc target_ctx)))
      ⊎ (Table.get m id ≡ none) × NoTarget

  -- What each strategy promises of the response `out`.
  abbrev pub Chosen : ResponseStrategy → Option String → Type 0
  Chosen always_override c = out ≡ override_empty_response p rc 200 ctx
  Chosen always_target_id c = ResponseAt rc.target_selector
  Chosen ok_then_failed c = FirstOf kind_ok (FirstOf kind_failed NoTarget)
  Chosen ok_then_target_id c = FirstOf kind_ok (ResponseAt rc.target_selector)
  Chosen ok_then_override c = FirstOf kind_ok Overrides
  Chosen failed_then_ok c = FirstOf kind_failed (FirstOf kind_ok NoTarget)
  Chosen failed_then_target_id c = FirstOf kind_failed (ResponseAt rc.target_selector)
  Chosen failed_then_override c = FirstOf kind_failed Overrides
  Chosen conditional_routing c = ResponseAt c

module _ {M F J : Type 0} (p : Platform M F J) (rc : ResponseConfig) (is_match : String → Bool)
    (m : ResponsesMap M) (ctx : Context) where
  of_selected-ResponseAt :
      (id : String) (e : Option (Option (Response M) × Context))
      → Table.get m id ≡ e
      → ResponseAt p rc is_match m ctx (of_selected p rc e ctx) (some id)
  of_selected-ResponseAt id none e = inr (inr (e, refl))
  of_selected-ResponseAt id (some (none, c)) e = inr (inl (c, e, refl))
  of_selected-ResponseAt id (some (some resp, c)) e = inl (resp, c, e, refl)

  select_second-ResponseAt :
      (id : Option String) → ResponseAt p rc is_match m ctx (select_second p rc id m ctx) id
  select_second-ResponseAt none = refl
  select_second-ResponseAt (some id) = of_selected-ResponseAt id (Table.get m id) refl

  select_or_error-ResponseAt :
      (id : Option String)
      → ResponseAt p rc is_match m ctx (select_target_or_error_response p rc id m ctx) id
  unfolding select_target_or_error_response
  select_or_error-ResponseAt none = refl
  select_or_error-ResponseAt (some id) = of_selected-ResponseAt id (Table.get m id) refl

  -- An id that a search has found is the key of a response.
  select_second-FirstOf :
      (kind : ResponseKind) (id : Option String)
      → Finds p is_match kind m id
      → FirstOf p rc is_match m ctx
          (select_second p rc id m ctx)
          kind
          (NoTarget p rc is_match m ctx (select_second p rc id m ctx))
  select_second-FirstOf kind none h = inr (h, refl)
  select_second-FirstOf kind (some k) found = inl (k, found, rw (found.2))

  select_two-FirstOf :
      (kind : ResponseKind) (id second : Option String) (Else : Outcome (Response M) → Type 0)
      → Finds p is_match kind m id
      → Else (select_second p rc second m ctx)
      → (let out = select_from_two_targets_response p rc id second m ctx in
          FirstOf p rc is_match m ctx out kind (Else out))
  unfolding select_from_two_targets_response
  select_two-FirstOf kind none second Else h other = inr (h, other)
  select_two-FirstOf kind (some k) second Else found other = inl (k, found, rw (found.2))

  select_or_override-FirstOf :
      (kind : ResponseKind) (id : Option String)
      → Finds p is_match kind m id
      → (let out = select_target_or_override_response p rc id m ctx in
          FirstOf p rc is_match m ctx out kind (Overrides p rc is_match m ctx out))
  unfolding select_target_or_override_response
  select_or_override-FirstOf kind none h = inr (h, refl)
  select_or_override-FirstOf kind (some k) found = inl (k, found, rw (found.2))

  select_by-Chosen :
      (strategy : ResponseStrategy) (o f c : Option String)
      → Finds p is_match kind_ok m o
      → Finds p is_match kind_failed m f
      → Chosen p rc is_match m ctx
          (select_by p strategy rc o f rc.target_selector c m ctx)
          strategy
          c
  unfolding select_by
  select_by-Chosen always_override o f c ho hf = refl
  select_by-Chosen always_target_id o f c ho hf = select_or_error-ResponseAt rc.target_selector
  select_by-Chosen ok_then_failed o f c ho hf =
      select_two-FirstOf kind_ok o f
        (λ out. FirstOf p rc is_match m ctx out kind_failed (NoTarget p rc is_match m ctx out)) ho
        (select_second-FirstOf kind_failed f hf)
  select_by-Chosen ok_then_target_id o f c ho hf =
      select_two-FirstOf kind_ok o rc.target_selector
        (λ out. ResponseAt p rc is_match m ctx out rc.target_selector) ho
        (select_second-ResponseAt rc.target_selector)
  select_by-Chosen ok_then_override o f c ho hf = select_or_override-FirstOf kind_ok o ho
  select_by-Chosen failed_then_ok o f c ho hf =
      select_two-FirstOf kind_failed f o
        (λ out. FirstOf p rc is_match m ctx out kind_ok (NoTarget p rc is_match m ctx out)) hf
        (select_second-FirstOf kind_ok o ho)
  select_by-Chosen failed_then_target_id o f c ho hf =
      select_two-FirstOf kind_failed f rc.target_selector
        (λ out. ResponseAt p rc is_match m ctx out rc.target_selector) hf
        (select_second-ResponseAt rc.target_selector)
  select_by-Chosen failed_then_override o f c ho hf = select_or_override-FirstOf kind_failed f hf
  select_by-Chosen conditional_routing o f c ho hf = select_or_error-ResponseAt c

-- With a failure regex that compiles, and whatever the order of the map is, the response of a
-- listener is the one that its strategy promises.
pub select_response-Chosen :
    {M F J : Type 0} (p : Platform M F J) (strategy : ResponseStrategy) (rc : ResponseConfig)
    (is_match : String → Bool) (conditional_id : Option String) (m : ResponsesMap M) (ctx : Context)
    → VisitsAll p.visit
    → p.regex rc.failed_status_regex ≡ some is_match
    → Chosen p rc is_match m ctx
        (select_response p strategy rc conditional_id m ctx)
        strategy
        conditional_id
unfolding select_response
select_response-Chosen p strategy rc is_match c m ctx visits e =
    let (o, eo, ho) = find_first_response_lem p rc is_match kind_ok m visits e in
    let (f, ef, hf) = find_first_response_lem p rc is_match kind_failed m visits e in
    rw (eo, ef) (select_by-Chosen p rc is_match m ctx strategy o f c ho hf)
