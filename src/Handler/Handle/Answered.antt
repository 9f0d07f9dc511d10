-- ===== src/Handler/Handle/Answered.antt =====
-- handler.rs: from a map of valid responses, every strategy gives a valid response.
use http_dragonfly.Prelude.{
  String, Bool, true, false, ◌≡◌, inl, inr, Option, none, some, Outcome, Option-cases, Yields,
  Yields-expect,
}
use http_dragonfly.Prelude.Table
use http_dragonfly.Platform.{Platform}
use http_dragonfly.Platform.Laws.{HeaderLaws, VisitsAll}
use http_dragonfly.Config.Types.{
  ResponseConfig, ResponseStrategy, always_override, always_target_id, ok_then_failed,
  ok_then_target_id, ok_then_override, failed_then_ok, failed_then_target_id, failed_then_override,
  conditional_routing,
}
use http_dragonfly.Context.{Context, Response}
use http_dragonfly.Response.{ResponsesMap, ResponseKind, kind_ok, kind_failed}
use http_dragonfly.Response.Safe.{
  HasStatus, UsableResponse, override_empty-Yields, no_target-Yields, override_target-Yields,
}
use http_dragonfly.Handler.Handle.{select_response}
use http_dragonfly.Handler.Handle.Choice.{
  FirstOf, NoTarget, Overrides, ResponseAt, Chosen, select_response-Chosen,
}

-- Every response of a map has a valid status.
abbrev pub AllValid : {M F J : Type 0} → Platform M F J → ResponsesMap M → Type 0
AllValid p m =
    (k : String) (resp : Response _) (ctx : Context)
    → Table.get m k ≡ some (some resp, ctx)
    → HasStatus p resp

module _ {M F J : Type 0} (p : Platform M F J) (laws : HeaderLaws p)
    (quiet : p.debug_enabled ≡ false) (rc : ResponseConfig) (u : UsableResponse p rc)
    (ok_status : p.is_status 200 ≡ true) (is_match : String → Bool) (m : ResponsesMap M)
    (valid : AllValid p m) (ctx : Context) (out : Outcome (Response M)) where
  NoTarget-Yields : NoTarget p rc is_match m ctx out → Yields (HasStatus p) out
  NoTarget-Yields e = rw e (Yields-expect (no_target-Yields p laws quiet rc u ctx))

  Overrides-Yields : Overrides p rc is_match m ctx out → Yields (HasStatus p) out
  Overrides-Yields e =
      rw e (Yields-expect (override_empty-Yields p laws quiet rc u 200 ctx ok_status))

  FirstOf-Yields :
      (kind : ResponseKind) (Else : Type 0)
      → (Else → Yields (HasStatus p) out)
      → FirstOf p rc is_match m ctx out kind Else
      → Yields (HasStatus p) out
  FirstOf-Yields kind Else other (inl (k, (resp, c, e, w), chosen)) =
      rw chosen (override_target-Yields p laws quiet rc u resp c (valid k resp c e))
  FirstOf-Yields kind Else other (inr (absent, h)) = other h

  ResponseAt-Yields :
      (id : Option String) → ResponseAt p rc is_match m ctx out id → Yields (HasStatus p) out
  ResponseAt-Yields none h = NoTarget-Yields h
  ResponseAt-Yields (some id) (inl (resp, c, e, chosen)) =
      rw chosen (override_target-Yields p laws quiet rc u resp c (valid id resp c e))
  ResponseAt-Yields (some id) (inr (inl (c, e, chosen))) =
      rw chosen (Yields-expect (no_target-Yields p laws quiet rc u c))
  ResponseAt-Yields (some id) (inr (inr (e, h))) = NoTarget-Yields h

  Chosen-Yields :
      (strategy : ResponseStrategy) (c : Option String)
      → Chosen p rc is_match m ctx out strategy c
      → Yields (HasStatus p) out
  Chosen-Yields always_override c e =
      rw e (override_empty-Yields p laws quiet rc u 200 ctx ok_status)
  Chosen-Yields always_target_id c h = ResponseAt-Yields rc.target_selector h
  Chosen-Yields ok_then_failed c h =
      FirstOf-Yields kind_ok _ (FirstOf-Yields kind_failed _ NoTarget-Yields) h
  Chosen-Yields ok_then_target_id c h =
      FirstOf-Yields kind_ok _ (ResponseAt-Yields rc.target_selector) h
  Chosen-Yields ok_then_override c h = FirstOf-Yields kind_ok _ Overrides-Yields h
  Chosen-Yields failed_then_ok c h =
      FirstOf-Yields kind_failed _ (FirstOf-Yields kind_ok _ NoTarget-Yields) h
  Chosen-Yields failed_then_target_id c h =
      FirstOf-Yields kind_failed _ (ResponseAt-Yields rc.target_selector) h
  Chosen-Yields failed_then_override c h = FirstOf-Yields kind_failed _ Overrides-Yields h
  Chosen-Yields conditional_routing c h = ResponseAt-Yields c h

module _ {M F J : Type 0} (p : Platform M F J) (laws : HeaderLaws p)
    (quiet : p.debug_enabled ≡ false) (visits : VisitsAll p.visit) (rc : ResponseConfig)
    (u : UsableResponse p rc) (ok_status : p.is_status 200 ≡ true) where
  -- Whatever the strategy, a response is selected, and it has a valid status.
  pub select_response-Yields :
      (strategy : ResponseStrategy) (c : Option String) (m : ResponsesMap M) (ctx : Context)
      → AllValid p m
      → Yields (HasStatus p) (select_response p strategy rc c m ctx)
  select_response-Yields strategy c m ctx valid =
      elim (Option-cases (p.regex rc.failed_status_regex)) [
        | inl e ↦ absurd (u.compiles e)
        | inr (is_match, e) ↦
            Chosen-Yields p laws quiet rc u ok_status is_match m valid ctx _ strategy c
              (select_response-Chosen p strategy rc is_match c m ctx visits e)
      ]
