-- ===== src/Tests/Responses.antt =====
-- config/response.rs
use http_dragonfly.Prelude.{ℕ, String, ◌≡◌, refl, Bool, ◌||◌, none, some, [], ◌∷◌, ok}
use http_dragonfly.Prelude.Text.{into_bytes, starts_with}
use http_dragonfly.Prelude.Table
use http_dragonfly.Prelude.Decimal.{decimal}
use http_dragonfly.Platform.Laws.{values_of}
use http_dragonfly.Platform.Sample.{Headers, sample, sample-HeaderLaws, sample-VisitsAll}
use http_dragonfly.Config.Types.{OverrideConfig, ok_then_failed}
use http_dragonfly.Context
use http_dragonfly.Context.{Context, root_context, Response}
use http_dragonfly.Response.{
  ResponsesMap, kind_failed, default_response_config, apply_override, find_first_response,
}
use http_dragonfly.Response.Override.{apply_override_lem}
use http_dragonfly.Handler.Handle.{select_response}
use http_dragonfly.Handler.Handle.Choice.{Chosen, select_response-Chosen}

abbrev app : Context
app = root_context []

abbrev reply : ℕ → Response Headers
reply status = record {
  status = status;
  headers = ("content-length", 52 ∷ []) ∷ [];
  body = 1 ∷ 2 ∷ 3 ∷ 4 ∷ [];
}

abbrev new_body : OverrideConfig
new_body = record { status = none; body = some "ok"; headers = none }

-- The body is replaced, and the old length stays.
overridden :
    apply_override sample new_body app (reply 200)
    ≡ ok (record {
      status = 200;
      headers = ("content-length", 52 ∷ []) ∷ [];
      body = into_bytes "ok";
    })
unfolding apply_override into_bytes Context.get Table.get
overridden = refl

apply_override_lem_example :
    (r : Response Headers) × (apply_override sample new_body app (reply 200) ≡ ok r)
    × (r.status ≡ 200)
    × (r.body ≡ into_bytes "ok")
    × ((n : String) → values_of n r.headers ≡ values_of n (reply 200).headers)
unfolding Context.get Table.get
apply_override_lem_example =
    apply_override_lem sample sample-HeaderLaws app refl new_body (reply 200) refl tt

abbrev is_failure : String → Bool
is_failure s = starts_with "4" s || starts_with "5" s

abbrev responses : ResponsesMap Headers
responses =
    ("a", (none, app)) ∷ ("b", (some (reply 200), app)) ∷ ("c", (some (reply 503), app)) ∷ []

found : find_first_response sample default_response_config responses kind_failed ≡ ok (some "c")
unfolding find_first_response Table.get Table.keys decimal starts_with
found = refl

select_response-Chosen_example :
    Chosen sample default_response_config is_failure responses app
      (select_response sample ok_then_failed default_response_config none responses app)
      ok_then_failed
      none
select_response-Chosen_example =
    select_response-Chosen sample ok_then_failed default_response_config is_failure none responses
      app sample-VisitsAll refl
