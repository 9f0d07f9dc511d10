-- ===== src/Tests/Headers.antt =====
-- config/headers.rs
use http_dragonfly.Prelude.{String, ◌≡◌, refl, ◌↔◌, Option, none, some, List, [], ◌∷◌, ok}
use http_dragonfly.Prelude.Text.{into_bytes}
use http_dragonfly.Platform.Laws.{values_of}
use http_dragonfly.Platform.Sample.{Headers, without, sample, sample-HeaderLaws}
use http_dragonfly.Config.Types.{HeaderTransform, add, update, drop}
use http_dragonfly.Prelude.Table
use http_dragonfly.Context
use http_dragonfly.Context.{Context, root_context}
use http_dragonfly.Headers.{transform}
use http_dragonfly.Headers.View.{transform_all_values, transform_lem}
use http_dragonfly.Headers.Parse.{Field, parsed, deserialize}
use http_dragonfly.Headers.Accepts.{Describes}
use http_dragonfly.Headers.Entries.{Reads, deserialize_iff}

abbrev app : Context
app = root_context []

abbrev before : Headers
before = ("x-old", 1 ∷ []) ∷ ("x-gone", 2 ∷ []) ∷ ("x-old", 3 ∷ []) ∷ []

abbrev changes : List HeaderTransform
changes =
    record { action = add "x-new"; value = some "n" }
    ∷ record { action = update "x-old"; value = some "u" }
    ∷ record { action = drop "x-gone"; value = none }
    ∷ record { action = add "x-old"; value = some "no" }
    ∷ []

run_changes :
    transform sample app changes before
    ≡ ok (("x-old", into_bytes "u") ∷ ("x-new", into_bytes "n") ∷ [])
unfolding transform values_of without into_bytes Context.get Table.get
run_changes = refl

transform_lem_example :
    (h : Headers) × (transform sample app changes before ≡ ok h)
    × ((n : String)
        → values_of n h ≡ transform_all_values sample app changes n (values_of n before))
transform_lem_example =
    transform_lem sample sample-HeaderLaws app refl changes before
      ((λ e. cc, λ e. cc), ((λ e. cc, λ e. cc), (tt, ((λ e. cc, λ e. cc), tt))))

abbrev add_entries : List (String × Option String)
add_entries = ("value", some "v") ∷ ("add", some "x") ∷ []

abbrev add_x : HeaderTransform
add_x = record { action = add "x"; value = some "v" }

deserialize_iff_example :
    (deserialize add_entries ≡ parsed add_x)
    ↔ ((fs : List Field) × Reads add_entries fs × Describes fs add_x)
deserialize_iff_example = deserialize_iff add_entries add_x
