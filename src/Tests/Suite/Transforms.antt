-- ===== src/Tests/Suite/Transforms.antt =====
-- config/headers.rs, `mod tests`.
use http_dragonfly.Prelude.{
  ℕ, String, Bool, true, false, ◌≡◌, refl, Option, none, some, List, [], ◌∷◌, ◌==◌, All, ok,
  unwrap_or, if◌then◌else◌,
}
use http_dragonfly.Prelude.Table
use http_dragonfly.Prelude.Text.{into_bytes}
use http_dragonfly.Platform.{Platform}
use http_dragonfly.Platform.Laws.{values_of}
use http_dragonfly.Platform.Sample.{Headers, without, sample}
use http_dragonfly.Config.Types.{HeaderTransform, add, update, drop}
use http_dragonfly.Context
use http_dragonfly.Context.{Context}
use http_dragonfly.Headers.{transform}
use http_dragonfly.Headers.Parse.{Parsed, parsed, refused, deserialize}
use http_dragonfly.Tests.Suite.Contexts.{test_ctx}

abbrev DeserializeOkHeaderTransform : Type 0
DeserializeOkHeaderTransform =
    (deserialize (("add", some "new_header") ∷ ("value", some "new_value") ∷ [])
      ≡ parsed (record { action = add "new_header"; value = some "new_value" }))
    × (deserialize (("update", some "new_header") ∷ ("value", some "new_value") ∷ [])
        ≡ parsed (record { action = update "new_header"; value = some "new_value" }))
    × (deserialize (("drop", some "old_header") ∷ [])
        ≡ parsed (record { action = drop "old_header"; value = none }))

deserialize_ok_header_transform : DeserializeOkHeaderTransform
unfolding deserialize
deserialize_ok_header_transform = (refl, refl, refl)

abbrev is_refused : {A : Type 0} → Parsed A → Bool
is_refused (parsed a) = false
is_refused (refused e) = true

-- A number as the value is `none`.
abbrev wrong_json : List (List (String × Option String))
wrong_json =
    (("wrong_action", some "new_header") ∷ ("value", some "new_value") ∷ [])
    ∷ (("wrong_action", some "new_header") ∷ [])
    ∷ (("add", some "new_header") ∷ ("wrong_value", some "new_value") ∷ [])
    ∷ (("add", some "new_header") ∷ ("value", none) ∷ [])
    ∷ (("add", some "new_header") ∷ [])
    ∷ (("update", some "new_header") ∷ ("wrong_value", some "new_value") ∷ [])
    ∷ (("update", some "new_header") ∷ ("value", none) ∷ [])
    ∷ (("update", some "new_header") ∷ [])
    ∷ (("drop", some "old_header") ∷ ("wrong_value", some "old_value") ∷ [])
    ∷ (("drop", some "old_header") ∷ ("value", some "old_value") ∷ [])
    ∷ (("drop", some "old_header") ∷ ("value", none) ∷ [])
    ∷ []

abbrev DeserializeWrongHeaderTransform : Type 0
DeserializeWrongHeaderTransform = All (λ m. is_refused (deserialize m) ≡ true) wrong_json

deserialize_wrong_header_transform : DeserializeWrongHeaderTransform
unfolding deserialize
deserialize_wrong_header_transform =
    (refl, (refl, (refl, (refl, (refl, (refl, (refl, (refl, (refl, (refl, (refl, tt)))))))))))

-- The names of the test in lower case, as `HeaderName` keeps them.
abbrev lower : String → String
lower name =
    if name == "X-Some-New-Header"
    then "x-some-new-header"
    else if name == "X-Existing-Header"
    then "x-existing-header"
    else if name == "X-Header-To-Drop"
    then "x-header-to-drop"
    else if name == "X-Non-Exiting-Header"
    then "x-non-exiting-header"
    else if name == "X-Env-Header"
    then "x-env-header"
    else if name == "X-Env-Header-2"
    then "x-env-header-2"
    else name

abbrev platform : Platform Headers String ℕ
platform = record sample {
  headers = record (sample.headers) {
    contains_key = λ h key. sample.headers.contains_key h (lower key);
    remove = λ key h. sample.headers.remove (lower key) h;
  };
  header_name = λ key. some (lower key);
  expand = λ get s.
      if s == "${TEST_ENV_HEADER_TO_ADD}" then unwrap_or (get "TEST_ENV_HEADER_TO_ADD") s else s;
}

abbrev test_transforms : List HeaderTransform
test_transforms =
    record { action = add "X-Some-New-Header"; value = some "good" }
    ∷ record { action = update "X-Existing-Header"; value = some "good" }
    ∷ record { action = drop "X-Header-To-Drop"; value = none }
    ∷ record { action = add "X-Existing-Header"; value = some "wrong" }
    ∷ record { action = update "X-Non-Exiting-Header"; value = some "wrong" }
    ∷ record { action = add "X-Env-Header"; value = some "${TEST_ENV_HEADER_TO_ADD}" }
    ∷ record { action = update "X-Env-Header-2"; value = some "${TEST_ENV_HEADER_TO_ADD}" }
    ∷ []

abbrev before : Headers
before =
    ("x-header-to-drop", into_bytes "wrong")
    ∷ ("x-existing-header", into_bytes "wrong")
    ∷ ("x-header-without-changes", into_bytes "good")
    ∷ ("x-env-header-2", into_bytes "wrong")
    ∷ []

abbrev after : Headers
after =
    ("x-env-header-2", into_bytes "TEST_ENV_HEADER_VALUE")
    ∷ ("x-env-header", into_bytes "TEST_ENV_HEADER_VALUE")
    ∷ ("x-existing-header", into_bytes "good")
    ∷ ("x-some-new-header", into_bytes "good")
    ∷ ("x-header-without-changes", into_bytes "good")
    ∷ []

abbrev Transforms : Type 0
Transforms = transform platform test_ctx test_transforms before ≡ ok after

transforms : Transforms
unfolding transform without values_of Context.get Table.get Context.root Table.extend Table.insert
transforms = refl
