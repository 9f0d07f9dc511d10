-- ===== src/Headers/Parse.antt =====
-- config/headers.rs: `visit_map`, which reads a transformation from the fields of a map.
use http_dragonfly.Prelude.{String, Option, none, some, List, [], ◌∷◌, ◌==◌, is_some, if◌then◌else◌}
use http_dragonfly.Config.Types.{HeaderTransform, HeaderTransformActon, add, update, drop}

-- A key of the map with its value; `none` is a value that is no string.
pub data Field : Type 0 where
  f_drop f_add f_update f_value : Option String → Field

pub data ParseError : Type 0 where
  duplicate_field unknown_field : String → ParseError
  missing_value missing_action unknown_value not_a_string : ParseError

pub data Parsed (A : Type 0) : Type 0 where
  parsed : A → Parsed A
  refused : ParseError → Parsed A

abbrev pub Slots : Type 0
Slots = Option HeaderTransformActon × Option String

set_action : String → (String → HeaderTransformActon) → Option String → Slots → Parsed Slots
set_action name mk none (action, value) =
    if is_some action then refused (duplicate_field name) else refused not_a_string
set_action name mk (some s) (action, value) =
    if is_some action then refused (duplicate_field name) else parsed (some (mk s), value)

-- One round of the `while` loop.
unfoldable pub visit_field : Field → Slots → Parsed Slots
unfolding set_action
visit_field (f_add s) slots = set_action "add" add s slots
visit_field (f_drop s) slots = set_action "drop" drop s slots
visit_field (f_update s) slots = set_action "update" update s slots
visit_field (f_value none) (action, value) =
    if is_some value then refused (duplicate_field "value") else refused not_a_string
visit_field (f_value (some s)) (action, value) =
    if is_some value then refused (duplicate_field "value") else parsed (action, some s)

-- What follows the loop.
unfoldable pub build_transform : Slots → Parsed HeaderTransform
build_transform (none, value) = refused missing_action
build_transform (some (drop k), none) = parsed (record { action = drop k; value = none })
build_transform (some (drop k), some v) = refused unknown_value
build_transform (some (add k), none) = refused missing_value
build_transform (some (add k), some v) = parsed (record { action = add k; value = some v })
build_transform (some (update k), none) = refused missing_value
build_transform (some (update k), some v) = parsed (record { action = update k; value = some v })

infixl 5 ◌>>=◌
abbrev pub ◌>>=◌ : {A B : Type 0} → Parsed A → (A → Parsed B) → Parsed B
parsed a >>= f = f a
refused e >>= f = refused e

unfoldable pub visit_fields : List Field → Slots → Parsed HeaderTransform
unfolding visit_field build_transform
visit_fields [] slots = build_transform slots
visit_fields (f ∷ fs) slots = do slots' ← visit_field f slots; visit_fields fs slots'

unfoldable pub visit_map : List Field → Parsed HeaderTransform
unfolding visit_fields
visit_map fields = visit_fields fields (none, none)

-- The key of an entry, as `Fields` is derived.
abbrev pub field_of : String → Option String → Parsed Field
field_of key value =
    if key == "drop"
    then parsed (f_drop value)
    else if key == "add"
    then parsed (f_add value)
    else if key == "update"
    then parsed (f_update value)
    else if key == "value"
    then parsed (f_value value)
    else refused (unknown_field key)

-- The entries of a map, each key read before its value.
unfoldable pub visit_entries : List (String × Option String) → Slots → Parsed HeaderTransform
unfolding visit_field build_transform
visit_entries [] slots = build_transform slots
visit_entries ((key, value) ∷ entries) slots = do
  field ← field_of key value
  slots' ← visit_field field slots
  visit_entries entries slots'

-- `HeaderTransform::deserialize` of a map.
unfoldable pub deserialize : List (String × Option String) → Parsed HeaderTransform
unfolding visit_entries
deserialize entries = visit_entries entries (none, none)
