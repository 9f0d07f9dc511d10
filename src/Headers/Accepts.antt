-- ===== src/Headers/Accepts.antt =====
-- config/headers.rs: which maps `visit_map` reads as a transformation.
use http_dragonfly.Prelude.{
  String, true, ◌≡◌, ◌↔◌, Option, none, some, List, [], ◌∷◌, ◌++◌, is_some, arith, All,
}
use http_dragonfly.Config.Types.{HeaderTransform, HeaderTransformActon, add, update, drop}
use http_dragonfly.Headers.Parse.{
  Field, f_add, f_drop, f_update, f_value, Slots, parsed, visit_field, visit_fields, visit_map,
  build_transform,
}

-- What a map says: the values of its fields are texts, and these are its actions and its values.
abbrev pub text_of : Field → Option String
text_of (f_add s) = s
text_of (f_drop s) = s
text_of (f_update s) = s
text_of (f_value s) = s

abbrev pub actions_of : List Field → List HeaderTransformActon
actions_of [] = []
actions_of (f_add (some s) ∷ fs) = add s ∷ actions_of fs
actions_of (f_drop (some s) ∷ fs) = drop s ∷ actions_of fs
actions_of (f_update (some s) ∷ fs) = update s ∷ actions_of fs
actions_of (_ ∷ fs) = actions_of fs

abbrev pub given_values : List Field → List String
given_values [] = []
given_values (f_value (some s) ∷ fs) = s ∷ given_values fs
given_values (_ ∷ fs) = given_values fs

abbrev pub AllTexts : List Field → Type 0
AllTexts fs = All (λ f. is_some (text_of f) ≡ true) fs

abbrev pub in_list : {A : Type 0} → Option A → List A
in_list none = []
in_list (some a) = a ∷ []

-- `add` and `update` come with a value, `drop` without one.
abbrev pub HasItsValue : HeaderTransformActon → Option String → Type 0
HasItsValue (drop k) value = value ≡ none
HasItsValue _ value = is_some value ≡ true

abbrev pub Describes : List Field → HeaderTransform → Type 0
Describes fs t =
    AllTexts fs
    × (actions_of fs ≡ t.action ∷ [])
    × (given_values fs ≡ in_list t.value)
    × HasItsValue t.action t.value

-- The slots, and the fields that are still to come.
abbrev Completes : Slots → List Field → HeaderTransform → Type 0
Completes (action, value) fs t =
    AllTexts fs
    × (in_list action ++ actions_of fs ≡ t.action ∷ [])
    × (in_list value ++ given_values fs ≡ in_list t.value)
    × HasItsValue t.action t.value

visit_fields_iff :
    (fs : List Field) (action : Option HeaderTransformActon) (value : Option String)
    (t : HeaderTransform)
    → (visit_fields fs (action, value) ≡ parsed t) ↔ Completes (action, value) fs t
unfolding visit_fields build_transform visit_field
visit_fields_iff [] none value t = ground arith
visit_fields_iff [] (some (drop k)) none t = ground arith
visit_fields_iff [] (some (drop k)) (some v) t = ground arith
visit_fields_iff [] (some (add k)) none t = ground arith
visit_fields_iff [] (some (add k)) (some v) t = ground arith
visit_fields_iff [] (some (update k)) none t = ground arith
visit_fields_iff [] (some (update k)) (some v) t = ground arith
visit_fields_iff (f_add none ∷ fs) action value t = ground arith
visit_fields_iff (f_add (some s) ∷ fs) none value t =
    ground (arith, visit_fields_iff fs (some (add s)) value t)
visit_fields_iff (f_add (some s) ∷ fs) (some a) value t = ground arith
visit_fields_iff (f_drop none ∷ fs) action value t = ground arith
visit_fields_iff (f_drop (some s) ∷ fs) none value t =
    ground (arith, visit_fields_iff fs (some (drop s)) value t)
visit_fields_iff (f_drop (some s) ∷ fs) (some a) value t = ground arith
visit_fields_iff (f_update none ∷ fs) action value t = ground arith
visit_fields_iff (f_update (some s) ∷ fs) none value t =
    ground (arith, visit_fields_iff fs (some (update s)) value t)
visit_fields_iff (f_update (some s) ∷ fs) (some a) value t = ground arith
visit_fields_iff (f_value none ∷ fs) action value t = ground arith
visit_fields_iff (f_value (some s) ∷ fs) action none t =
    ground (arith, visit_fields_iff fs action (some s) t)
visit_fields_iff (f_value (some s) ∷ fs) action (some v) t = ground arith

-- A map is read as a transformation exactly when all its values are texts, it has one action, at
-- most one value, and a value where the action is `add` or `update`, none where it is `drop`.
pub visit_map_iff :
    (fs : List Field) (t : HeaderTransform) → (visit_map fs ≡ parsed t) ↔ Describes fs t
unfolding visit_map
visit_map_iff fs t = visit_fields_iff fs none none t
