-- ===== src/Headers/View.antt =====
-- config/headers.rs: a list of transformations, seen name by name.
use http_dragonfly.Prelude.{
  String, false, ◌≡◌, ◌≢◌, refl, Option, none, some, List, [], ◌∷◌, ◌==◌, eq_iff, is_empty, ok,
  arith, if◌then◌else◌, All, Option-cases, Bool-cases, inl, inr,
}
use http_dragonfly.Platform.{HeaderValue, Platform}
use http_dragonfly.Platform.Laws.{HeaderLaws, names}
use http_dragonfly.Config.Types.{HeaderTransform, HeaderTransformActon, add, update, drop}
use http_dragonfly.Context.{Context}
use http_dragonfly.Headers.{expand_in, set_header, debug_old, old_values, apply_action, transform}

abbrev only : Option HeaderValue → List HeaderValue
only none = []
only (some v) = v ∷ []

module _ {M F J : Type 0} (p : Platform M F J) (ctx : Context) where
  -- The value that a transformation sets, where it is a header value.
  abbrev pub new_value : Option String → Option HeaderValue
  new_value none = none
  new_value (some text) = p.header_value (expand_in p ctx text)

  -- What a transformation makes of the values of the name `n`, whatever the other names hold.
  unfoldable pub transform_values :
      HeaderTransformActon → Option String → String → List HeaderValue → List HeaderValue
  transform_values (add key) value n vs =
      if names (p.header_name key) n
      then (if is_empty vs then only (new_value value) else vs)
      else vs
  transform_values (update key) value n vs =
      if names (p.header_name key) n
      then (if is_empty vs then vs else only (new_value value))
      else vs
  transform_values (drop key) value n vs =
      if key == "*" then [] else if names (p.header_name key) n then [] else vs

  unfoldable pub transform_all_values :
      List HeaderTransform → String → List HeaderValue → List HeaderValue
  transform_all_values [] n vs = vs
  transform_all_values (t ∷ ts) n vs =
      transform_all_values ts n (transform_values t.action t.value n vs)

  -- A transformation whose header name and value are well formed; a drop has no demands.
  abbrev pub ApplicableAction : HeaderTransformActon → Option String → Type 0
  ApplicableAction (add key) value = (p.header_name key ≢ none) × (new_value value ≢ none)
  ApplicableAction (update key) value = (p.header_name key ≢ none) × (new_value value ≢ none)
  ApplicableAction (drop key) value = Unit

  abbrev pub IsApplicable : HeaderTransform → Type 0
  IsApplicable t = ApplicableAction t.action t.value

  abbrev pub AllApplicable : Option (List HeaderTransform) → Type 0
  AllApplicable none = Unit
  AllApplicable (some ts) = All IsApplicable ts

module _ {M F J : Type 0} (p : Platform M F J) (laws : HeaderLaws p) (ctx : Context)
    (quiet : p.debug_enabled ≡ false) where
  debug_old_ok : (vs : List HeaderValue) → debug_old p vs ≡ ok tt
  unfolding debug_old
  debug_old_ok [] = refl
  debug_old_ok (v ∷ vs) = rw quiet

  abbrev Transforms : HeaderTransformActon → Option String → M → Type 0
  Transforms a value h =
      (h' : M) × (apply_action p ctx a value h ≡ ok h')
      × ((n : String)
          → p.headers.get_all h' n ≡ transform_values p ctx a value n (p.headers.get_all h n))

  set_header_ok :
      (key text name : String) (v : HeaderValue) (h : M)
      → p.header_name key ≡ some name
      → p.header_value (expand_in p ctx text) ≡ some v
      → set_header p ctx key (some text) h ≡ ok (p.headers.insert name v h)
  unfolding set_header
  set_header_ok key text name v h en ev = rw (en, ev)

  -- `drop` never fails.
  drop-Transforms : (key : String) (value : Option String) (h : M) → Transforms (drop key) value h
  unfolding apply_action transform_values
  drop-Transforms key value h = elim (Bool-cases (key == "*")) [
    | inl star ↦ (p.headers.empty, rw star, λ n. rw star (laws.get_all-empty n))
    | inr plain ↦ (
      p.headers.remove key h,
      rw (plain, debug_old_ok (old_values p (p.header_name key) h)),
      λ n. rw plain (laws.get_all-remove key n h),
    )
  ]

  module _ (key text name : String) (v : HeaderValue) (h : M) (en : p.header_name key ≡ some name)
      (ev : p.header_value (expand_in p ctx text) ≡ some v) where
    add-Transforms : Transforms (add key) (some text) h
    unfolding apply_action transform_values
    add-Transforms = elim (Bool-cases (p.headers.contains_key h key)) [
      | inl there ↦
          (h, rw there, λ n. ground (arith, en, laws.contains_key-get_all h key, eq_iff name n))
      | inr missing ↦ (
        p.headers.insert name v h,
        rw missing (set_header_ok key text name v h en ev),
        λ n. ground (
          arith,
          en,
          ev,
          laws.contains_key-get_all h key,
          eq_iff name n,
          laws.get_all-insert name n v h,
        ),
      )
    ]

    update-Transforms : Transforms (update key) (some text) h
    unfolding apply_action transform_values
    update-Transforms = elim (Bool-cases (p.headers.contains_key h key)) [
      | inl there ↦ (
        p.headers.insert name v h,
        rw (
          there,
          set_header_ok key text name v h en ev,
          debug_old_ok (old_values p (p.header_name key) h),
        ),
        λ n. ground (
          arith,
          en,
          ev,
          laws.contains_key-get_all h key,
          eq_iff name n,
          laws.get_all-insert name n v h,
        ),
      )
      | inr missing ↦
          (h, rw missing, λ n. ground (arith, en, laws.contains_key-get_all h key, eq_iff name n))
    ]

  -- The header name and value of an applicable `add` or `update`.
  abbrev Parts : String → String → Type 0
  Parts key text =
      (name : String) × (v : HeaderValue) × (p.header_name key ≡ some name)
      × (p.header_value (expand_in p ctx text) ≡ some v)

  header_name_or_fails :
      (key text : String)
      → p.header_name key ≢ none
      → p.header_value (expand_in p ctx text) ≢ none
      → Parts key text
  header_name_or_fails key text hn hv = elim (Option-cases (p.header_name key)) [
    | inl e ↦ absurd (hn e)
    | inr (name, en) ↦ elim (Option-cases (p.header_value (expand_in p ctx text))) [
      | inl e ↦ absurd (hv e)
      | inr (v, ev) ↦ (name, v, en, ev)
    ]
  ]

  action-Transforms :
      (a : HeaderTransformActon) (value : Option String) (h : M)
      → ApplicableAction p ctx a value
      → Transforms a value h
  action-Transforms (add key) none h (hn, hv) = absurd (hv refl)
  action-Transforms (add key) (some text) h (hn, hv) =
      let (name, v, en, ev) = header_name_or_fails key text hn hv in
      add-Transforms key text name v h en ev
  action-Transforms (update key) none h (hn, hv) = absurd (hv refl)
  action-Transforms (update key) (some text) h (hn, hv) =
      let (name, v, en, ev) = header_name_or_fails key text hn hv in
      update-Transforms key text name v h en ev
  action-Transforms (drop key) value h a = drop-Transforms key value h

  -- Where every `add` and `update` of a list has a valid header name and value, and debug lines
  -- are off, applying the list succeeds, and under each name the result holds what the single
  -- transformations make, in their order, of the values that stood under this name.
  pub transform_lem :
      (ts : List HeaderTransform) (h : M)
      → All (IsApplicable p ctx) ts
      → (h' : M) × (transform p ctx ts h ≡ ok h')
        × ((n : String)
            → p.headers.get_all h' n ≡ transform_all_values p ctx ts n (p.headers.get_all h n))
  unfolding transform transform_all_values
  transform_lem [] h a = (h, refl, λ n. refl)
  transform_lem (t ∷ ts) h (a, rest) =
      let (h₁, e₁, v₁) = action-Transforms t.action t.value h a in
      let (h₂, e₂, v₂) = transform_lem ts h₁ rest in (h₂, rw e₁ e₂, λ n. rw (← v₁ n) (v₂ n))
