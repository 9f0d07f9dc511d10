-- ===== src/Headers/Entries.antt =====
-- config/headers.rs: which maps `HeaderTransform::deserialize` accepts.
use http_dragonfly.Prelude.{String, ◌≡◌, refl, ◌↔◌, Option, none, List, [], ◌∷◌}
use http_dragonfly.Config.Types.{HeaderTransform}
use http_dragonfly.Headers.Parse.{
  Field, Parsed, parsed, refused, ◌>>=◌, Slots, field_of, visit_field, visit_fields, visit_map,
  visit_entries, deserialize,
}
use http_dragonfly.Headers.Accepts.{Describes, visit_map_iff}

-- The entries have these fields, in this order.
abbrev pub Reads : List (String × Option String) → List Field → Type 0
Reads [] [] = Unit
Reads [] (f ∷ fs) = ⊥
Reads (e ∷ es) [] = ⊥
Reads (e ∷ es) (f ∷ fs) = (field_of e.0 e.1 ≡ parsed f) × Reads es fs

>>=-eq-parsed :
    {A B : Type 0} (first : Parsed A) (next : A → Parsed B) {b : B}
    → (first >>= next) ≡ parsed b
    → (a : A) × (first ≡ parsed a) × (next a ≡ parsed b)
>>=-eq-parsed (parsed a) next e = (a, refl, e)
>>=-eq-parsed (refused cause) next e = cc

visit_entries-Reads :
    (es : List (String × Option String)) (slots : Slots) {t : HeaderTransform}
    → visit_entries es slots ≡ parsed t
    → (fs : List Field) × Reads es fs × (visit_fields fs slots ≡ parsed t)
unfolding visit_entries visit_fields
visit_entries-Reads [] slots e = ([], tt, e)
visit_entries-Reads ((key, value) ∷ es) slots e =
    let (f, ef, e₁) = >>=-eq-parsed (field_of key value) _ e in
    let (slots', es', e₂) = >>=-eq-parsed (visit_field f slots) _ e₁ in
    let (fs, reads, e₃) = visit_entries-Reads es slots' e₂ in (f ∷ fs, (ef, reads), rw es' e₃)

Reads-visit_entries :
    (es : List (String × Option String)) (fs : List Field) (slots : Slots) {t : HeaderTransform}
    → Reads es fs
    → visit_fields fs slots ≡ parsed t
    → visit_entries es slots ≡ parsed t
unfolding visit_entries visit_fields
Reads-visit_entries [] [] slots r e = e
Reads-visit_entries [] (f ∷ fs) slots r e = absurd r
Reads-visit_entries (x ∷ es) [] slots r e = absurd r
Reads-visit_entries ((key, value) ∷ es) (f ∷ fs) slots r e =
    let (slots', es', e₁) = >>=-eq-parsed (visit_field f slots) _ e in
    rw (r.0, es') (Reads-visit_entries es fs slots' r.1 e₁)

-- A map is read as a header transformation exactly if all its keys are add, drop, update or value,
-- all its values are texts, it has one action and at most one value, in any order, and the value is
-- there for add and update and absent for drop.
pub deserialize_iff :
    (entries : List (String × Option String)) (t : HeaderTransform)
    → (deserialize entries ≡ parsed t) ↔ ((fs : List Field) × Reads entries fs × Describes fs t)
unfolding deserialize visit_map
deserialize_iff entries t = (
  λ e.
      let (fs, reads, e') = visit_entries-Reads entries (none, none) e in
      (fs, reads, (visit_map_iff fs t).0 e'),
  λ (fs, reads, d). Reads-visit_entries entries fs (none, none) reads ((visit_map_iff fs t).1 d),
)
