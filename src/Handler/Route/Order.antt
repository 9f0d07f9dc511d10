-- ===== src/Handler/Route/Order.antt =====
-- handler.rs: conditional routing does not depend on the order of the targets.
use mathlib.Core.Path.{subst}
use mathlib.Core.List.Permᴰ
use mathlib.Core.List.{Permᴰ}
use http_dragonfly.Prelude.{
  ℕ, ◌≤◌, suc, Bool, true, false, ◌≡◌, refl, sym, ap, ◌∙◌, List, [], ◌∷◌, ok, All, select, length,
  leb, leb→le, if◌then◌else◌, Bool-cases, inl, inr, is_some, arith,
}
use http_dragonfly.Platform.{FilterInput, Platform}
use http_dragonfly.Config.Types.{TargetConfig, conditional_routing}
use http_dragonfly.Context.{Context, RequestParts}
use http_dragonfly.Target.{filter_input}
use http_dragonfly.Handler.Route.{too_many, route}
use http_dragonfly.Handler.Route.Laws.{holds, is_default_target, verdict, route_conditional_lem}

module _ {ℓ} {A : Type ℓ} where
  length-Permutation : {xs ys : List A} → Permᴰ xs ys → length xs ≡ length ys
  length-Permutation Permᴰ.nil = refl
  length-Permutation (Permᴰ.cons e d) = ap suc (length-Permutation d)
  length-Permutation (Permᴰ.swap e f) = refl
  length-Permutation (Permᴰ.trans d d') = length-Permutation d ∙ length-Permutation d'

  All-Permutation : (P : A → Type 0) {xs ys : List A} → Permᴰ xs ys → All P xs → All P ys
  All-Permutation P Permᴰ.nil h = h
  All-Permutation P (Permᴰ.cons e d) h = (subst P e h.0, All-Permutation P d h.1)
  All-Permutation P (Permᴰ.swap e f) h = (subst P f (h.1).0, (subst P e h.0, (h.1).1))
  All-Permutation P (Permᴰ.trans d d') h = All-Permutation P d' (All-Permutation P d h)

  -- A list of one item has no other order.
  short-Permutation : {xs ys : List A} → Permᴰ xs ys → length xs ≤ 1 → xs ≡ ys
  short-Permutation Permᴰ.nil h = refl
  short-Permutation (Permᴰ.cons {b = b} {l₁ = l₁} e d) h =
      ap (λ x. x ∷ l₁) e ∙ ap (λ l. b ∷ l) (short-Permutation d (omega (arith, h)))
  short-Permutation (Permᴰ.swap {l = l} e f) h = absurd (omega (arith, h))
  short-Permutation (Permᴰ.trans d d') h =
      short-Permutation d h ∙ short-Permutation d' (omega (arith, h, length-Permutation d))

  kept :
      (c : Bool) (a : A) {u v : List A}
      → Permᴰ u v
      → Permᴰ (if c then a ∷ u else u) (if c then a ∷ v else v)
  kept true a d = Permᴰ.cons refl d
  kept false a d = d

  swapped :
      (c d : Bool) (a b : A) (u : List A)
      → Permᴰ
          (let rest = if d then b ∷ u else u in if c then a ∷ rest else rest)
          (let rest = if c then a ∷ u else u in if d then b ∷ rest else rest)
  swapped true true a b u = Permᴰ.swap refl refl
  swapped true false a b u = Permᴰ.refl (a ∷ u)
  swapped false true a b u = Permᴰ.refl (b ∷ u)
  swapped false false a b u = Permᴰ.refl u

  select-Permutation :
      (test : A → Bool) {xs ys : List A} → Permᴰ xs ys → Permᴰ (select test xs) (select test ys)
  select-Permutation test Permᴰ.nil = Permᴰ.nil
  select-Permutation test (Permᴰ.cons {a = a} {l₁ = l₁} {l₂ = l₂} e d) =
      subst (λ x. Permᴰ (select test (a ∷ l₁)) (select test (x ∷ l₂))) e
        (kept (test a) a (select-Permutation test d))
  select-Permutation test (Permᴰ.swap {a = a} {b = b} {b' = b'} {l = l} e f) =
      subst (λ x. Permᴰ (select test (a ∷ b ∷ l)) (select test (x ∷ b' ∷ l))) f
        (subst (λ x. Permᴰ (select test (a ∷ b ∷ l)) (select test (b ∷ x ∷ l))) e
          (swapped (test a) (test b) a b (select test l)))
  select-Permutation test (Permᴰ.trans d d') =
      Permᴰ.trans (select-Permutation test d) (select-Permutation test d')

module _ {F : Type 0} where
  verdict-many :
      (trues defaults : List (TargetConfig F))
      → 2 ≤ length trues
      → verdict trues defaults ≡ too_many
  unfolding verdict
  verdict-many [] ds h = absurd (omega (arith, h))
  verdict-many (t ∷ []) ds h = absurd (omega (arith, h))
  verdict-many (t ∷ u ∷ ts) ds h = refl

  verdict-Permutation :
      {trues trues' defaults defaults' : List (TargetConfig F)}
      → Permᴰ trues trues'
      → Permᴰ defaults defaults'
      → length defaults ≤ 1
      → verdict trues defaults ≡ verdict trues' defaults'
  verdict-Permutation {trues} {trues'} {defaults} {defaults'} d e h =
      elim (Bool-cases (leb (length trues) 1)) [
        | inl short ↦
            ap (λ ts. verdict ts defaults) (short-Permutation d (leb→le (length trues) 1 short))
            ∙ ap (verdict trues') (short-Permutation e h)
        | inr long ↦
            verdict-many trues defaults (ground (arith, long))
            ∙ sym (verdict-many trues' defaults' (ground (arith, long, length-Permutation d)))
      ]

module _ {M F J : Type 0} (p : Platform M F J) (ctx : Context) (req : RequestParts M)
    (body : List ℕ) (input : FilterInput J)
    (readable : filter_input p ctx req body ≡ ok input) where
  -- With a condition on every target, one default at most, and readable request headers, conditional
  -- routing gives the same result for every order of the targets.
  pub route-Permutation :
      {targets targets' : List (TargetConfig F)}
      → Permᴰ targets targets'
      → All (λ t. is_some t.condition ≡ true) targets
      → length (select is_default_target targets) ≤ 1
      → route p ctx req body conditional_routing targets
        ≡ route p ctx req body conditional_routing targets'
  route-Permutation {targets} {targets'} d a h =
      route_conditional_lem p ctx req body input readable targets a
      ∙ ap ok (
          verdict-Permutation (select-Permutation (holds p input) d)
            (select-Permutation is_default_target d) h)
      ∙ sym (
          route_conditional_lem p ctx req body input readable targets'
            (All-Permutation (λ t. is_some t.condition ≡ true) d a))
