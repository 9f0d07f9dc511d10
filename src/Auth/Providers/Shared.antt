-- ===== src/Auth/Providers/Shared.antt =====
-- aws_auth/mod.rs: the tasks that ask for one role share one provider.
use http_dragonfly.Prelude.{
  ℕ, String, ◌≡◌, refl, true, Option, none, some, [], ◌∷◌, eq_iff, arith, unwrap_or, if◌then◌else◌,
  ◌⊎◌,
}
use http_dragonfly.Auth.Providers.{
  Provider, Store, same_role, lookup, build, or_insert, building, returned, Providers, Step, call,
  found, missed, inserted, Reach, here, next, start,
}

same_role-eq : (r q : Option String) → same_role r q ≡ true → r ≡ q
unfolding same_role
same_role-eq none none h = refl
same_role-eq none (some q) h = cc
same_role-eq (some r) none h = cc
same_role-eq (some r) (some q) h = ground (arith, eq_iff r q)

same_role_refl : (r : Option String) → same_role r r ≡ true
unfolding same_role
same_role_refl none = refl
same_role_refl (some r) = ground (arith, eq_iff r r)

lookup_cons :
    (role other : Option String) (p : Provider) (s : Store)
    → lookup other ((role, p) ∷ s) ≡ (if same_role role other then some p else lookup other s)
unfolding lookup
lookup_cons role other p s = refl

-- What `or_insert` returns is in the store afterwards.
pub lookup-or_insert_self :
    (role : Option String) (p : Provider) (s : Store)
    → lookup role (or_insert role p s).1 ≡ some (or_insert role p s).0
unfolding or_insert
lookup-or_insert_self role p s = ground (arith, lookup_cons role role p s, same_role_refl role)

-- What is in the store stays.
pub lookup-or_insert_keeps :
    (role other : Option String) (p q : Provider) (s : Store)
    → lookup other s ≡ some q
    → lookup other (or_insert role p s).1 ≡ some q
unfolding or_insert
lookup-or_insert_keeps role other p q s h =
    ground (arith, lookup_cons role other p s, same_role-eq role other)

-- What is found afterwards was there before, or it is the new one.
pub lookup-or_insert_old :
    (role other : Option String) (p q : Provider) (s : Store)
    → lookup other (or_insert role p s).1 ≡ some q
    → (lookup other s ≡ some q) ⊎ ((role ≡ other) × (p ≡ q))
unfolding or_insert
lookup-or_insert_old role other p q s h =
    ground (arith, lookup_cons role other p s, same_role-eq role other)

label-build : (n : ℕ) (role : Option String) → (build n role).label ≡ unwrap_or role "default"
unfolding build
label-build n role = refl

pub lookup_empty : (role : Option String) → lookup role [] ≡ none
unfolding lookup
lookup_empty role = refl

-- A provider that a task has been given stands in the store under its role, and the providers of
-- the store and those under construction carry the label of their role.
pub record Sound (s : Providers) : Type 0 where
  pub recorded :
      (i : ℕ) (role : Option String) (p : Provider)
      → s.phase i ≡ returned role p
      → lookup role s.store ≡ some p
  pub labelled :
      (role : Option String) (p : Provider)
      → lookup role s.store ≡ some p
      → p.label ≡ unwrap_or role "default"
  pub under_construction :
      (i : ℕ) (role : Option String) (p : Provider)
      → s.phase i ≡ building role p
      → p.label ≡ unwrap_or role "default"

Step-Sound : {s u : Providers} → Step s u → Sound s → Sound u
Step-Sound (call s i role e) h = record {
  recorded = λ j r p e. ground (arith, h.recorded j r p);
  labelled = h.labelled;
  under_construction = λ j r p e. ground (arith, h.under_construction j r p);
}
Step-Sound (found s i role p e l) h = record {
  recorded = λ j r q e. ground (arith, h.recorded j r q);
  labelled = h.labelled;
  under_construction = λ j r q e. ground (arith, h.under_construction j r q);
}
Step-Sound (missed s i role e l) h = record {
  recorded = λ j r p e. ground (arith, h.recorded j r p);
  labelled = h.labelled;
  under_construction =
      λ j r p f. ground (arith, h.under_construction j r p, label-build s.built role);
}
Step-Sound (inserted s i role p e) h = record {
  recorded = λ j r q f. ground (
    arith,
    h.recorded j r q,
    lookup-or_insert_self role p s.store,
    lookup-or_insert_keeps role r p q s.store,
  );
  labelled = λ r q f. ground (
    arith,
    lookup-or_insert_old role r p q s.store f,
    h.labelled r q,
    h.under_construction i role p e,
  );
  under_construction = λ j r q f. ground (arith, h.under_construction j r q);
}

Reach-Sound : {s : Providers} → Reach start s → Sound s
Reach-Sound here = record {
  recorded = λ i role p e. cc;
  labelled = λ role p e. cc (lookup_empty role);
  under_construction = λ i role p e. cc;
}
Reach-Sound (next r st) = Step-Sound st (Reach-Sound r)

-- Whatever the tasks do, two of them that have been given a provider for the same role have the
-- same one, and it carries the label of that role.
pub one_provider :
    {s : Providers} (i j : ℕ) (role : Option String) (p q : Provider)
    → Reach start s
    → s.phase i ≡ returned role p
    → s.phase j ≡ returned role q
    → (p ≡ q) × (p.label ≡ unwrap_or role "default")
one_provider i j role p q r e f =
    let h = Reach-Sound r in
    (cc (h.recorded i role p e, h.recorded j role q f), h.labelled role p (h.recorded i role p e))
