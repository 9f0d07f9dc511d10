-- ===== src/Auth/Providers/Owned.antt =====
-- aws_auth/mod.rs: the provider that a task is given for a role asks for the credentials of this
-- role, and no other role has a provider in the same allocation.
use http_dragonfly.Prelude.{
  ℕ, suc, ◌≤◌, ◌<◌, String, ◌≡◌, refl, Option, none, some, arith, eqb, if◌then◌else◌,
}
use http_dragonfly.Auth.Providers.{
  Provider, lookup, build, building, returned, Providers, Step, call, found, missed, inserted,
  start,
}
use http_dragonfly.Auth.Providers.Shared.{lookup-or_insert_self, lookup-or_insert_old, lookup_empty}

-- `owner` says for which role an allocation has been made.
abbrev pub Belongs : (ℕ → Option String) → ℕ → Option String → Provider → Type 0
Belongs owner built role p = (p.allocation < built) × (p.inner ≡ role) × (owner p.allocation ≡ role)

pub record Owned (owner : ℕ → Option String) (s : Providers) : Type 0 where
  pub stored :
      (role : Option String) (p : Provider)
      → lookup role s.store ≡ some p
      → Belongs owner s.built role p
  pub constructed :
      (i : ℕ) (role : Option String) (p : Provider)
      → s.phase i ≡ building role p
      → Belongs owner s.built role p
  pub handed :
      (i : ℕ) (role : Option String) (p : Provider)
      → s.phase i ≡ returned role p
      → Belongs owner s.built role p

-- The owners after a step; those of the allocations before it stay.
pub record Successor (owner : ℕ → Option String) (s u : Providers) : Type 0 where
  pub owner' : ℕ → Option String
  pub kept : (a : ℕ) → a < s.built → owner' a ≡ owner a
  pub grows : s.built ≤ u.built
  pub owned : Owned owner' u

build_fields :
    (n : ℕ) (role : Option String) → ((build n role).allocation ≡ n) × ((build n role).inner ≡ role)
unfolding build
build_fields n role = (refl, refl)

claimed : (ℕ → Option String) → ℕ → Option String → ℕ → Option String
claimed owner n role a = if eqb n a then role else owner a

claimed_old :
    (owner : ℕ → Option String) (n : ℕ) (role : Option String) (a : ℕ)
    → a < n
    → claimed owner n role a ≡ owner a
unfolding claimed
claimed_old owner n role a h = ground arith

claimed_new :
    (owner : ℕ → Option String) (n : ℕ) (role : Option String) → claimed owner n role n ≡ role
unfolding claimed
claimed_new owner n role = ground arith

Belongs-claimed :
    (owner : ℕ → Option String) (n : ℕ) (role r : Option String) (p : Provider)
    → Belongs owner n r p
    → Belongs (claimed owner n role) (suc n) r p
Belongs-claimed owner n role r p b = ground (arith, claimed_old owner n role p.allocation)

Belongs-build :
    (owner : ℕ → Option String) (n : ℕ) (role : Option String)
    → Belongs (claimed owner n role) (suc n) role (build n role)
Belongs-build owner n role = ground (arith, build_fields n role, claimed_new owner n role)

pub Step-Owned :
    {owner : ℕ → Option String} {s u : Providers} → Step s u → Owned owner s → Successor owner s u
Step-Owned {owner} (call s i role e) h = record {
  owner' = owner;
  kept = λ a l. refl;
  grows = omega arith;
  owned = record {
    stored = h.stored;
    constructed = λ j r p e. ground (arith, h.constructed j r p);
    handed = λ j r p e. ground (arith, h.handed j r p);
  };
}
Step-Owned {owner} (found s i role p e l) h = record {
  owner' = owner;
  kept = λ a l. refl;
  grows = omega arith;
  owned = record {
    stored = h.stored;
    constructed = λ j r q e. ground (arith, h.constructed j r q);
    handed = λ j r q e. ground (arith, h.handed j r q, h.stored role p l);
  };
}
Step-Owned {owner} (missed s i role e l) h = record {
  owner' = claimed owner s.built role;
  kept = claimed_old owner s.built role;
  grows = omega arith;
  owned = record {
    stored = λ r p e. Belongs-claimed owner s.built role r p (h.stored r p e);
    constructed = λ j r p f. ground (
      arith,
      h.constructed j r p,
      Belongs-claimed owner s.built role r p,
      Belongs-build owner s.built role,
    );
    handed = λ j r p f. ground (arith, h.handed j r p, Belongs-claimed owner s.built role r p);
  };
}
Step-Owned {owner} (inserted s i role p e) h = record {
  owner' = owner;
  kept = λ a l. refl;
  grows = omega arith;
  owned = record {
    stored = λ r q f.
        ground (
          arith,
          lookup-or_insert_old role r p q s.store f,
          h.stored r q,
          h.constructed i role p e,
        );
    constructed = λ j r q f. ground (arith, h.constructed j r q);
    handed = λ j r q f. ground (
      arith,
      h.handed j r q,
      lookup-or_insert_self role p s.store,
      lookup-or_insert_old role role p q s.store,
      h.stored role q,
      h.constructed i role p e,
    );
  };
}

pub start-Owned : Owned (λ a. none) start
start-Owned = record {
  stored = λ role p e. cc (lookup_empty role);
  constructed = λ i role p e. cc;
  handed = λ i role p e. cc;
}
