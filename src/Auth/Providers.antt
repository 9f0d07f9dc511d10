-- ===== src/Auth/Providers.antt =====
-- aws_auth/mod.rs: `CREDENTIALS`, the shared providers, one for each role and one for no role.
pub mod Shared
pub mod Owned
use http_dragonfly.Prelude.{
  ℕ, suc, String, ◌≡◌, Bool, true, false, Option, none, some, List, [], ◌∷◌, ◌==◌, eqb, unwrap_or,
  if◌then◌else◌,
}

-- An `Arc<RefreshingCredentials>`: the allocation, the label, and the role whose credentials its
-- `inner` provider asks for (the `AssumeRoleProvider` of a role, or the base chain of the SDK).
pub record Provider : Type 0 where
  pub allocation : ℕ
  pub label : String
  pub inner : Option String

abbrev pub Store : Type 0
Store = List (Option String × Provider)

unfoldable pub same_role : Option String → Option String → Bool
same_role none none = true
same_role none (some r) = false
same_role (some r) none = false
same_role (some r) (some q) = r == q

-- `CREDENTIALS.read().get(&key)`
unfoldable pub lookup : Option String → Store → Option Provider
unfolding same_role
lookup role [] = none
lookup role ((key, provider) ∷ store) =
    if same_role key role then some provider else lookup role store

-- The provider that is built for a role.
unfoldable pub build : ℕ → Option String → Provider
build allocation role = record {
  allocation = allocation;
  label = unwrap_or role "default";
  inner = role;
}

abbrev pub entry_or_insert : Option Provider → Option String → Provider → Store → Provider × Store
entry_or_insert (some held) role provider store = (held, store)
entry_or_insert none role provider store = (provider, (role, provider) ∷ store)

-- `CREDENTIALS.write().entry(key).or_insert(provider).clone()`
unfoldable pub or_insert : Option String → Provider → Store → Provider × Store
or_insert role provider store = entry_or_insert (lookup role store) role provider store

-- Where a task stands in `provider_for`: outside; about to look; with a provider that it builds
-- without the lock; returned.
pub data Phase : Type 0 where
  outside : Phase
  looking : Option String → Phase
  building : Option String → Provider → Phase
  returned : Option String → Provider → Phase

pub record Providers : Type 0 where
  pub store : Store
  pub built : ℕ
  pub phase : ℕ → Phase

abbrev pub moved : (ℕ → Phase) → ℕ → Phase → ℕ → Phase
moved phase i ph j = if eqb i j then ph else phase j

-- A step is what one task does between two points where it may have to wait.
pub data Step : Providers → Providers → Type 0 where
  call :
      (s : Providers) (i : ℕ) (role : Option String)
      → s.phase i ≡ outside
      → Step s (record s { phase = moved s.phase i (looking role) })
  found :
      (s : Providers) (i : ℕ) (role : Option String) (provider : Provider)
      → s.phase i ≡ looking role
      → lookup role s.store ≡ some provider
      → Step s (record s { phase = moved s.phase i (returned role provider) })
  missed :
      (s : Providers) (i : ℕ) (role : Option String)
      → s.phase i ≡ looking role
      → lookup role s.store ≡ none
      → Step s (record s {
        built = suc s.built;
        phase = moved s.phase i (building role (build s.built role));
      })
  inserted :
      (s : Providers) (i : ℕ) (role : Option String) (provider : Provider)
      → s.phase i ≡ building role provider
      → Step s (record s {
        store = (or_insert role provider s.store).1;
        phase = moved s.phase i (returned role (or_insert role provider s.store).0);
      })

pub data Reach (s : Providers) : Providers → Type 0 where
  here : Reach s s
  next : {t u : Providers} → Reach s t → Step t u → Reach s u

abbrev pub start : Providers
start = record { store = []; built = 0; phase = λ i. outside }
