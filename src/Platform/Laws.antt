-- ===== src/Platform/Laws.antt =====
-- What the program relies on in the http crate's `HeaderMap` and in the hash containers.
use http_dragonfly.Prelude.{
  ℕ, ◌≤◌, true, String, ◌≡◌, Bool, false, not, Option, none, some, List, [], ◌∷◌, ◌++◌, is_empty,
  member, ◌==◌, if◌then◌else◌,
}
use http_dragonfly.Platform.{HeaderValue, Platform}

-- The values that stand behind a name, in their order.
unfoldable pub values_of : String → List (String × HeaderValue) → List HeaderValue
values_of n [] = []
values_of n ((m, v) ∷ hs) = let rest = values_of n hs in if m == n then v ∷ rest else rest

-- Whether a text, read as a header name, is the name `n`.
abbrev pub names : Option String → String → Bool
names none n = false
names (some m) n = m == n

abbrev pub has_values : Option String → (String → List HeaderValue) → Bool
has_values none f = false
has_values (some n) f = not (is_empty (f n))

-- `HeaderMap` is a multimap from names to values, and what it does shows in `get_all`.
pub record HeaderLaws {M F J : Type 0} (p : Platform M F J) : Type 0 where
  pub get_all-empty : (n : String) → p.headers.get_all p.headers.empty n ≡ []
  pub get_all-insert :
      (k n : String) (v : HeaderValue) (h : M)
      → p.headers.get_all (p.headers.insert k v h) n
        ≡ (if k == n then v ∷ [] else p.headers.get_all h n)
  pub get_all-append :
      (k n : String) (v : HeaderValue) (h : M)
      → p.headers.get_all (p.headers.append k v h) n
        ≡ (if k == n then p.headers.get_all h n ++ (v ∷ []) else p.headers.get_all h n)
  pub get_all-remove :
      (k n : String) (h : M)
      → p.headers.get_all (p.headers.remove k h) n
        ≡ (if names (p.header_name k) n then [] else p.headers.get_all h n)
  pub contains_key-get_all :
      (h : M) (k : String)
      → p.headers.contains_key h k ≡ has_values (p.header_name k) (p.headers.get_all h)
  pub get_all-iter : (h : M) (n : String) → p.headers.get_all h n ≡ values_of n (p.headers.iter h)

-- A hash container is visited key by key: all its keys, and no other.
abbrev pub VisitsAll : (List String → List String) → Type 0
VisitsAll visit = (ks : List String) (k : String) → member k (visit ks) ≡ member k ks

-- `StatusCode::from_u16` takes the numbers from 100 to 999.
abbrev pub StatusRange : {M F J : Type 0} → Platform M F J → Type 0
StatusRange p = (s : ℕ) → 100 ≤ s → s ≤ 999 → p.is_status s ≡ true
