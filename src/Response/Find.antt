-- ===== src/Response/Find.antt =====
-- config/response.rs: what `find_first_response` finds, whatever the order of the map is.
use http_dragonfly.Prelude.{
  String, Bool, true, false, ◌≡◌, refl, ◌∙◌, inl, inr, Option, none, some, List, [], ◌∷◌, is_some,
  member, ok, eq_iff, arith, Bool-cases,
}
use http_dragonfly.Prelude.Table
use http_dragonfly.Prelude.Table.{member-keys}
use http_dragonfly.Platform.{Platform}
use http_dragonfly.Platform.Laws.{VisitsAll}
use http_dragonfly.Config.Types.{ResponseConfig}
use http_dragonfly.Context.{Context, Response}
use http_dragonfly.Response.{
  ResponsesMap, ResponseKind, wanted, stops_at, find_key, find_first_response,
}

module _ {M F J : Type 0} (p : Platform M F J) (is_match : String → Bool) (kind : ResponseKind)
    (m : ResponsesMap M) where
  -- An entry of the map with a response of the kind.
  abbrev pub FoundAt : String → Type 0
  FoundAt k =
      (resp : Response M) × (ctx : Context) × (Table.get m k ≡ some (some resp, ctx))
      × (wanted kind (is_match (p.status_text resp.status)) ≡ true)

  -- No entry of the map has a response of the kind.
  abbrev pub NoneFound : Type 0
  NoneFound =
      (k : String) (resp : Response M) (ctx : Context)
      → Table.get m k ≡ some (some resp, ctx)
      → wanted kind (is_match (p.status_text resp.status)) ≡ false

  abbrev pub Finds : Option String → Type 0
  Finds none = NoneFound
  Finds (some k) = FoundAt k

  stops_at-FoundAt :
      (k : String) (e : Option (Option (Response M) × Context))
      → Table.get m k ≡ e
      → stops_at p is_match kind e ≡ true
      → FoundAt k
  unfolding stops_at
  stops_at-FoundAt k (some (some resp, ctx)) e h = (resp, ctx, e, h)
  stops_at-FoundAt k (some (none, ctx)) e h = cc
  stops_at-FoundAt k none e h = cc

  -- Over the keys of a list: the entry at which the loop stops, or no such key.
  abbrev FindsIn : List String → Option String → Type 0
  FindsIn ks none =
      (k : String) → member k ks ≡ true → stops_at p is_match kind (Table.get m k) ≡ false
  FindsIn ks (some k) = FoundAt k

  find_key-cons :
      (k : String) (ks : List String)
      → FindsIn ks (find_key p is_match kind m ks)
      → FindsIn (k ∷ ks) (find_key p is_match kind m (k ∷ ks))
  unfolding find_key
  find_key-cons k ks ih = elim (Bool-cases (stops_at p is_match kind (Table.get m k))) [
    | inl stop ↦ rw stop (stops_at-FoundAt k (Table.get m k) refl stop)
    | inr go ↦ rw go (later go (find_key p is_match kind m ks) ih)
  ]
    where
      later :
          stops_at p is_match kind (Table.get m k) ≡ false
          → (r : Option String) → FindsIn ks r
          → FindsIn (k ∷ ks) r
      later go (some j) found = found
      later go none h = λ j e. ground (arith, eq_iff k j, h j, go)

  find_key-FindsIn : (ks : List String) → FindsIn ks (find_key p is_match kind m ks)
  unfolding find_key
  find_key-FindsIn [] = λ k e. cc
  find_key-FindsIn (k ∷ ks) = find_key-cons k ks (find_key-FindsIn ks)

  Finds-FindsIn :
      (ks : List String) (r : Option String)
      → ((k : String) → member k ks ≡ is_some (Table.get m k))
      → FindsIn ks r
      → Finds r
  unfolding stops_at
  Finds-FindsIn ks (some k) every found = found
  Finds-FindsIn ks none every h = λ k resp ctx e. ground (arith, h k, every k)

-- With a failure regex that compiles, the search returns the key of an entry with a response of the
-- kind that is looked for, or nothing, if no entry has such a response.
pub find_first_response_lem :
    {M F J : Type 0} (p : Platform M F J) (rc : ResponseConfig) (is_match : String → Bool)
    (kind : ResponseKind) (m : ResponsesMap M)
    → VisitsAll p.visit
    → p.regex rc.failed_status_regex ≡ some is_match
    → (r : Option String) × (find_first_response p rc m kind ≡ ok r) × Finds p is_match kind m r
unfolding find_first_response
find_first_response_lem p rc is_match kind m visits e = (
  find_key p is_match kind m (p.visit (Table.keys m)),
  rw e,
  Finds-FindsIn p is_match kind m (p.visit (Table.keys m))
      (find_key p is_match kind m (p.visit (Table.keys m)))
      (λ k. visits (Table.keys m) k ∙ member-keys m k)
      (find_key-FindsIn p is_match kind m (p.visit (Table.keys m))),
)
