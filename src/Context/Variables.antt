-- ===== src/Context/Variables.antt =====
-- context.rs: what the variables of a request hold.
use mathlib.Core.Path.{subst}
use text.Mathlib.TextLemmas.{cons-append}
use http_dragonfly.Prelude.{
  String, true, false, Bool-cases, inl, inr, ◌≡◌, refl, ap, Option, none, some, List, [], ◌∷◌, ◌==◌,
  or_else, eq_iff, unwrap_or, arith,
}
use http_dragonfly.Prelude.Table
use http_dragonfly.Prelude.Table.{get-insert}
use http_dragonfly.Prelude.Text.{concat, dash_to_underscore, trim_start_slashes, starts_with}
use http_dragonfly.Platform.{HeaderValue, Platform}
use http_dragonfly.Context
use http_dragonfly.Context.{
  Context, ContextMap, RequestParts, insert_headers, request_vars, insert_lowercase,
}

starts_with-concat : (prefix x : String) → starts_with prefix (concat prefix x) ≡ true
unfolding starts_with
starts_with-concat String.[] x = refl
starts_with-concat (String.◌∷◌ c s) x =
    rw (cons-append c s x) (ground (arith, starts_with-concat s x))

-- What does not start with a prefix is not what stands behind it.
pub concat_apart :
    (prefix k x : String) → starts_with prefix k ≡ false → concat prefix x == k ≡ false
concat_apart prefix k x e = elim (Bool-cases (concat prefix x == k)) [
  | inr apart ↦ apart
  | inl same ↦
      let equal : concat prefix x ≡ k = (eq_iff (concat prefix x) k).0 same in
      absurd (cc (subst (λ s. starts_with prefix s ≡ true) equal (starts_with-concat prefix x), e))
]

pub apart_concat :
    (prefix k x : String) → starts_with prefix k ≡ false → k == concat prefix x ≡ false
apart_concat prefix k x e = elim (Bool-cases (k == concat prefix x)) [
  | inr apart ↦ apart
  | inl same ↦
      let equal : k ≡ concat prefix x = (eq_iff k (concat prefix x)).0 same in
      absurd (cc (subst (λ s. starts_with prefix s ≡ false) equal e, starts_with-concat prefix x))
]

module _ {M F J : Type 0} (p : Platform M F J) where
  -- A header is filed under its prefix.
  pub get-insert_headers :
      (prefix k : String)
      → ((x : String) → concat prefix x == k ≡ false)
      → (hs : List (String × HeaderValue)) (m : ContextMap)
      → Table.get (insert_headers p prefix hs m) k ≡ Table.get m k
  unfolding insert_headers
  get-insert_headers prefix k apart [] m = refl
  get-insert_headers prefix k apart ((n, v) ∷ hs) m =
      let name = concat prefix (dash_to_underscore (p.uppercase n)) in
      ground (
        arith,
        get-insert_headers prefix k apart hs (Table.insert name (unwrap_or (p.to_str v) "") m),
        get-insert m name k (unwrap_or (p.to_str v) ""),
        apart (dash_to_underscore (p.uppercase n)),
      )

module _ {M F J : Type 0} (p : Platform M F J) (c : Context) (ip : String) (req : RequestParts M)
    (listener_name : String) where
  abbrev pub lowercased : Option String → Option String
  lowercased none = none
  lowercased (some s) = some (p.lowercase s)

  abbrev var : String → Option String
  var k = Context.get (Context.with_request p c ip req listener_name) k

  -- The own variables, from the host and the query.
  abbrev vars_of : Option String → Option String → ContextMap
  vars_of host query = insert_lowercase p "CTX_REQUEST_QUERY" query (
      insert_lowercase p "CTX_REQUEST_HOST" host (
        Table.insert "CTX_REQUEST_PATH" (trim_start_slashes req.uri.path) (
          Table.insert "CTX_REQUEST_METHOD" req.method (
            Table.insert "CTX_REQUEST_SOURCE_IP" ip
              (Table.insert "CTX_LISTENER_NAME" listener_name [])))))

  abbrev Holds : Option String → Option String → Type 0
  Holds host query =
      (Table.get (vars_of host query) "CTX_LISTENER_NAME" ≡ some listener_name)
      × (Table.get (vars_of host query) "CTX_REQUEST_SOURCE_IP" ≡ some ip)
      × (Table.get (vars_of host query) "CTX_REQUEST_METHOD" ≡ some req.method)
      × (Table.get (vars_of host query) "CTX_REQUEST_PATH" ≡ some (trim_start_slashes req.uri.path))
      × (Table.get (vars_of host query) "CTX_REQUEST_HOST" ≡ lowercased host)
      × (Table.get (vars_of host query) "CTX_REQUEST_QUERY" ≡ lowercased query)

  get-request_vars : (host query : Option String) → Holds host query
  unfolding Table.get Table.insert
  get-request_vars none none = (refl, refl, refl, refl, refl, refl)
  get-request_vars (some h) none = (refl, refl, refl, refl, refl, refl)
  get-request_vars none (some q) = (refl, refl, refl, refl, refl, refl)
  get-request_vars (some h) (some q) = (refl, refl, refl, refl, refl, refl)

  -- A variable that is none of the headers'.
  own_var :
      (k : String)
      → starts_with "CTX_REQUEST_HEADERS_" k ≡ false
      → var k ≡ or_else (Table.get (vars_of req.uri.host req.uri.query) k) (Context.get c k)
  unfolding Context.with_request Context.get request_vars
  own_var k e =
      ap (λ o. or_else o (Context.get c k))
        (get-insert_headers p "CTX_REQUEST_HEADERS_" k
          (λ x. concat_apart "CTX_REQUEST_HEADERS_" k x e) (p.headers.iter req.headers)
          (request_vars p ip req listener_name))

  -- The variables of a request hold what the request has, whatever its headers are; the host and
  -- the query, where the request has none, are those of the outer context.
  pub get-with_request :
      (var "CTX_LISTENER_NAME" ≡ some listener_name)
      × (var "CTX_REQUEST_SOURCE_IP" ≡ some ip)
      × (var "CTX_REQUEST_METHOD" ≡ some req.method)
      × (var "CTX_REQUEST_PATH" ≡ some (trim_start_slashes req.uri.path))
      × (var "CTX_REQUEST_HOST"
          ≡ or_else (lowercased req.uri.host) (Context.get c "CTX_REQUEST_HOST"))
      × (var "CTX_REQUEST_QUERY"
          ≡ or_else (lowercased req.uri.query) (Context.get c "CTX_REQUEST_QUERY"))
  unfolding starts_with
  get-with_request =
      let (name, source, method, path, host, query) = get-request_vars req.uri.host req.uri.query in
      (
        rw (own_var "CTX_LISTENER_NAME" refl, name) refl,
        rw (own_var "CTX_REQUEST_SOURCE_IP" refl, source) refl,
        rw (own_var "CTX_REQUEST_METHOD" refl, method) refl,
        rw (own_var "CTX_REQUEST_PATH" refl, path) refl,
        rw (own_var "CTX_REQUEST_HOST" refl, host) refl,
        rw (own_var "CTX_REQUEST_QUERY" refl, query) refl,
      )
