-- ===== src/Context/Chain.antt =====
-- context.rs: the variables of a response, over those of its target and of the request.
use http_dragonfly.Prelude.{
  String, ◌≡◌, refl, ap, ◌∙◌, Option, none, some, List, [], ◌∷◌, ◌==◌, or_else, unwrap_or, arith,
  false, if◌then◌else◌,
}
use http_dragonfly.Prelude.Table
use http_dragonfly.Prelude.Table.{get-insert}
use http_dragonfly.Prelude.Text.{concat, dash_to_underscore, trim_start_slashes, starts_with}
use http_dragonfly.Platform.{HeaderValue, Platform}
use http_dragonfly.Config.Types.{TargetConfig}
use http_dragonfly.Config.Target
use http_dragonfly.Context
use http_dragonfly.Context.{
  Context, ContextMap, RequestParts, Response, insert_headers, insert_lowercase, request_vars,
}
use http_dragonfly.Context.Variables.{
  concat_apart, apart_concat, get-insert_headers, lowercased, get-with_request,
}

module _ {M F J : Type 0} (p : Platform M F J) where
  -- The text of the last header that is filed under a variable.
  unfoldable pub last_filed : String → String → List (String × HeaderValue) → Option String
  last_filed prefix k [] = none
  last_filed prefix k ((n, v) ∷ hs) = or_else (last_filed prefix k hs) (
      if concat prefix (dash_to_underscore (p.uppercase n)) == k
      then some (unwrap_or (p.to_str v) "")
      else none)

  get-insert_headers_last :
      (prefix k : String) (hs : List (String × HeaderValue)) (m : ContextMap)
      → Table.get (insert_headers p prefix hs m) k
        ≡ or_else (last_filed prefix k hs) (Table.get m k)
  unfolding insert_headers last_filed
  get-insert_headers_last prefix k [] m = refl
  get-insert_headers_last prefix k ((n, v) ∷ hs) m =
      let name = concat prefix (dash_to_underscore (p.uppercase n)) in
      let value = unwrap_or (p.to_str v) "" in
      ground (
        arith,
        get-insert_headers_last prefix k hs (Table.insert name value m),
        get-insert m name k value,
      )

module _ {M F J : Type 0} (p : Platform M F J) (c : Context) (ip : String) (req : RequestParts M)
    (listener_name : String) (cfg : TargetConfig F) (resp : Response M) where
  abbrev of_request : Context
  of_request = Context.with_request p c ip req listener_name

  abbrev of_response : Context
  of_response = Context.with_response p (Context.with_target p of_request cfg) resp

  abbrev var : String → Option String
  var k = Context.get of_response k

  -- A variable that is none of the headers of the response.
  own_var :
      (k : String)
      → starts_with "CTX_RESPONSE_HEADERS_" k ≡ false
      → var k
        ≡ or_else
            (Table.get (Table.insert "CTX_RESPONSE_STATUS" (p.status_text resp.status) []) k)
            (Context.get (Context.with_target p of_request cfg) k)
  unfolding Context.with_response Context.get
  own_var k e =
      ap (λ o. or_else o (Context.get (Context.with_target p of_request cfg) k))
        (get-insert_headers p "CTX_RESPONSE_HEADERS_" k
          (λ x. concat_apart "CTX_RESPONSE_HEADERS_" k x e) (p.headers.iter resp.headers)
          (Table.insert "CTX_RESPONSE_STATUS" (p.status_text resp.status) []))

  -- In the context of a response, over those of its target and of the request, the variables for
  -- the status, the target, the listener, the source address, the method and the path hold what the
  -- response, the target and the request have, whatever the headers of the response and of the
  -- request are; the host and the query, where the request has none, are those of the outer context.
  pub get-with_response :
      (var "CTX_RESPONSE_STATUS" ≡ some (p.status_text resp.status))
      × (var "CTX_TARGET_ID" ≡ some (Target.id cfg))
      × (var "CTX_TARGET_HOST" ≡ some (Target.host p cfg))
      × (var "CTX_LISTENER_NAME" ≡ some listener_name)
      × (var "CTX_REQUEST_SOURCE_IP" ≡ some ip)
      × (var "CTX_REQUEST_METHOD" ≡ some req.method)
      × (var "CTX_REQUEST_PATH" ≡ some (trim_start_slashes req.uri.path))
      × (var "CTX_REQUEST_HOST"
          ≡ or_else
              (lowercased p c ip req listener_name req.uri.host)
              (Context.get c "CTX_REQUEST_HOST"))
      × (var "CTX_REQUEST_QUERY"
          ≡ or_else
              (lowercased p c ip req listener_name req.uri.query)
              (Context.get c "CTX_REQUEST_QUERY"))
  unfolding starts_with Table.get Table.insert Context.get Context.with_target
  get-with_response =
      let (name, source, method, path, host, query) = get-with_request p c ip req listener_name in
      (
        own_var "CTX_RESPONSE_STATUS" refl,
        own_var "CTX_TARGET_ID" refl,
        own_var "CTX_TARGET_HOST" refl,
        rw (own_var "CTX_LISTENER_NAME" refl) name,
        rw (own_var "CTX_REQUEST_SOURCE_IP" refl) source,
        rw (own_var "CTX_REQUEST_METHOD" refl) method,
        rw (own_var "CTX_REQUEST_PATH" refl) path,
        rw (own_var "CTX_REQUEST_HOST" refl) host,
        rw (own_var "CTX_REQUEST_QUERY" refl) query,
      )

module _ {M F J : Type 0} (p : Platform M F J) where
  get-insert-apart :
      (prefix n key value : String) (m : ContextMap)
      → starts_with prefix key ≡ false
      → Table.get m (concat prefix n) ≡ none
      → Table.get (Table.insert key value m) (concat prefix n) ≡ none
  get-insert-apart prefix n key value m e h =
      rw (get-insert m key (concat prefix n) value, apart_concat prefix key n e, h) refl

  get-insert_lowercase-apart :
      (prefix n key : String) (o : Option String) (m : ContextMap)
      → starts_with prefix key ≡ false
      → Table.get m (concat prefix n) ≡ none
      → Table.get (insert_lowercase p key o m) (concat prefix n) ≡ none
  get-insert_lowercase-apart prefix n key none m e h = h
  get-insert_lowercase-apart prefix n key (some v) m e h =
      get-insert-apart prefix n key (p.lowercase v) m e h

  get-request_vars-apart :
      (ip : String) (req : RequestParts M) (listener_name n : String)
      → Table.get (request_vars p ip req listener_name) (concat "CTX_REQUEST_HEADERS_" n) ≡ none
  unfolding request_vars Table.get starts_with
  get-request_vars-apart ip req listener_name n =
      let apart = get-insert-apart "CTX_REQUEST_HEADERS_" n in
      get-insert_lowercase-apart "CTX_REQUEST_HEADERS_" n "CTX_REQUEST_QUERY" req.uri.query _ refl (
        get-insert_lowercase-apart "CTX_REQUEST_HEADERS_" n "CTX_REQUEST_HOST" req.uri.host _ refl (
          apart "CTX_REQUEST_PATH" _ _ refl (
            apart "CTX_REQUEST_METHOD" _ _ refl
              (apart "CTX_REQUEST_SOURCE_IP" _ _ refl (apart "CTX_LISTENER_NAME" _ [] refl refl)))))

  or_else-none : (o : Option String) → or_else o none ≡ o
  or_else-none none = refl
  or_else-none (some s) = refl

  get-headers_over :
      (c : Context) (prefix n : String) (hs : List (String × HeaderValue)) (m : ContextMap)
      → Table.get m (concat prefix n) ≡ none
      → Context.get (Context.extended c (insert_headers p prefix hs m)) (concat prefix n)
        ≡ or_else (last_filed p prefix (concat prefix n) hs) (Context.get c (concat prefix n))
  unfolding Context.get
  get-headers_over c prefix n hs m e =
      ap (λ o. or_else o (Context.get c (concat prefix n)))
        (get-insert_headers_last p prefix (concat prefix n) hs m
          ∙ rw e (or_else-none (last_filed p prefix (concat prefix n) hs)))

  -- The variable for the name of a header holds the last header of the request, or of the response,
  -- whose name in upper case, with underscores, it is, as a text that is empty if the value is none;
  -- without such a header it is that of the outer context.
  pub get-header :
      (c : Context) (ip : String) (req : RequestParts M) (listener_name : String)
      (resp : Response M) (n : String)
      → (Context.get
            (Context.with_request p c ip req listener_name)
            (concat "CTX_REQUEST_HEADERS_" n)
          ≡ or_else
              (last_filed p "CTX_REQUEST_HEADERS_"
                (concat "CTX_REQUEST_HEADERS_" n)
                (p.headers.iter req.headers))
              (Context.get c (concat "CTX_REQUEST_HEADERS_" n)))
        × (Context.get (Context.with_response p c resp) (concat "CTX_RESPONSE_HEADERS_" n)
            ≡ or_else
                (last_filed p "CTX_RESPONSE_HEADERS_"
                  (concat "CTX_RESPONSE_HEADERS_" n)
                  (p.headers.iter resp.headers))
                (Context.get c (concat "CTX_RESPONSE_HEADERS_" n)))
  unfolding Context.with_request Context.with_response starts_with Table.get
  get-header c ip req listener_name resp n = (
    get-headers_over c "CTX_REQUEST_HEADERS_" n (p.headers.iter req.headers)
        (request_vars p ip req listener_name) (get-request_vars-apart ip req listener_name n),
    get-headers_over c "CTX_RESPONSE_HEADERS_" n (p.headers.iter resp.headers)
        (Table.insert "CTX_RESPONSE_STATUS" (p.status_text resp.status) [])
        (get-insert-apart "CTX_RESPONSE_HEADERS_" n "CTX_RESPONSE_STATUS" _ [] refl refl),
  )
