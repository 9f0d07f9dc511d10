-- ===== src/Handler/Dispatch/Safe.antt =====
-- handler.rs: with usable targets and a sound network, the dispatch does not panic.
use http_dragonfly.Prelude.{
  ℕ, String, true, false, ◌≡◌, ◌≢◌, refl, inl, inr, Option, none, some, List, [], ◌∷◌, panic, All,
  OnSome, Bool-cases, Ensures, returned, failed, Ensures-bind, unwrap, ok_or, invalid_uri,
  invalid_header_value, HttpError,
}
use http_dragonfly.Platform.{Uri, Platform}
use http_dragonfly.Platform.Laws.{HeaderLaws}
use http_dragonfly.Config.Types.{TargetConfig, TlsConfig}
use http_dragonfly.Clients.{Clients, client_key, create_https_client}
use http_dragonfly.Clients.Cached.{get_https_client-got}
use http_dragonfly.Context
use http_dragonfly.Context.{Context, RequestParts, Request, Response}
use http_dragonfly.Headers.{expand_in}
use http_dragonfly.Headers.View.{AllApplicable}
use http_dragonfly.Response.Safe.{HasStatus}
use http_dragonfly.Response.Override.{transform_opt_lem}
use http_dragonfly.Auth.Signer.NoError.{Ensures-sign_target}
use http_dragonfly.Auth.Signer.{Signing, signed, sign_failed, sign_target}
use http_dragonfly.Handler.Dispatch.{
  Exchange, response, broken_body, client_error, elapsed, join_failed, client_for, Network,
  TargetDispatch, spawned, signing_failed, Dispatched, add_host, target_request, dispatch_signed,
  dispatch_targets,
}

module _ {M F J : Type 0} (p : Platform M F J) where
  -- In every context, the expanded URL is a URI with a host that is a header value, but for the
  -- errors that are allowed, and the transformations apply; the status that stands for errors is
  -- valid.
  pub record UsableTarget (E : HttpError → Type 0) (t : TargetConfig F) : Type 0 where
    pub uri : (ctx : Context) → p.parse_uri (expand_in p ctx t.url) ≡ none → E invalid_uri
    pub host :
        (ctx : Context) (u : Uri) → p.parse_uri (expand_in p ctx t.url) ≡ some u → u.host ≢ none
    pub host_value :
        (ctx : Context) (u : Uri) (h : String)
        → p.parse_uri (expand_in p ctx t.url) ≡ some u
        → u.host ≡ some h
        → p.header_value h ≡ none
        → E invalid_header_value
    pub headers : (ctx : Context) → AllApplicable p ctx t.headers
    pub error_status : OnSome (λ s. p.is_status s ≡ true) t.error_status

  -- A body does not break off, a response has a valid status, and no task is cancelled or panics.
  abbrev pub SoundExchange : Exchange M → Type 0
  SoundExchange (response resp) = HasStatus p resp
  SoundExchange broken_body = ⊥
  SoundExchange (client_error is_connect) = Unit
  SoundExchange elapsed = Unit
  SoundExchange join_failed = ⊥

  abbrev pub SoundNetwork : Network M F → Type 0
  SoundNetwork net = (t : TargetConfig F) (r : Request M) → SoundExchange (net.exchange t r)

  -- Signing for the target does not panic.
  abbrev pub Signs : Network M F → TargetConfig F → Type 0
  Signs net t = (r : Request M) → sign_target p net.aws net.sdk_config t r r.body ≢ panic

  -- Other requests do not poison the cache of clients.
  abbrev pub KeepsClients : Network M F → Type 0
  KeepsClients net =
      (t : TargetConfig F) (c : Clients ℕ)
      → c.poisoned ≡ false
      → (net.meanwhile t c).poisoned ≡ false

  -- A client for the target can be created.
  abbrev pub HasClient : Network M F → TlsConfig → TargetConfig F → Type 0
  HasClient net default_tls t = create_https_client net.connectors (client_key default_tls t) ≢ none

  abbrev pub SoundDispatch : TargetDispatch M → Type 0
  SoundDispatch (spawned x) = SoundExchange x
  SoundDispatch (signing_failed cause) = Unit

  abbrev pub Collectable : Dispatched M F → Type 0
  Collectable d = SoundDispatch d.sent × OnSome (λ s. p.is_status s ≡ true) d.target.error_status

module _ {A : Type 0} (E : HttpError → Type 0) where
  Ensures-ok_or :
      (cause : HttpError) (o : Option A)
      → (o ≡ none → E cause)
      → Ensures E (λ a. o ≡ some a) (ok_or cause o)
  Ensures-ok_or cause none h = failed (h refl)
  Ensures-ok_or cause (some a) h = returned refl

  Ensures-unwrap : (o : Option A) → o ≢ none → Ensures E (λ a. o ≡ some a) (unwrap o)
  Ensures-unwrap none h = absurd (h refl)
  Ensures-unwrap (some a) h = returned refl

module _ {M F J : Type 0} (p : Platform M F J) (net : Network M F) (laws : HeaderLaws p)
    (quiet : p.debug_enabled ≡ false) (E : HttpError → Type 0) where
  target_request-Ensures :
      (ctx : Context) (req : RequestParts M) (headers : M) (body : List ℕ) (t : TargetConfig F)
      → UsableTarget p E t
      → Ensures E (λ r. Unit) (target_request p net ctx req headers body t)
  unfolding target_request add_host
  target_request-Ensures ctx req headers body t u =
      let url = expand_in p ctx t.url in
      let (headers', e, same) =
        transform_opt_lem p laws ctx quiet t.headers headers (u.headers ctx) in
      Ensures-bind _ (Ensures-ok_or E invalid_uri (p.parse_uri url) (u.uri ctx)) (λ uri parsed.
        rw e (
          Ensures-bind _
            (add_host-Ensures url headers' uri parsed (u.host ctx uri parsed)
              (λ h. u.host_value ctx uri h parsed))
            (λ h _. returned tt)))
    where
      add_host-Ensures :
          (url : String) (h : M) (uri : Uri)
          → p.parse_uri url ≡ some uri
          → uri.host ≢ none
          → ((v : String) → uri.host ≡ some v → p.header_value v ≡ none → E invalid_header_value)
          → Ensures E (λ h'. Unit) (add_host p net url h)
      add_host-Ensures url h uri parsed host value =
          elim (Bool-cases (p.headers.contains_key h "host")) [
            | inl e ↦ rw e (returned tt)
            | inr e ↦
                rw (e, parsed)
                  (Ensures-bind _ (Ensures-unwrap E uri.host host) (λ v found.
                    Ensures-bind _
                      (Ensures-ok_or E invalid_header_value (p.header_value v) (value v found))
                      (λ b _. returned tt)))
          ]

  module _ (sound : SoundNetwork p net) (kept : KeepsClients p net) where
    dispatch_signed-SoundDispatch :
        (t : TargetConfig F) (s : Signing M) → SoundDispatch p (dispatch_signed p net t s)
    dispatch_signed-SoundDispatch t (signed r) = sound t r
    dispatch_signed-SoundDispatch t (sign_failed e) = tt

    client_for-Ensures :
        (default_tls : TlsConfig) (t : TargetConfig F) (s : Signing M) (clients : Clients ℕ)
        → clients.poisoned ≡ false
        → HasClient p net default_tls t
        → Ensures E (λ c. c.poisoned ≡ false) (client_for p net default_tls t s clients)
    unfolding client_for
    client_for-Ensures default_tls t (signed r) clients free has =
        let (client, clients', free', e) =
          get_https_client-got net.connectors (client_key default_tls t) (net.meanwhile t clients)
            (kept t clients free) has in
        rw e (returned free')
    client_for-Ensures default_tls t (sign_failed e) clients free has = returned free

    -- Every dispatch can be collected.
    pub dispatch_targets-Ensures :
        (ctx : Context) (req : RequestParts M) (headers : M) (body : List ℕ)
        (default_tls : TlsConfig) (ts : List (TargetConfig F)) (clients : Clients ℕ)
        → clients.poisoned ≡ false
        → All (λ t. UsableTarget p E t × (Signs p net t × HasClient p net default_tls t)) ts
        → Ensures E
            (All (Collectable p))
            (dispatch_targets p net ctx req headers body default_tls ts clients)
    unfolding dispatch_targets
    dispatch_targets-Ensures ctx req headers body default_tls [] clients free h = returned tt
    dispatch_targets-Ensures ctx req headers body default_tls (t ∷ ts) clients free
          ((u, (signs, has)), h) =
        let target_ctx = Context.with_target p ctx t in
        Ensures-bind _ (target_request-Ensures target_ctx req headers body t u) (λ r _.
          Ensures-bind _ (Ensures-sign_target p net.aws E net.sdk_config t r r.body (signs r))
            (λ s _.
              Ensures-bind _ (client_for-Ensures default_tls t s clients free has)
                (λ clients' free'.
                  Ensures-bind _
                    (dispatch_targets-Ensures ctx req headers body default_tls ts clients' free' h)
                    (λ ds all.
                      returned ((dispatch_signed-SoundDispatch t s, u.error_status), all)))))
