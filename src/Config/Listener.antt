-- ===== src/Config/Listener.antt =====
-- config/listener.rs: the accessors of a listener and the test of a request's method.
use http_dragonfly.Prelude.{
  ◌*◌, ℕ, String, Bool, true, false, Option, none, some, List, any, eqb, unwrap_or, if◌then◌else◌,
}
use http_dragonfly.Prelude.Text.{concat, eq_ignore_ascii_case}
use http_dragonfly.Prelude.Decimal.{decimal}
use http_dragonfly.Config.Types.{
  HttpMethod, get, post, put, patch, delete, options, head, Ipv4Addr, ListenOn, SocketAddr,
  ListenerConfig,
}

-- `HttpMethod::from_str`, derived with `ascii_case_insensitive`.
unfoldable pub method_from_str : String → Option HttpMethod
unfolding eq_ignore_ascii_case
method_from_str s =
    if eq_ignore_ascii_case s "Get"
    then some get
    else if eq_ignore_ascii_case s "Post"
    then some post
    else if eq_ignore_ascii_case s "Put"
    then some put
    else if eq_ignore_ascii_case s "Patch"
    then some patch
    else if eq_ignore_ascii_case s "Delete"
    then some delete
    else if eq_ignore_ascii_case s "Options"
    then some options
    else if eq_ignore_ascii_case s "Head"
    then some head
    else none

-- The derived equality of methods, by the order of their declaration.
abbrev discriminant : HttpMethod → ℕ
discriminant get = 0
discriminant post = 1
discriminant put = 2
discriminant patch = 3
discriminant delete = 4
discriminant options = 5
discriminant head = 6

abbrev pub same_method : HttpMethod → HttpMethod → Bool
same_method a b = eqb (discriminant a) (discriminant b)

-- The test of a parsed method against `methods`.
abbrev contains_method : List HttpMethod → Option HttpMethod → Bool
contains_method methods none = false
contains_method methods (some m) = any (same_method m) methods

abbrev pub allows : Option (List HttpMethod) → String → Bool
allows none method = true
allows (some methods) method = contains_method methods (method_from_str method)

-- `Display` of an address and of `ListenOn`.
unfoldable pub ip_to_string : Ipv4Addr → String
unfolding decimal
ip_to_string ip = concat (decimal ip.a) (
    concat "."
      (concat (decimal ip.b) (concat "." (concat (decimal ip.c) (concat "." (decimal ip.d))))))

unfoldable pub on : ListenOn → String
unfolding ip_to_string decimal
on l = concat (ip_to_string l.ip) (concat ":" (decimal l.port))

abbrev pub as_socket : ListenOn → SocketAddr
as_socket l = record { addr = l.ip; addr_port = l.port }

-- What a listener has where its configuration says nothing.
abbrev pub default_listen_on : ListenOn
default_listen_on = record { ip = record { a = 0; b = 0; c = 0; d = 0 }; port = 8080 }

abbrev pub default_listener_timeout : ℕ
default_listener_timeout = 10 * 1000000000

abbrev pub default_log_target_status : Bool
default_log_target_status = false

module _ {F : Type 0} where
  abbrev pub socket : ListenerConfig F → SocketAddr
  socket cfg = as_socket cfg.listen_on

  unfoldable pub id : ListenerConfig F → String
  unfolding on
  id cfg = unwrap_or cfg.given_id (concat "LISTENER-" (on cfg.listen_on))

  unfoldable pub is_method_allowed : ListenerConfig F → String → Bool
  unfolding method_from_str
  is_method_allowed cfg method = allows cfg.methods method
