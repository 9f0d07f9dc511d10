-- ===== src/Config/Decode/Bounds.antt =====
-- The sockets of a configuration that is read: the octets and the port of every `listen_on`.
use http_dragonfly.Prelude.{
  String, ◌≡◌, refl, Option, none, some, [], All, OnSome, arith, Bool, true, false, if◌then◌else◌,
}
use http_dragonfly.Platform.{Platform}
use http_dragonfly.Config.Types.{ListenOn, ListenerConfig, AppConfig}
use http_dragonfly.Config.Listen.{Parsed, parsed, refused, from_str}
use http_dragonfly.Config.Listen.Bounds.{InRange, from_str-InRange}
use http_dragonfly.Config.Listener
use http_dragonfly.Config.Yaml.{
  Value, scalar, sequence, mapping, Items, nil, cons, Entries, Scalars, ◌>>=◌, find, defaulted,
  or_default, list_of, decode_all, required,
}
use http_dragonfly.Config.Decode.{parsed_listen_on, decode_listen_on, decode_listener, decode_app}

-- The rules of `do`: a step whose value is not looked at, and one whose value satisfies a predicate.
module _ {A B : Type 0} (Q : B → Type 0) where
  OnSome_any : (m : Option A) (f : A → Option B) → ((a : A) → OnSome Q (f a)) → OnSome Q (m >>= f)
  unfolding ◌>>=◌
  OnSome_any none f h = tt
  OnSome_any (some a) f h = h a

  OnSome_bind :
      (P : A → Type 0) (m : Option A) (f : A → Option B)
      → OnSome P m
      → ((a : A) → P a → OnSome Q (f a))
      → OnSome Q (m >>= f)
  unfolding ◌>>=◌
  OnSome_bind P none f p h = tt
  OnSome_bind P (some a) f p h = h a p

module _ {S A : Type 0} (P : A → Type 0) (decode : Value S → Option A)
    (typed : (v : Value S) → OnSome P (decode v)) where
  OnSome-or_default : (d : A) → P d → (o : Option (Value S)) → OnSome P (or_default decode d o)
  OnSome-or_default d p none = p
  OnSome-or_default d p (some v) = typed v

  OnSome-defaulted :
      (d : A) → P d → (key : String) (es : Entries S) → OnSome P (defaulted decode d key es)
  OnSome-defaulted d p key es = OnSome-or_default d p (find key es)

  OnSome-decode_all : (vs : Items S) → OnSome (All P) (decode_all decode vs)
  OnSome-decode_all nil = tt
  OnSome-decode_all (cons v vs) = OnSome_bind (All P) P (decode v) _ (typed v) λ a p.
      OnSome_bind (All P) (All P) (decode_all decode vs) _ (OnSome-decode_all vs) λ rest ps. (p, ps)

  module _ (read : Scalars S) where
    empty_or : (b : Bool) → OnSome (All P) (if b then some [] else none)
    empty_or true = tt
    empty_or false = tt

    OnSome-list_of : (v : Value S) → OnSome (All P) (list_of decode read v)
    OnSome-list_of (scalar s) = empty_or (read.is_empty s)
    OnSome-list_of (sequence vs) = OnSome-decode_all vs
    OnSome-list_of (mapping es) = tt

module _ {F : Type 0} where
  pub record ListensInRange (l : ListenerConfig F) : Type 0 where
    pub listen_on : InRange l.listen_on

  pub record AppInRange (app : AppConfig F) : Type 0 where
    pub listeners : All ListensInRange app.listeners

  listens : (l : ListenerConfig F) → InRange l.listen_on → ListensInRange l
  listens l in_range = record { listen_on = in_range }

  all_listen : (app : AppConfig F) → All ListensInRange app.listeners → AppInRange app
  all_listen app listeners = record { listeners = listeners }

parsed_listen_on-InRange :
    (r : Parsed ListenOn)
    → ((l : ListenOn) → r ≡ parsed l → InRange l)
    → OnSome InRange (parsed_listen_on r)
parsed_listen_on-InRange (parsed l) h = h l refl
parsed_listen_on-InRange (refused e) h = tt

default_listen_on-InRange : InRange Listener.default_listen_on
default_listen_on-InRange = record {
  ip = (omega arith, omega arith, omega arith, omega arith);
  least = omega arith;
  most = omega arith;
}

module _ {S : Type 0} (read : Scalars S) where
  decode_listen_on-InRange : (v : Value S) → OnSome InRange (decode_listen_on read v)
  unfolding decode_listen_on
  decode_listen_on-InRange v =
      OnSome_any InRange _ _ λ s. parsed_listen_on-InRange (from_str s) (from_str-InRange s)

  OnSome-required :
      {A : Type 0} (P : A → Type 0) (decode : Value S → Option A)
      → ((v : Value S) → OnSome P (decode v))
      → (key : String) (es : Entries S) → OnSome (All P) (required (list_of decode read) key es)
  OnSome-required P decode typed key es =
      OnSome_any (All P) (find key es) (list_of decode read) (OnSome-list_of P decode typed read)

  module _ {M F J : Type 0} (p : Platform M F J) where
    decode_listener-ListensInRange :
        (v : Value S) → OnSome ListensInRange (decode_listener read p v)
    unfolding decode_listener
    decode_listener-ListensInRange v = OnSome_any ListensInRange _ _ λ es.
        OnSome_any ListensInRange _ _ λ given_id.
          OnSome_bind ListensInRange InRange _ _
            (OnSome-defaulted InRange (decode_listen_on read) decode_listen_on-InRange
              Listener.default_listen_on default_listen_on-InRange _ es)
            λ listen_on in_range. OnSome_any ListensInRange _ _ λ timeout.
              OnSome_any ListensInRange _ _ λ strategy. OnSome_any ListensInRange _ _ λ headers.
                OnSome_any ListensInRange _ _ λ methods. OnSome_any ListensInRange _ _ λ targets.
                  OnSome_any ListensInRange _ _ λ log_target_status.
                    OnSome_any ListensInRange _ _
                      λ response. OnSome_any ListensInRange _ _ λ tls. listens _ in_range

    -- Every configuration that is decoded.
    pub decode_app-AppInRange : (v : Value S) → OnSome AppInRange (decode_app read p v)
    unfolding decode_app
    decode_app-AppInRange v = OnSome_any AppInRange _ _ λ es.
        OnSome_bind AppInRange (All ListensInRange) _ _
          (OnSome-required ListensInRange _ decode_listener-ListensInRange _ es)
          λ listeners in_range. all_listen _ in_range
