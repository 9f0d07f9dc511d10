-- ===== src/Server/Run/Sockets.antt =====
-- lib.rs: the sockets of a program that has started.
use mathlib.Core.Path.{subst}
use mathlib.Core.List.{append_assoc, append-nil}
use http_dragonfly.Prelude.{
  ℕ, Bool, true, false, ◌≡◌, ◌≢◌, refl, sym, ap, ◌∙◌, Option, none, some, List, [], ◌∷◌, ◌++◌, map,
  All, OnSome,
}
use http_dragonfly.Platform.{Platform}
use http_dragonfly.Platform.Laws.{VisitsAll}
use http_dragonfly.Cli.{CliConfig}
use http_dragonfly.Config.Types.{SocketAddr, ListenerConfig}
use http_dragonfly.Config.Listener
use http_dragonfly.Server.Run.{System, done, any_address, Started, start}
use http_dragonfly.Server.Run.Laws.{Binds, start_iff}

-- No two of them are the same.
abbrev pub Apart : List SocketAddr → Type 0
Apart [] = Unit
Apart (a ∷ rest) = All (λ b. a ≢ b) rest × Apart rest

abbrev pub health_sockets : Option ℕ → List SocketAddr
health_sockets none = []
health_sockets (some port) = any_address port ∷ []

first_of : (A B : ℕ → Type 0) (o : Option ℕ) → OnSome (λ n. A n × B n) o → OnSome A o
first_of A B none h = tt
first_of A B (some n) h = h.0

module _ (binds : List SocketAddr → SocketAddr → Bool) where
  abbrev Bound : List SocketAddr → List SocketAddr → Type 0
  Bound held [] = Unit
  Bound held (a ∷ rest) = (binds held a ≡ true) × Bound (held ++ a ∷ []) rest

  -- The listeners' sockets, and then one more.
  Binds-Bound :
      {F : Type 0} (held : List SocketAddr) (ls : List (ListenerConfig F)) (port : Option ℕ)
      → Binds binds held ls
      → OnSome (λ n. binds (held ++ map Listener.socket ls) (any_address n) ≡ true) port
      → Bound held (map Listener.socket ls ++ health_sockets port)
  Binds-Bound held [] none b h = tt
  Binds-Bound held [] (some n) b h =
      (subst (λ x. binds x (any_address n) ≡ true) (append-nil held) h, tt)
  Binds-Bound held (l ∷ ls) port (b, bs) h = (
    b,
    Binds-Bound (held ++ Listener.socket l ∷ []) ls port bs (
        subst (λ x. OnSome (λ n. binds x (any_address n) ≡ true) port)
          (sym (append_assoc held (Listener.socket l ∷ []) (map Listener.socket ls))) h),
  )

  module _
      (exclusive : (before after : List SocketAddr) (a : SocketAddr)
        → binds (before ++ a ∷ after) a ≡ false) where
    Bound-fresh :
        (held before after : List SocketAddr) (c : SocketAddr) (rest : List SocketAddr)
        → held ≡ before ++ c ∷ after
        → Bound held rest
        → All (λ b. c ≢ b) rest
    Bound-fresh held before after c [] e h = tt
    Bound-fresh held before after c (a ∷ rest) e (b, bs) = (
      λ same. cc (b, subst (λ x. binds held x ≡ false) same (rw e (exclusive before after c))),
      Bound-fresh (held ++ a ∷ []) before (after ++ a ∷ []) c rest
          (ap (λ l. l ++ a ∷ []) e ∙ append_assoc before (c ∷ after) (a ∷ [])) bs,
    )

    Bound-Apart : (held rest : List SocketAddr) → Bound held rest → Apart rest
    Bound-Apart held [] h = tt
    Bound-Apart held (a ∷ rest) (b, bs) =
        (Bound-fresh (held ++ a ∷ []) held [] a rest refl bs, Bound-Apart (held ++ a ∷ []) rest bs)

-- Where the roles of a set are visited one by one and a socket that is bound cannot be bound again:
-- when the program has started, no two of the sockets of its listeners and of its health check are
-- the same.
pub start-Apart :
    {M F J : Type 0} (p : Platform M F J)
    → VisitsAll p.visit
    → (cli : CliConfig) (sys : System M F) (s : Started F)
    → ((before after : List SocketAddr) (a : SocketAddr)
        → sys.binds (before ++ a ∷ after) a ≡ false)
    → start p cli sys ≡ done s
    → Apart (map Listener.socket s.app_config.listeners ++ health_sockets cli.health_check_port)
start-Apart p visits cli sys s exclusive e =
    let h = (start_iff p visits cli sys s).0 e in
    Bound-Apart sys.binds exclusive [] _ (
      Binds-Bound sys.binds [] s.app_config.listeners cli.health_check_port h.binds
        (first_of _ _ cli.health_check_port h.health))
