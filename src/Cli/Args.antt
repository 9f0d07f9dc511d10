-- ===== src/Cli/Args.antt =====
-- cli.rs: `CliConfig::new`, from the options of the command line to the configuration. clap, which
-- splits the command line, gives the flags and the texts of the options; of several errors the
-- model reports the first in the order of the fields.
use mathlib.Core.Path.{subst}
use http_dragonfly.Prelude.{
  ℕ, ◌≤◌, ◌<◌, String, Bool, ◌≡◌, ◌≢◌, refl, Option, none, some, OnSome, unwrap_or, ◌&&◌, ltb, inl,
  inr, arith, if◌then◌else◌,
}
use http_dragonfly.Prelude.Decimal.{parse_unsigned}
use http_dragonfly.Platform.{Platform}
use http_dragonfly.Cli.{
  unable_to_parse, timeout_out_of_range, Checked, accepted, rejected, parse_health_check_port,
  parse_env_mask, CliConfig, default_cli,
}
use http_dragonfly.Cli.Laws.{parse_health_check_port_iff, parse_env_mask_iff}

pub record Args : Type 0 where
  pub debug : Bool
  pub verbose : Bool
  pub json_log : Bool
  pub config : String
  pub env_mask : Option String
  pub health_check_port : Option String
  pub health_check_timeout : Option String

module _ {A B : Type 0} where
  infixl 5 ◌>>=◌
  abbrev pub ◌>>=◌ : Checked A → (A → Checked B) → Checked B
  rejected cause >>= next = rejected cause
  accepted value >>= next = next value

  pub >>=-eq-accepted :
      (first : Checked A) (next : A → Checked B) {b : B}
      → (first >>= next) ≡ accepted b
      → (a : A) × (first ≡ accepted a) × (next a ≡ accepted b)
  >>=-eq-accepted (rejected cause) next e = cc
  >>=-eq-accepted (accepted value) next e = (value, refl, e)

-- `clap::value_parser!(u64).range(1..60)`
abbrev pub checked_timeout : String → Option ℕ → Checked ℕ
checked_timeout text none = rejected (unable_to_parse text)
checked_timeout text (some seconds) =
    if ltb 0 seconds && ltb seconds 60 then accepted seconds else rejected timeout_out_of_range

unfoldable pub parse_timeout : String → Checked ℕ
parse_timeout text = checked_timeout text (parse_unsigned 18446744073709551615 text)

-- A value parser on an option that may be left out.
abbrev pub optional : {A : Type 0} → (String → Checked A) → Option String → Checked (Option A)
optional parser none = accepted none
optional parser (some text) = do value ← parser text; accepted (some value)

module _ {M F J : Type 0} (p : Platform M F J) where
  -- A default is a text that goes through its parser like any other.
  unfoldable pub parse_args : Args → Checked CliConfig
  unfolding parse_timeout
  parse_args args = do
    env_mask ← parse_env_mask p (unwrap_or args.env_mask default_cli.env_mask)
    port ← optional parse_health_check_port args.health_check_port
    timeout ← parse_timeout (unwrap_or args.health_check_timeout "5")
    accepted (record {
      debug = args.debug;
      verbose = args.verbose;
      json_log = args.json_log;
      config = args.config;
      env_mask = env_mask;
      health_check_port = port;
      health_check_timeout = timeout;
    })

checked_timeout-range :
    (text : String) (o : Option ℕ) {n : ℕ}
    → checked_timeout text o ≡ accepted n
    → (1 ≤ n) × (n < 60)
checked_timeout-range text none e = cc
checked_timeout-range text (some seconds) e = ground arith

parse_timeout-range : (text : String) {n : ℕ} → parse_timeout text ≡ accepted n → (1 ≤ n) × (n < 60)
unfolding parse_timeout
parse_timeout-range text e = checked_timeout-range text (parse_unsigned 18446744073709551615 text) e

optional-port :
    (text : Option String) {port : Option ℕ}
    → optional parse_health_check_port text ≡ accepted port
    → OnSome (λ n. (1 ≤ n) × (n ≤ 65535)) port
optional-port none {port} e = let h : none ≡ port = cc e in subst (OnSome _) h tt
optional-port (some text) {port} e =
    let (n, f, g) = >>=-eq-accepted (parse_health_check_port text) _ e in
    let h : some n ≡ port = cc g in
    let (read, low, high) = (parse_health_check_port_iff text n).0 f in
    subst (OnSome (λ n. (1 ≤ n) × (n ≤ 65535))) h (low, high)

-- What the options of an accepted command line hold.
pub record InOrder {M F J : Type 0} (p : Platform M F J) (args : Args) (cli : CliConfig)
    : Type 0 where
  pub debug : cli.debug ≡ args.debug
  pub config : cli.config ≡ args.config
  pub mask : p.regex cli.env_mask ≢ none
  pub port : OnSome (λ n. (1 ≤ n) × (n ≤ 65535)) cli.health_check_port
  pub timeout : (1 ≤ cli.health_check_timeout) × (cli.health_check_timeout < 60)

module _ {M F J : Type 0} (p : Platform M F J) where
  parse_env_mask-regex :
      (mask : String) {kept : String}
      → p.regex ".+" ≢ none
      → parse_env_mask p mask ≡ accepted kept
      → p.regex kept ≢ none
  parse_env_mask-regex mask {kept} all e = elim ((parse_env_mask_iff p mask kept).0 e) [
    | inl (everything, same) ↦ rw same all
    | inr (filled, not_star, same, compiles) ↦ rw same (λ n. ground (arith, n, compiles))
  ]

  pub parse_args-InOrder :
      (args : Args) {cli : CliConfig}
      → p.regex ".+" ≢ none
      → parse_args p args ≡ accepted cli
      → InOrder p args cli
  unfolding parse_args
  parse_args-InOrder args {cli} all e =
      let (mask, em, e₁) =
        >>=-eq-accepted (parse_env_mask p (unwrap_or args.env_mask default_cli.env_mask)) _ e in
      let (port, ep, e₂) =
        >>=-eq-accepted (optional parse_health_check_port args.health_check_port) _ e₁ in
      let (timeout, et, e₃) =
        >>=-eq-accepted (parse_timeout (unwrap_or args.health_check_timeout "5")) _ e₂ in
      let made : record {
        debug = args.debug;
        verbose = args.verbose;
        json_log = args.json_log;
        config = args.config;
        env_mask = mask;
        health_check_port = port;
        health_check_timeout = timeout;
      }
          ≡ cli =
        cc e₃ in
      subst (InOrder p args) made (record {
        debug = refl;
        config = refl;
        mask = parse_env_mask-regex _ all em;
        port = optional-port args.health_check_port ep;
        timeout = parse_timeout-range (unwrap_or args.health_check_timeout "5") et;
      })
