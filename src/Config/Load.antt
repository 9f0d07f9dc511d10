-- ===== src/Config/Load.antt =====
-- config.rs: `AppConfig::new`, from the name of a file to a validated configuration. Reading a file
-- and parsing YAML are the parameter `Files`.
use mathlib.Core.Path.{subst}
use http_dragonfly.Prelude.{String, ◌≡◌, refl, ap, ◌∙◌, ◌↔◌, Option, none, some, unwrap_or}
use http_dragonfly.Platform.{Platform}
use http_dragonfly.Config.Types.{AppConfig}
use http_dragonfly.Config.Validate.{Validation, pass, fail, ConfigError, validate}
use http_dragonfly.Config.Validate.Valid.{ValidApp, validate_iff}
use http_dragonfly.Context.{Context}
use http_dragonfly.Headers.{expand_in}

pub record Files (F : Type 0) : Type 0 where
  -- `File::open`, and `read_to_string` on the file
  pub open_file : String → Option (Option String)
  -- `serde_yaml_ng::from_str`
  pub parse_yaml : String → Option (AppConfig F)

-- `ConfigError`, with the cause of a failed validation.
pub data LoadError : Type 0 where
  load_config parse_config_file : LoadError
  validate_config : ConfigError → LoadError

pub data Loaded (A : Type 0) : Type 0 where
  loaded : A → Loaded A
  load_failed : LoadError → Loaded A

module _ {A B : Type 0} where
  infixl 5 ◌>>=◌
  abbrev pub ◌>>=◌ : Loaded A → (A → Loaded B) → Loaded B
  load_failed cause >>= next = load_failed cause
  loaded value >>= next = next value

  -- The parts of a bind that returned a value.
  >>=-eq-loaded :
      (first : Loaded A) (next : A → Loaded B) {b : B}
      → (first >>= next) ≡ loaded b
      → (a : A) × (first ≡ loaded a) × (next a ≡ loaded b)
  >>=-eq-loaded (load_failed cause) next e = cc
  >>=-eq-loaded (loaded value) next e = (value, refl, e)

abbrev pub or_fail : {A : Type 0} → LoadError → Option A → Loaded A
or_fail cause none = load_failed cause
or_fail cause (some value) = loaded value

abbrev pub validated : {A : Type 0} → Validation → A → Loaded A
validated pass config = loaded config
validated (fail cause) config = load_failed (validate_config cause)

or_fail-eq-loaded :
    {A : Type 0} (cause : LoadError) (o : Option A) {a : A}
    → or_fail cause o ≡ loaded a
    → o ≡ some a
or_fail-eq-loaded cause none e = cc
or_fail-eq-loaded cause (some value) e = cc

validated-eq-loaded :
    {A : Type 0} (v : Validation) (c : A) {d : A} → validated v c ≡ loaded d → (v ≡ pass) × (c ≡ d)
validated-eq-loaded pass c e = (refl, cc)
validated-eq-loaded (fail cause) c e = cc

module _ {M F J : Type 0} (p : Platform M F J) (files : Files F) (ctx : Context) where
  -- `reading` is what the reader gives.
  unfoldable pub from_reader : Option String → Loaded (AppConfig F)
  from_reader reading = do
    buf ← or_fail load_config reading
    config ← or_fail parse_config_file (files.parse_yaml (expand_in p ctx buf))
    validated (validate p config) config

  unfoldable pub from_file : String → Loaded (AppConfig F)
  unfolding from_reader
  from_file filename = do
    reading ← or_fail load_config (files.open_file filename)
    from_reader reading

  -- `held` is what `APP_CONFIG` holds; it keeps the first configuration.
  unfoldable pub new : Option (AppConfig F) → String → Loaded (AppConfig F)
  unfolding from_file
  new held filename = do config ← from_file filename; loaded (unwrap_or held config)

  -- A text that is there and reads, after its variables are replaced, as a valid configuration.
  pub record Loads (filename : String) (app : AppConfig F) : Type 0 where
    pub text : String
    pub read : files.open_file filename ≡ some (some text)
    pub parsed : files.parse_yaml (expand_in p ctx text) ≡ some app
    pub valid : ValidApp p app

  -- The first call returns a configuration exactly if the file can be read and its text, with the
  -- variables of the root context replaced, parses to this configuration, and it is valid.
  pub new_iff :
      (filename : String) (app : AppConfig F)
      → (new none filename ≡ loaded app) ↔ Loads filename app
  unfolding new from_file from_reader
  new_iff filename app = (λ e. loads e, λ l. rw (l.read, l.parsed, (validate_iff p app).1 l.valid))
    where
      loads : new none filename ≡ loaded app → Loads filename app
      loads e =
          let (config, e₁, r) = >>=-eq-loaded (from_file filename) _ e in
          let (reading, eo, e₂) =
            >>=-eq-loaded (or_fail load_config (files.open_file filename)) _ e₁ in
          let (buf, er, e₃) = >>=-eq-loaded (or_fail load_config reading) _ e₂ in
          let (parsed, ep, e₄) =
            >>=-eq-loaded (or_fail parse_config_file (files.parse_yaml (expand_in p ctx buf))) _
              e₃ in
          let (v, same) = validated-eq-loaded (validate p parsed) parsed e₄ in
          record {
            text = buf;
            read =
                or_fail-eq-loaded load_config (files.open_file filename) eo
                ∙ ap some (or_fail-eq-loaded load_config reading er);
            parsed =
                or_fail-eq-loaded parse_config_file (files.parse_yaml (expand_in p ctx buf)) ep
                ∙ cc (same, r);
            valid = subst (ValidApp p) (cc (same, r)) ((validate_iff p parsed).0 v);
          }
