-- ===== src/Config/Decode/Loaded.antt =====
-- config.rs: a configuration that is loaded from a file whose text is read as YAML.
use mathlib.Core.Path.{subst}
use http_dragonfly.Prelude.{String, ◌≡◌, Option, none, some, OnSome}
use http_dragonfly.Platform.{Platform}
use http_dragonfly.Config.Types.{AppConfig}
use http_dragonfly.Config.Load
use http_dragonfly.Config.Load.{Files, loaded, new_iff}
use http_dragonfly.Config.Validate.Valid.{ValidApp}
use http_dragonfly.Config.Yaml.{Value, Scalars, ◌>>=◌}
use http_dragonfly.Config.Decode.{decode_app}
use http_dragonfly.Config.Decode.Bounds.{AppInRange, decode_app-AppInRange}
use http_dragonfly.Context.{Context}

module _ {B : Type 0} (Q : B → Type 0) where
  of_some : (b : B) (o : Option B) → OnSome Q o → o ≡ some b → Q b
  of_some b o q e = subst (OnSome Q) e q

  -- What a chain returns has what is true of its last step.
  of_bind :
      {A : Type 0} (m : Option A) (f : A → Option B) (b : B)
      → ((a : A) → OnSome Q (f a))
      → (m >>= f) ≡ some b
      → Q b
  unfolding ◌>>=◌
  of_bind none f b h e = cc
  of_bind (some a) f b h e = of_some b (f a) (h a) e

module _ {M F J S : Type 0} (p : Platform M F J) (read : Scalars S) where
  -- `serde_yaml_ng::from_str`, from what its parser gives.
  abbrev pub files_of : (String → Option (Option String)) → (String → Option (Value S)) → Files F
  files_of open_file parse = record {
    open_file = open_file;
    parse_yaml = λ text. parse text >>= decode_app read p;
  }

  -- A configuration that a first call returns, from a text whose YAML tree is decoded, is valid, and
  -- every `listen_on` in it, given or the default, has octets up to 255 and a port from 1 to 65535.
  pub new-AppInRange :
      (open_file : String → Option (Option String)) (parse : String → Option (Value S))
      (ctx : Context) (filename : String) (app : AppConfig F)
      → Load.new p (files_of open_file parse) ctx none filename ≡ loaded app
      → AppInRange app × ValidApp p app
  new-AppInRange open_file parse ctx filename app e =
      let loads = (new_iff p (files_of open_file parse) ctx filename app).0 e in
      (of_bind AppInRange _ _ app (decode_app-AppInRange read p) loads.parsed, loads.valid)
