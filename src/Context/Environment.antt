-- ===== src/Context/Environment.antt =====
-- context.rs: `RootOsEnvironment`, and the root context that is built once.
use http_dragonfly.Prelude.{
  String, Bool, ◌≡◌, refl, Option, none, some, List, [], ◌∷◌, Outcome, ok, ◌>>=◌, unwrap, ◌==◌, map,
  any, not, is_some, true, panic, ap, ◌∙◌, ok-injective, >>=-eq-ok, arith, if◌then◌else◌,
}
use http_dragonfly.Prelude.Table
use http_dragonfly.Platform.{Platform}
use http_dragonfly.Context
use http_dragonfly.Context.{Context, ContextMap}

-- The variables whose names match.
unfoldable pub insert_matching : (String → Bool) → List (String × String) → ContextMap → ContextMap
insert_matching is_match [] env_ctx = env_ctx
insert_matching is_match ((k, v) ∷ vars) env_ctx =
    insert_matching is_match vars (if is_match k then Table.insert k v env_ctx else env_ctx)

-- A variable of the process; `none` has a name or a value that is not Unicode.
abbrev pub OsVar : Type 0
OsVar = Option (String × String)

-- What `env::vars` yields: its iterator panics at a variable that is not Unicode.
unfoldable pub unicode_vars : List OsVar → Outcome (List (String × String))
unicode_vars [] = ok []
unicode_vars (none ∷ vars) = panic
unicode_vars (some v ∷ vars) = do rest ← unicode_vars vars; ok (v ∷ rest)

pub unicode_vars-map : (vars : List (String × String)) → unicode_vars (map some vars) ≡ ok vars
unfolding unicode_vars
unicode_vars-map [] = refl
unicode_vars-map (v ∷ vars) = rw (unicode_vars-map vars) refl

pub unicode_vars-eq-ok :
    (os_vars : List OsVar) {vars : List (String × String)}
    → unicode_vars os_vars ≡ ok vars
    → os_vars ≡ map some vars
unfolding unicode_vars
unicode_vars-eq-ok [] e = cc
unicode_vars-eq-ok (none ∷ os_vars) e = cc
unicode_vars-eq-ok (some v ∷ os_vars) e =
    let (rest, er, same) = >>=-eq-ok (unicode_vars os_vars) _ e in
    ap (λ vs. some v ∷ vs) (unicode_vars-eq-ok os_vars er) ∙ ap (map some) (ok-injective same)

pub unicode_vars-panic :
    (os_vars : List OsVar)
    → unicode_vars os_vars ≡ panic
    → any (λ v. not (is_some v)) os_vars ≡ true
unfolding unicode_vars
unicode_vars-panic [] e = cc
unicode_vars-panic (none ∷ os_vars) e = refl
unicode_vars-panic (some v ∷ os_vars) e = ground (arith, unicode_vars-panic os_vars)

module _ {M F J : Type 0} (p : Platform M F J) where
  -- `get_environment`
  unfoldable pub get_environment : String → List OsVar → Outcome ContextMap
  unfolding insert_matching unicode_vars
  get_environment env_mask_regex os_vars = do
    re ← unwrap (p.regex env_mask_regex)
    vars ← unicode_vars os_vars
    ok (insert_matching re vars [])

  -- `Context::root` with `ROOT_CONTEXT`, which keeps the first context.
  unfoldable pub root_of : Option Context → String → String → List OsVar → Outcome Context
  unfolding get_environment
  root_of (some ctx) version env_mask_regex vars = ok ctx
  root_of none version env_mask_regex vars = do
    root_env ← get_environment env_mask_regex vars
    ok (Context.root version root_env)

-- The two variables of the program.
abbrev pub app_var : String → String → Option String
app_var version var =
    if "CTX_APP_NAME" == var
    then some "http-dragonfly"
    else if "CTX_APP_VERSION" == var
    then some version
    else none

abbrev app_vars : String → ContextMap
app_vars version =
    Table.insert "CTX_APP_VERSION" version (Table.insert "CTX_APP_NAME" "http-dragonfly" [])

get-app_vars : (version k : String) → Table.get (app_vars version) k ≡ app_var version k
unfolding Table.get Table.insert
get-app_vars version k = refl
