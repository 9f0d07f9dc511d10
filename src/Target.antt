-- ===== src/Target.antt =====
-- config/target.rs: the conditions of targets.
use http_dragonfly.Prelude.{
  ℕ, String, Bool, false, Option, none, some, if◌then◌else◌, List, [], ◌∷◌, ◌==◌, Outcome, ok,
  ◌>>=◌, unwrap, unwrap_or,
}
use http_dragonfly.Prelude.Table
use http_dragonfly.Platform.{HeaderValue, FilterInput, Platform}
use http_dragonfly.Config.Types.{TargetConfig, TargetConditionConfig, default, filter}
use http_dragonfly.Context.{Context, RequestParts}
use http_dragonfly.Context.Iterator.{items}

module _ {M F J : Type 0} (p : Platform M F J) where
  abbrev only_true : List String → Bool
  only_true (out ∷ []) = out == "true"
  only_true _ = false

  -- `v.unwrap_or(Val::Bool(false))`, written out.
  abbrev shown : List (Option String) → List String
  shown [] = []
  shown (v ∷ vs) = unwrap_or v "false" ∷ shown vs

  -- `ConditionFilter::run`
  unfoldable pub run : F → FilterInput J → Bool
  run f input = only_true (shown (p.run_filter f input))

  -- The `headers` of the input: a `HashMap`, and `to_str().unwrap()` on every value.
  unfoldable pub header_strings : List (String × HeaderValue) → Outcome (List (String × String))
  header_strings [] = ok []
  header_strings ((k, v) ∷ hs) = do
    s ← unwrap (p.to_str v)
    rest ← header_strings hs
    ok ((k, s) ∷ rest)

  -- The input of every filter of a request.
  unfoldable pub filter_input : Context → RequestParts M → List ℕ → Outcome (FilterInput J)
  unfolding header_strings
  filter_input ctx req body = do
    headers ← header_strings (p.headers.iter req.headers)
    ok (record {
      body = unwrap_or (p.parse_json body) p.empty_object;
      env = Table.extend [] (items ctx);
      headers = Table.extend [] headers;
      uri = req.uri;
    })

  unfoldable pub run_condition : TargetConditionConfig F → FilterInput J → Bool
  unfolding run
  run_condition default input = false
  run_condition (filter f) input = run f input

  unfoldable pub check_condition : TargetConfig F → Context → RequestParts M → List ℕ → Outcome Bool
  unfolding filter_input run_condition
  check_condition t ctx req body = do
    input ← filter_input ctx req body
    condition ← unwrap t.condition
    ok (run_condition condition input)

  -- `TargetConditionConfig::from_str` over `ConditionFilter::from_str`; `none` is an expression that
  -- does not load or compile.
  unfoldable pub from_str : String → Option (TargetConditionConfig F)
  from_str value =
      if value == "default"
      then some default
      else elim (p.compile value) [ none ↦ none | some compiled ↦ some (filter compiled) ]
