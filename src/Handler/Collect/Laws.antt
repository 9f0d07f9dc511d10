-- ===== src/Handler/Collect/Laws.antt =====
-- handler.rs: the map of responses, target by target.
use mathlib.Core.Path.{subst}
use http_dragonfly.Prelude.{
  String, false, ◌≡◌, refl, sym, ap, ◌∙◌, Option, none, some, List, [], ◌∷◌, map, ok, >>=-eq-ok,
  ok-injective, member, Distinct, All, arith,
}
use http_dragonfly.Prelude.Table
use http_dragonfly.Prelude.Table.{get-insert, get-insert_self}
use http_dragonfly.Platform.{Platform}
use http_dragonfly.Config.Target
use http_dragonfly.Context.{Response}
use http_dragonfly.Response.{ResponsesMap, ResponseResult}
use http_dragonfly.Handler.Dispatch.{Dispatched, result_of}
use http_dragonfly.Handler.Collect.{response_of, results_of, insert_results, collect}

module _ {M F J : Type 0} (p : Platform M F J) where
  abbrev id_of : Dispatched M F → String
  id_of d = Target.id d.target

  abbrev pub ids_of : List (Dispatched M F) → List String
  ids_of ds = map id_of ds

  abbrev pair_ids : List (Dispatched M F × ResponseResult M) → List String
  pair_ids [] = []
  pair_ids ((d, r) ∷ rest) = id_of d ∷ pair_ids rest

  -- The map holds what a target answered, or what stands for its error, in its context.
  abbrev Recorded : ResponsesMap M → Dispatched M F × ResponseResult M → Type 0
  Recorded m (d, r) =
      (resp : Option (Response M)) × (response_of p d.target r ≡ ok resp)
      × (Table.get m (id_of d) ≡ some (resp, d.ctx))

  -- Results of other targets leave an entry alone.
  insert_results-other :
      (results : List (Dispatched M F × ResponseResult M)) (m m' : ResponsesMap M) (k : String)
      → insert_results p results m ≡ ok m'
      → member k (pair_ids results) ≡ false
      → Table.get m' k ≡ Table.get m k
  unfolding insert_results
  insert_results-other [] m m' k e n = cc
  insert_results-other ((d, r) ∷ rest) m m' k e n =
      let (resp, er, ei) = >>=-eq-ok (response_of p d.target r) _ e in
      ground (
        arith,
        insert_results-other rest (Table.insert (id_of d) (resp, d.ctx) m) m' k ei,
        get-insert m (id_of d) k (resp, d.ctx),
      )

  insert_results-Recorded :
      (results : List (Dispatched M F × ResponseResult M)) (m m' : ResponsesMap M)
      → Distinct (pair_ids results)
      → insert_results p results m ≡ ok m'
      → All (Recorded m') results
  unfolding insert_results
  insert_results-Recorded [] m m' d e = tt
  insert_results-Recorded ((d, r) ∷ rest) m m' (new, distinct) e =
      let (resp, er, ei) = >>=-eq-ok (response_of p d.target r) _ e in
      let m₁ : ResponsesMap M = Table.insert (id_of d) (resp, d.ctx) m in
      (
        (
          resp,
          er,
          insert_results-other rest m₁ m' (id_of d) ei new
              ∙ get-insert_self m (id_of d) (resp, d.ctx),
        ),
        insert_results-Recorded rest m₁ m' distinct ei,
      )

  -- The map holds the outcome of a dispatched target.
  abbrev pub Gathered : ResponsesMap M → Dispatched M F → Type 0
  Gathered m d =
      (r : ResponseResult M) × (resp : Option (Response M)) × (result_of d.sent ≡ ok r)
      × (response_of p d.target r ≡ ok resp)
      × (Table.get m (id_of d) ≡ some (resp, d.ctx))

  -- The results stand in the order of the dispatches.
  abbrev Pairs : List (Dispatched M F) → List (Dispatched M F × ResponseResult M) → Type 0
  Pairs ds results =
      (pair_ids results ≡ ids_of ds)
      × ((m : ResponsesMap M) → All (Recorded m) results → All (Gathered m) ds)

  results_of-Pairs :
      (ds : List (Dispatched M F)) (results : List (Dispatched M F × ResponseResult M))
      → results_of p ds ≡ ok results
      → Pairs ds results
  unfolding results_of
  results_of-Pairs [] results e = subst (Pairs []) (ok-injective e) (refl, λ m a. tt)
  results_of-Pairs (d ∷ ds) results e =
      let (r, er, e₁) = >>=-eq-ok (result_of d.sent) _ e in
      let (rest, es, e₂) = >>=-eq-ok (results_of p ds) _ e₁ in
      let (ids, gathers) = results_of-Pairs ds rest es in
      subst (Pairs (d ∷ ds)) (ok-injective e₂) (
        ap (λ (js : List String). id_of d ∷ js) ids,
        λ m (a, as_rest).
            let (resp, eresp, get) = a in ((r, resp, er, eresp, get), gathers m as_rest),
      )

  -- Where the ids of the queried targets are distinct and the map is built, the map holds for every
  -- queried target its response, or the one that stands for its error, or nothing if the target
  -- drops errors, each beside the context of the target; and it holds nothing else.
  pub collect-Gathered :
      (ds : List (Dispatched M F)) (m : ResponsesMap M)
      → Distinct (ids_of ds)
      → collect p ds ≡ ok m
      → All (Gathered m) ds × ((k : String) → member k (ids_of ds) ≡ false → Table.get m k ≡ none)
  unfolding collect Table.get
  collect-Gathered ds m distinct e =
      let (results, er, ei) = >>=-eq-ok (results_of p ds) _ e in
      let (ids, gathers) = results_of-Pairs ds results er in
      (
        gathers m (insert_results-Recorded results [] m (subst Distinct (sym ids) distinct) ei),
        λ k n. insert_results-other results [] m k ei (rw ids n),
      )
