-- ===== src/Query/Plan/Limits.antt =====
-- `_summarize_plan` always ends, and a plan that `_admit_plan` lets through is within the limits
-- (guarded_query/query.py).
use query_boy.Base.{
  ℕ, zero, suc, ◌+◌, ◌≤◌, ◌<◌, ◌≡◌, refl, false, String, List, [], ◌∷◌, Option, none, some, arith,
}
use mathlib.Core.Path.{subst₂}
use mathlib.Core.Option.{some-injective}
use query_boy.Base.Result.{Result, ok, err, >>=-eq-ok, ok-injective}
use query_boy.Query.Failures.{Failure}
use query_boy.Query.Plan.{
  Floats, Value, nothing, list, Items, nil, cons, Fields, end, field, dict, get_or, child_plans,
  dicts, children_of, Tally, no_nodes, visit, extend, tally_nodes, weight, weight_items,
  weight_fields, summarize_plan, PlanSummary, PlanLimits, with_cost, admit_plan,
  non_negative_number,
}
use query_boy.Query.Plan.Summary.{
  Summary, Summaries, plans, no_plans, visit_lem, tally_nodes-Tallied,
}

module _ (F : Floats) where
  stack_weight : List (Fields F) → ℕ
  stack_weight [] = 0
  stack_weight (node ∷ nodes) = suc (weight_fields F node) + stack_weight nodes

  dicts_weight :
      (vs : Items F) (children : List (Fields F))
      → dicts F vs ≡ ok children
      → stack_weight children ≤ weight_items F vs
  unfolding stack_weight weight
  dicts_weight nil [] h = omega arith
  dicts_weight nil (c ∷ cs) h = cc
  dicts_weight (cons (dict fields) rest) cs h =
      let (more, p, q) = >>=-eq-ok (dicts F rest) _ h in
      rw (← ok-injective q) (omega (arith, dicts_weight rest more p))
  dicts_weight (cons nothing rest) cs h = cc
  dicts_weight (cons v rest) cs h = cc

  children_weight :
      (v : Value F) (children : List (Fields F))
      → children_of F v ≡ ok children
      → stack_weight children ≤ weight F v
  unfolding weight
  children_weight (list vs) children h = dicts_weight vs children h
  children_weight nothing children h = cc
  children_weight v children h = cc

  get_weight :
      (key : String) (fields : Fields F)
      → weight F (get_or F key (list nil) fields) ≤ weight_fields F fields
  unfolding get_or weight
  get_weight key end = omega arith
  get_weight key (field k v rest) = ground (arith, get_weight key rest)

  child_plans_weight :
      (node : Fields F) (children : List (Fields F))
      → child_plans F node ≡ ok children
      → stack_weight children ≤ weight_fields F node
  unfolding child_plans
  child_plans_weight node children h = omega (
    arith,
    children_weight (get_or F "Plans" (list nil) node) children h,
    get_weight "Plans" node,
  )

  extend_weight :
      (xs ys : List (Fields F)) → stack_weight (extend F xs ys) ≡ stack_weight xs + stack_weight ys
  unfolding extend stack_weight
  extend_weight [] ys = omega arith
  extend_weight (x ∷ xs) ys = omega (arith, extend_weight xs (x ∷ ys))

  tally_nodes_total :
      (fuel : ℕ) (pending : List (Fields F)) (t : Tally F)
      → stack_weight pending < fuel
      → (r : Result Failure (Tally F)) × (tally_nodes F fuel pending t ≡ some r)
  unfolding tally_nodes stack_weight
  tally_nodes_total zero pending t h = elim h [ ]
  tally_nodes_total (suc fuel) [] t h = (ok t, refl)
  tally_nodes_total (suc fuel) (node ∷ pending) t h =
      from (visit F node t) refl
        (λ children u. tally_nodes_total fuel (extend F children pending) u)
    where
      from :
          (r : Result Failure (Tally F × List (Fields F)))
          → visit F node t ≡ r
          → ((children : List (Fields F)) (u : Tally F)
              → stack_weight (extend F children pending) < fuel
              → (r : Result Failure (Tally F)) × (tally_nodes F fuel (extend F children pending) u
                  ≡ some r))
          → (r' : Result Failure (Tally F)) × ((elim r [
            | err e ↦ some (err e)
            | ok (u, children) ↦ tally_nodes F fuel (extend F children pending) u
          ])
              ≡ some r')
      from (err e) v ih = (err e, refl)
      from (ok (u, children)) v ih =
          let (_, _, q, _, _) = visit_lem F node t u children v in
          ih children u
            (omega (arith, extend_weight children pending, child_plans_weight node children q))

  -- What a plan that passes looks like.
  pub record IsWithin (root : Fields F) (budget : PlanLimits) (plan : PlanSummary F) : Type 0 where
    pub summary : Summary F root plan.node_count plan.max_rows
    pub cost : non_negative_number F root "Total Cost" ≡ ok plan.total_cost
    pub cost_limit : F.exceeds plan.total_cost budget.max_plan_total_cost ≡ false
    pub rows_limit : plan.max_rows ≤ budget.max_plan_rows
    pub nodes_limit : plan.node_count ≤ budget.max_plan_nodes

  single :
      (node : Fields F) (count rows : ℕ)
      → Summaries F (node ∷ []) count rows
      → Summary F node count rows
  single node count rows (plans k m k' m' s (no_plans c d) e f) =
      subst₂ (Summary F node) (omega arith) (omega arith) s

  -- The summary of every plan is computed, or fails, within the fuel given.
  pub summarize_plan_total :
      (root : Fields F) → (r : Result Failure (PlanSummary F)) × (summarize_plan F root ≡ some r)
  unfolding summarize_plan stack_weight
  summarize_plan_total root =
      let (r, e) =
        tally_nodes_total (suc (suc (weight_fields F root))) (root ∷ []) (no_nodes F)
          (omega arith) in
      (with_cost F root r, rw (summarize_plan, e))

  summary_from :
      (root : Fields F) (plan : PlanSummary F) (o : Option (Result Failure (Tally F)))
      → (elim o [ none ↦ none | some r ↦ some (with_cost F root r) ]) ≡ some (ok plan)
      → (t : Tally F) × (o ≡ some (ok t)) × (with_cost F root (ok t) ≡ ok plan)
  summary_from root plan none h = cc
  summary_from root plan (some (err e)) h = cc
  summary_from root plan (some (ok t)) h = (t, refl, some-injective _ _ h)

  -- A plan that is summarised and let through has, by recursion over its tree, the node count and
  -- the largest row estimate of the summary, and both and its total cost are within the limits.
  pub admit_plan-IsWithin :
      (root : Fields F) (budget : PlanLimits) (plan : PlanSummary F)
      → summarize_plan F root ≡ some (ok plan)
      → admit_plan F budget plan ≡ ok tt
      → IsWithin root budget plan
  unfolding summarize_plan admit_plan
  admit_plan-IsWithin root budget plan h a =
      let (t, p, q) =
        summary_from root plan
          (tally_nodes F (suc (suc (weight_fields F root))) (root ∷ []) (no_nodes F)) h in
      let (cost, c, e) = >>=-eq-ok (non_negative_number F root "Total Cost") _ q in
      let s =
        tally_nodes-Tallied F (suc (suc (weight_fields F root))) (root ∷ []) (no_nodes F) t p in
      record {
        summary =
            subst₂ (Summary F root) (ground (arith, s.counted)) (ground (arith, s.maximal))
              (single root s.count s.rows s.summaries);
        cost = rw c (ground arith);
        cost_limit = ground arith;
        rows_limit = ground arith;
        nodes_limit = ground arith;
      }
