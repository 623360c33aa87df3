-- ===== src/Query/Plan.antt =====
-- `_extract_plan`, `_summarize_plan`, `_non_negative_number` and `_admit_plan`
-- (guarded_query/query.py). Python's floats are a parameter.
pub mod Summary
pub mod Limits
use query_boy.Base.{
  ℕ, zero, suc, ◌+◌, String, Bool, true, false, not, ◌&&◌, ◌||◌, List, [], ◌∷◌, ◌++◌, Option, none,
  some, ◌==◌, ltb, max, if◌then◌else◌,
}
use query_boy.Base.Int.{ℤ, pos, negsuc}
use query_boy.Base.Result.{Result, ok, err, ◌>>=◌, ◌>>◌, raise_if}
use query_boy.Errors.{query_rejected_error}
use query_boy.Query.Failures.{Failure, app, unexpected}

-- `float(n)` of an `int` fails if it is too large; `to_nat` is `int(x)` of a float that is not negative;
-- `exceeds` is `x > n`.
pub record Floats : Type 1 where
  pub Float : Type 0
  pub of_int : ℤ → Option Float
  pub is_finite : Float → Bool
  pub is_negative : Float → Bool
  pub to_nat : Float → ℕ
  pub exceeds : Float → ℕ → Bool

-- The limits of `BudgetProfile` that `_admit_plan` reads.
pub record PlanLimits : Type 0 where
  pub max_plan_total_cost : ℕ
  pub max_plan_rows : ℕ
  pub max_plan_nodes : ℕ

module _ (F : Floats) where
  open F use {Float, of_int, is_finite, is_negative, to_nat, exceeds}

  -- The JSON that EXPLAIN gives, as psycopg decodes it.
  mutual
    pub data Value : Type 0 where
      nothing : Value
      truth : Bool → Value
      integer : ℤ → Value
      real : Float → Value
      text : String → Value
      list : Items → Value
      dict : Fields → Value

    pub data Items : Type 0 where
      nil : Items
      cons : Value → Items → Items

    pub data Fields : Type 0 where
      end : Fields
      field : String → Value → Fields → Fields

  pub record PlanSummary : Type 0 where
    pub total_cost : Float
    pub max_rows : ℕ
    pub node_count : ℕ

  -- `node.get(key, default)`
  unfoldable pub get_or : String → Value → Fields → Value
  get_or key default end = default
  get_or key default (field k v rest) = if k == key then v else get_or key default rest

  -- `raise RuntimeError`
  abbrev pub failed {ℓ} : {A : Type ℓ} → Result Failure A
  failed = err unexpected

  abbrev pub the_plan : Value → Result Failure Fields
  the_plan (dict plan) = ok plan
  the_plan _ = failed

  abbrev pub first_plan : Value → Result Failure Fields
  first_plan (list (cons (dict fields) rest)) = the_plan (get_or "Plan" nothing fields)
  first_plan _ = failed

  -- A row is its values in order; `none` is a missing row.
  unfoldable pub extract_plan : Option (List Value) → Result Failure Fields
  unfolding get_or
  extract_plan none = failed
  extract_plan (some []) = failed
  extract_plan (some (payload ∷ rest)) = first_plan payload

  abbrev pub finite_number : Option Float → Result Failure Float
  finite_number none = failed
  finite_number (some x) = if not (is_finite x) || is_negative x then failed else ok x

  abbrev pub number_of : Value → Result Failure Float
  number_of (integer n) = finite_number (of_int n)
  number_of (real x) = finite_number (some x)
  number_of _ = failed

  unfoldable pub non_negative_number : Fields → String → Result Failure Float
  unfolding get_or
  non_negative_number node key = number_of (get_or key nothing node)

  abbrev pub dicts : Items → Result Failure (List Fields)
  dicts nil = ok []
  dicts (cons (dict fields) rest) = dicts rest >>= (λ more. ok (fields ∷ more))
  dicts (cons v rest) = failed

  abbrev pub children_of : Value → Result Failure (List Fields)
  children_of (list children) = dicts children
  children_of _ = failed

  -- `node.get("Plans", [])`, if it is a list of dicts.
  unfoldable pub child_plans : Fields → Result Failure (List Fields)
  unfolding get_or
  child_plans node = children_of (get_or "Plans" (list nil) node)

  -- The variables of the loop.
  pub record Tally : Type 0 where
    pub node_count : ℕ
    pub max_rows : ℕ

  -- One round: the node that was popped, and the children that it adds.
  unfoldable pub visit : Fields → Tally → Result Failure (Tally × List Fields)
  unfolding non_negative_number child_plans
  visit node t = non_negative_number node "Plan Rows" >>= (λ rows. child_plans node >>= (λ children.
      ok (
        record { node_count = t.node_count + 1; max_rows = max t.max_rows (to_nat rows) },
        children,
      )))

  -- `pending.extend(children)`: the stack is written with its top first, so the last child stands in
  -- front.
  unfoldable pub extend : List Fields → List Fields → List Fields
  extend [] pending = pending
  extend (child ∷ children) pending = extend children (child ∷ pending)

  -- `while pending`, on fuel: `none` means that the fuel ran out.
  unfoldable pub tally_nodes : ℕ → List Fields → Tally → Option (Result Failure Tally)
  tally_nodes zero pending t = none
  tally_nodes (suc fuel) [] t = some (ok t)
  tally_nodes (suc fuel) (node ∷ pending) t =
      let rest = tally_nodes fuel in
      elim (visit node t) [
        | err e ↦ some (err e)
        | ok (t', children) ↦ rest (extend children pending) t'
      ]

  -- The number of dicts in a value, which bounds the rounds of the loop.
  unfoldable mutual
    pub weight : Value → ℕ
    weight nothing = 0
    weight (truth b) = 0
    weight (integer n) = 0
    weight (real x) = 0
    weight (text s) = 0
    weight (list vs) = weight_items vs
    weight (dict fields) = suc (weight_fields fields)

    pub weight_items : Items → ℕ
    weight_items nil = 0
    weight_items (cons v vs) = weight v + weight_items vs

    pub weight_fields : Fields → ℕ
    weight_fields end = 0
    weight_fields (field k v rest) = weight v + weight_fields rest

  abbrev pub no_nodes : Tally
  no_nodes = record { node_count = 0; max_rows = 0 }

  abbrev pub with_cost : Fields → Result Failure Tally → Result Failure PlanSummary
  with_cost root (err e) = err e
  with_cost root (ok t) = non_negative_number root "Total Cost" >>= (λ cost.
      ok (record { total_cost = cost; max_rows = t.max_rows; node_count = t.node_count }))

  unfoldable pub summarize_plan : Fields → Option (Result Failure PlanSummary)
  unfolding tally_nodes weight
  summarize_plan root = elim (tally_nodes (suc (suc (weight_fields root))) (root ∷ []) no_nodes) [
    | none ↦ none
    | some r ↦ some (with_cost root r)
  ]

  abbrev pub plan_rejected : String → Failure
  plan_rejected reason = app (query_rejected_error reason none)

  unfoldable pub admit_plan : PlanLimits → PlanSummary → Result Failure (Unit {0})
  admit_plan budget plan = do
    raise_if (exceeds plan.total_cost budget.max_plan_total_cost)
        (plan_rejected "QUERY_PLAN_COST_EXCEEDED")
    raise_if (ltb budget.max_plan_rows plan.max_rows) (plan_rejected "QUERY_PLAN_ROWS_EXCEEDED")
    raise_if (ltb budget.max_plan_nodes plan.node_count) (plan_rejected "QUERY_PLAN_NODES_EXCEEDED")
