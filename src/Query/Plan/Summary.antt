-- ===== src/Query/Plan/Summary.antt =====
-- What `_summarize_plan` computes, by recursion over the tree of a plan, and that its loop ends
-- (guarded_query/query.py).
use query_boy.Base.{ℕ, zero, suc, ◌+◌, ◌≡◌, refl, List, [], ◌∷◌, some, max, arith}
use query_boy.Base.Result.{Result, ok, err, >>=-eq-ok}
use query_boy.Query.Failures.{Failure}
use query_boy.Query.Plan.{
  Floats, Fields, non_negative_number, child_plans, Tally, visit, extend, tally_nodes,
}

module _ (F : Floats) where
  mutual
    -- The plan node has this many nodes, itself and those below it, and its largest row estimate is
    -- this.
    pub data Summary : Fields F → ℕ → ℕ → Type 0 where
      plan_node :
          {node : Fields F} {count rows : ℕ} (x : F.Float) (children : List (Fields F)) (k m : ℕ)
          → non_negative_number F node "Plan Rows" ≡ ok x
          → child_plans F node ≡ ok children
          → Summaries children k m
          → count ≡ suc k
          → rows ≡ max (F.to_nat x) m
          → Summary node count rows

    -- The same of several plans.
    pub data Summaries : List (Fields F) → ℕ → ℕ → Type 0 where
      no_plans : {count rows : ℕ} → count ≡ 0 → rows ≡ 0 → Summaries [] count rows
      plans :
          {node : Fields F} {nodes : List (Fields F)} {count rows : ℕ} (k m k' m' : ℕ)
          → Summary node k m
          → Summaries nodes k' m'
          → count ≡ k + k'
          → rows ≡ max m m'
          → Summaries (node ∷ nodes) count rows

  record Parts (xs ys : List (Fields F)) (count rows : ℕ) : Type 0 where
    k : ℕ
    m : ℕ
    k' : ℕ
    m' : ℕ
    left : Summaries xs k m
    right : Summaries ys k' m'
    counts : count ≡ k + k'
    maxima : rows ≡ max m m'

  head-Parts :
      (x : Fields F) (xs ys : List (Fields F)) (count rows : ℕ)
      → Parts xs (x ∷ ys) count rows
      → Parts (x ∷ xs) ys count rows
  head-Parts x xs ys count rows p = from p.k' p.m' p.right p.counts p.maxima
    where
      from :
          (a b : ℕ)
          → Summaries (x ∷ ys) a b
          → count ≡ p.k + a
          → rows ≡ max p.m b
          → Parts (x ∷ xs) ys count rows
      from a b (plans k m k' m' s t e f) c d = record {
        k = k + p.k;
        m = max m p.m;
        k' = k';
        m' = m';
        left = plans k m p.k p.m s p.left refl refl;
        right = t;
        counts = omega arith;
        maxima = omega arith;
      }

  extend-Parts :
      (xs ys : List (Fields F)) (count rows : ℕ)
      → Summaries (extend F xs ys) count rows
      → Parts xs ys count rows
  unfolding extend
  extend-Parts [] ys count rows s = record {
    k = 0;
    m = 0;
    k' = count;
    m' = rows;
    left = no_plans refl refl;
    right = s;
    counts = omega arith;
    maxima = omega arith;
  }
  extend-Parts (x ∷ xs) ys count rows s =
      head-Parts x xs ys count rows (extend-Parts xs (x ∷ ys) count rows s)

  -- What the loop adds to its variables.
  pub record Tallied (pending : List (Fields F)) (t t' : Tally F) : Type 0 where
    pub count : ℕ
    pub rows : ℕ
    pub summaries : Summaries pending count rows
    pub counted : t'.node_count ≡ t.node_count + count
    pub maximal : t'.max_rows ≡ max t.max_rows rows

  pub visit_lem :
      (node : Fields F) (t t' : Tally F) (children : List (Fields F))
      → visit F node t ≡ ok (t', children)
      → (x : F.Float) × (non_negative_number F node "Plan Rows" ≡ ok x)
        × (child_plans F node ≡ ok children)
        × (t'.node_count ≡ t.node_count + 1)
        × (t'.max_rows ≡ max t.max_rows (F.to_nat x))
  unfolding visit
  visit_lem node t t' children h =
      let (x, p, h') = >>=-eq-ok (non_negative_number F node "Plan Rows") _ h in
      let (cs, q, e) = >>=-eq-ok (child_plans F node) _ h' in
      (x, p, rw q (ground arith), ground arith, ground arith)

  tally_step :
      (node : Fields F) (pending : List (Fields F)) (children : List (Fields F)) (t u t' : Tally F)
      → visit F node t ≡ ok (u, children)
      → Tallied (extend F children pending) u t'
      → Tallied (node ∷ pending) t t'
  tally_step node pending children t u t' v s =
      let (x, p, q, c, m) = visit_lem node t u children v in
      let parts = extend-Parts children pending s.count s.rows s.summaries in
      record {
        count = suc parts.k + parts.k';
        rows = max (max (F.to_nat x) parts.m) parts.m';
        summaries =
            plans (suc parts.k) (max (F.to_nat x) parts.m) parts.k' parts.m'
              (plan_node x children parts.k parts.m p q parts.left refl refl) parts.right refl refl;
        counted = omega (arith, parts.counts, s.counted);
        maximal = omega (arith, parts.maxima, s.maximal);
      }

  pub tally_nodes-Tallied :
      (fuel : ℕ) (pending : List (Fields F)) (t t' : Tally F)
      → tally_nodes F fuel pending t ≡ some (ok t')
      → Tallied pending t t'
  unfolding tally_nodes
  tally_nodes-Tallied zero pending t t' h = cc
  tally_nodes-Tallied (suc fuel) [] t t' h = record {
    count = 0;
    rows = 0;
    summaries = no_plans refl refl;
    counted = ground arith;
    maximal = ground arith;
  }
  tally_nodes-Tallied (suc fuel) (node ∷ pending) t t' h =
      from (visit F node t) refl h
        (λ children u. tally_nodes-Tallied fuel (extend F children pending) u t')
    where
      from :
          (r : Result Failure (Tally F × List (Fields F)))
          → visit F node t ≡ r
          → (elim r [
            | err e ↦ some (err e)
            | ok (u, children) ↦ tally_nodes F fuel (extend F children pending) u
          ])
            ≡ some (ok t')
          → ((children : List (Fields F)) (u : Tally F)
              → tally_nodes F fuel (extend F children pending) u ≡ some (ok t')
              → Tallied (extend F children pending) u t')
          → Tallied (node ∷ pending) t t'
      from (err e) v k ih = cc
      from (ok (u, children)) v k ih = tally_step node pending children t u t' v (ih children u k)
