-- ===== src/Operations/Sources.antt =====
-- What `reconcile_sources` keeps, and that later updates stay within the active sources
-- (runtime/operations.py).
use query_boy.Base.{
  if-true, ◌⊎◌, ℕ, String, Bool, true, false, ◌&&◌, List, [], ◌∷◌, ◌≡◌, refl, ◌∙◌, Option, none,
  some, arith, ◌==◌, eq_iff, Bool-cases, ap, inl, inr, if◌then◌else◌, option_eq,
}
use query_boy.Base.Dict.{Dict, lookup, lookup-insert}
use query_boy.Base.Sets.{contains, contains-add}
use query_boy.Operations.{
  Health, healthy, initializing, MetricKey, Metrics, OperationalState, same_key, count_of, restrict,
  keep_active, to_set, reconcile_sources, set_source_health, is_inactive,
}

-- The value at a key, or the default.
abbrev pub or_default : Health → Option Health → Health
or_default default none = default
or_default default (some h) = h

pub contains-to_set : (xs : List String) (x : String) → contains (to_set xs) x ≡ contains xs x
unfolding to_set contains
contains-to_set [] x = refl
contains-to_set (y ∷ ys) x = rw contains-add (ground (arith, contains-to_set ys x))

lookup-restrict :
    (default : Health) (active : List String) (health : Dict Health) (x : String)
    → lookup x (restrict default active health)
      ≡ (if contains active x then some (or_default default (lookup x health)) else none)
unfolding lookup restrict contains
lookup-restrict default [] health x = refl
lookup-restrict default (y ∷ active) health x =
    ground (arith, eq_iff y x, lookup-restrict default active health x)

-- Is the metric of a source in the list, or of none?
abbrev pub is_kept : List String → Option String → Bool
is_kept active none = true
is_kept active (some source_id) = contains active source_id

same_key-source : (a b : MetricKey) → same_key a b ≡ true → a.source_id ≡ b.source_id
same_key-source a b h = from a.source_id b.source_id (ground arith)
  where
    from : (x y : Option String) → option_eq x y ≡ true → x ≡ y
    from none none e = refl
    from none (some y) e = cc
    from (some x) none e = cc
    from (some x) (some y) e = ap some ((eq_iff x y).0 e)

count_if :
    (b : Bool) (key k : MetricKey) (n : ℕ) (rest : Metrics)
    → count_of key (if b then (k, n) ∷ rest else rest)
      ≡ (if b && same_key k key then n else count_of key rest)
unfolding count_of
count_if true key k n rest = refl
count_if false key k n rest = refl

count_step :
    (kept kept' same : Bool) (n a b : ℕ)
    → (same ≡ true → kept ≡ kept')
    → a ≡ (if kept' then b else 0)
    → (if kept && same then n else a) ≡ (if kept' then if same then n else b else 0)
count_step kept kept' true n a b e h = rw e (ground arith)
count_step kept kept' false n a b e h = ground arith

count_of-keep_active :
    (active : List String) (key : MetricKey) (metrics : Metrics)
    → count_of key (keep_active active metrics)
      ≡ (if is_kept active key.source_id then count_of key metrics else 0)
unfolding count_of keep_active
count_of-keep_active active key [] = ground arith
count_of-keep_active active key ((k, n) ∷ metrics) =
    count_if (is_kept active k.source_id) key k n (keep_active active metrics)
    ∙ count_step (is_kept active k.source_id) (is_kept active key.source_id) (same_key k key) n _ _
        (λ e. ap (is_kept active) (same_key-source k key e))
        (count_of-keep_active active key metrics)

-- The state once the sources are `source_ids`.
pub record IsReconciled (source_ids : List String) (s t : OperationalState) : Type 0 where
  pub metadata :
      (x : String)
      → lookup x t.source_metadata_health ≡ (
          if contains source_ids x
          then some (or_default initializing (lookup x s.source_metadata_health))
          else none)
  pub query :
      (x : String)
      → lookup x t.source_query_health ≡ (
          if contains source_ids x
          then some (or_default healthy (lookup x s.source_query_health))
          else none)
  pub counts :
      (key : MetricKey)
      → count_of key t.counters
        ≡ (if is_kept source_ids key.source_id then count_of key s.counters else 0)
  pub sums :
      (key : MetricKey)
      → count_of key t.totals
        ≡ (if is_kept source_ids key.source_id then count_of key s.totals else 0)

is_kept-to_set : (xs : List String) (o : Option String) → is_kept (to_set xs) o ≡ is_kept xs o
is_kept-to_set xs none = refl
is_kept-to_set xs (some x) = contains-to_set xs x

-- After `reconcile_sources` exactly the given sources have a health, each the one it had or the
-- initial one, and the metrics are those of the given sources and of none, unchanged.
pub reconcile_sources-IsReconciled :
    (source_ids : List String) (s : OperationalState)
    → IsReconciled source_ids s (reconcile_sources source_ids s)
unfolding reconcile_sources
reconcile_sources-IsReconciled source_ids s = record {
  metadata = λ x.
      rw (← contains-to_set source_ids x) (lookup-restrict initializing (to_set source_ids) _ x);
  query =
      λ x. rw (← contains-to_set source_ids x) (lookup-restrict healthy (to_set source_ids) _ x);
  counts = λ key.
      rw (← is_kept-to_set source_ids key.source_id)
        (count_of-keep_active (to_set source_ids) key _);
  sums = λ key.
      rw (← is_kept-to_set source_ids key.source_id)
        (count_of-keep_active (to_set source_ids) key _);
}

-- The state once a source is reported with a health.
pub record IsReported (x : String) (h : Health) (s t : OperationalState) : Type 0 where
  pub inactive :
      (active : List String) → s.active_sources ≡ some active → contains active x ≡ false → t ≡ s
  pub others : t ≡ (record s { source_metadata_health = t.source_metadata_health })
  pub active :
      (s.active_sources ≡ none)
        ⊎ ((active : List String) × (s.active_sources ≡ some active) × (contains active x ≡ true))
      → (y : String)
      → lookup y t.source_metadata_health
        ≡ (if x == y then some h else lookup y s.source_metadata_health)

is_inactive-active :
    (o : Option (List String)) (x : String)
    → (o ≡ none) ⊎ ((active : List String) × (o ≡ some active) × (contains active x ≡ true))
    → is_inactive o x ≡ false
is_inactive-active o x (inl e) = rw e
is_inactive-active o x (inr (active, e, c)) = rw (e, c)

-- A health report of a source that is not among the active sources changes nothing. Any other report sets
-- the metadata health of this source, and changes no other entry and no other part of the state.
pub set_source_health-IsReported :
    (x : String) (h : Health) (s : OperationalState) → IsReported x h s (set_source_health x h s)
unfolding set_source_health
set_source_health-IsReported x h s = record {
  inactive = λ active e c. if-true (is_inactive s.active_sources x) _ _ (rw (e, c) refl);
  others = elim (Bool-cases (is_inactive s.active_sources x)) [ inl e ↦ rw e | inr e ↦ rw e ];
  active = λ known y. rw (is_inactive-active s.active_sources x known, lookup-insert) refl;
}
