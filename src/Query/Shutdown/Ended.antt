-- ===== src/Query/Shutdown/Ended.antt =====
-- A drain ends, and leaves no task to itself (guarded_query/query.py).
use mathlib.Core.Path.{subst}
use query_boy.Base.{
  length, leb→le, eqb→eq, ℕ, zero, suc, ◌+◌, ◌≤◌, ◌<◌, true, false, List, [], ◌∷◌, Option, none,
  some, map, All, eqb, leb, Bool-cases, not_leb→gt, if-true, if-false, ◌≡◌, refl, sym, ◌∙◌, ap,
  arith, inl, inr,
}
use query_boy.Operations.{OperationalState, increment}
use query_boy.Query.Slots.{has}
use query_boy.Query.Shutdown.{
  ActiveQuery, Round, without, Cancelled, cancel_inflight, Drained, drained, forced, is_empty,
  drain_loop, counted, count_drained, drain,
}

-- The tasks of the active queries.
abbrev pub tasks_of : List ActiveQuery → List ℕ
tasks_of active = map (λ (q : ActiveQuery). q.task) active

has-without :
    (tasks others : List ℕ) (u : ℕ)
    → has tasks u ≡ true
    → has others u ≡ false
    → has (without tasks others) u ≡ true
unfolding without
has-without [] others u h n = absurd (cc h)
has-without (t ∷ tasks) others u h n =
    let later : eqb t u ≡ false → has (without tasks others) u ≡ true =
      λ e. has-without tasks others u (ground arith) n in
    elim (Bool-cases (eqb t u)) [
      | inl same ↦
          let kept : has others t ≡ false =
            subst (λ v. has others v ≡ false) (sym (eqb→eq t u same)) n in
          rw kept (ground (arith, same))
      | inr other ↦ ground (arith, later other)
    ]

without-has :
    (tasks others : List ℕ) (u : ℕ) → has others u ≡ true → has (without tasks others) u ≡ false
unfolding without
without-has [] others u h = refl
without-has (t ∷ tasks) others u h = elim (Bool-cases (has others t)) [
  | inl dropped ↦ rw dropped (without-has tasks others u h)
  | inr kept ↦
      let apart : eqb t u ≡ false = elim (Bool-cases (eqb t u)) [
        | inl same ↦ absurd (cc (kept, h, subst (λ v. has others v ≡ false) (eqb→eq t u same) kept))
        | inr other ↦ other
      ] in
      rw kept (ground (arith, apart, without-has tasks others u h))
]

-- What a drain that was cut off has done to the tasks in flight.
pub record IsCut (ended : List ℕ) (round : Round) (c : Cancelled) : Type 0 where
  pub quiet :
      (task : ℕ)
      → has round.inflight task ≡ true
      → has (tasks_of round.active) task ≡ false
      → has c.at_once task ≡ true
  pub spared : (task : ℕ) → has (tasks_of round.active) task ≡ true → has c.at_once task ≡ false
  pub pending :
      (task : ℕ)
      → has round.inflight task ≡ true
      → has ended task ≡ false
      → has c.pending task ≡ true
  pub told : All (λ (q : ActiveQuery). q.shutdown ≡ true) c.told
  pub names :
      map (λ (q : ActiveQuery). q.task) c.told ≡ map (λ (q : ActiveQuery). q.task) round.active

every_told :
    (active : List ActiveQuery)
    → All
        (λ (q : ActiveQuery). q.shutdown ≡ true)
        (map (λ (q : ActiveQuery). record q { shutdown = true }) active)
every_told [] = tt
every_told (q ∷ active) = (refl, every_told active)

told_names :
    (active : List ActiveQuery)
    → map
        (λ (q : ActiveQuery). q.task)
        (map (λ (q : ActiveQuery). record q { shutdown = true }) active)
      ≡ map (λ (q : ActiveQuery). q.task) active
told_names [] = refl
told_names (q ∷ active) = ap (◌∷◌ q.task) (told_names active)

cancel_inflight-IsCut :
    (ended : List ℕ) (round : Round)
    → IsCut ended round (cancel_inflight round.inflight round.active ended)
unfolding cancel_inflight
cancel_inflight-IsCut ended round = record {
  quiet = λ task here unused. has-without round.inflight (tasks_of round.active) task here unused;
  spared = λ task busy. without-has round.inflight (tasks_of round.active) task busy;
  pending = λ task here still. has-without round.inflight ended task here still;
  told = every_told round.active;
  names = told_names round.active;
}

-- How the drain ended, and in which round.
abbrev pub EndsWell : (ℕ → Round) → List ℕ → ℕ → Drained × ℕ → Type 0
EndsWell rounds ended deadline (drained, i) = (rounds i).inflight ≡ []
EndsWell rounds ended deadline (forced c, i) =
    (deadline ≤ (rounds i).now) × IsCut ended (rounds i) c

is_empty-eq-true : (tasks : List ℕ) → is_empty tasks ≡ true → tasks ≡ []
is_empty-eq-true [] h = refl
is_empty-eq-true (task ∷ tasks) h = absurd (cc h)

module _ (rounds : ℕ → Round) (ended : List ℕ) (deadline : ℕ)
    (advances : (i : ℕ) → (rounds i).now < (rounds (suc i)).now) where
  drain_loop-ends :
      (fuel i : ℕ)
      → 0 < fuel
      → deadline < (rounds i).now + fuel
      → (outcome : Drained × ℕ) × (drain_loop rounds ended deadline fuel i ≡ some outcome)
        × EndsWell rounds ended deadline outcome
  unfolding drain_loop
  drain_loop-ends zero i some_fuel enough = absurd (omega arith)
  drain_loop-ends (suc fuel) i some_fuel enough = elim (Bool-cases (is_empty (rounds i).inflight)) [
    | inl empty ↦ ((drained, i), if-true _ _ _ empty, is_empty-eq-true (rounds i).inflight empty)
    | inr busy ↦ elim (Bool-cases (leb deadline (rounds i).now)) [
      | inl late ↦ (
        (forced (cancel_inflight (rounds i).inflight (rounds i).active ended), i),
        if-false _ _ _ busy ∙ if-true _ _ _ late,
        (leb→le _ _ late, cancel_inflight-IsCut ended (rounds i)),
      )
      | inr early ↦
          let waits = not_leb→gt deadline (rounds i).now early in
          let (outcome, runs, well) =
            drain_loop-ends fuel (suc i) (omega (arith, waits, enough))
              (omega (arith, advances i, enough)) in
          (outcome, if-false _ _ _ busy ∙ if-false _ _ _ early ∙ runs, well)
    ]
  ]

-- How a drain is counted and how it ended.
pub record IsEnded (rounds : ℕ → Round) (ended : List ℕ) (now grace_ms : ℕ)
    (before : OperationalState) (result : Option (Drained × OperationalState)) : Type 0 where
  pub outcome : Drained
  pub round : ℕ
  pub result_is :
      result
      ≡ some (
        outcome,
        count_drained outcome
            (length (rounds round).inflight)
            (increment "shutdown_started" none 1 before),
      )
  pub ends_well : EndsWell rounds ended (now + grace_ms) (outcome, round)

-- A drain ends, on more fuel than its grace period has milliseconds, if the clock advances from round to
-- round: either it has seen no task in flight, or the grace period is over. Then every task in flight
-- without an active query is cancelled at once, and no task of an active query is; every active query gets
-- the reason "shutdown"; and every task in flight that does not end when it is waited for is cancelled. The
-- drain is counted as the one or the other.
pub drain-IsEnded :
    (rounds : ℕ → Round) (ended : List ℕ) (fuel now grace_ms : ℕ) (s : OperationalState)
    → ((i : ℕ) → (rounds i).now < (rounds (suc i)).now)
    → now ≤ (rounds 0).now
    → grace_ms < fuel
    → IsEnded rounds ended now grace_ms s (drain rounds ended fuel now grace_ms s)
unfolding drain
drain-IsEnded rounds ended fuel now grace_ms s advances begun enough =
    let (outcome, runs, well) =
      drain_loop-ends rounds ended (now + grace_ms) advances fuel 0 (omega (arith, enough))
        (omega (arith, begun, enough)) in
    record {
      outcome = outcome.0;
      round = outcome.1;
      result_is = ap (counted rounds (increment "shutdown_started" none 1 s)) runs;
      ends_well = well;
    }
