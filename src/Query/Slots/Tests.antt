-- ===== src/Query/Slots/Tests.antt =====
-- Two queries on a source that admits one at a time, and a shutdown.
use query_boy.Base.{ℕ, true, false, List, [], ◌∷◌, refl}
use query_boy.Query.Slots.{
  Executor, idle, enter, acquire, release, leave, entered, acquired, released, left, stopped, Steps,
  start, next,
}
use query_boy.Query.Slots.Reached.{IsFair, Steps-IsFair, IsDrained, Steps-IsDrained}

abbrev at : List ℕ → ℕ → List ℕ → Executor
at inflight free holders = record {
  accepting = true;
  inflight = inflight;
  free = free;
  holders = holders;
}

-- The first query runs, and the second one waits.
one_runs : Steps (idle 1) (at (2 ∷ 1 ∷ []) 0 (1 ∷ []))
unfolding enter acquire
one_runs =
    next (at (1 ∷ []) 0 (1 ∷ [])) _
      (next (at (1 ∷ []) 1 []) _ (next (at [] 1 []) _ start (entered 1 _ refl)) (acquired 1 _ refl))
      (entered 2 _ refl)

Steps-IsFair_example : IsFair 1 (at (2 ∷ 1 ∷ []) 0 (1 ∷ []))
Steps-IsFair_example = Steps-IsFair 1 (at (2 ∷ 1 ∷ []) 0 (1 ∷ [])) one_runs

abbrev shut : List ℕ → ℕ → List ℕ → Executor
shut inflight free holders = record {
  accepting = false;
  inflight = inflight;
  free = free;
  holders = holders;
}

-- Both queries end after the shutdown began.
both_left : Steps (idle 1) (shut [] 1 [])
unfolding release leave
both_left =
    next (shut (2 ∷ []) 1 []) _
      (next (shut (2 ∷ 1 ∷ []) 1 []) _
        (next (shut (2 ∷ 1 ∷ []) 0 (1 ∷ [])) _
          (next (at (2 ∷ 1 ∷ []) 0 (1 ∷ [])) _ one_runs stopped) (released 1 _ refl))
        (left 1 _ refl))
      (left 2 _ refl)

Steps-IsDrained_example : IsDrained (shut [] 1 [])
Steps-IsDrained_example = Steps-IsDrained 1 (shut [] 1 []) (shut [] 1 []) both_left refl refl start
