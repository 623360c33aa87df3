-- ===== src/Query/Slots/Reached.antt =====
-- The permits of a source are never exceeded, and an executor that has drained stays so (guarded_query/query.py).
use mathlib.Core.Path.{subst}
use mathlib.Core.Option.{some-injective}
use query_boy.Base.{
  ℕ, zero, suc, ◌+◌, ◌≤◌, Bool, true, false, not, ◌&&◌, List, [], ◌∷◌, Option, none, some, All,
  length, eqb, ◌≡◌, refl, sym, ◌∙◌, ap, arith, inl, inr, Bool-cases, if◌then◌else◌, and-eq-true,
  not-eq-true,
}
use query_boy.Query.Slots.{
  Executor, has, discard, idle, enter, take_permit, acquire, release, leave, Step, entered,
  acquired, released, left, stopped, Steps, start, next,
}

length-discard :
    (task : ℕ) (tasks : List ℕ)
    → has tasks task ≡ true
    → suc (length (discard task tasks)) ≡ length tasks
unfolding discard
length-discard task [] h = absurd (cc h)
length-discard task (t ∷ tasks) h = ground (arith, length-discard task tasks)

has-discard :
    (task u : ℕ) (tasks : List ℕ)
    → has tasks u ≡ true
    → eqb task u ≡ false
    → has (discard task tasks) u ≡ true
unfolding discard
has-discard task u [] h n = absurd (cc h)
has-discard task u (t ∷ tasks) h n = ground (arith, has-discard task u tasks)

-- All of these tasks are among those.
abbrev Within : List ℕ → List ℕ → Type 0
Within inflight holders = All (λ t. has inflight t ≡ true) holders

Within-enter :
    (task : ℕ) (inflight holders : List ℕ)
    → Within inflight holders
    → Within (task ∷ inflight) holders
Within-enter task inflight [] h = tt
Within-enter task inflight (t ∷ holders) (e, h) =
    (ground (arith, e), Within-enter task inflight holders h)

Within-release :
    (task : ℕ) (inflight holders : List ℕ)
    → Within inflight holders
    → Within inflight (discard task holders)
unfolding discard
Within-release task inflight [] h = tt
Within-release task inflight (t ∷ holders) (e, h) = elim (Bool-cases (eqb t task)) [
  | inl same ↦ rw same h
  | inr other ↦ rw other (e, Within-release task inflight holders h)
]

Within-leave :
    (task : ℕ) (inflight holders : List ℕ)
    → has holders task ≡ false
    → Within inflight holders
    → Within (discard task inflight) holders
Within-leave task inflight [] n h = tt
Within-leave task inflight (t ∷ holders) n (e, h) = (
  has-discard task t inflight e (ground arith),
  Within-leave task inflight holders (ground arith) h,
)

-- The permits add up, and only tasks in flight hold one.
pub record IsFair (max_concurrent_queries : ℕ) (s : Executor) : Type 0 where
  pub permits : s.free + length s.holders ≡ max_concurrent_queries
  pub bounded : length s.holders ≤ max_concurrent_queries
  pub inside : All (λ t. has s.inflight t ≡ true) s.holders

-- Both branches of a guarded step.
guarded {ℓ} :
    {A : Type ℓ} (guard : Bool) (o : Option A) {t : A}
    → (if guard then o else none) ≡ some t
    → (guard ≡ true) × (o ≡ some t)
guarded true o h = (refl, h)
guarded false o h = absurd (cc h)

take_permit-lem :
    (task : ℕ) (s t : Executor) (free : ℕ)
    → take_permit task s free ≡ some t
    → (n : ℕ) × (free ≡ suc n) × (t ≡ record s { free = n; holders = task ∷ s.holders })
take_permit-lem task s t zero h = absurd (cc h)
take_permit-lem task s t (suc n) h = (n, refl, sym (some-injective _ _ h))

module _ (max : ℕ) where
  Step-IsFair : (s t : Executor) → Step s t → IsFair max s → IsFair max t
  unfolding enter acquire release leave
  Step-IsFair s t (entered task t' h) fair =
      let (guard, same) =
        guarded (s.accepting && not (has s.inflight task))
          (some (record s { inflight = task ∷ s.inflight })) h in
      subst (IsFair max) (some-injective _ _ same) (record {
        permits = fair.permits;
        bounded = fair.bounded;
        inside = Within-enter task s.inflight s.holders fair.inside;
      })
  Step-IsFair s t (acquired task t' h) fair =
      let (guard, taken) =
        guarded (has s.inflight task && not (has s.holders task)) (take_permit task s s.free) h in
      let (n, free, same) = take_permit-lem task s t s.free taken in
      subst (IsFair max) (sym same) (record {
        permits = omega (arith, free, fair.permits);
        bounded = omega (arith, free, fair.permits);
        inside = ((and-eq-true _ _ guard).0, fair.inside);
      })
  Step-IsFair s t (released task t' h) fair =
      let (held, same) =
        guarded (has s.holders task)
          (some (record s { free = suc s.free; holders = discard task s.holders })) h in
      subst (IsFair max) (some-injective _ _ same) (record {
        permits = omega (arith, length-discard task s.holders held, fair.permits);
        bounded = omega (arith, length-discard task s.holders held, fair.bounded);
        inside = Within-release task s.inflight s.holders fair.inside;
      })
  Step-IsFair s t (left task t' h) fair =
      let (free, same) =
        guarded (not (has s.holders task)) (some (record s { inflight = discard task s.inflight }))
          h in
      subst (IsFair max) (some-injective _ _ same) (record {
        permits = fair.permits;
        bounded = fair.bounded;
        inside = Within-leave task s.inflight s.holders (not-eq-true _ free) fair.inside;
      })
  Step-IsFair s t stopped fair = record {
    permits = fair.permits;
    bounded = fair.bounded;
    inside = fair.inside;
  }

  -- However the steps of the queries and of the shutdown are interleaved: the permits that are free and
  -- those that are held add up to `max_concurrent_queries`, so no more queries than that run at once, and
  -- every task that holds a permit is in flight, so the drain sees it.
  pub Steps-IsFair : (s : Executor) → Steps (idle max) s → IsFair max s
  Steps-IsFair s start = record { permits = omega arith; bounded = omega arith; inside = tt }
  Steps-IsFair s (next t u before step) = Step-IsFair t u step (Steps-IsFair t before)

-- Nothing runs, and nothing will.
pub record IsDrained (s : Executor) : Type 0 where
  pub closed : s.accepting ≡ false
  pub none_inflight : s.inflight ≡ []
  pub none_held : s.holders ≡ []

Within-empty : (inflight holders : List ℕ) → inflight ≡ [] → Within inflight holders → holders ≡ []
Within-empty inflight [] e h = refl
Within-empty [] (t ∷ holders) e (held, h) = absurd (cc held)
Within-empty (i ∷ inflight) (t ∷ holders) e h = absurd (cc e)

Step-IsDrained : (s t : Executor) → Step s t → IsDrained s → IsDrained t
unfolding enter acquire release leave discard
Step-IsDrained s t (entered task t' h) d =
    let (guard, same) =
      guarded (s.accepting && not (has s.inflight task))
        (some (record s { inflight = task ∷ s.inflight })) h in
    absurd (cc (sym (and-eq-true _ _ guard).0 ∙ d.closed))
Step-IsDrained s t (acquired task t' h) d =
    let (guard, taken) =
      guarded (has s.inflight task && not (has s.holders task)) (take_permit task s s.free) h in
    absurd (cc (sym (and-eq-true _ _ guard).0 ∙ ap (λ tasks. has tasks task) d.none_inflight))
Step-IsDrained s t (released task t' h) d =
    let (held, same) =
      guarded (has s.holders task)
        (some (record s { free = suc s.free; holders = discard task s.holders })) h in
    absurd (cc (sym held ∙ ap (λ tasks. has tasks task) d.none_held))
Step-IsDrained s t (left task t' h) d =
    let (free, same) =
      guarded (not (has s.holders task)) (some (record s { inflight = discard task s.inflight }))
        h in
    subst IsDrained (some-injective _ _ same) (record {
      closed = d.closed;
      none_inflight = ap (discard task) d.none_inflight;
      none_held = d.none_held;
    })
Step-IsDrained s t stopped d = record {
  closed = refl;
  none_inflight = d.none_inflight;
  none_held = d.none_held;
}

-- Once an executor has stopped accepting and a drain has found no task in flight, no permit is held, and
-- no task will ever be in flight or hold a permit again, whatever steps are tried.
pub Steps-IsDrained :
    (max_concurrent_queries : ℕ) (s t : Executor)
    → Steps (idle max_concurrent_queries) s
    → s.accepting ≡ false
    → s.inflight ≡ []
    → Steps s t
    → IsDrained t
Steps-IsDrained max_concurrent_queries s t reached closed empty start = record {
  closed = closed;
  none_inflight = empty;
  none_held =
      Within-empty s.inflight s.holders empty
        (Steps-IsFair max_concurrent_queries s reached).inside;
}
Steps-IsDrained max_concurrent_queries s t reached closed empty (next u v before step) =
    Step-IsDrained u t step (Steps-IsDrained max_concurrent_queries s u reached closed empty before)
