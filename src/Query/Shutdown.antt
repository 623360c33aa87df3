-- ===== src/Query/Shutdown.antt =====
-- `PostgresQueryExecutor.drain`, `_cancel_inflight` and `close` (guarded_query/query.py). What the loop sees in
-- each round, and which tasks end while they are waited for, is given; a clock counts milliseconds.
pub mod Ended
mod Tests
use query_boy.Base.{
  ℕ, zero, suc, ◌+◌, Bool, true, false, not, List, [], ◌∷◌, ◌++◌, Option, none, some, map, length,
  leb, if◌then◌else◌,
}
use query_boy.Operations.{OperationalState, increment}
use query_boy.Query.Slots.{has}

-- `_ActiveQuery`: its task, and whether its cancel reason is "shutdown".
pub record ActiveQuery : Type 0 where
  pub task : ℕ
  pub shutdown : Bool

-- One round of the loop: the clock, and the tasks and active queries that it sees.
pub record Round : Type 0 where
  pub now : ℕ
  pub inflight : List ℕ
  pub active : List ActiveQuery

-- The tasks of the first list that are not in the second.
unfoldable pub without : List ℕ → List ℕ → List ℕ
without [] others = []
without (task ∷ tasks) others =
    let rest = without tasks others in if has others task then rest else task ∷ rest

-- What `_cancel_inflight` does: the tasks that it cancels at once, the active queries with their reason,
-- whose connections are told to cancel, and the tasks that it cancels when they are still pending.
pub record Cancelled : Type 0 where
  pub at_once : List ℕ
  pub told : List ActiveQuery
  pub pending : List ℕ

-- `ended` are the tasks that end within the second that they are given.
unfoldable pub cancel_inflight : List ℕ → List ActiveQuery → List ℕ → Cancelled
unfolding without
cancel_inflight inflight active ended = record {
  at_once = without inflight (map (λ (q : ActiveQuery). q.task) active);
  told = map (λ (q : ActiveQuery). record q { shutdown = true }) active;
  pending = without inflight ended;
}

pub data Drained : Type 0 where
  drained : Drained
  forced : Cancelled → Drained

abbrev pub is_empty : List ℕ → Bool
is_empty [] = true
is_empty (task ∷ tasks) = false

-- The loop of `drain` on fuel, from round `i`: `none` means that the fuel ran out.
unfoldable pub drain_loop : (ℕ → Round) → List ℕ → ℕ → ℕ → ℕ → Option (Drained × ℕ)
unfolding cancel_inflight
drain_loop rounds ended deadline zero i = none
drain_loop rounds ended deadline (suc fuel) i =
    let rest = drain_loop rounds ended deadline fuel (suc i) in
    let round = rounds i in
    if is_empty round.inflight
    then some (drained, i)
    else if leb deadline round.now
    then some (forced (cancel_inflight round.inflight round.active ended), i)
    else rest

-- The counters of `drain`.
abbrev pub count_drained : Drained → ℕ → OperationalState → OperationalState
count_drained drained inflight s = increment "shutdown_drained" none 1 s
count_drained (forced cancelled) inflight s = increment "shutdown_forced_cancel" none inflight s

abbrev pub counted :
    (ℕ → Round) → OperationalState → Option (Drained × ℕ) → Option (Drained × OperationalState)
counted rounds s none = none
counted rounds s (some (outcome, i)) =
    some (outcome, count_drained outcome (length (rounds i).inflight) s)

-- `drain(grace_ms)` at the time `now`.
unfoldable pub drain :
    (ℕ → Round) → List ℕ → ℕ → ℕ → ℕ → OperationalState → Option (Drained × OperationalState)
unfolding drain_loop increment
drain rounds ended fuel now grace_ms s =
    let s' = increment "shutdown_started" none 1 s in
    counted rounds s' (drain_loop rounds ended (now + grace_ms) fuel 0)

-- `close`, but for the pools: it drains without grace if nothing has stopped the executor before, and
-- cancels what is in flight otherwise.
unfoldable pub close :
    Bool → (ℕ → Round) → List ℕ → ℕ → ℕ → OperationalState → Option (Drained × OperationalState)
unfolding drain cancel_inflight
close accepting rounds ended fuel now s =
    let round = rounds 0 in
    if accepting
    then drain rounds ended fuel now 0 s
    else some (
      (if is_empty round.inflight
          then drained
          else forced (cancel_inflight round.inflight round.active ended)),
      s,
    )
