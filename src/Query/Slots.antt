-- ===== src/Query/Slots.antt =====
-- What queries that run at the same time share in `PostgresQueryExecutor` (guarded_query/query.py): the
-- tasks in flight, and the permits of a source's semaphore. Between two awaits a task makes one step; the
-- lock of the executor makes each of these one step. A task is a number. `holders` are the tasks that are
-- inside the `try` whose `finally` releases the semaphore.
pub mod Reached
mod Tests
use query_boy.Base.{
  ℕ, zero, suc, Bool, true, false, not, ◌&&◌, List, [], ◌∷◌, Option, none, some, any, eqb, ◌≡◌,
  if◌then◌else◌,
}

pub record Executor : Type 0 where
  pub accepting : Bool
  pub inflight : List ℕ
  pub free : ℕ
  pub holders : List ℕ

abbrev pub has : List ℕ → ℕ → Bool
has tasks task = any (λ t. eqb t task) tasks

-- `tasks.discard(task)` of a set.
unfoldable pub discard : ℕ → List ℕ → List ℕ
discard task [] = []
discard task (t ∷ tasks) = if eqb t task then tasks else t ∷ discard task tasks

-- `asyncio.Semaphore(max_concurrent_queries)`, before any query.
abbrev pub idle : ℕ → Executor
idle max_concurrent_queries = record {
  accepting = true;
  inflight = [];
  free = max_concurrent_queries;
  holders = [];
}

-- `execute`: a new task is admitted while the executor accepts.
unfoldable pub enter : ℕ → Executor → Option Executor
enter task s =
    if s.accepting && not (has s.inflight task)
    then some (record s { inflight = task ∷ s.inflight })
    else none

abbrev pub take_permit : ℕ → Executor → ℕ → Option Executor
take_permit task s zero = none
take_permit task s (suc free) = some (record s { free = free; holders = task ∷ s.holders })

-- `semaphore.acquire()` of a task in flight, once a permit is free.
unfoldable pub acquire : ℕ → Executor → Option Executor
acquire task s =
    let taken = take_permit task s s.free in
    if has s.inflight task && not (has s.holders task) then taken else none

-- `finally: semaphore.release()` of a task that holds a permit.
unfoldable pub release : ℕ → Executor → Option Executor
unfolding discard
release task s =
    if has s.holders task
    then some (record s { free = suc s.free; holders = discard task s.holders })
    else none

-- `finally: self._inflight.discard(task)`, after the permit is given back.
unfoldable pub leave : ℕ → Executor → Option Executor
unfolding discard
leave task s =
    if not (has s.holders task)
    then some (record s { inflight = discard task s.inflight })
    else none

abbrev pub stop_accepting : Executor → Executor
stop_accepting s = record s { accepting = false }

pub data Step (s : Executor) : Executor → Type 0 where
  entered : (task : ℕ) (t : Executor) → enter task s ≡ some t → Step s t
  acquired : (task : ℕ) (t : Executor) → acquire task s ≡ some t → Step s t
  released : (task : ℕ) (t : Executor) → release task s ≡ some t → Step s t
  left : (task : ℕ) (t : Executor) → leave task s ≡ some t → Step s t
  stopped : Step s (stop_accepting s)

-- Any number of steps, in any order.
pub data Steps (s : Executor) : Executor → Type 0 where
  start : Steps s s
  next : (t u : Executor) → Steps s t → Step t u → Steps s u
