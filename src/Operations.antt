-- ===== src/Operations.antt =====
-- runtime/operations.py: the state of the process-local metrics and of the sources' health. The lock of
-- the source makes each method one step.
pub mod Usable
pub mod Known
pub mod Status
pub mod Sources
mod Tests
use query_boy.Base.{
  ℕ, ◌+◌, String, ◌<>◌, Bool, true, false, not, ◌&&◌, ◌||◌, List, [], ◌∷◌, ◌++◌, Option, none, some,
  ◌==◌, option_eq, any, all, map, if◌then◌else◌,
}
use query_boy.Base.Dict.{Dict, lookup, insert, keys}
use query_boy.Base.Sets.{contains, add}

pub data Health : Type 0 where
  healthy stale initializing unavailable : Health

pub data PublicStatus : Type 0 where
  shutting_down initializing unavailable degraded ready : PublicStatus

-- A metric's name and its source, if it has one.
pub record MetricKey : Type 0 where
  pub name : String
  pub source_id : Option String

abbrev pub Metrics : Type 0
Metrics = List (MetricKey × ℕ)

pub record OperationalState : Type 0 where
  pub counters : Metrics
  pub totals : Metrics
  pub source_metadata_health : Dict Health
  pub source_query_health : Dict Health
  pub active_sources : Option (List String)
  pub accepting : Bool

abbrev pub reset : OperationalState
reset = record {
  counters = [];
  totals = [];
  source_metadata_health = [];
  source_query_health = [];
  active_sources = none;
  accepting = true;
}

abbrev pub same_key : MetricKey → MetricKey → Bool
same_key a b = a.name == b.name && option_eq a.source_id b.source_id

-- `metrics[key] += value`, from 0 if the key is not there.
unfoldable pub bump : MetricKey → ℕ → Metrics → Metrics
bump key value [] = (key, value) ∷ []
bump key value ((k, n) ∷ metrics) =
    if same_key k key then (k, n + value) ∷ metrics else (k, n) ∷ bump key value metrics

-- `metrics[key]`
unfoldable pub count_of : MetricKey → Metrics → ℕ
count_of key [] = 0
count_of key ((k, n) ∷ metrics) = if same_key k key then n else count_of key metrics

unfoldable pub increment : String → Option String → ℕ → OperationalState → OperationalState
unfolding bump
increment name source_id value s = record s {
  counters = bump (record { name = name; source_id = source_id }) value s.counters;
}

-- The values that the source observes are whole milliseconds.
unfoldable pub observe : String → ℕ → Option String → OperationalState → OperationalState
unfolding bump
observe name value source_id s = record s {
  counters = bump (record { name = name <> "_count"; source_id = source_id }) 1 s.counters;
  totals = bump (record { name = name <> "_sum"; source_id = source_id }) value s.totals;
}

-- `active is not None and source_id not in active`
abbrev pub is_inactive : Option (List String) → String → Bool
is_inactive none source_id = false
is_inactive (some active) source_id = not (contains active source_id)

unfoldable pub set_source_health : String → Health → OperationalState → OperationalState
unfolding contains insert
set_source_health source_id status s =
    if is_inactive s.active_sources source_id
    then s
    else record s { source_metadata_health = insert source_id status s.source_metadata_health }

unfoldable pub set_source_query_health : String → Health → OperationalState → OperationalState
unfolding contains insert
set_source_query_health source_id status s =
    if is_inactive s.active_sources source_id
    then s
    else record s { source_query_health = insert source_id status s.source_query_health }

-- `{source_id: health.get(source_id, default) for source_id in active}`
unfoldable pub restrict : Health → List String → Dict Health → Dict Health
unfolding lookup
restrict default [] health = []
restrict default (source_id ∷ active) health =
    (source_id, elim (lookup source_id health) [ none ↦ default | some h ↦ h ])
    ∷ restrict default active health

-- The metrics that have no source or an active one.
unfoldable pub keep_active : List String → Metrics → Metrics
unfolding contains
keep_active active [] = []
keep_active active ((k, n) ∷ metrics) =
    let rest = keep_active active metrics in
    if (elim k.source_id [ none ↦ true | some source_id ↦ contains active source_id ])
    then (k, n) ∷ rest
    else rest

unfoldable pub to_set : List String → List String
unfolding add
to_set [] = []
to_set (x ∷ xs) = add x (to_set xs)

unfoldable pub reconcile_sources : List String → OperationalState → OperationalState
unfolding to_set restrict keep_active
reconcile_sources source_ids s =
    let active = to_set source_ids in
    record s {
      active_sources = some active;
      source_metadata_health = restrict initializing active s.source_metadata_health;
      source_query_health = restrict healthy active s.source_query_health;
      counters = keep_active active s.counters;
      totals = keep_active active s.totals;
    }

abbrev pub set_accepting : Bool → OperationalState → OperationalState
set_accepting accepting s = record s { accepting = accepting }

abbrev pub is_unavailable : Option Health → Bool
is_unavailable (some unavailable) = true
is_unavailable _ = false

abbrev pub is_stale : Option Health → Bool
is_stale (some stale) = true
is_stale _ = false

abbrev pub is_initializing : Option Health → Bool
is_initializing (some initializing) = true
is_initializing _ = false

-- `_aggregate_source_status`, of the two entries of a source.
unfoldable pub aggregate_status : Option Health → Option Health → Health
aggregate_status metadata_status query_status =
    if is_unavailable metadata_status || is_unavailable query_status
    then unavailable
    else if is_stale metadata_status
    then stale
    else if is_initializing metadata_status || is_initializing query_status
    then initializing
    else healthy

unfoldable pub aggregate_source_status : OperationalState → String → Health
unfolding aggregate_status lookup
aggregate_source_status s source_id =
    aggregate_status (lookup source_id s.source_metadata_health)
      (lookup source_id s.source_query_health)

-- The sources with an entry.
unfoldable pub known_sources : OperationalState → List String
unfolding to_set keys
known_sources s = to_set (keys s.source_metadata_health ++ keys s.source_query_health)

-- `_aggregate_source_health().values()`
unfoldable pub aggregate_source_health : OperationalState → List Health
unfolding known_sources aggregate_source_status
aggregate_source_health s = map (aggregate_source_status s) (known_sources s)

abbrev pub is_usable : Health → Bool
is_usable healthy = true
is_usable stale = true
is_usable _ = false

abbrev pub is_starting : Health → Bool
is_starting initializing = true
is_starting _ = false

abbrev pub is_unhealthy : Health → Bool
is_unhealthy healthy = false
is_unhealthy _ = true

-- `public_status`, of the health of all sources.
unfoldable pub status_of : Option (List String) → List Health → PublicStatus
status_of none [] = PublicStatus.initializing
status_of (some active) [] = PublicStatus.unavailable
status_of active (h ∷ hs) =
    if not (any is_usable (h ∷ hs))
    then (if all is_starting (h ∷ hs) then PublicStatus.initializing else PublicStatus.unavailable)
    else if any is_unhealthy (h ∷ hs)
    then degraded
    else ready

unfoldable pub public_status : OperationalState → PublicStatus
unfolding status_of aggregate_source_health
public_status s =
    if not s.accepting
    then shutting_down
    else status_of s.active_sources (aggregate_source_health s)
