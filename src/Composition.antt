-- ===== src/Composition.antt =====
-- runtime/composition.py: which access policy the process is built with, how it begins to stop, and what its
-- clean-up raises.
pub mod Anonymous
mod Tests
use query_boy.Base.{String, Bool, true, false, List, [], ◌∷◌, Option, none, some, if◌then◌else◌}
use query_boy.Base.Dict.{Dict}
use query_boy.Base.Result.{Result, ok, err}
use query_boy.Access.{AccessPolicy, Configured, PolicyFile, local, legacy, load}
use query_boy.Config.{RuntimeConfig}
use query_boy.Registry.Paths.{Parts}

-- The choice of `build_app`.
pub data PolicySource : Type 0 where
  from_file : Parts → PolicySource
  from_token : String → PolicySource
  anonymous_local : PolicySource

abbrev pub choose_policy : Option Parts → Option String → PolicySource
choose_policy (some file) token = from_file file
choose_policy none (some token) = from_token token
choose_policy none none = anonymous_local

unfoldable pub policy_source : RuntimeConfig → PolicySource
policy_source config = choose_policy config.access_policy_file config.api_token

-- The policy of each choice; `files` is what YAML gives for the file of a path.
abbrev pub policy_from :
    (String → String) → (Parts → PolicyFile) → Dict String → PolicySource → Configured AccessPolicy
policy_from digest files environment (from_file file) = load digest environment (files file)
policy_from digest files environment (from_token token) = ok (legacy digest token)
policy_from digest files environment anonymous_local = ok local

unfoldable pub access_policy :
    (String → String) → (Parts → PolicyFile) → Dict String → RuntimeConfig → Configured AccessPolicy
unfolding policy_source local legacy load
access_policy digest files environment config =
    policy_from digest files environment (policy_source config)

-- `_ShutdownTrigger`: what it has done is the list of its steps, in order.
pub data StopStep : Type 0 where
  begin_deadline stop_serving stop_query_admission : StopStep

pub record ShutdownTrigger : Type 0 where
  pub started : Bool
  pub done : List StopStep

unfoldable pub trigger : ShutdownTrigger → ShutdownTrigger
trigger t =
    if t.started
    then t
    else record { started = true; done = begin_deadline ∷ stop_serving ∷ stop_query_admission ∷ [] }

-- `_CleanupErrors`: the first error of the clean-up steps.
unfoldable pub attempt {ℓ} : {E : Type ℓ} → Option E → Option E → Option E
attempt none error = error
attempt (some first) error = some first

unfoldable pub raise_first {ℓ} : {E : Type ℓ} → Option E → Result E (Unit {0})
raise_first none = ok tt
raise_first (some first) = err first
