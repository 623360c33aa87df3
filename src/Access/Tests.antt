-- ===== src/Access/Tests.antt =====
-- An access policy with two callers (delivery/access.py).
use query_boy.Base.{String, true, false, List, [], ◌∷◌, ◌++◌, some, none, ◌≡◌, refl, All}
use query_boy.Base.Dict.{Dict, lookup}
use query_boy.Base.Sets.{all_different, contains, add}
use query_boy.Base.Result.{ok}
use query_boy.Access.{
  Caller, PolicyFile, AccessPolicy, caller_context, token_of, is_token, valid_policy, load_callers,
  load, authenticate,
}
use query_boy.Access.Callers.{load-authenticate, authenticate-load}

abbrev digest : String → String
digest s = s

abbrev environment : Dict String
environment =
    ("AGENT_TOKEN", "agent-token-agent-token-agent-token")
    ∷ ("OPERATOR_TOKEN", "operator-token-operator-token-operator")
    ∷ []

abbrev agent : Caller
agent = record {
  caller_id = "agent";
  tenant_id = "shop";
  token_env = "AGENT_TOKEN";
  operator = false;
}

abbrev operator_caller : Caller
operator_caller = record {
  caller_id = "operator";
  tenant_id = "shop";
  token_env = "OPERATOR_TOKEN";
  operator = true;
}

abbrev file : PolicyFile
file = record { version = 2; callers = agent ∷ operator_caller ∷ [] }

abbrev policy : AccessPolicy
policy = record {
  credentials =
      (record {
        token_digest = "agent-token-agent-token-agent-token";
        caller = caller_context agent;
      })
      ∷ (record {
        token_digest = "operator-token-operator-token-operator";
        caller = caller_context operator_caller;
      })
      ∷ [];
  anonymous = none;
}

file_loads : load digest environment file ≡ ok policy
unfolding load valid_policy load_callers token_of is_token lookup contains add all_different
file_loads = refl

agent_authenticated :
    authenticate digest policy (some "agent-token-agent-token-agent-token")
    ≡ some (caller_context agent)
unfolding authenticate is_token
agent_authenticated = refl

load-authenticate_example :
    All
      (λ c. authenticate digest policy (some (token_of environment c)) ≡ some (caller_context c))
      (agent ∷ operator_caller ∷ [])
load-authenticate_example = load-authenticate digest environment file policy file_loads

authenticate-load_example :
    (before : List Caller) × (c : Caller) × (rest : List Caller) × ((agent ∷ operator_caller ∷ [])
      ≡ before ++ c ∷ rest)
    × ("agent-token-agent-token-agent-token" ≡ digest (token_of environment c))
    × (caller_context agent ≡ caller_context c)
authenticate-load_example =
    authenticate-load digest environment file policy "agent-token-agent-token-agent-token"
      (caller_context agent) file_loads agent_authenticated
