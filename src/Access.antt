-- ===== src/Access.antt =====
-- `AccessPolicy` (delivery/access.py): the callers of the service and their tokens. What the YAML file
-- holds once pydantic has read it is an input, and SHA-256 is a parameter.
pub mod Callers
mod Tests
use query_boy.Base.{
  ℕ, String, ◌<>◌, Bool, true, false, not, ◌&&◌, List, [], ◌∷◌, Option, none, some, map, ◌==◌, leb,
  length, eqb, if◌then◌else◌,
}
use query_boy.Base.Text.{count_chars}
use query_boy.Base.Dict.{Dict, lookup}
use query_boy.Base.Sets.{contains, add, all_different}
use query_boy.Base.Result.{Result, ok, err, ◌>>=◌, ◌>>◌, raise_if}

pub record CallerContext : Type 0 where
  pub caller_id : String
  pub tenant_id : String
  pub operator : Bool

pub record Credential : Type 0 where
  pub token_digest : String
  pub caller : CallerContext

-- `_Caller`
pub record Caller : Type 0 where
  pub caller_id : String
  pub tenant_id : String
  pub token_env : String
  pub operator : Bool

pub record PolicyFile : Type 0 where
  pub version : ℕ
  pub callers : List Caller

pub record AccessPolicy : Type 0 where
  pub credentials : List Credential
  pub anonymous : Option CallerContext

-- The message of an `AccessPolicyConfigurationError`.
abbrev pub Configured {ℓ} : Type ℓ → Type ℓ
Configured A = Result String A

unfoldable pub valid_policy : PolicyFile → Configured PolicyFile
unfolding all_different
valid_policy file = do
  raise_if (not (leb 1 (length file.callers) && leb (length file.callers) 1000))
      "callers must have 1 to 1000 entries"
  raise_if (not (eqb file.version 2)) "version must be 2"
  raise_if (not (all_different (map (λ (c : Caller). c.caller_id) file.callers)))
      "caller_id values must be unique"
  raise_if (not (all_different (map (λ (c : Caller). c.token_env) file.callers)))
      "token_env values must be unique"
  ok file

-- `32 <= len(token) <= 512`
unfoldable pub is_token : String → Bool
unfolding count_chars
is_token token = leb 32 (count_chars token) && leb (count_chars token) 512

abbrev pub caller_context : Caller → CallerContext
caller_context c = record {
  caller_id = c.caller_id;
  tenant_id = c.tenant_id;
  operator = c.operator;
}

-- `values.get(configured.token_env, "")`
abbrev pub text_or_empty : Option String → String
text_or_empty none = ""
text_or_empty (some s) = s

unfoldable pub token_of : Dict String → Caller → String
unfolding lookup
token_of environment c = text_or_empty (lookup c.token_env environment)

unfoldable pub local : AccessPolicy
local = record {
  credentials = [];
  anonymous = some (record {
    caller_id = "local-development";
    tenant_id = "local-development";
    operator = false;
  });
}

-- The loop of `authenticate`: the last credential that matches.
unfoldable pub match_credential :
    String → List Credential → Option CallerContext → Option CallerContext
match_credential received [] matched = matched
match_credential received (c ∷ credentials) matched =
    match_credential received credentials
      (if received == c.token_digest then some c.caller else matched)

module _ (digest : String → String) where
  unfoldable pub legacy : String → AccessPolicy
  legacy token = record {
    credentials =
        (record {
          token_digest = digest token;
          caller = record {
            caller_id = "legacy-api-token";
            tenant_id = "default";
            operator = false;
          };
        }
          ∷ []);
    anonymous = none;
  }

  abbrev pub credential_of : Dict String → Caller → Credential
  credential_of environment c = record {
    token_digest = digest (token_of environment c);
    caller = caller_context c;
  }

  -- The loop of `load` over the callers; `seen_digests` is a set.
  unfoldable pub load_callers :
      Dict String → List Caller → List String → Configured (List Credential)
  unfolding token_of is_token contains add
  load_callers environment [] seen_digests = ok []
  load_callers environment (c ∷ callers) seen_digests =
      let rest =
        load_callers environment callers (add (digest (token_of environment c)) seen_digests) in
      if not (is_token (token_of environment c))
      then err ("Access policy requires a 32- to 512-character token in " <> c.token_env)
      else if contains seen_digests (digest (token_of environment c))
      then err "Access policy tokens must be unique"
      else rest >>= (λ credentials. ok (credential_of environment c ∷ credentials))

  unfoldable pub load : Dict String → PolicyFile → Configured AccessPolicy
  unfolding valid_policy load_callers
  load environment file = do
    parsed ← valid_policy file
    credentials ← load_callers environment parsed.callers []
    ok (record { credentials = credentials; anonymous = none })

  unfoldable pub authenticate : AccessPolicy → Option String → Option CallerContext
  unfolding is_token match_credential
  authenticate policy none = policy.anonymous
  authenticate policy (some token) =
      if not (is_token token) then none else match_credential (digest token) policy.credentials none
