-- ===== src/Metadata/Tests.antt =====
-- A source and its metadata run through metadata/service.py, and the theorems at them.
use query_boy.Metadata.Samples.{sales, snapshot, sha256, settings, fresh_state, value}
use query_boy.Base.{true, false, none, ◌≡◌, refl, arith}
use query_boy.Base.Dict.{lookup}
use query_boy.Base.Result.{ok, err}
use query_boy.Errors.{no_details}
use query_boy.Operations.{reset}
use query_boy.Metadata.Revision.{create_metadata_revision, create_view_structure_signature}
use query_boy.Metadata.Context.{validate_snapshot, context_response, context_json}
use query_boy.Base.Json.{dumps, quoted, elements}
use query_boy.Base.Sets.{sorted}
use query_boy.Base.Digits.{show_int}
use query_boy.Metadata.Service.{
  MetadataState, loaded, load_failed, catalog_invalid, refused, get_prepared, refresh,
}
use query_boy.Metadata.Served.{IsServed}
use query_boy.Metadata.Requests.{IsReachable, WasLoaded, start, own, get_prepared-IsServed}
use query_boy.Metadata.Pinned.{here, get_prepared-same_structure}
use query_boy.Metadata.Evicted.{refresh-evicts, no_catalog}

-- The state after the first request.
abbrev loaded_state : MetadataState
loaded_state =
    (get_prepared sha256 "sha256:00" settings sales 10 (loaded snapshot) 12 fresh_state).1

first_request :
    (get_prepared sha256 "sha256:00" settings sales 10 (loaded snapshot) 12 fresh_state).0
    ≡ ok (value, false)
unfolding get_prepared validate_snapshot context_response create_metadata_revision dumps
    context_json quoted sorted show_int elements
first_request = refl

-- The load fails after the cache's lifetime: stale metadata is served.
stale_request :
    (get_prepared sha256 "sha256:00" settings sales 40000 load_failed 40007 loaded_state).0
    ≡ ok (value, true)
unfolding get_prepared lookup validate_snapshot context_response create_metadata_revision dumps
    context_json quoted sorted show_int elements
stale_request = refl

loaded-IsReachable : IsReachable sha256 "sha256:00" settings sales 12 loaded_state
loaded-IsReachable =
    own {t = 0} {s = fresh_state} 10 12 (loaded snapshot) (start reset) (omega arith) (omega arith)

get_prepared-IsServed_example :
    IsServed sha256 "sha256:00" settings sales
      (WasLoaded sha256 "sha256:00" settings sales
        (own 40000 40007 load_failed loaded-IsReachable (omega arith) (omega arith)))
      40000
      40007
      (get_prepared sha256 "sha256:00" settings sales 40000 load_failed 40007 loaded_state).1
      value
      true
get_prepared-IsServed_example =
    get_prepared-IsServed sha256 "sha256:00" settings sales 12 40000 40007 load_failed loaded_state
      value true loaded-IsReachable (omega arith) (omega arith) stale_request

get_prepared-same_structure_example :
    create_view_structure_signature sha256 value.snapshot
    ≡ create_view_structure_signature sha256 value.snapshot
get_prepared-same_structure_example =
    get_prepared-same_structure sha256 "sha256:00" settings sales 0 10 12 12 40000 40007
      (loaded snapshot) load_failed fresh_state loaded_state value value false true (start reset)
      (omega arith) (omega arith) first_request here loaded-IsReachable (omega arith) (omega arith)
      stale_request

evicted_request :
    (refresh sha256 "sha256:00" settings none sales catalog_invalid 12 fresh_state).0
    ≡ err (refused no_details)
unfolding refresh
evicted_request = refl

refresh-evicts_example :
    lookup "sales"
      (refresh sha256 "sha256:00" settings none sales catalog_invalid 12 fresh_state).1.cache
    ≡ none
refresh-evicts_example =
    refresh-evicts sha256 "sha256:00" settings sales none catalog_invalid 12 fresh_state
      (refused no_details) no_catalog evicted_request
