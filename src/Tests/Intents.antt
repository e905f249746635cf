-- ===== src/Tests/Intents.antt =====
-- backend/app/intent at concrete services.
use cage_agent_security.Prelude.{◌≡◌, ◌⊎◌, refl, true, false, String, none, some, [], ◌∷◌, arith}
use cage_agent_security.Prelude.Dict.{get, put}
use cage_agent_security.Prelude.Eq.{string_eq, issubset, contains}
use cage_agent_security.Authority.{from_intent, is_allowed}
use cage_agent_security.Intent.{
  IntentContract, IntentContractCreate, IntentContractNarrow, from_create, is_active,
}
use cage_agent_security.Intent.Result.{ok, err, inactive_intent}
use cage_agent_security.Intent.Narrowing.{
  narrow_contract, narrow_tools, narrow_subset, narrow_superset, narrow_resources, narrow_approval,
  narrow_quota, narrow_delegation, narrow_depth, narrow_deadline,
}
use cage_agent_security.Intent.Narrowing.Sound.{IsNarrower}
use cage_agent_security.Intent.Service.{
  IntentService, empty_service, set_intent, create_intent, revoke_intent, narrow_intent,
  reserve_tool_execution, bound_contract,
}
use cage_agent_security.Intent.Service.Lifecycle.{create, reserve}
use cage_agent_security.Intent.Service.Narrow.{
  narrow_intent_narrows, narrow_keeps_resources, narrow_to_empty_widens,
}
use cage_agent_security.Intent.Service.Sessions.{
  Run, start, next, WithinQuota, quota_never_exceeded, revoked_is_final, one_active_per_session,
}

abbrev request : IntentContractCreate
request = record {
  user_id = none;
  agent_id = "planner";
  session_id = "session";
  goal = "report";
  description = none;
  allowed_tools = "web.search" ∷ "file.read" ∷ [];
  denied_tools = [];
  allowed_resources = "r1" ∷ [];
  denied_resources = [];
  allowed_environments = [];
  allowed_data_classifications = [];
  requires_approval = [];
  maximum_tool_calls = 1;
  delegation_allowed = false;
  maximum_delegation_depth = 0;
  expires_at = none;
}

abbrev stored : IntentService
stored = (create_intent empty_service request "i" 0).1

abbrev used_once : IntentService
used_once = (reserve_tool_execution stored "i" 1).1

created : Run empty_service 0 stored
unfolding get
created = next (start 0) (omega arith) (create request "i" refl)

used-Run : Run empty_service 1 used_once
used-Run = next created (omega arith) (reserve "i")

quota_never_exceeded_example : WithinQuota used_once
quota_never_exceeded_example = quota_never_exceeded 1 used_once used-Run

second_reservation_fails : (reserve_tool_execution used_once "i" 2).0 ≡ false
unfolding reserve_tool_execution create_intent get put is_active from_create bound_contract
second_reservation_fails = refl

abbrev stored_contract : IntentContract
stored_contract = from_create request "i" 0

found : get stored.intents "i" ≡ some stored_contract
unfolding create_intent get put bound_contract from_create
found = refl

abbrev after_revoke : IntentService
after_revoke = (revoke_intent stored "i" "done" 1).1

abbrev keep_all : IntentContractNarrow
keep_all = record {
  allowed_tools = none;
  denied_tools = none;
  allowed_resources = none;
  denied_resources = none;
  allowed_environments = none;
  allowed_data_classifications = none;
  requires_approval = none;
  maximum_tool_calls = none;
  delegation_allowed = none;
  maximum_delegation_depth = none;
  expires_at = none;
  expires_at_set = false;
}

revoked_is_final_example :
    (reserve_tool_execution after_revoke "i" 2 ≡ (false, after_revoke))
    × (narrow_intent after_revoke "i" keep_all 2 ≡ (err (inactive_intent "i"), after_revoke))
revoked_is_final_example =
    revoked_is_final stored "i" "done" 1 stored_contract 1 after_revoke found (start 1) 2 keep_all

live : is_active stored_contract 1 ≡ true
unfolding is_active from_create
live = refl

abbrev the_id : String
the_id = "i"

one_active_per_session_example : the_id ≡ the_id
one_active_per_session_example =
    one_active_per_session 0 stored 1 the_id the_id stored_contract stored_contract created
      (omega arith) found found refl live live

abbrev search_only : IntentContractNarrow
search_only = record keep_all { allowed_tools = some ("web.search" ∷ []) }

narrow_intent_narrows_example :
    ((c' : IntentContract) × ((narrow_intent stored "i" search_only 1).0 ≡ ok c')
      × IsNarrower stored_contract c'
      × ((narrow_intent stored "i" search_only 1).1 ≡ set_intent stored "i" c'))
    ⊎ ((narrow_intent stored "i" search_only 1).1 ≡ stored)
unfolding from_create
narrow_intent_narrows_example =
    narrow_intent_narrows stored "i" stored_contract search_only 1 found (omega arith)

abbrev narrowed_tools : IntentContract
narrowed_tools = record stored_contract { allowed_tools = "web.search" ∷ []; updated_at = 1 }

narrowed_ok : narrow_contract stored_contract search_only 1 ≡ ok narrowed_tools
unfolding narrow_contract narrow_tools narrow_subset narrow_superset narrow_resources
    narrow_approval narrow_quota narrow_delegation narrow_depth narrow_deadline issubset contains
    from_create
narrowed_ok = refl

narrow_keeps_resources_example :
    is_allowed (from_intent stored_contract.allowed_resources) (some "r1") ≡ true
unfolding is_allowed from_intent from_create contains
narrow_keeps_resources_example =
    narrow_keeps_resources stored_contract search_only 1 narrowed_tools (some "r1") (ground arith)
      narrowed_ok refl

abbrev no_resources : IntentContractNarrow
no_resources = record keep_all { allowed_resources = some [] }

abbrev unbounded : IntentContract
unbounded = record stored_contract { allowed_resources = []; updated_at = 1 }

unbounded_ok : narrow_contract stored_contract no_resources 1 ≡ ok unbounded
unfolding narrow_contract narrow_tools narrow_subset narrow_superset narrow_resources
    narrow_approval narrow_quota narrow_delegation narrow_depth narrow_deadline issubset contains
    from_create
unbounded_ok = refl

-- The stored contract does not allow this resource.
elsewhere_refused :
    is_allowed (from_intent stored_contract.allowed_resources) (some "elsewhere") ≡ false
unfolding is_allowed from_intent from_create contains
elsewhere_refused = refl

narrow_to_empty_widens_example :
    is_allowed (from_intent unbounded.allowed_resources) (some "elsewhere") ≡ true
narrow_to_empty_widens_example =
    narrow_to_empty_widens stored_contract no_resources 1 unbounded (some "elsewhere") refl
      unbounded_ok
