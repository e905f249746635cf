-- ===== src/Tests/Sample.antt =====
-- Concrete values for the tests: a contract, a grant of it and a grant below that one.
use cage_agent_security.Prelude.{ℕ, true, String, Option, none, some, List, [], ◌∷◌}
use cage_agent_security.Enums.{
  DataClassification, DelegationIssuanceSource, IntentStatus, TargetEnvironment,
}
use cage_agent_security.Intent.{IntentContract}
use cage_agent_security.Authority.{AuthorityEnvelope, allowlist_scope}
use cage_agent_security.Delegation.Models.{DelegationGrant}
use cage_agent_security.Delegation.Store.{DelegationStore, empty_store, create_grant}

abbrev pub contract : IntentContract
contract = record {
  intent_id = "intent";
  user_id = some "user";
  agent_id = "planner";
  session_id = "session";
  goal = "report";
  description = none;
  allowed_tools = "web.search" ∷ "file.read" ∷ [];
  denied_tools = [];
  allowed_resources = "r1" ∷ "r2" ∷ [];
  denied_resources = [];
  allowed_environments = TargetEnvironment.local_ ∷ TargetEnvironment.development ∷ [];
  allowed_data_classifications = DataClassification.public_ ∷ [];
  requires_approval = [];
  maximum_tool_calls = 3;
  tool_calls_count = 0;
  delegation_allowed = true;
  maximum_delegation_depth = 2;
  expires_at = some 100;
  created_at = 0;
  updated_at = 0;
  status = IntentStatus.active;
  revoked_reason = none;
}

abbrev pub envelope : List String → AuthorityEnvelope
envelope tools = record {
  allowed_tools = tools;
  resource_scope = allowlist_scope ("r1" ∷ []);
  allowed_environments = TargetEnvironment.development ∷ [];
  allowed_data_classifications = DataClassification.public_ ∷ [];
  explanation = [];
}

abbrev pub grant_of : String → Option String → List String → ℕ → DelegationGrant
grant_of id parent tools max_actions = record {
  delegation_id = id;
  parent_delegation_id = parent;
  root_intent_id = "intent";
  session_id = "session";
  issued_from_action_id = "action";
  delegator_agent_id = "planner";
  delegatee_agent_id = "worker";
  mediating_principal_id = none;
  issuance_source = DelegationIssuanceSource.agent_direct;
  delegated_task_id = "task";
  authority_envelope = envelope tools;
  depth = 1;
  remaining_subdelegation_depth = 1;
  allow_subdelegation = true;
  max_actions = max_actions;
  created_at = 0;
  expires_at = 50;
}

abbrev pub top_grant : DelegationGrant
top_grant = grant_of "a" none ("web.search" ∷ "file.read" ∷ []) 2

abbrev pub sub_grant : DelegationGrant
sub_grant = grant_of "b" (some "a") ("web.search" ∷ []) 5

abbrev pub one_grant : DelegationStore
one_grant = (create_grant empty_store top_grant none).1

abbrev pub two_grants : DelegationStore
two_grants = (create_grant one_grant sub_grant none).1
