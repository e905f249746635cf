-- ===== src/Services/DelegationService/Payload.antt =====
-- backend/app/delegation/service.py: `compute_delegation_payload_hash`.
use cage_agent_security.Prelude.{ℕ, Bool, String, Option, List, [], ◌∷◌}
use cage_agent_security.Prelude.Int.{ℤ}
use cage_agent_security.Prelude.Eq.{string_eq}
use cage_agent_security.Prelude.Sorted.{sorted}
use cage_agent_security.Enums.{AuthorityScopeMode, DataClassification, TargetEnvironment}
use cage_agent_security.Enums.Values.{classification_value, environment_value}
use cage_agent_security.Delegation.Models.{DelegationProposal}

-- What `compute_delegation_payload_hash` serializes. `json.dumps` and SHA-256 are the digest.
pub record HashedPayload : Type 0 where
  pub session_id : String
  pub root_intent_id : Option String
  pub parent_delegation_id : Option String
  pub delegator_agent_id : String
  pub delegatee_agent_id : String
  pub delegated_task_id : String
  pub requested_tools : List String
  pub scope_mode : AuthorityScopeMode
  pub scope_resources : List String
  pub requested_environments : List String
  pub requested_classifications : List String
  pub requested_max_actions : ℕ
  pub requested_ttl_seconds : ℤ
  pub allow_subdelegation : Bool
  pub requested_depth : Option ℤ

environment_values : List TargetEnvironment → List String
environment_values [] = []
environment_values (e ∷ es) = environment_value e ∷ environment_values es

classification_values : List DataClassification → List String
classification_values [] = []
classification_values (c ∷ cs) = classification_value c ∷ classification_values cs

unfoldable pub hashed_payload : DelegationProposal → HashedPayload
unfolding environment_values classification_values
hashed_payload p = record {
  session_id = p.session_id;
  root_intent_id = p.root_intent_id;
  parent_delegation_id = p.parent_delegation_id;
  delegator_agent_id = p.delegator_agent_id;
  delegatee_agent_id = p.delegatee_agent_id;
  delegated_task_id = p.delegated_task_id;
  requested_tools = sorted p.requested_tools;
  scope_mode = p.requested_resource_scope.mode;
  scope_resources = sorted p.requested_resource_scope.allowed_resources;
  requested_environments = sorted (environment_values p.requested_environments);
  requested_classifications = sorted (classification_values p.requested_classifications);
  requested_max_actions = p.requested_max_actions;
  requested_ttl_seconds = p.requested_ttl_seconds;
  allow_subdelegation = p.allow_subdelegation;
  requested_depth = p.requested_depth;
}
