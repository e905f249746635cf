-- ===== src/Delegation/Models.antt =====
-- backend/app/delegation/models.py: the proposal, the immutable grant and its mutable state.
use cage_agent_security.Prelude.{ℕ, Bool, String, Option, none, List}
use cage_agent_security.Prelude.Int.{ℤ}
use cage_agent_security.Enums.{
  AuthorityScopeMode, DataClassification, DelegationIssuanceSource, DelegationStatus,
  TargetEnvironment,
}
use cage_agent_security.Authority.{
  AuthorityEnvelope, ResourceAuthorityScope, allowlist_scope, unconstrained_scope,
}

pub record ResourceAuthorityScopeRequest : Type 0 where
  pub mode : AuthorityScopeMode
  pub allowed_resources : List String

authoritative : AuthorityScopeMode → List String → ResourceAuthorityScope
authoritative AuthorityScopeMode.unconstrained rs = unconstrained_scope
authoritative AuthorityScopeMode.allowlist rs = allowlist_scope rs

unfoldable pub to_authoritative : ResourceAuthorityScopeRequest → ResourceAuthorityScope
unfolding authoritative
to_authoritative request = authoritative request.mode request.allowed_resources

pub record DelegationProposal : Type 0 where
  pub session_id : String
  pub delegator_agent_id : String
  pub delegatee_agent_id : String
  pub delegated_task_id : String
  pub parent_delegation_id : Option String
  pub root_intent_id : Option String
  pub requested_tools : List String
  pub requested_environments : List TargetEnvironment
  pub requested_classifications : List DataClassification
  pub requested_resource_scope : ResourceAuthorityScopeRequest
  pub requested_max_actions : ℕ
  pub requested_ttl_seconds : ℤ
  pub allow_subdelegation : Bool
  pub requested_depth : Option ℤ
  pub requested_subdelegation_depth : Option ℤ

pub record DelegationGrant : Type 0 where
  pub delegation_id : String
  pub parent_delegation_id : Option String
  pub root_intent_id : String
  pub session_id : String
  pub issued_from_action_id : String
  pub delegator_agent_id : String
  pub delegatee_agent_id : String
  pub mediating_principal_id : Option String
  pub issuance_source : DelegationIssuanceSource
  pub delegated_task_id : String
  pub authority_envelope : AuthorityEnvelope
  pub depth : ℕ
  pub remaining_subdelegation_depth : ℕ
  pub allow_subdelegation : Bool
  pub max_actions : ℕ
  pub created_at : ℕ
  pub expires_at : ℕ

pub record DelegationRuntimeState : Type 0 where
  pub delegation_id : String
  pub status : DelegationStatus
  pub actions_executed_count : ℕ
  pub revoked_at : Option ℕ
  pub revoked_by_principal_id : Option String
  pub revocation_reason : Option String
  pub closed_at : Option ℕ
  pub closed_by_agent_id : Option String
  pub last_action_at : Option ℕ
  pub state_version : ℕ

-- `DelegationRuntimeState(delegation_id=..., status=ACTIVE)` with the defaults of the model.
abbrev pub fresh_state : String → DelegationRuntimeState
fresh_state id = record {
  delegation_id = id;
  status = DelegationStatus.active;
  actions_executed_count = 0;
  revoked_at = none;
  revoked_by_principal_id = none;
  revocation_reason = none;
  closed_at = none;
  closed_by_agent_id = none;
  last_action_at = none;
  state_version = 1;
}
