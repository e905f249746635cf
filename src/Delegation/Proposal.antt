-- ===== src/Delegation/Proposal.antt =====
-- backend/app/delegation/analyzer.py: the checks of a proposal against its parent, its root and
-- its session, and the checks of an action against the live authority.
use cage_agent_security.Prelude.{Bool, true, false, String, Option, none, some, List, [], ◌∷◌, not}
use cage_agent_security.Prelude.Tests.{if◌then◌else◌, leb, ltb}
use cage_agent_security.Prelude.Eq.{◌==◌, contains, issubset, string_eq}
use cage_agent_security.Enums.{DataClassification, TargetEnvironment}
use cage_agent_security.Enums.Same.{target_environment_eq, data_classification_eq}
use cage_agent_security.Intent.{IntentContract}
use cage_agent_security.Authority.{AuthorityEnvelope, from_intent, is_allowed}
use cage_agent_security.Delegation.Models.{
  DelegationGrant, DelegationProposal, DelegationRuntimeState,
}
use cage_agent_security.Delegation.Analyzer.{is_resource_scope_subset}

unfoldable pub check_scope_subset_parent : DelegationProposal → Option DelegationGrant → Bool
check_scope_subset_parent proposal none = true
check_scope_subset_parent proposal (some parent) =
    if not (issubset proposal.requested_tools parent.authority_envelope.allowed_tools)
    then false
    else if not
        (issubset proposal.requested_environments parent.authority_envelope.allowed_environments)
    then false
    else if not (
        issubset proposal.requested_classifications
          parent.authority_envelope.allowed_data_classifications)
    then false
    else if ltb parent.max_actions proposal.requested_max_actions
    then false
    else is_resource_scope_subset proposal.requested_resource_scope.mode
        proposal.requested_resource_scope.allowed_resources parent.authority_envelope.resource_scope

unfoldable pub check_scope_subset_root : DelegationProposal → IntentContract → Bool
check_scope_subset_root proposal root =
    if ltb root.maximum_tool_calls proposal.requested_max_actions
    then false
    else if not (issubset proposal.requested_tools root.allowed_tools)
    then false
    else if not (issubset proposal.requested_environments root.allowed_environments)
    then false
    else if not (issubset proposal.requested_classifications root.allowed_data_classifications)
    then false
    else is_resource_scope_subset proposal.requested_resource_scope.mode
        proposal.requested_resource_scope.allowed_resources (from_intent root.allowed_resources)

unfoldable pub check_session_match : String → IntentContract → Option DelegationGrant → Bool
check_session_match session_id root none =
    if not (root.session_id == session_id) then false else true
check_session_match session_id root (some parent) =
    if not (root.session_id == session_id)
    then false
    else if not (parent.session_id == session_id)
    then false
    else true

-- The loop over `zip(ancestors, ancestor_states)`.
unfoldable pub ancestors_have_budget : List DelegationGrant → List DelegationRuntimeState → Bool
ancestors_have_budget [] states = true
ancestors_have_budget (g ∷ gs) [] = true
ancestors_have_budget (g ∷ gs) (st ∷ states) =
    if leb g.max_actions st.actions_executed_count then false else ancestors_have_budget gs states

-- The grant and its ancestors are passed, as every caller does.
unfoldable pub check_budget_available :
    DelegationRuntimeState
    → List DelegationRuntimeState
    → IntentContract
    → DelegationGrant
    → List DelegationGrant
    → Bool
check_budget_available state ancestor_states root grant ancestors =
    if leb root.maximum_tool_calls root.tool_calls_count
    then false
    else if leb grant.max_actions state.actions_executed_count
    then false
    else ancestors_have_budget ancestors ancestor_states

module _ (effective_scope : AuthorityEnvelope) where
  unfoldable pub is_tool_authorized : String → Bool
  is_tool_authorized tool = contains effective_scope.allowed_tools tool

  unfoldable pub is_resource_authorized : Option String → Bool
  is_resource_authorized target = is_allowed effective_scope.resource_scope target

  unfoldable pub is_environment_authorized : TargetEnvironment → Bool
  is_environment_authorized env = contains effective_scope.allowed_environments env

  unfoldable pub is_classification_authorized : List DataClassification → Bool
  is_classification_authorized classes =
      issubset classes effective_scope.allowed_data_classifications
