-- ===== src/Delegation/Analyzer.antt =====
-- backend/app/delegation/analyzer.py: scopes, live authority and status, and the facts of a proposal.
-- Sets of enumeration members are compared by their strings in the source, by `==` here.
pub mod Scope
pub mod Status
use cage_agent_security.Prelude.{
  ℕ, zero, ◌+◌, Bool, true, false, String, Option, none, some, List, [], ◌∷◌, not, ◌||◌, ◌&&◌,
}
use cage_agent_security.Prelude.Int.{ℤ, pos, negsuc}
use cage_agent_security.Prelude.Tests.{if◌then◌else◌, leb, ltb}
use cage_agent_security.Prelude.Eq.{◌==◌, contains, issubset, intersection, string_eq}
use cage_agent_security.Enums.{
  AuthorityScopeMode, DataClassification, DelegationStatus, EffectiveDelegationStatus, IntentStatus,
  TargetEnvironment,
}
use cage_agent_security.Enums.Same.{
  target_environment_eq, data_classification_eq, delegation_status_eq, intent_status_eq,
  authority_scope_mode_eq,
}
use cage_agent_security.Principal.{AgentPrincipal}
use cage_agent_security.Intent.{IntentContract, deadline_passed}
use cage_agent_security.Authority.{
  AuthorityEnvelope, ResourceAuthorityScope, allowlist_scope, unconstrained_scope, from_intent,
  is_allowed,
}
use cage_agent_security.Delegation.Models.{
  DelegationGrant, DelegationProposal, DelegationRuntimeState,
}

-- The request and the authoritative scope have the same two fields, and are passed as these.
unfoldable pub is_resource_scope_subset :
    AuthorityScopeMode → List String → ResourceAuthorityScope → Bool
is_resource_scope_subset req_mode req_resources parent =
    if parent.mode == AuthorityScopeMode.unconstrained
    then true
    else if req_mode == AuthorityScopeMode.unconstrained
    then false
    else issubset req_resources parent.allowed_resources

-- The four cases of `intersect_resource_scopes`, by the modes of parent and child.
intersect_by_mode :
    AuthorityScopeMode → AuthorityScopeMode → List String → List String → ResourceAuthorityScope
intersect_by_mode AuthorityScopeMode.unconstrained AuthorityScopeMode.unconstrained ps cs =
    unconstrained_scope
intersect_by_mode AuthorityScopeMode.unconstrained AuthorityScopeMode.allowlist ps cs =
    allowlist_scope cs
intersect_by_mode AuthorityScopeMode.allowlist AuthorityScopeMode.unconstrained ps cs =
    allowlist_scope ps
intersect_by_mode AuthorityScopeMode.allowlist AuthorityScopeMode.allowlist ps cs =
    allowlist_scope (intersection ps cs)

unfoldable pub intersect_resource_scopes :
    ResourceAuthorityScope → ResourceAuthorityScope → ResourceAuthorityScope
unfolding intersect_by_mode
intersect_resource_scopes parent child =
    intersect_by_mode parent.mode child.mode parent.allowed_resources child.allowed_resources

-- The four running variables of `compute_live_effective_authority`, narrowed by one grant.
unfoldable pub narrow_by : AuthorityEnvelope → DelegationGrant → AuthorityEnvelope
narrow_by e grant = record {
  allowed_tools = intersection e.allowed_tools grant.authority_envelope.allowed_tools;
  resource_scope =
      intersect_resource_scopes e.resource_scope grant.authority_envelope.resource_scope;
  allowed_environments =
      intersection e.allowed_environments grant.authority_envelope.allowed_environments;
  allowed_data_classifications =
      intersection e.allowed_data_classifications
        grant.authority_envelope.allowed_data_classifications;
  explanation = [];
}

unfoldable pub root_authority : IntentContract → AuthorityEnvelope
root_authority root = record {
  allowed_tools = root.allowed_tools;
  resource_scope = from_intent root.allowed_resources;
  allowed_environments = root.allowed_environments;
  allowed_data_classifications = root.allowed_data_classifications;
  explanation = [];
}

unfoldable pub narrow_through : AuthorityEnvelope → List DelegationGrant → AuthorityEnvelope
narrow_through e [] = e
narrow_through e (g ∷ gs) = narrow_through (narrow_by e g) gs

unfoldable pub compute_live_effective_authority :
    DelegationGrant → List DelegationGrant → IntentContract → AuthorityEnvelope
compute_live_effective_authority grant ancestors root =
    narrow_by (narrow_through (root_authority root) ancestors) grant

-- The loop over `zip(ancestors, ancestor_states)`: the verdict of the first ancestor that has one.
unfoldable pub ancestors_verdict :
    ℕ → List DelegationGrant → List DelegationRuntimeState → Option EffectiveDelegationStatus
ancestors_verdict now [] states = none
ancestors_verdict now (g ∷ gs) [] = none
ancestors_verdict now (g ∷ gs) (st ∷ states) =
    if st.status == DelegationStatus.revoked
    then some EffectiveDelegationStatus.revoked
    else if st.status == DelegationStatus.closed
    then some EffectiveDelegationStatus.closed
    else if leb g.expires_at now
    then some EffectiveDelegationStatus.ancestor_invalid
    else if leb g.max_actions st.actions_executed_count
    then some EffectiveDelegationStatus.ancestor_invalid
    else ancestors_verdict now gs states

unfoldable pub target_verdict :
    DelegationGrant → DelegationRuntimeState → ℕ → EffectiveDelegationStatus
target_verdict grant state now =
    if state.status == DelegationStatus.revoked
    then EffectiveDelegationStatus.revoked
    else if state.status == DelegationStatus.closed
    then EffectiveDelegationStatus.closed
    else if leb grant.expires_at now
    then EffectiveDelegationStatus.expired
    else if leb grant.max_actions state.actions_executed_count
    then EffectiveDelegationStatus.consumed
    else EffectiveDelegationStatus.active

unfoldable pub compute_effective_status :
    DelegationGrant
    → DelegationRuntimeState
    → List DelegationGrant
    → List DelegationRuntimeState
    → IntentContract
    → ℕ
    → EffectiveDelegationStatus
compute_effective_status grant state ancestors ancestor_states root now =
    if not (root.status == IntentStatus.active)
    then EffectiveDelegationStatus.root_invalid
    else if deadline_passed root.expires_at now
    then EffectiveDelegationStatus.root_invalid
    else if leb root.maximum_tool_calls root.tool_calls_count
    then EffectiveDelegationStatus.root_invalid
    else elim (ancestors_verdict now ancestors ancestor_states) [
      | some verdict ↦ verdict
      | none ↦ target_verdict grant state now
    ]

-- `x in (a, str(b))`, where `b` may be `None` and then reads "None".
abbrev one_of : String → String → Option String → Bool
one_of x a none = x == a || x == "None"
one_of x a (some b) = x == a || x == b

unfoldable pub is_authorized_issuer :
    DelegationProposal → AgentPrincipal → IntentContract → Option DelegationGrant → Bool
is_authorized_issuer proposal principal root none =
    if principal.is_control_plane
    then one_of proposal.delegator_agent_id root.agent_id root.user_id
    else if not (proposal.delegator_agent_id == principal.agent_id)
    then false
    else one_of principal.agent_id root.agent_id root.user_id
is_authorized_issuer proposal principal root (some parent) =
    if principal.is_control_plane
    then proposal.delegator_agent_id == parent.delegatee_agent_id
    else if not (proposal.delegator_agent_id == principal.agent_id)
    then false
    else principal.agent_id == parent.delegatee_agent_id

unfoldable pub is_authorized_to_revoke : DelegationGrant → AgentPrincipal → IntentContract → Bool
is_authorized_to_revoke grant principal root =
    if principal.is_control_plane
    then principal.session_id == grant.session_id
    else if one_of principal.agent_id root.agent_id root.user_id
    then true
    else principal.agent_id == grant.delegator_agent_id

unfoldable pub is_authorized_to_close : DelegationGrant → AgentPrincipal → Bool
is_authorized_to_close grant principal =
    if principal.is_control_plane then true else principal.agent_id == grant.delegatee_agent_id

-- `0 <= requested_depth <= maximum`, with 1 for a missing request.
abbrev depth_in_range : Option ℤ → ℕ → Bool
depth_in_range none maximum = leb 1 maximum
depth_in_range (some (pos d)) maximum = leb d maximum
depth_in_range (some (negsuc d)) maximum = false

unfoldable pub check_depth_limits : ℕ → DelegationProposal → Option DelegationGrant → Bool
check_depth_limits max_session_delegation_depth proposal none =
    depth_in_range proposal.requested_depth max_session_delegation_depth
check_depth_limits max_session_delegation_depth proposal (some parent) =
    if leb parent.remaining_subdelegation_depth 0
    then false
    else if ltb max_session_delegation_depth (parent.depth + 1)
    then false
    else true
