-- ===== src/Policy/DelegationInput.antt =====
-- backend/app/policies/policy_input.py: the contexts that the server builds for the delegation rules,
-- one builder for each operation. What a builder does not set has the schema's default.
pub mod Within
use cage_agent_security.Prelude.{
  ℕ, ◌+◌, ◌-◌, Bool, true, false, not, ◌||◌, ◌&&◌, String, Option, none, some, List, [], ◌∷◌,
}
use cage_agent_security.Prelude.Tests.{if◌then◌else◌}
use cage_agent_security.Prelude.Lists.{any}
use cage_agent_security.Prelude.Eq.{◌==◌, string_eq, contains}
use cage_agent_security.Enums.Values.{effective_status_value}
use cage_agent_security.Principal.{AgentPrincipal}
use cage_agent_security.Action.{AgentAction}
use cage_agent_security.Registry.{ToolSpec, default_tool_registry, lookup_tool}
use cage_agent_security.Intent.{IntentContract}
use cage_agent_security.Delegation.Models.{
  DelegationGrant, DelegationProposal, DelegationRuntimeState,
}
use cage_agent_security.Delegation.Analyzer.{
  compute_effective_status, compute_live_effective_authority, is_authorized_issuer,
  is_authorized_to_revoke, check_depth_limits,
}
use cage_agent_security.Delegation.Proposal.{
  check_scope_subset_parent, check_scope_subset_root, check_session_match, check_budget_available,
  is_tool_authorized, is_resource_authorized, is_environment_authorized,
  is_classification_authorized,
}
use cage_agent_security.Policy.Contexts.{PolicyDelegationContext}
use cage_agent_security.Policy.Defaults.{default_approval, default_delegation}

-- `str(proposal.delegatee_agent_id) in ancestor_agents`
unfoldable pub among_ancestors : String → IntentContract → List DelegationGrant → Bool
among_ancestors agent root ancestors =
    root.agent_id == agent
    || any (λ a. a.delegator_agent_id == agent || a.delegatee_agent_id == agent) ancestors

-- `ancestors or [parent_grant]`
or_parent : List DelegationGrant → DelegationGrant → List DelegationGrant
or_parent [] parent = parent ∷ []
or_parent (a ∷ ancestors) parent = a ∷ ancestors

risky : ToolSpec → Bool
risky spec = spec.known && (spec.privileged || spec.destructive)

-- The loop stops at the first tool that is of high risk.
unfoldable pub is_high_risk : DelegationProposal → IntentContract → Bool
unfolding risky
is_high_risk proposal root =
    any
      (λ tool.
        contains root.requires_approval tool || risky (lookup_tool default_tool_registry tool))
      proposal.requested_tools

-- What every operation has in common at its creation: no parent's facts.
create_facts :
    ℕ
    → DelegationProposal
    → AgentPrincipal
    → IntentContract
    → Option DelegationGrant
    → PolicyDelegationContext
create_facts max_depth proposal principal root parent = record default_delegation {
  operation = "CREATE_GRANT";
  is_delegated = true;
  delegation_depth = 1;
  caller_is_authorized_issuer = is_authorized_issuer proposal principal root parent;
  parent_grant_valid = true;
  cross_session_match = check_session_match proposal.session_id root parent;
  subdelegation_allowed = true;
  depth_within_limits = check_depth_limits max_depth proposal parent;
  scope_within_parent = check_scope_subset_parent proposal parent;
  scope_within_root = check_scope_subset_root proposal root;
  is_high_risk_delegation = is_high_risk proposal root;
}

-- `max_depth` is the analyzer's `max_session_delegation_depth`.
unfoldable pub build_delegation_create_context :
    ℕ
    → DelegationProposal
    → AgentPrincipal
    → IntentContract
    → Option DelegationGrant
    → List DelegationGrant
    → PolicyDelegationContext
unfolding create_facts or_parent
build_delegation_create_context max_depth proposal principal root none ancestors =
    create_facts max_depth proposal principal root none
build_delegation_create_context max_depth proposal principal root (some parent) ancestors =
    record (create_facts max_depth proposal principal root (some parent)) {
      parent_delegation_id = some parent.delegation_id;
      delegation_depth = parent.depth + 1;
      remaining_subdelegation_depth = parent.remaining_subdelegation_depth - 1;
      parent_grant_valid =
          not (among_ancestors proposal.delegatee_agent_id root (or_parent ancestors parent));
      subdelegation_allowed = parent.allow_subdelegation;
    }

unfoldable pub build_delegated_action_context :
    AgentAction
    → AgentPrincipal
    → DelegationGrant
    → DelegationRuntimeState
    → IntentContract
    → List DelegationGrant
    → List DelegationRuntimeState
    → ℕ
    → PolicyDelegationContext
build_delegated_action_context action principal grant state root ancestors ancestor_states now =
    let scope = compute_live_effective_authority grant ancestors root in
    record default_delegation {
      operation = "EXECUTE_ACTION";
      is_delegated = true;
      delegation_id = some grant.delegation_id;
      parent_delegation_id = grant.parent_delegation_id;
      delegation_depth = grant.depth;
      remaining_subdelegation_depth = grant.remaining_subdelegation_depth;
      principal_matches_delegatee = principal.agent_id == grant.delegatee_agent_id;
      effective_status =
          effective_status_value
            (compute_effective_status grant state ancestors ancestor_states root now);
      budget_available = check_budget_available state ancestor_states root grant ancestors;
      current_tool_within_effective_authority = is_tool_authorized scope action.tool_name;
      current_resource_within_effective_authority =
          is_resource_authorized scope action.target_resource;
      current_environment_within_effective_authority =
          is_environment_authorized scope action.target_environment;
      current_classification_within_effective_authority =
          is_classification_authorized scope action.data_classifications;
    }

-- Of the checkpoint, the designated approver is read.
unfoldable pub build_delegation_approval_context :
    String → AgentPrincipal → Bool → PolicyDelegationContext
build_delegation_approval_context designated_approver_id approver revalidation_passed =
    record default_delegation {
      operation = "RESOLVE_APPROVAL";
      is_delegated = true;
      approval = record default_approval {
        approval_context_present = true;
        approval_required = true;
        approval_decision = some "APPROVED";
        approval_identity_match =
            approver.agent_id == designated_approver_id || approver.is_control_plane;
        approval_revalidation_passed = revalidation_passed;
      };
    }

unfoldable pub build_delegation_revocation_context :
    DelegationGrant → AgentPrincipal → IntentContract → PolicyDelegationContext
build_delegation_revocation_context grant principal root = record default_delegation {
  operation = "REVOKE_GRANT";
  is_delegated = true;
  delegation_id = some grant.delegation_id;
  caller_is_authorized_to_revoke = is_authorized_to_revoke grant principal root;
}
