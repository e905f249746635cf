-- ===== src/Services/DelegationService/Revalidation.antt =====
-- backend/app/delegation/service.py: the checks of `resolve_delegation_approval`, in its order.
pub mod Verdicts
pub mod Ancestors
use cage_agent_security.Prelude.{
  ℕ, ◌+◌, Bool, true, false, String, Option, none, some, List, [], ◌∷◌, ◌||◌, ◌&&◌, not,
}
use cage_agent_security.Prelude.Int.{ℤ, pos, negsuc}
use cage_agent_security.Prelude.Tests.{if◌then◌else◌, leb, ltb}
use cage_agent_security.Prelude.Lists.{is_empty}
use cage_agent_security.Prelude.Eq.{◌==◌, issubset, string_eq}
use cage_agent_security.Enums.{DelegationStatus, TrajectoryStatus}
use cage_agent_security.Enums.Same.{
  delegation_status_eq, trajectory_status_eq, target_environment_eq, data_classification_eq,
}
use cage_agent_security.Enums.Values.{trajectory_status_value}
use cage_agent_security.Principal.{AgentPrincipal}
use cage_agent_security.Intent.{IntentContract, deadline_passed, is_active}
use cage_agent_security.Delegation.Models.{
  DelegationGrant, DelegationProposal, DelegationRuntimeState,
}
use cage_agent_security.Delegation.Chain
use cage_agent_security.Delegation.Chain.{Result, StoreError, default_max_depth}
use cage_agent_security.Delegation.Store.{
  DelegationStore, get_chain_with_states, get_session_active_grant_count,
}
use cage_agent_security.Delegation.Analyzer.{
  compute_live_effective_authority, is_resource_scope_subset,
}
use cage_agent_security.Delegation.Proposal.{check_scope_subset_root}
use cage_agent_security.Trajectory.State.{TrajectoryStore, make_key}
use cage_agent_security.Trajectory.Store.{get_trajectory_id, get_snapshot}
use cage_agent_security.Policy.Rule.{Part}
use cage_agent_security.Services.DelegationService.{
  DelegationService, Settings, PendingApproval, HashedPayload, hashed_payload, expiry, seconds,
  smaller,
}
pub use cage_agent_security.Services.DelegationService.Revalidation.Verdicts.{
  Refusal, Checkpoint, del, keep, Verdict, refused, approved, stale, stale_at, same_option,
}
unfoldable pub use cage_agent_security.Services.DelegationService.Revalidation.Verdicts.{require}
pub use cage_agent_security.Services.DelegationService.Revalidation.Ancestors.{
  last_grant, all_but_last,
}
unfoldable pub use cage_agent_security.Services.DelegationService.Revalidation.Ancestors.{
  linked, check_ancestors, check_permissions, effective_expiry, check_parent, check_chain,
  check_read,
}

unfoldable pub is_authorized_approver : AgentPrincipal → Option IntentContract → Bool
is_authorized_approver approver none =
    approver.is_control_plane || approver.agent_id == "security-officer"
is_authorized_approver approver (some root) =
    approver.is_control_plane
    || (same_option (some approver.agent_id) root.user_id
        || approver.agent_id == "security-officer")

-- An empty stored hash is not compared.
unfoldable pub hash_matches : (HashedPayload → String) → PendingApproval → Bool
hash_matches digest pending =
    pending.payload_hash == "" || digest (hashed_payload pending.proposal) == pending.payload_hash

unfoldable pub bindings_match : PendingApproval → Bool
bindings_match pending =
    pending.proposal.session_id == pending.session_id
    && (pending.proposal.delegator_agent_id == pending.delegator_agent_id
        && (pending.proposal.delegatee_agent_id == pending.delegatee_agent_id
            && same_option pending.proposal.parent_delegation_id pending.parent_delegation_id))

unfoldable pub root_is_live : IntentContract → DelegationProposal → ℕ → Bool
root_is_live root p now =
    is_active root now
    && (not (deadline_passed root.expires_at now) && root.session_id == p.session_id)

module _ (settings : Settings) (p : DelegationProposal) (root : IntentContract) (now : ℕ) where
  -- `proposal.requested_depth or 1`, above the maximum.
  too_deep : Option ℤ → Bool
  too_deep none = ltb settings.max_session_delegation_depth 1
  too_deep (some (pos n)) = ltb settings.max_session_delegation_depth (if leb n 0 then 1 else n)
  too_deep (some (negsuc n)) = false

  outlives_root : Option ℕ → Bool
  outlives_root none = false
  outlives_root (some deadline) = ltb (deadline + seconds 1) (expiry now p.requested_ttl_seconds)

  unfoldable pub check_root_level : Verdict → Verdict
  unfolding too_deep outlives_root
  check_root_level rest =
      require (not (too_deep p.requested_depth)) del
        (stale "Requested delegation depth exceeds maximum allowed session depth.")
        (require (not (outlives_root root.expires_at)) del
          (stale "Requested delegation expiration exceeds root Intent Contract expiration.") rest)

  unfoldable pub check_trajectory : TrajectoryStore → Verdict → Verdict
  check_trajectory trajectories rest =
      elim (get_trajectory_id trajectories
        (make_key p.session_id root.intent_id p.delegator_agent_id)) [
          | none ↦ rest
          | some id ↦ elim (get_snapshot trajectories id) [
            | none ↦ rest
            | some snapshot ↦
                require (snapshot.status == TrajectoryStatus.active) del
                  (stale_at "Delegator trajectory is "
                    (Part.text (trajectory_status_value snapshot.status)) ", not ACTIVE.")
                  rest
          ]
        ]

  unfoldable pub check_session_limit : DelegationStore → Verdict → Verdict
  check_session_limit store rest =
      require
        (not (
          leb settings.max_session_active_grants
            (get_session_active_grant_count store p.session_id)))
        del (stale "Session active delegation grant count limit exceeded.") rest

  -- The checks that follow those of the ancestry.
  unfoldable pub last_checks : DelegationService → Option DelegationGrant → Verdict
  unfolding check_trajectory check_session_limit
  last_checks s parent =
      check_trajectory s.trajectory_store (check_session_limit s.store (approved root parent))

  -- By the parent that the proposal names.
  unfoldable pub check_ancestry : DelegationService → Option String → Verdict
  unfolding check_read check_root_level last_checks
  check_ancestry s none = check_root_level (last_checks s none)
  check_ancestry s (some id) =
      check_read settings p root now id (get_chain_with_states s.store id default_max_depth)
        (λ parent. last_checks s (some parent))

  unfoldable pub check_root : DelegationService → Verdict
  unfolding check_ancestry
  check_root s =
      require (root_is_live root p now) del
        (stale "Root Intent Contract is inactive, expired, revoked, or session-mismatched.")
        (require (not (leb root.maximum_tool_calls root.tool_calls_count)) del
          (stale "Root Intent Contract tool execution budget is exhausted.")
          (require (check_scope_subset_root p root) del
            (stale "Root Intent Contract authority narrowed; proposal exceeds live root.")
            (check_ancestry s p.parent_delegation_id)))
