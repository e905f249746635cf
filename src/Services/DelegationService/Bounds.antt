-- ===== src/Services/DelegationService/Bounds.antt =====
-- backend/app/delegation/service.py: the limits of a grant that is issued, directly or on approval.
use cage_agent_security.Prelude.{◌+◌, ◌≤◌, ◌<◌, ◌≡◌, refl, Bool, String, some, List, arith}
use cage_agent_security.Principal.{AgentPrincipal}
use cage_agent_security.Intent.{IntentContract}
use cage_agent_security.Delegation.Models.{DelegationGrant, DelegationProposal}
use cage_agent_security.Graph.{Edge}
use cage_agent_security.Services.DelegationService.{
  Settings, HashedPayload, new_grant, capped_actions, depth_below,
}
use cage_agent_security.Services.DelegationService.Propose.{Times, direct_grant, remaining_depth}
use cage_agent_security.Services.DelegationService.Approval.{
  ApprovalTimes, approved_grant, approved_remaining,
}

-- A grant within its request, its root contract and the parent that it stands below.
pub record IsBounded (p : DelegationProposal) (root : IntentContract) (parent g : DelegationGrant)
    : Type 0 where
  pub by_request : g.max_actions ≤ p.requested_max_actions
  pub by_parent : g.max_actions ≤ parent.max_actions
  pub by_root : g.max_actions ≤ root.maximum_tool_calls
  pub deeper : g.depth ≡ parent.depth + 1
  -- The depth that a chain can still reach does not grow.
  pub reach :
      0 < parent.remaining_subdelegation_depth
      → g.depth + g.remaining_subdelegation_depth
        ≤ parent.depth + parent.remaining_subdelegation_depth

capped_actions_bounds :
    (p : DelegationProposal) (root : IntentContract) (parent : DelegationGrant)
    → (capped_actions p root (some parent) ≤ p.requested_max_actions)
      × (capped_actions p root (some parent) ≤ parent.max_actions)
      × (capped_actions p root (some parent) ≤ root.maximum_tool_calls)
unfolding capped_actions
capped_actions_bounds p root parent = (ground arith, ground arith, ground arith)

-- A grant below a parent, whether it is issued directly or on approval, has no more actions than
-- were requested, than its parent has and than the root contract has calls; it stands one deeper
-- than its parent; and if the parent may still delegate, the depth of the grant with the depth that
-- remains to it is at most that of the parent, so that no chain outgrows what its first grant allows.
pub issued_grant_bounds :
    (has_path : List Edge → String → String → Bool) (digest : HashedPayload → String)
    (settings : Settings) (p : DelegationProposal) (principal : AgentPrincipal)
    (action_id grant_id : String) (t : Times) (at : ApprovalTimes) (root : IntentContract)
    (parent : DelegationGrant)
    → IsBounded p root parent
        (direct_grant has_path digest settings p principal action_id grant_id t root (some parent))
      × IsBounded p root parent (
          approved_grant has_path digest settings action_id principal grant_id at p root
            (some parent))
unfolding direct_grant approved_grant new_grant remaining_depth approved_remaining depth_below
issued_grant_bounds has_path digest settings p principal action_id grant_id t at root parent =
    let (by_request, by_parent, by_root) = capped_actions_bounds p root parent in
    (
      record {
        by_request = by_request;
        by_parent = by_parent;
        by_root = by_root;
        deeper = refl;
        reach = λ h. ground arith;
      },
      record {
        by_request = by_request;
        by_parent = by_parent;
        by_root = by_root;
        deeper = refl;
        reach = λ h. ground arith;
      },
    )
