-- ===== src/Tests/Services.antt =====
-- backend/app/delegation/service.py at concrete states.
use cage_agent_security.Prelude.{◌≡◌, refl, false, String, Option, none, some, [], ◌∷◌, arith}
use cage_agent_security.Prelude.Int.{pos}
use cage_agent_security.Prelude.Dict.{get, put, remove}
use cage_agent_security.Prelude.Eq.{string_eq}
use cage_agent_security.Enums.{
  AuthorityScopeMode, DataClassification, PolicyDecision, TargetEnvironment,
}
use cage_agent_security.Principal.{AgentPrincipal, PrincipalAuthenticationSource}
use cage_agent_security.Registry.{default_tool_registry}
use cage_agent_security.Intent.{IntentContract}
use cage_agent_security.Delegation.Models.{DelegationGrant, DelegationProposal}
use cage_agent_security.Intent.Service.{get_intent}
use cage_agent_security.Intent.{is_active}
use cage_agent_security.Prelude.Eq.{contains, difference, add, issubset, intersection}
use cage_agent_security.Prelude.Lists.{any}
use cage_agent_security.Enums.{severity_rank}
use cage_agent_security.Registry.{lookup_tool, get_effective_classifications}
use cage_agent_security.Authority.{is_allowed, from_intent}
use cage_agent_security.Delegation.Analyzer.{
  compute_live_effective_authority, narrow_by, narrow_through, root_authority,
  intersect_resource_scopes, is_authorized_issuer, check_depth_limits, is_resource_scope_subset,
}
use cage_agent_security.Delegation.Proposal.{
  check_scope_subset_parent, check_scope_subset_root, check_session_match,
}
use cage_agent_security.Policy.Rule.{most_severe, max_risk}
use cage_agent_security.Policy.ScopeRules.{scope_rules}
use cage_agent_security.Policy.IntentRules.{evaluate_intent, contract_rules, is_valid_delegated}
use cage_agent_security.Policy.RuntimeRules.{
  runtime_rules, graph_rules, has_sensitive_data, has_sensitive_ancestor, graph_status_rules,
  is_current_probe,
}
use cage_agent_security.Policy.DataRules.{provenance_rules, egress_rules, provenance_failed}
use cage_agent_security.Policy.TrajectoryRules.{trajectory_rules, flagship_rules}
use cage_agent_security.Policy.DelegationRules.{
  delegation_rules, execute_action_rules, create_grant_rules, effective_status_rules,
}
use cage_agent_security.Policy.Evaluator.{
  evaluate, matched_rules, rules_before, rules_after, bound_privileged, with_baseline, resolve,
}
use cage_agent_security.Policy.DelegationInput.{
  build_delegation_create_context, among_ancestors, is_high_risk,
}
use cage_agent_security.Delegation.Store.{
  empty_store, create_grant, insert_grant, get_chain_with_states, states_of,
  get_session_active_grant_count,
}
use cage_agent_security.Delegation.Chain.{get_chain}
use cage_agent_security.Trajectory.Store.{get_trajectory_id}
use cage_agent_security.Services.DelegationService.Revalidation.{
  require, is_authorized_approver, hash_matches, bindings_match, check_root, root_is_live,
  check_ancestors, check_permissions, check_ancestry, check_parent, check_chain, linked,
  effective_expiry, check_trajectory, check_session_limit, last_checks,
}
use cage_agent_security.Graph.Nodes.{
  add_delegation_node, add_intent_node, add_agent_node, add_grants_to_edge,
  add_issues_delegation_edge, add_intent_delegation_governs_edge,
}
use cage_agent_security.Graph.Edges.{add_subdelegates_edge, subgraph_view}
use cage_agent_security.Trajectory.State.{empty_trajectories}
use cage_agent_security.Graph.{edge_equals, new_graph, key_error, has_node, add_edge}
use cage_agent_security.Graph.Actions.{get_or_create}
use cage_agent_security.Graph.Search.{find_path}
use cage_agent_security.Policy.Rule.{Part, SecurityDecision}
use cage_agent_security.Services.DelegationService.{
  DelegationService, Settings, PendingApproval, HashedPayload, hashed_payload, sync_grant, Reply,
  grant_nodes, new_grant, issue, after_create, responded, raised, from_graph,
  DelegationCreateResponse,
}
use cage_agent_security.Services.DelegationService.Propose.{
  Times, find_root, verdict, direct_grant, propose_delegation,
}
use cage_agent_security.Services.DelegationService.Approval.{
  ApprovalTimes, resolve_delegation_approval, approved_grant, conclude, revalidate, resolved,
  dropped,
}
use cage_agent_security.Services.DelegationService.Approval.Established.{
  Approves, approval_revalidated,
}
use cage_agent_security.Services.DelegationService.Approval.Once.{
  ResolvedOnce, approval-ResolvedOnce,
}
use cage_agent_security.Services.DelegationService.Bounds.{IsBounded, issued_grant_bounds}
use cage_agent_security.Services.DelegationService.Outcomes.{Ends, proposal_ends}
use cage_agent_security.Services.DelegationService.UnknownParent.{unknown_parent_leaves_grant}
use cage_agent_security.Tests.Sample.{contract, top_grant}

abbrev open_contract : IntentContract
open_contract = record contract { expires_at = none }

abbrev parent : DelegationGrant
parent = record top_grant { expires_at = 100_000_000; max_actions = 2 }

abbrev request : DelegationProposal
request = record {
  session_id = "session";
  delegator_agent_id = "worker";
  delegatee_agent_id = "helper";
  delegated_task_id = "task";
  parent_delegation_id = some "a";
  root_intent_id = some "intent";
  requested_tools = "web.search" ∷ [];
  requested_environments = TargetEnvironment.development ∷ [];
  requested_classifications = DataClassification.public_ ∷ [];
  requested_resource_scope = record {
    mode = AuthorityScopeMode.allowlist;
    allowed_resources = "r1" ∷ [];
  };
  requested_max_actions = 1;
  requested_ttl_seconds = pos 10;
  allow_subdelegation = false;
  requested_depth = none;
  requested_subdelegation_depth = none;
}

abbrev digest : HashedPayload → String
digest payload = payload.delegatee_agent_id

abbrev settings : Settings
settings = record {
  registry = default_tool_registry;
  max_session_delegation_depth = 5;
  max_session_active_grants = 50;
}

abbrev worker : AgentPrincipal
worker = record {
  agent_id = "worker";
  session_id = "session";
  authentication_source = PrincipalAuthenticationSource.hosting_runtime;
  is_control_plane = false;
}

abbrev officer : AgentPrincipal
officer = record worker { agent_id = "security-officer" }

abbrev waiting : PendingApproval
waiting = record {
  action_id = "request";
  proposal = request;
  principal = worker;
  root_intent_id = "intent";
  session_id = "session";
  delegator_agent_id = "worker";
  delegatee_agent_id = "helper";
  parent_delegation_id = some "a";
  payload_hash = "helper";
  created_at = 0;
}

abbrev times : ApprovalTimes
times = record { looked_up = 1; checked = 2; issued = 3 }

abbrev start : DelegationService
start = record {
  store = (create_grant empty_store parent none).1;
  intent_service = record {
    intents = ("intent", open_contract) ∷ [];
    session_to_intent = ("session", "intent") ∷ [];
  };
  trajectory_store = empty_trajectories;
  graph_manager = record {
    sessions =
        ("session", (sync_grant find_path (new_graph "session") open_contract parent 0).1) ∷ [];
    action_to_session = [];
  };
  pending_approvals = ("request", waiting) ∷ [];
}

abbrev approved_call : Reply × DelegationService
approved_call =
    resolve_delegation_approval find_path digest settings "request" officer "new" times start
      "APPROVED"

abbrev planner : AgentPrincipal
planner = record worker { agent_id = "planner" }

-- The parent is not in the store.
abbrev dangling : DelegationProposal
dangling = record request { delegator_agent_id = "planner"; parent_delegation_id = some "lost" }

abbrev clock : Times
clock = record { looked_up = 1; rechecked = 1; evaluated = 2; issued = 3 }

abbrev judgement : Option SecurityDecision
judgement =
    verdict find_path digest settings dangling planner "action" "new" clock open_contract none []

abbrev allow_verdict : SecurityDecision
allow_verdict = record {
  action_id = "action";
  session_id = "session";
  intent_contract_id = some "intent";
  decision = PolicyDecision.allow;
  reason = Part.text "Action conforms to authorized Intent Contract bounds." ∷ [];
  matched_rules = "RULE_INTENT_ALLOW" ∷ [];
  risk_score = 10;
  requires_human_approval = false;
  policy_backend = none;
  policy_version = none;
  policy_input_schema_version = none;
}

dangling_judged : judgement ≡ some allow_verdict
unfolding verdict evaluate matched_rules rules_before rules_after bound_privileged with_baseline
    resolve most_severe max_risk evaluate_intent contract_rules scope_rules is_valid_delegated
    runtime_rules graph_rules graph_status_rules has_sensitive_data has_sensitive_ancestor
    is_current_probe provenance_rules egress_rules provenance_failed trajectory_rules flagship_rules
    delegation_rules lookup_tool get_effective_classifications default_tool_registry get put
    contains difference add any severity_rank issubset intersection execute_action_rules
    create_grant_rules effective_status_rules build_delegation_create_context among_ancestors
    is_high_risk is_authorized_issuer check_depth_limits is_resource_scope_subset
    check_scope_subset_parent check_scope_subset_root check_session_match is_allowed from_intent
    is_active
dangling_judged = refl

unknown_parent_leaves_grant_example :
    let after =
      propose_delegation find_path digest settings dangling planner "action" "new" clock start in
    (after.0 ≡ raised (from_graph (key_error "lost")))
    × (get after.1.store.grants "new"
        ≡ some (
            direct_grant find_path digest settings dangling planner "action" "new" clock
              open_contract none))
unfolding direct_grant new_grant find_root get_intent get create_grant insert_grant has_node
    get_or_create sync_grant put add_issues_delegation_edge grant_nodes add_delegation_node
    add_intent_node add_agent_node add_grants_to_edge add_edge add_intent_delegation_governs_edge
unknown_parent_leaves_grant_example =
    unknown_parent_leaves_grant find_path digest settings dangling planner "action" "new" clock
      start open_contract allow_verdict "lost" refl refl refl dangling_judged refl refl refl
      (λ h. ground arith)

proposal_ends_example :
    let after =
      propose_delegation find_path digest settings dangling planner "action" "new" clock start in
    Ends find_path digest settings dangling planner "action" "new" clock start after.0 after.1
proposal_ends_example =
    proposal_ends find_path digest settings dangling planner "action" "new" clock start

issued_grant_bounds_example :
    IsBounded request open_contract parent (
      direct_grant find_path digest settings request worker "action" "new" clock open_contract
        (some parent))
    × IsBounded request open_contract parent (
        approved_grant find_path digest settings "action" worker "new" times request open_contract
          (some parent))
issued_grant_bounds_example =
    issued_grant_bounds find_path digest settings request worker "action" "new" clock times
      open_contract parent

approval-ResolvedOnce_example :
    ResolvedOnce find_path digest settings "request" start approved_call.1
approval-ResolvedOnce_example =
    approval-ResolvedOnce find_path digest settings "request" officer "new" "APPROVED" times start

abbrev answer : DelegationCreateResponse
answer = record {
  decision = PolicyDecision.allow;
  delegation_id = some "new";
  delegation_request_id = "request";
  status = "ACTIVE";
  matched_rules = "RULE_DELEGATION_APPROVAL_RESOLVED" ∷ [];
  reasons = (Part.text "Delegation approved and successfully revalidated." ∷ []) ∷ [];
}

approved_answer : approved_call ≡ (responded answer, approved_call.1)
unfolding resolve_delegation_approval get_intent get require is_authorized_approver hash_matches
    hashed_payload bindings_match check_root root_is_live is_active check_scope_subset_root issubset
    contains is_resource_scope_subset from_intent get_chain_with_states get_chain create_grant
    insert_grant put check_ancestors check_permissions check_ancestry check_parent check_chain
    linked compute_live_effective_authority narrow_by narrow_through root_authority
    intersect_resource_scopes intersection effective_expiry check_trajectory check_session_limit
    get_trajectory_id get_session_active_grant_count conclude issue after_create sync_grant
    grant_nodes add_delegation_node add_intent_node add_agent_node add_grants_to_edge add_edge
    add_issues_delegation_edge add_intent_delegation_governs_edge add_subdelegates_edge has_node
    get_or_create subgraph_view find_path remove revalidate resolved dropped states_of last_checks
    new_grant edge_equals
approved_answer = refl

approval_revalidated_example :
    (pending : PendingApproval) × (get start.pending_approvals "request" ≡ some pending)
    × Approves find_path digest settings "request" officer "new" times start pending "APPROVED"
        approved_call.1
approval_revalidated_example =
    approval_revalidated find_path digest settings "request" officer "new" times start
      approved_call.1 "APPROVED" answer approved_answer refl
