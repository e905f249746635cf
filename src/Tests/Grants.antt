-- ===== src/Tests/Grants.antt =====
-- The contexts of backend/app/policies/policy_input.py, evaluated for concrete grants.
use cage_agent_security.Prelude.{◌≡◌, ◌≢◌, refl, true, false, none, some, [], ◌∷◌, arith}
use cage_agent_security.Prelude.Int.{pos}
use cage_agent_security.Prelude.Dict.{get, put}
use cage_agent_security.Prelude.Eq.{string_eq, contains, difference, add, issubset, intersection}
use cage_agent_security.Prelude.Lists.{All, any}
use cage_agent_security.Enums.{
  ActionType, DataClassification, EffectiveDelegationStatus, PolicyDecision, TargetEnvironment,
  AuthorityScopeMode, severity_rank,
}
use cage_agent_security.Principal.{AgentPrincipal, PrincipalAuthenticationSource}
use cage_agent_security.Action.{AgentAction}
use cage_agent_security.Registry.{default_tool_registry, lookup_tool, get_effective_classifications}
use cage_agent_security.Authority.{is_allowed, from_intent}
use cage_agent_security.Authority.Laws.{Covers}
use cage_agent_security.Delegation.Models.{DelegationProposal, fresh_state}
use cage_agent_security.Delegation.Analyzer.{
  compute_effective_status, compute_live_effective_authority, ancestors_verdict, target_verdict,
  root_authority, narrow_by, narrow_through, intersect_resource_scopes, is_authorized_issuer,
  check_depth_limits, is_resource_scope_subset,
}
use cage_agent_security.Delegation.Proposal.{
  check_scope_subset_parent, check_scope_subset_root, check_session_match, check_budget_available,
  ancestors_have_budget, is_tool_authorized, is_resource_authorized, is_environment_authorized,
  is_classification_authorized,
}
use cage_agent_security.Policy.Contexts.{PolicyDelegationContext}
use cage_agent_security.Policy.Defaults.{default_graph, default_provenance, default_trajectory}
use cage_agent_security.Policy.Rule.{Part, SecurityDecision, most_severe, max_risk}
use cage_agent_security.Policy.ScopeRules.{scope_rules}
use cage_agent_security.Policy.IntentRules.{evaluate_intent, contract_rules, is_valid_delegated}
use cage_agent_security.Policy.RuntimeRules.{
  runtime_rules, graph_rules, has_sensitive_data, has_sensitive_ancestor, graph_status_rules,
  is_current_probe,
}
use cage_agent_security.Policy.DataRules.{provenance_rules, egress_rules, provenance_failed}
use cage_agent_security.Policy.TrajectoryRules.{trajectory_rules, flagship_rules}
use cage_agent_security.Policy.DelegationRules.{
  delegation_rules, execute_action_rules, create_grant_rules, effective_status_rules,
}
use cage_agent_security.Policy.Evaluator.{
  Evaluation, evaluate, matched_rules, rules_before, rules_after, bound_privileged, with_baseline,
  resolve,
}
use cage_agent_security.Policy.DelegationInput.{
  build_delegated_action_context, build_delegation_create_context, among_ancestors, is_high_risk,
}
use cage_agent_security.Policy.DelegationInput.Within.{
  Apart, delegated_action_within_authority, delegated_creation_adds_no_cycle,
}
use cage_agent_security.Tests.Sample.{contract, top_grant, sub_grant}

abbrev search : AgentAction
search = record {
  action_id = "action";
  trajectory_id = none;
  delegation_id = some "b";
  agent_id = "worker";
  session_id = "session";
  user_id = none;
  intent_contract_id = none;
  action_type = ActionType.tool_call;
  tool_name = "web.search";
  target_resource = some "r1";
  target_environment = TargetEnvironment.development;
  parent_action_id = none;
  delegation_chain = [];
  data_classifications = DataClassification.public_ ∷ [];
}

abbrev worker : AgentPrincipal
worker = record {
  agent_id = "worker";
  session_id = "session";
  authentication_source = PrincipalAuthenticationSource.hosting_runtime;
  is_control_plane = false;
}

abbrev with_context : PolicyDelegationContext → Evaluation
with_context c = record {
  require_intent = true;
  intent_mismatch = false;
  graph_context = some default_graph;
  provenance_context = some default_provenance;
  trajectory_context = some default_trajectory;
  delegation_context = some c;
}

abbrev allow_verdict : SecurityDecision
allow_verdict = record {
  action_id = "action";
  session_id = "session";
  intent_contract_id = some "intent";
  decision = PolicyDecision.allow;
  reason = Part.text "Action conforms to authorized Intent Contract bounds." ∷ [];
  matched_rules = "RULE_INTENT_ALLOW" ∷ [];
  risk_score = 10;
  requires_human_approval = false;
  policy_backend = none;
  policy_version = none;
  policy_input_schema_version = none;
}

abbrev built : PolicyDelegationContext
built =
    build_delegated_action_context search worker sub_grant (fresh_state "b") contract
      (top_grant ∷ []) (fresh_state "a" ∷ []) 5

search_allowed :
    evaluate default_tool_registry search (some contract) (with_context built) 5
    ≡ some allow_verdict
unfolding evaluate matched_rules rules_before rules_after bound_privileged with_baseline resolve
    most_severe max_risk evaluate_intent contract_rules scope_rules is_valid_delegated runtime_rules
    graph_rules graph_status_rules has_sensitive_data has_sensitive_ancestor is_current_probe
    provenance_rules egress_rules provenance_failed trajectory_rules flagship_rules delegation_rules
    lookup_tool get_effective_classifications default_tool_registry get put contains difference add
    any severity_rank issubset intersection execute_action_rules create_grant_rules
    effective_status_rules build_delegated_action_context build_delegation_create_context
    among_ancestors is_high_risk compute_effective_status compute_live_effective_authority
    ancestors_verdict target_verdict root_authority narrow_by narrow_through
    intersect_resource_scopes is_authorized_issuer check_depth_limits is_resource_scope_subset
    check_scope_subset_parent check_scope_subset_root check_session_match check_budget_available
    ancestors_have_budget is_tool_authorized is_resource_authorized is_environment_authorized
    is_classification_authorized is_allowed from_intent
search_allowed = refl

delegated_action_within_authority_example :
    ("worker" ≡ sub_grant.delegatee_agent_id)
    × ((compute_effective_status sub_grant
            (fresh_state "b")
            (top_grant ∷ [])
            (fresh_state "a" ∷ [])
            contract
            5
          ≡ EffectiveDelegationStatus.active)
        × Covers
            (compute_live_effective_authority sub_grant (top_grant ∷ []) contract)
            "web.search"
            (some "r1")
            TargetEnvironment.development
            (DataClassification.public_ ∷ []))
delegated_action_within_authority_example =
    delegated_action_within_authority default_tool_registry search (some contract)
      (with_context built) 5 allow_verdict worker sub_grant (fresh_state "b") contract
      (top_grant ∷ []) (fresh_state "a" ∷ []) 5 search_allowed (ground arith) refl

abbrev proposal : DelegationProposal
proposal = record {
  session_id = "session";
  delegator_agent_id = "worker";
  delegatee_agent_id = "helper";
  delegated_task_id = "task";
  parent_delegation_id = some "a";
  root_intent_id = some "intent";
  requested_tools = "web.search" ∷ [];
  requested_environments = TargetEnvironment.development ∷ [];
  requested_classifications = DataClassification.public_ ∷ [];
  requested_resource_scope = record {
    mode = AuthorityScopeMode.allowlist;
    allowed_resources = "r1" ∷ [];
  };
  requested_max_actions = 1;
  requested_ttl_seconds = pos 10;
  allow_subdelegation = false;
  requested_depth = none;
  requested_subdelegation_depth = none;
}

abbrev creation_context : PolicyDelegationContext
creation_context =
    build_delegation_create_context 5 proposal worker contract (some top_grant) (top_grant ∷ [])

abbrev delegate : AgentAction
delegate = record search { action_type = ActionType.delegation; tool_name = "agent.delegate" }

creation_allowed :
    evaluate default_tool_registry delegate (some contract) (with_context creation_context) 5
    ≡ some allow_verdict
unfolding evaluate matched_rules rules_before rules_after bound_privileged with_baseline resolve
    most_severe max_risk evaluate_intent contract_rules scope_rules is_valid_delegated runtime_rules
    graph_rules graph_status_rules has_sensitive_data has_sensitive_ancestor is_current_probe
    provenance_rules egress_rules provenance_failed trajectory_rules flagship_rules delegation_rules
    lookup_tool get_effective_classifications default_tool_registry get put contains difference add
    any severity_rank issubset intersection execute_action_rules create_grant_rules
    effective_status_rules build_delegated_action_context build_delegation_create_context
    among_ancestors is_high_risk compute_effective_status compute_live_effective_authority
    ancestors_verdict target_verdict root_authority narrow_by narrow_through
    intersect_resource_scopes is_authorized_issuer check_depth_limits is_resource_scope_subset
    check_scope_subset_parent check_scope_subset_root check_session_match check_budget_available
    ancestors_have_budget is_tool_authorized is_resource_authorized is_environment_authorized
    is_classification_authorized is_allowed from_intent
creation_allowed = refl

delegated_creation_adds_no_cycle_example :
    (is_authorized_issuer proposal worker contract (some top_grant) ≡ true)
    × ((true ≡ true)
        × ((check_scope_subset_parent proposal (some top_grant) ≡ true)
            × ((check_scope_subset_root proposal contract ≡ true)
                × ((proposal.delegatee_agent_id ≢ contract.agent_id)
                    × All (Apart proposal.delegatee_agent_id) (top_grant ∷ [])))))
delegated_creation_adds_no_cycle_example =
    delegated_creation_adds_no_cycle default_tool_registry delegate (some contract)
      (with_context creation_context) 5 allow_verdict 5 proposal worker contract top_grant top_grant
      [] creation_allowed (ground arith) refl
