-- ===== src/Tests/Policies.antt =====
-- backend/app/policies at concrete actions: a request that posts data to an external endpoint.
use cage_agent_security.Prelude.{◌≡◌, ◌≢◌, ◌↔◌, refl, true, false, none, some, List, [], ◌∷◌, arith}
use cage_agent_security.Prelude.Dict.{get, put}
use cage_agent_security.Prelude.Eq.{string_eq, contains, difference, add}
use cage_agent_security.Prelude.Lists.{any}
use cage_agent_security.Enums.{
  ActionType, DataClassification, GraphAnalysisStatus, OpaStatus, PolicyBackend, PolicyDecision,
  PolicyParityStatus, TargetEnvironment, severity_rank,
}
use cage_agent_security.Enums.Same.{action_type_eq, data_classification_eq}
use cage_agent_security.Action.{AgentAction}
use cage_agent_security.Intent.{IntentContract}
use cage_agent_security.Registry.{
  ToolRegistry, default_tool_registry, lookup_tool, get_effective_classifications,
}
use cage_agent_security.Policy.Contexts.{PolicyDelegationContext}
use cage_agent_security.Policy.Defaults.{
  default_graph, default_provenance, default_trajectory, default_delegation,
}
use cage_agent_security.Policy.Rule.{
  Part, MatchedRule, SecurityDecision, rule, most_severe, max_risk,
}
use cage_agent_security.Policy.Severity.{denies}
use cage_agent_security.Policy.ScopeRules.{scope_rules}
use cage_agent_security.Policy.IntentRules.{evaluate_intent, contract_rules, is_valid_delegated}
use cage_agent_security.Policy.RuntimeRules.{
  runtime_rules, graph_rules, has_sensitive_data, has_sensitive_ancestor, graph_status_rules,
  is_current_probe,
}
use cage_agent_security.Policy.DataRules.{provenance_rules, egress_rules, provenance_failed}
use cage_agent_security.Policy.TrajectoryRules.{trajectory_rules, flagship_rules}
use cage_agent_security.Policy.DelegationRules.{
  delegation_rules, execute_action_rules, create_grant_rules, effective_status_rules,
}
use cage_agent_security.Policy.Evaluator.{
  Evaluation, evaluate, matched_rules, rules_before, rules_after, bound_privileged, with_baseline,
  resolve,
}
use cage_agent_security.Policy.Approval.{listed, approval_not_skipped}
use cage_agent_security.Policy.Authorized.{Authorized}
use cage_agent_security.Policy.Authorized.Exact.{intent_permits_iff, evaluate-Authorized}
use cage_agent_security.Policy.Safety.Egress.{CleanEgress, egress_is_clean}
use cage_agent_security.Policy.Safety.FailClosed.{
  graph, evaluate-Unverified, ReadsUnbound, evaluate_raises_iff,
}
use cage_agent_security.Policy.Input.{CagePolicyInput, build_cage_policy_input}
use cage_agent_security.Policy.Parity.{OpaEvaluationResult, compare_policy_parity}
use cage_agent_security.Policy.Parity.Exact.{SameDomainRules, parity_match_iff}
use cage_agent_security.Policy.Engine.{PolicyEngine, Verdict, engine_evaluate, evaluation_of}
use cage_agent_security.Policy.Engine.Backends.{Permitted, engine_permits_iff}
use cage_agent_security.Tests.Sample.{contract}

abbrev post : AgentAction
post = record {
  action_id = "action";
  trajectory_id = none;
  delegation_id = none;
  agent_id = "planner";
  session_id = "session";
  user_id = none;
  intent_contract_id = none;
  action_type = ActionType.network_request;
  tool_name = "external.http_post";
  target_resource = some "r1";
  target_environment = TargetEnvironment.development;
  parent_action_id = none;
  delegation_chain = [];
  data_classifications = DataClassification.public_ ∷ [];
}

abbrev post_contract : IntentContract
post_contract = record contract { allowed_tools = "external.http_post" ∷ [] }

abbrev tools : ToolRegistry
tools = default_tool_registry

abbrev quiet : Evaluation
quiet = record {
  require_intent = true;
  intent_mismatch = false;
  graph_context = some default_graph;
  provenance_context = some default_provenance;
  trajectory_context = some default_trajectory;
  delegation_context = some default_delegation;
}

abbrev allow_verdict : SecurityDecision
allow_verdict = record {
  action_id = "action";
  session_id = "session";
  intent_contract_id = some "intent";
  decision = PolicyDecision.allow;
  reason = Part.text "Action conforms to authorized Intent Contract bounds." ∷ [];
  matched_rules = "RULE_INTENT_ALLOW" ∷ [];
  risk_score = 10;
  requires_human_approval = false;
  policy_backend = none;
  policy_version = none;
  policy_input_schema_version = none;
}

post_allowed : evaluate tools post (some post_contract) quiet 5 ≡ some allow_verdict
unfolding evaluate matched_rules rules_before rules_after bound_privileged with_baseline resolve
    most_severe max_risk evaluate_intent contract_rules scope_rules is_valid_delegated runtime_rules
    graph_rules graph_status_rules has_sensitive_data has_sensitive_ancestor is_current_probe
    provenance_rules egress_rules provenance_failed trajectory_rules flagship_rules delegation_rules
    lookup_tool get_effective_classifications default_tool_registry get put contains difference add
    any severity_rank
post_allowed = refl

egress_is_clean_example : CleanEgress tools post quiet
unfolding lookup_tool default_tool_registry get put
egress_is_clean_example =
    egress_is_clean tools post (some post_contract) quiet 5 allow_verdict post_allowed
      (ground arith) refl

evaluate-Authorized_example :
    (c : IntentContract) × (some post_contract ≡ some c)
    × ((false ≡ false) × Authorized tools post c (some default_delegation) 5)
evaluate-Authorized_example =
    evaluate-Authorized tools post (some post_contract) quiet 5 allow_verdict post_allowed
      (ground arith) refl

intent_permits_iff_example :
    (denies (evaluate_intent tools post (some post_contract) true false none 5) ≡ false)
    ↔ ((false ≡ false) × Authorized tools post post_contract none 5)
intent_permits_iff_example = intent_permits_iff tools post post_contract none 5 true false

abbrev limit_reached : Evaluation
limit_reached = record quiet {
  graph_context =
      some (record default_graph { analysis_status = GraphAnalysisStatus.depth_limit_exceeded });
}

abbrev deny_verdict : SecurityDecision
deny_verdict = record allow_verdict {
  decision = PolicyDecision.deny;
  reason =
      Part.text "Causal graph traversal depth limit exceeded during analysis. Fail-closed enforced."
      ∷ [];
  matched_rules = "RULE_INTENT_ALLOW" ∷ "RULE_GRAPH_DEPTH_LIMIT_EXCEEDED" ∷ [];
  risk_score = 95;
}

limit_denied : evaluate tools post (some post_contract) limit_reached 5 ≡ some deny_verdict
unfolding evaluate matched_rules rules_before rules_after bound_privileged with_baseline resolve
    most_severe max_risk evaluate_intent contract_rules scope_rules is_valid_delegated runtime_rules
    graph_rules graph_status_rules has_sensitive_data has_sensitive_ancestor is_current_probe
    provenance_rules egress_rules provenance_failed trajectory_rules flagship_rules delegation_rules
    lookup_tool get_effective_classifications default_tool_registry get put contains difference add
    any severity_rank
limit_denied = refl

evaluate-Unverified_example : deny_verdict.decision ≡ PolicyDecision.deny
evaluate-Unverified_example =
    evaluate-Unverified tools post (some post_contract) limit_reached 5 deny_verdict limit_denied (
      graph (record default_graph { analysis_status = GraphAnalysisStatus.depth_limit_exceeded })
        refl (ground arith))

abbrev no_graph : Evaluation
no_graph = record quiet {
  graph_context = none;
  provenance_context = some (record default_provenance { contains_untrusted_input = true });
}

evaluate_raises_iff_example : (evaluate tools post none no_graph 5 ≡ none) ↔ ReadsUnbound no_graph
evaluate_raises_iff_example = evaluate_raises_iff tools post none no_graph 5

abbrev executing : PolicyDelegationContext
executing = record default_delegation {
  operation = "EXECUTE_ACTION";
  is_delegated = true;
  principal_matches_delegatee = true;
  current_tool_within_effective_authority = true;
}

abbrev delegated : Evaluation
delegated = record quiet { delegation_context = some executing }

delegated_allowed : evaluate tools post (some post_contract) delegated 5 ≡ some allow_verdict
unfolding evaluate matched_rules rules_before rules_after bound_privileged with_baseline resolve
    most_severe max_risk evaluate_intent contract_rules scope_rules is_valid_delegated runtime_rules
    graph_rules graph_status_rules has_sensitive_data has_sensitive_ancestor is_current_probe
    provenance_rules egress_rules provenance_failed trajectory_rules flagship_rules delegation_rules
    lookup_tool get_effective_classifications default_tool_registry get put contains difference add
    any severity_rank execute_action_rules effective_status_rules
delegated_allowed = refl

abbrev creating : PolicyDelegationContext
creating = record default_delegation {
  operation = "CREATE_GRANT";
  is_delegated = true;
  caller_is_authorized_issuer = true;
  depth_within_limits = true;
  scope_within_parent = true;
  scope_within_root = true;
}

abbrev creation : Evaluation
creation = record quiet { delegation_context = some creating }

creation_allowed : evaluate tools post (some post_contract) creation 5 ≡ some allow_verdict
unfolding evaluate matched_rules rules_before rules_after bound_privileged with_baseline resolve
    most_severe max_risk evaluate_intent contract_rules scope_rules is_valid_delegated runtime_rules
    graph_rules graph_status_rules has_sensitive_data has_sensitive_ancestor is_current_probe
    provenance_rules egress_rules provenance_failed trajectory_rules flagship_rules delegation_rules
    lookup_tool get_effective_classifications default_tool_registry get put contains difference add
    any severity_rank create_grant_rules
creation_allowed = refl

abbrev first_rule : MatchedRule
first_rule = rule "A" PolicyDecision.allow "a" 10

abbrev other_rules : List MatchedRule
other_rules =
    rule "B" PolicyDecision.quarantine "b" 20
    ∷ rule "C" PolicyDecision.deny "c" 30
    ∷ rule "D" PolicyDecision.deny "d" 40
    ∷ []

abbrev answered : OpaEvaluationResult
answered = record { status = OpaStatus.success; findings = []; error_reason = none }

abbrev timed_out : OpaEvaluationResult
timed_out = record { status = OpaStatus.timeout; findings = []; error_reason = some "no answer" }

parity_match_iff_example :
    ((compare_policy_parity
        (some PolicyDecision.allow)
        (some PolicyDecision.allow)
        ("A" ∷ "B" ∷ [])
        ("B" ∷ "A" ∷ [])
        answered).status
      ≡ PolicyParityStatus.match_)
    ↔ ((OpaStatus.success ≡ OpaStatus.success)
        × (((d : PolicyDecision) × (some PolicyDecision.allow ≡ some d)
              × (some PolicyDecision.allow ≡ some d))
            × SameDomainRules ("A" ∷ "B" ∷ []) ("B" ∷ "A" ∷ [])))
parity_match_iff_example =
    parity_match_iff (some PolicyDecision.allow) (some PolicyDecision.allow) ("A" ∷ "B" ∷ [])
      ("B" ∷ "A" ∷ []) answered

abbrev engine : PolicyEngine
engine = record {
  tool_registry = tools;
  backend = PolicyBackend.shadow;
  policy_version = "phase8-v1";
  schema_version = "cage-policy-input-v5";
}

abbrev input : CagePolicyInput
input = build_cage_policy_input tools post (some post_contract) true false none none none none

engine_permits_iff_example :
    (v : Verdict) × (engine_evaluate engine (λ i. answered) input post (some post_contract) 5
      ≡ some v)
    × ((v.0.decision ≢ PolicyDecision.deny)
        ↔ Permitted engine (λ i. answered) input post (some post_contract) 5 PolicyBackend.shadow)
engine_permits_iff_example =
    engine_permits_iff engine (λ i. answered) input post (some post_contract) 5

python_allowed :
    evaluate tools post (some post_contract) (evaluation_of input) 5 ≡ some allow_verdict
unfolding evaluation_of build_cage_policy_input evaluate matched_rules rules_before rules_after
    bound_privileged with_baseline resolve most_severe max_risk evaluate_intent contract_rules
    scope_rules is_valid_delegated runtime_rules graph_rules graph_status_rules has_sensitive_data
    has_sensitive_ancestor is_current_probe provenance_rules egress_rules provenance_failed
    trajectory_rules flagship_rules delegation_rules lookup_tool get_effective_classifications
    default_tool_registry get put contains difference add any severity_rank
python_allowed = refl

abbrev checked_contract : IntentContract
checked_contract = record post_contract { requires_approval = "external.http_post" ∷ [] }

abbrev ask_verdict : SecurityDecision
ask_verdict = record allow_verdict {
  decision = PolicyDecision.require_approval;
  reason =
      Part.text "Tool '"
      ∷ Part.text "external.http_post"
      ∷ Part.text "' is authorized by Intent Contract but mandates human approval."
      ∷ [];
  matched_rules = "RULE_APPROVAL_TOOL" ∷ [];
  risk_score = 60;
  requires_human_approval = true;
}

post_asks : evaluate tools post (some checked_contract) quiet 5 ≡ some ask_verdict
unfolding evaluate matched_rules rules_before rules_after bound_privileged with_baseline resolve
    most_severe max_risk evaluate_intent contract_rules scope_rules is_valid_delegated runtime_rules
    graph_rules graph_status_rules has_sensitive_data has_sensitive_ancestor is_current_probe
    provenance_rules egress_rules provenance_failed trajectory_rules flagship_rules delegation_rules
    lookup_tool get_effective_classifications default_tool_registry get put contains difference add
    any severity_rank
post_asks = refl

approval_not_skipped_example :
    (ask_verdict.decision ≢ PolicyDecision.allow)
    × (ask_verdict.decision ≢ PolicyDecision.allow_with_limits)
unfolding contains
approval_not_skipped_example =
    approval_not_skipped tools post (some checked_contract) quiet 5 ask_verdict post_asks
      (listed checked_contract refl refl (ground arith))
