-- ===== src/Policy/Evaluator.antt =====
-- backend/app/policies/rules.py: `DeterministicPolicyEvaluator.evaluate`, all rules together.
use cage_agent_security.Prelude.{ℕ, Bool, String, Option, none, some, List, [], ◌∷◌, ◌++◌, map}
use cage_agent_security.Prelude.Eq.{◌==◌}
use cage_agent_security.Enums.{PolicyDecision}
use cage_agent_security.Enums.Same.{policy_decision_eq}
use cage_agent_security.Action.{AgentAction}
use cage_agent_security.Intent.{IntentContract}
use cage_agent_security.Registry.{ToolRegistry, ToolSpec, lookup_tool}
use cage_agent_security.Policy.Contexts.{
  PolicyDelegationContext, PolicyGraphContext, PolicyProvenanceContext, PolicyTrajectoryContext,
}
use cage_agent_security.Policy.Rule.{MatchedRule, SecurityDecision, rule, most_severe, max_risk}
use cage_agent_security.Policy.IntentRules.{evaluate_intent}
use cage_agent_security.Policy.RuntimeRules.{
  runtime_rules, graph_rules, is_privileged_or_destructive,
}
use cage_agent_security.Policy.DataRules.{provenance_rules}
use cage_agent_security.Policy.TrajectoryRules.{trajectory_rules}
use cage_agent_security.Policy.DelegationRules.{delegation_rules}

-- What `evaluate` is called with, besides the action and the contract.
pub record Evaluation : Type 0 where
  pub require_intent : Bool
  pub intent_mismatch : Bool
  pub graph_context : Option PolicyGraphContext
  pub provenance_context : Option PolicyProvenanceContext
  pub trajectory_context : Option PolicyTrajectoryContext
  pub delegation_context : Option PolicyDelegationContext

-- `if context is not None`
abbrev pub if_given : {C : Type 0} → (C → List MatchedRule) → Option C → List MatchedRule
if_given rules none = []
if_given rules (some c) = rules c

-- The local variable that only the graph rules bind.
unfoldable pub bound_privileged : ToolSpec → AgentAction → Option PolicyGraphContext → Option Bool
bound_privileged spec action none = none
bound_privileged spec action (some graph) = some (is_privileged_or_destructive spec action)

abbrev pub if_provenance :
    ToolSpec → Option PolicyProvenanceContext → Option Bool → Option (List MatchedRule)
if_provenance spec none privileged = some []
if_provenance spec (some p) privileged = provenance_rules spec p privileged

-- The rules before those on provenance, in the order of the code.
unfoldable pub rules_before :
    ToolRegistry → AgentAction → Option IntentContract → Evaluation → ℕ → List MatchedRule
rules_before registry action contract e now =
    evaluate_intent registry action contract e.require_intent e.intent_mismatch e.delegation_context
      now
    ++ (runtime_rules registry action
        ++ if_given (graph_rules (lookup_tool registry action.tool_name) action) e.graph_context)

unfoldable pub rules_after : Evaluation → List MatchedRule
rules_after e =
    if_given trajectory_rules e.trajectory_context ++ if_given delegation_rules e.delegation_context

abbrev pub around :
    List MatchedRule → Option (List MatchedRule) → List MatchedRule → Option (List MatchedRule)
around before none after = none
around before (some rules) after = some (before ++ (rules ++ after))

unfoldable pub matched_rules :
    ToolRegistry → AgentAction → Option IntentContract → Evaluation → ℕ → Option (List MatchedRule)
matched_rules registry action contract e now =
    let spec = lookup_tool registry action.tool_name in
    around (rules_before registry action contract e now)
      (if_provenance spec e.provenance_context (bound_privileged spec action e.graph_context))
      (rules_after e)

abbrev pub intent_id_of : Option IntentContract → Option String
intent_id_of none = none
intent_id_of (some c) = some c.intent_id

-- The decision that a non-empty list of rules, `r ∷ rs`, comes to.
unfoldable pub resolve :
    AgentAction → Option IntentContract → MatchedRule → List MatchedRule → SecurityDecision
resolve action contract r rs =
    let primary_match = most_severe r rs in
    record {
      action_id = action.action_id;
      session_id = action.session_id;
      intent_contract_id = intent_id_of contract;
      decision = primary_match.decision;
      reason = primary_match.reason;
      matched_rules = map (λ x. x.rule_id) (r ∷ rs);
      risk_score = max_risk r.risk_score rs;
      requires_human_approval = primary_match.decision == PolicyDecision.require_approval;
      policy_backend = none;
      policy_version = none;
      policy_input_schema_version = none;
    }

abbrev pub baseline_rule : MatchedRule
baseline_rule =
    rule "RULE_D_NORMAL_LOW_RISK" PolicyDecision.allow
      "Action conforms to standard low-risk policy baselines." 10

unfoldable pub with_baseline :
    AgentAction → Option IntentContract → List MatchedRule → SecurityDecision
with_baseline action contract [] = resolve action contract baseline_rule []
with_baseline action contract (r ∷ rs) = resolve action contract r rs

abbrev pub decided :
    AgentAction → Option IntentContract → Option (List MatchedRule) → Option SecurityDecision
decided action contract none = none
decided action contract (some rules) = some (with_baseline action contract rules)

-- `none` where the code raises. `now` is what the intent rules read from the clock.
unfoldable pub evaluate :
    ToolRegistry → AgentAction → Option IntentContract → Evaluation → ℕ → Option SecurityDecision
evaluate registry action contract e now =
    decided action contract (matched_rules registry action contract e now)
