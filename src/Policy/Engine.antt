-- ===== src/Policy/Engine.antt =====
-- backend/app/policies/engine.py: the evaluation on the configured backend. What OPA answers to an
-- input is a parameter, `opa`: the client speaks HTTP to a service outside the repository's code.
pub mod Backends
use cage_agent_security.Prelude.{
  ℕ, Bool, true, false, not, String, Option, none, some, List, [], ◌∷◌,
}
use cage_agent_security.Prelude.Tests.{if◌then◌else◌}
use cage_agent_security.Prelude.Eq.{◌==◌}
use cage_agent_security.Enums.{OpaStatus, PolicyBackend, PolicyDecision}
use cage_agent_security.Enums.Same.{opa_status_eq}
use cage_agent_security.Action.{AgentAction}
use cage_agent_security.Intent.{IntentContract}
use cage_agent_security.Registry.{ToolRegistry}
use cage_agent_security.Policy.Rule.{Part, SecurityDecision}
use cage_agent_security.Policy.Evaluator.{Evaluation, evaluate, intent_id_of}
use cage_agent_security.Policy.Input.{CagePolicyInput}
use cage_agent_security.Policy.Resolver.{Outcome, resolve_decision_outcome}
use cage_agent_security.Policy.Parity.{
  OpaEvaluationResult, PolicyParityResult, compare_policy_parity,
}

pub record PolicyEngine : Type 0 where
  pub tool_registry : ToolRegistry
  pub backend : PolicyBackend
  pub policy_version : String
  pub schema_version : String

unfoldable pub map_opa_error_to_rule_id : OpaStatus → String
map_opa_error_to_rule_id OpaStatus.timeout = "RULE_POLICY_ENGINE_TIMEOUT"
map_opa_error_to_rule_id OpaStatus.unavailable = "RULE_POLICY_ENGINE_UNAVAILABLE"
map_opa_error_to_rule_id OpaStatus.invalid_response = "RULE_POLICY_INVALID_RESPONSE"
map_opa_error_to_rule_id status = "RULE_POLICY_EVALUATION_ERROR"

-- What the Python evaluator is called with.
unfoldable pub evaluation_of : CagePolicyInput → Evaluation
evaluation_of input = record {
  require_intent = input.context.require_intent;
  intent_mismatch = input.context.intent_mismatch;
  graph_context = some input.graph;
  provenance_context = some input.provenance;
  trajectory_context = some input.trajectory;
  delegation_context = some input.delegation;
}

abbrev stamped : PolicyEngine → PolicyBackend → SecurityDecision → SecurityDecision
stamped engine backend d = record d {
  policy_backend = some backend;
  policy_version = some engine.policy_version;
  policy_input_schema_version = some engine.schema_version;
}

-- The decision where the engine is not there.
abbrev failure :
    PolicyEngine
    → PolicyBackend
    → AgentAction
    → Option IntentContract
    → OpaStatus
    → List Part
    → SecurityDecision
failure engine backend action contract status reason = record {
  action_id = action.action_id;
  session_id = action.session_id;
  intent_contract_id = intent_id_of contract;
  decision = PolicyDecision.deny;
  reason = reason;
  matched_rules = map_opa_error_to_rule_id status ∷ [];
  risk_score = 95;
  requires_human_approval = false;
  policy_backend = some backend;
  policy_version = some engine.policy_version;
  policy_input_schema_version = some engine.schema_version;
}

abbrev of_outcome : PolicyEngine → AgentAction → Option IntentContract → Outcome → SecurityDecision
of_outcome engine action contract o = record {
  action_id = action.action_id;
  session_id = action.session_id;
  intent_contract_id = intent_id_of contract;
  decision = o.decision;
  reason = o.reason;
  matched_rules = o.rule_ids;
  risk_score = o.risk_score;
  requires_human_approval = o.requires_human_approval;
  policy_backend = some PolicyBackend.opa;
  policy_version = some engine.policy_version;
  policy_input_schema_version = some engine.schema_version;
}

abbrev pub Verdict : Type 0
Verdict = SecurityDecision × Option PolicyParityResult

module _ (engine : PolicyEngine) (opa : CagePolicyInput → OpaEvaluationResult) where
  with_decision : (SecurityDecision → Verdict) → Option SecurityDecision → Option Verdict
  with_decision f none = none
  with_decision f (some d) = some (f d)

  unfoldable pub evaluate_python :
      CagePolicyInput → AgentAction → Option IntentContract → ℕ → Option Verdict
  unfolding with_decision
  evaluate_python input action contract now =
      with_decision (λ d. (stamped engine PolicyBackend.python d, none))
        (evaluate engine.tool_registry action contract (evaluation_of input) now)

  unfoldable pub evaluate_opa : CagePolicyInput → AgentAction → Option IntentContract → Verdict
  evaluate_opa input action contract =
      let result = opa input in
      if not (result.status == OpaStatus.success)
      then (
        failure engine PolicyBackend.opa action contract result.status (
            Part.text "OPA policy engine unavailable ("
            ∷ Part.opa_status result.status
            ∷ Part.text "): "
            ∷ Part.optional result.error_reason
            ∷ Part.text ". Fail-closed enforced."
            ∷ []),
        none,
      )
      else (of_outcome engine action contract (resolve_decision_outcome result.findings none), none)

  abbrev pub opa_outcome : OpaEvaluationResult → PolicyDecision × List String
  opa_outcome result =
      let o = resolve_decision_outcome result.findings none in
      if result.status == OpaStatus.success
      then (o.decision, o.rule_ids)
      else (PolicyDecision.deny, map_opa_error_to_rule_id result.status ∷ [])

  abbrev pub parity_with : SecurityDecision → OpaEvaluationResult → PolicyParityResult
  parity_with d result =
      let (opa_dec, opa_rule_ids) = opa_outcome result in
      compare_policy_parity (some d.decision) (some opa_dec) d.matched_rules opa_rule_ids result

  shadow_verdict :
      AgentAction → Option IntentContract → OpaEvaluationResult → SecurityDecision → Verdict
  shadow_verdict action contract result d = (
    if not (result.status == OpaStatus.success)
        then failure engine PolicyBackend.shadow action contract result.status (
            Part.text "Policy engine infrastructure failure: "
            ∷ Part.optional result.error_reason
            ∷ Part.text ". Fail-closed enforced."
            ∷ [])
        else stamped engine PolicyBackend.shadow d,
    some (parity_with d result),
  )

  unfoldable pub evaluate_shadow :
      CagePolicyInput → AgentAction → Option IntentContract → ℕ → Option Verdict
  unfolding with_decision shadow_verdict
  evaluate_shadow input action contract now =
      with_decision (shadow_verdict action contract (opa input))
        (evaluate engine.tool_registry action contract (evaluation_of input) now)

  by_backend :
      PolicyBackend → CagePolicyInput → AgentAction → Option IntentContract → ℕ → Option Verdict
  by_backend PolicyBackend.python input action contract now =
      evaluate_python input action contract now
  by_backend PolicyBackend.opa input action contract now = some (evaluate_opa input action contract)
  by_backend PolicyBackend.shadow input action contract now =
      evaluate_shadow input action contract now

  -- `PolicyEngine.evaluate`; `none` where the Python evaluator raises.
  unfoldable pub engine_evaluate :
      CagePolicyInput → AgentAction → Option IntentContract → ℕ → Option Verdict
  unfolding by_backend
  engine_evaluate input action contract now = by_backend engine.backend input action contract now
