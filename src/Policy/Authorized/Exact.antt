-- ===== src/Policy/Authorized/Exact.antt =====
-- backend/app/policies/intent_rules.py: the intent rules do not deny exactly what is authorized.
use text.Mathlib.TextEquality.{eq_iff}
use cage_agent_security.Prelude.{
  ℕ, ◌≡◌, ◌≢◌, ◌↔◌, refl, sym, ◌∙◌, inl, inr, Bool, true, false, Option, none, some, arith,
}
use cage_agent_security.Prelude.Tests.{Bool-cases}
use cage_agent_security.Prelude.Lists.{any}
use cage_agent_security.Prelude.Eq.{◌==◌, string_eq}
use cage_agent_security.Enums.{ActionType, PolicyDecision}
use cage_agent_security.Enums.Same.{action_type_eq, policy_decision_eq, intent_status_eq}
use cage_agent_security.Action.{AgentAction}
use cage_agent_security.Intent.{IntentContract, is_active}
use cage_agent_security.Registry.{ToolRegistry}
use cage_agent_security.Policy.Contexts.{PolicyDelegationContext}
use cage_agent_security.Policy.Rule.{SecurityDecision}
use cage_agent_security.Policy.Severity.{denies}
use cage_agent_security.Policy.IntentRules.{is_valid_delegated, contract_rules, evaluate_intent}
use cage_agent_security.Policy.Evaluator.{Evaluation, evaluate}
use cage_agent_security.Policy.Safety.{not_denied-Quiet}
use cage_agent_security.Policy.Authorized.{
  Authorized, scope_rules-InScope, quiet_of_InScope, contract-denies, stopped,
}

module _ (registry : ToolRegistry) (action : AgentAction) (contract : IntentContract)
    (d : Option PolicyDelegationContext) (now : ℕ) where
  contract_rules-Authorized :
      denies (contract_rules registry action contract d now) ≡ false
      → Authorized registry action contract d now
  unfolding is_active
  contract_rules-Authorized h =
      let all = sym (contract-denies registry action contract d now) ∙ h in
      record {
        active = ground arith;
        session = ground (arith, eq_iff contract.session_id action.session_id);
        agent = elim (Bool-cases (is_valid_delegated action d)) [
          | inl valid ↦ inr valid
          | inr other ↦ inl (ground (arith, eq_iff contract.agent_id action.agent_id))
        ];
        scope = λ ne. scope_rules-InScope registry action contract (ground arith) (ground arith);
      }

  not_stopped : Authorized registry action contract d now → stopped action contract d now ≡ false
  unfolding is_active
  not_stopped a = ground (
    arith,
    a.active,
    a.session,
    a.agent,
    eq_iff contract.session_id action.session_id,
    eq_iff contract.agent_id action.agent_id,
  )

  quiet_of_Authorized :
      Authorized registry action contract d now
      → denies (contract_rules registry action contract d now) ≡ false
  quiet_of_Authorized a = elim (Bool-cases (action.action_type == ActionType.delegation)) [
    | inl is ↦ contract-denies registry action contract d now ∙ ground (arith, not_stopped a)
    | inr other ↦
        let (room, quiet) = quiet_of_InScope registry action contract (a.scope (ground arith)) in
        contract-denies registry action contract d now ∙ ground (arith, not_stopped a)
  ]

  -- Against a contract, the intent rules deny nothing exactly when no mismatch was found and the
  -- contract authorizes the action: it is active at that time, its session is the action's, and,
  -- unless the type of the action is DELEGATION, its agent is the action's or the action is validly
  -- delegated, the tool, environment, resource and data are in scope and the quota is not used up.
  pub intent_permits_iff :
      (require_intent intent_mismatch : Bool)
      → (denies
            (evaluate_intent registry action (some contract) require_intent intent_mismatch d now)
          ≡ false)
        ↔ ((intent_mismatch ≡ false) × Authorized registry action contract d now)
  unfolding evaluate_intent denies any
  intent_permits_iff require_intent true =
      (λ h. absurd (ground arith), λ h. absurd (ground (arith, h.0)))
  intent_permits_iff require_intent false =
      (λ h. (refl, contract_rules-Authorized h), λ h. quiet_of_Authorized h.1)

-- An action that `evaluate` does not deny, where an intent is required, has a contract, no mismatch
-- was reported, and at the time of the evaluation the contract is active and of the action's session.
-- Unless the type of the action is DELEGATION, the contract's agent is the action's, or the action
-- names a delegation whose context covers it, and the tool, the environment, the resource, the data
-- and the quota are in scope. For an action of type DELEGATION nothing is said of agent and scope.
pub evaluate-Authorized :
    (registry : ToolRegistry) (action : AgentAction) (contract : Option IntentContract)
    (e : Evaluation) (now : ℕ) (d : SecurityDecision)
    → evaluate registry action contract e now ≡ some d
    → d.decision ≢ PolicyDecision.deny
    → e.require_intent ≡ true
    → (c : IntentContract) × (contract ≡ some c)
      × ((e.intent_mismatch ≡ false) × Authorized registry action c e.delegation_context now)
unfolding evaluate_intent denies any
evaluate-Authorized registry action none e now d h ne required =
    let q = not_denied-Quiet registry action none e now d h ne in absurd (ground (arith, q.intent))
evaluate-Authorized registry action (some c) e now d h ne required =
    let q = not_denied-Quiet registry action (some c) e now d h ne in
    (
      c,
      refl,
      (intent_permits_iff registry action c e.delegation_context now e.require_intent
            e.intent_mismatch).0
          q.intent,
    )
