-- ===== src/Policy/Safety.antt =====
-- backend/app/policies/rules.py: what an action that `evaluate` does not deny cannot be.
pub mod Delegated
pub mod FailClosed
pub mod Egress
use cage_agent_security.Prelude.{
  ℕ, ◌≡◌, ◌≢◌, ◌↔◌, ◌⊎◌, refl, sym, ap, ◌∙◌, inl, inr, Bool, true, false, not, ◌||◌, ◌&&◌, String,
  Option, none, some, List, [], ◌∷◌, ◌++◌, arith,
}
use cage_agent_security.Prelude.Tests.{if◌then◌else◌, Bool-cases, Option-cases}
use cage_agent_security.Prelude.Lists.{any}
use cage_agent_security.Prelude.Eq.{HasEq, ◌==◌, string_eq, contains}
use cage_agent_security.Enums.{
  DataClassification, PolicyDecision, GraphAnalysisStatus, ProvenanceAnalysisStatus,
  TrajectoryStatus,
}
use cage_agent_security.Enums.Same.{
  data_classification_eq, policy_decision_eq, graph_analysis_status_eq,
  provenance_analysis_status_eq, trajectory_status_eq,
}
use cage_agent_security.Action.{AgentAction}
use cage_agent_security.Intent.{IntentContract}
use cage_agent_security.Registry.{
  ToolRegistry, ToolSpec, lookup_tool, get_effective_classifications,
}
use cage_agent_security.Policy.Contexts.{
  PolicyGraphContext, PolicyProvenanceContext, PolicyTrajectoryContext, PolicyDelegationContext,
}
use cage_agent_security.Policy.Rule.{SecurityDecision}
use cage_agent_security.Policy.Severity.{denies, denies-append}
use cage_agent_security.Policy.IntentRules.{evaluate_intent}
use cage_agent_security.Policy.RuntimeRules.{
  runtime_rules, graph_rules, has_sensitive_data, has_sensitive_ancestor,
}
use cage_agent_security.Policy.DataRules.{provenance_failed, egress_rules}
use cage_agent_security.Policy.TrajectoryRules.{trajectory_rules}
use cage_agent_security.Policy.DelegationRules.{delegation_rules}
use cage_agent_security.Policy.Evaluator.{Evaluation, evaluate, rules_before, rules_after, if_given}
use cage_agent_security.Policy.Denials.{
  runtime-denies, graph-denies, egress-denies, trajectory-denies, egress, collected,
  evaluate-denies,
}

any_of_contains :
    {A : Type 0} ⦃e : HasEq A⦄ (p : A → Bool) (xs : List A) (a : A)
    → contains xs a ≡ true
    → p a ≡ true
    → any p xs ≡ true
unfolding contains any
any_of_contains p [] a h k = ground arith
any_of_contains ⦃e⦄ p (x ∷ xs) a h k = elim (Bool-cases (x == a)) [
  | inl eq ↦ let is : x ≡ a = (e.equals_iff x a).0 eq in ground (arith, ap p is)
  | inr ne ↦ ground (arith, any_of_contains p xs a)
]

-- What the groups of rules say of a decision that does not deny.
pub record Quiet (registry : ToolRegistry) (action : AgentAction) (contract : Option IntentContract)
    (e : Evaluation) (now : ℕ) : Type 0 where
  pub intent :
      denies (
        evaluate_intent registry action contract e.require_intent e.intent_mismatch
          e.delegation_context now)
      ≡ false
  pub runtime : denies (runtime_rules registry action) ≡ false
  pub graph :
      denies (if_given (graph_rules (lookup_tool registry action.tool_name) action) e.graph_context)
      ≡ false
  pub data_flow :
      denies (egress (lookup_tool registry action.tool_name) e.provenance_context) ≡ false
  pub trajectory : denies (if_given trajectory_rules e.trajectory_context) ≡ false
  pub delegation : denies (if_given delegation_rules e.delegation_context) ≡ false

five_false :
    (a b c d x y : Bool)
    → ((a || (b || c)) || (d || (x || y))) ≡ false
    → (a ≡ false) × ((b ≡ false) × ((c ≡ false) × ((d ≡ false) × ((x ≡ false) × (y ≡ false)))))
five_false a b c d x y h = ground arith

pub not_denied-Quiet :
    (registry : ToolRegistry) (action : AgentAction) (contract : Option IntentContract)
    (e : Evaluation) (now : ℕ) (d : SecurityDecision)
    → evaluate registry action contract e now ≡ some d
    → d.decision ≢ PolicyDecision.deny
    → Quiet registry action contract e now
unfolding rules_before rules_after
not_denied-Quiet registry action contract e now d h ne =
    let quiet : (d.decision == PolicyDecision.deny) ≡ false = ground arith in
    let all : denies (collected registry action contract e now) ≡ false =
      sym (evaluate-denies registry action contract e now d h) ∙ quiet in
    let parts = five_false _ _ _ _ _ _ (simp denies-append at all) in
    record {
      intent = parts.0;
      runtime = parts.1.0;
      graph = parts.1.1.0;
      data_flow = parts.1.1.1.0;
      trajectory = parts.1.1.1.1.0;
      delegation = parts.1.1.1.1.1;
    }
