-- ===== src/Policy/Resolver.antt =====
-- backend/app/policies/resolver.py: the outcome of a list of findings.
use cage_agent_security.Prelude.{ℕ, Bool, false, String, Option, none, some, List, [], ◌∷◌, map}
use cage_agent_security.Prelude.Eq.{◌==◌}
use cage_agent_security.Enums.{PolicyDecision}
use cage_agent_security.Enums.Same.{policy_decision_eq}
use cage_agent_security.Policy.Rule.{Part, MatchedRule, most_severe, max_risk}

-- The tuple that the function returns.
pub record Outcome : Type 0 where
  pub decision : PolicyDecision
  pub reason : List Part
  pub risk_score : ℕ
  pub requires_human_approval : Bool
  pub rule_ids : List String

abbrev fallback_outcome : Option MatchedRule → Outcome
fallback_outcome (some r) = record {
  decision = r.decision;
  reason = r.reason;
  risk_score = r.risk_score;
  requires_human_approval = r.decision == PolicyDecision.require_approval;
  rule_ids = r.rule_id ∷ [];
}
fallback_outcome none = record {
  decision = PolicyDecision.deny;
  reason = Part.text "No policy rules matched; fail-closed baseline enforced." ∷ [];
  risk_score = 90;
  requires_human_approval = false;
  rule_ids = "RULE_NO_RULES_MATCHED" ∷ [];
}

unfoldable pub resolve_decision_outcome : List MatchedRule → Option MatchedRule → Outcome
resolve_decision_outcome [] fallback_rule = fallback_outcome fallback_rule
resolve_decision_outcome (r ∷ rs) fallback_rule =
    let primary_match = most_severe r rs in
    record {
      decision = primary_match.decision;
      reason = primary_match.reason;
      risk_score = max_risk r.risk_score rs;
      requires_human_approval = primary_match.decision == PolicyDecision.require_approval;
      rule_ids = map (λ x. x.rule_id) (r ∷ rs);
    }
