-- ===== src/Policy/Rule.antt =====
-- `MatchedRule` of backend/app/policies/rules.py, and the decision of backend/app/schemas/decision.py
-- without the fresh id and the time that it stamps on itself. A score is in hundredths, which is what
-- `round(..., 2)` keeps. A reason is the list of the parts that the f-string joins.
use cage_agent_security.Prelude.{ℕ, Bool, String, Option, List, [], ◌∷◌}
use cage_agent_security.Prelude.Tests.{if◌then◌else◌, ltb}
use cage_agent_security.Enums.{
  DataClassification, GraphAnalysisStatus, OpaStatus, PolicyBackend, PolicyDecision,
  ProvenanceAnalysisStatus, TargetEnvironment, severity_rank,
}

pub data Part : Type 0 where
  text : String → Part
  optional : Option String → Part
  number : ℕ → Part
  time : Option ℕ → Part
  sorted_texts : List String → Part
  environment : TargetEnvironment → Part
  environments : List TargetEnvironment → Part
  classifications : List DataClassification → Part
  graph_status : GraphAnalysisStatus → Part
  provenance_status : ProvenanceAnalysisStatus → Part
  opa_status : OpaStatus → Part

pub record MatchedRule : Type 0 where
  pub rule_id : String
  pub decision : PolicyDecision
  pub reason : List Part
  pub risk_score : ℕ

pub record SecurityDecision : Type 0 where
  pub action_id : String
  pub session_id : String
  pub intent_contract_id : Option String
  pub decision : PolicyDecision
  pub reason : List Part
  pub matched_rules : List String
  pub risk_score : ℕ
  pub requires_human_approval : Bool
  pub policy_backend : Option PolicyBackend
  pub policy_version : Option String
  pub policy_input_schema_version : Option String

-- A rule whose reason is one text.
abbrev pub rule : String → PolicyDecision → String → ℕ → MatchedRule
rule id decision reason risk = record {
  rule_id = id;
  decision = decision;
  reason = Part.text reason ∷ [];
  risk_score = risk;
}

-- `if condition: matched_rules.append(r)`
abbrev pub when : Bool → MatchedRule → List MatchedRule
when condition r = if condition then r ∷ [] else []

-- `max(rules, key=lambda r: r.decision.severity_rank)`: the first of those with the highest rank.
unfoldable pub most_severe : MatchedRule → List MatchedRule → MatchedRule
most_severe best [] = best
most_severe best (r ∷ rs) =
    most_severe (if ltb (severity_rank best.decision) (severity_rank r.decision) then r else best)
      rs

-- `max(r.risk_score for r in rules)`
unfoldable pub max_risk : ℕ → List MatchedRule → ℕ
max_risk best [] = best
max_risk best (r ∷ rs) = max_risk (if ltb best r.risk_score then r.risk_score else best) rs
