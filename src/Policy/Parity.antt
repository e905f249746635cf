-- ===== src/Policy/Parity.antt =====
-- backend/app/policies/parity.py: how the findings of the two engines are compared.
pub mod Exact
use cage_agent_security.Prelude.{
  ℕ, Bool, true, false, not, ◌&&◌, String, Option, none, some, List, [], ◌∷◌,
}
use cage_agent_security.Prelude.Tests.{if◌then◌else◌}
use cage_agent_security.Prelude.Eq.{◌==◌, string_eq, contains, difference, issubset}
use cage_agent_security.Prelude.Sorted.{sorted, to_set}
use cage_agent_security.Enums.{OpaStatus, PolicyDecision, PolicyParityStatus}
use cage_agent_security.Enums.Same.{opa_status_eq, policy_decision_eq}
use cage_agent_security.Policy.Rule.{Part, MatchedRule}

-- A finding of OPA has the fields of a matched rule; its reason is one text.
pub record OpaEvaluationResult : Type 0 where
  pub status : OpaStatus
  pub findings : List MatchedRule
  pub error_reason : Option String

pub record PolicyParityResult : Type 0 where
  pub status : PolicyParityStatus
  pub python_decision : Option PolicyDecision
  pub opa_decision : Option PolicyDecision
  pub decision_match : Bool
  pub rule_match : Bool
  pub python_rules : List String
  pub opa_rules : List String
  pub missing_in_opa : List String
  pub extra_in_opa : List String
  pub error_reason : Option (List Part)

abbrev pub infrastructure_rules : List String
infrastructure_rules =
    "RULE_POLICY_ENGINE_UNAVAILABLE" ∷ "RULE_POLICY_ENGINE_TIMEOUT" ∷ "RULE_POLICY_EVALUATION_ERROR"
    ∷ "RULE_POLICY_INVALID_RESPONSE" ∷ "RULE_NO_RULES_MATCHED" ∷ "RULE_GRAPH_DEPTH_LIMIT_EXCEEDED"
    ∷ "RULE_GRAPH_NODE_LIMIT_EXCEEDED" ∷ "RULE_GRAPH_INVALID_DAG" ∷ []

unfoldable pub is_infrastructure : String → Bool
is_infrastructure r = contains infrastructure_rules r

unfoldable pub domain_rules : List String → List String
domain_rules [] = []
domain_rules (r ∷ rs) = let rest = domain_rules rs in if is_infrastructure r then rest else r ∷ rest

abbrev pub decisions_match : Option PolicyDecision → Option PolicyDecision → Bool
decisions_match none opa = false
decisions_match (some p) none = false
decisions_match (some p) (some o) = p == o

-- `py_set == opa_set`
abbrev pub same_set : List String → List String → Bool
same_set us vs = issubset us vs && issubset vs us

-- `error_reason or f"OPA returned status: ..."`; the empty text is false in Python.
error_text : Option String → OpaStatus → List Part
error_text none status = Part.text "OPA returned status: " ∷ Part.opa_status status ∷ []
error_text (some r) status =
    if r == ""
    then Part.text "OPA returned status: " ∷ Part.opa_status status ∷ []
    else Part.text r ∷ []

unfoldable pub compare_policy_parity :
    Option PolicyDecision
    → Option PolicyDecision
    → List String
    → List String
    → OpaEvaluationResult
    → PolicyParityResult
unfolding error_text
compare_policy_parity python_decision opa_decision python_rules opa_rules opa_result =
    let py_set = to_set (domain_rules python_rules) in
    let opa_set = to_set (domain_rules opa_rules) in
    let decision_match = decisions_match python_decision opa_decision in
    let rule_match = same_set py_set opa_set in
    if not (opa_result.status == OpaStatus.success)
    then record {
      status = PolicyParityStatus.opa_error;
      python_decision = python_decision;
      opa_decision = opa_decision;
      decision_match = false;
      rule_match = false;
      python_rules = python_rules;
      opa_rules = opa_rules;
      missing_in_opa = [];
      extra_in_opa = [];
      error_reason = some (error_text opa_result.error_reason opa_result.status);
    }
    else record {
      status =
          if decision_match && rule_match
          then PolicyParityStatus.match_
          else PolicyParityStatus.divergence;
      python_decision = python_decision;
      opa_decision = opa_decision;
      decision_match = decision_match;
      rule_match = rule_match;
      python_rules = python_rules;
      opa_rules = opa_rules;
      missing_in_opa = sorted (difference py_set opa_set);
      extra_in_opa = sorted (difference opa_set py_set);
      error_reason = none;
    }
