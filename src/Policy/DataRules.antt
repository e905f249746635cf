-- ===== src/Policy/DataRules.antt =====
-- backend/app/policies/rules.py: the rules on provenance and data flow. They read the variable
-- `is_privileged_or_destructive`, which the code binds only where it looks at a causal graph: it is
-- an Option here, and `none` for the rules is the `UnboundLocalError` that Python raises.
use cage_agent_security.Prelude.{
  ℕ, Bool, not, ◌&&◌, ◌||◌, String, Option, none, some, List, [], ◌∷◌, ◌++◌,
}
use cage_agent_security.Prelude.Tests.{if◌then◌else◌}
use cage_agent_security.Prelude.Eq.{◌==◌}
use cage_agent_security.Enums.{PolicyDecision, ProvenanceAnalysisStatus}
use cage_agent_security.Enums.Same.{provenance_analysis_status_eq}
use cage_agent_security.Registry.{ToolSpec}
use cage_agent_security.Policy.Contexts.{PolicyProvenanceContext}
use cage_agent_security.Policy.Rule.{Part, MatchedRule, rule, when}

-- `rule_id_map.get(status_str, "RULE_PROVENANCE_ANALYSIS_FAILED")`
abbrev fail_rule_id : ProvenanceAnalysisStatus → String
fail_rule_id ProvenanceAnalysisStatus.success = "RULE_PROVENANCE_ANALYSIS_FAILED"
fail_rule_id ProvenanceAnalysisStatus.depth_limit_exceeded = "RULE_PROVENANCE_DEPTH_LIMIT_EXCEEDED"
fail_rule_id ProvenanceAnalysisStatus.artifact_limit_exceeded =
    "RULE_PROVENANCE_ARTIFACT_LIMIT_EXCEEDED"
fail_rule_id ProvenanceAnalysisStatus.invalid_lineage = "RULE_PROVENANCE_INVALID_LINEAGE"
fail_rule_id ProvenanceAnalysisStatus.missing_artifact = "RULE_PROVENANCE_MISSING_ARTIFACT"
fail_rule_id ProvenanceAnalysisStatus.cross_session_reference =
    "RULE_PROVENANCE_CROSS_SESSION_REFERENCE"
fail_rule_id ProvenanceAnalysisStatus.cycle_detected = "RULE_PROVENANCE_CYCLE_DETECTED"
fail_rule_id ProvenanceAnalysisStatus.untracked_payload = "RULE_PROVENANCE_UNTRACKED_EGRESS"

-- `"CYCLE" in status_str` holds of one member.
abbrev fail_risk : ProvenanceAnalysisStatus → ℕ
fail_risk status = if status == ProvenanceAnalysisStatus.cycle_detected then 99 else 95

unfoldable pub provenance_failed : PolicyProvenanceContext → Bool
provenance_failed p =
    not p.analysis_complete || not (p.analysis_status == ProvenanceAnalysisStatus.success)

-- The rules that do not read the variable.
unfoldable pub egress_rules : ToolSpec → PolicyProvenanceContext → List MatchedRule
egress_rules spec p =
    when (provenance_failed p) (record {
      rule_id = fail_rule_id p.analysis_status;
      decision = PolicyDecision.deny;
      reason =
          Part.text "Provenance analysis failed ("
          ∷ Part.provenance_status p.analysis_status
          ∷ Part.text "). Fail-closed enforced."
          ∷ [];
      risk_score = fail_risk p.analysis_status;
    })
    ++ (when
          (spec.external_sink
            && (spec.requires_tracked_inputs
                && (p.payload_binding_required && not p.payload_binding_satisfied)))
          (rule "RULE_PROVENANCE_UNTRACKED_EGRESS" PolicyDecision.deny
            "External egress denied: tool requires tracked input payload binding, but no valid artifact-backed payload was satisfied."
            95)
        ++ (when (spec.external_sink && p.contains_credential_input) (
              rule "RULE_PROVENANCE_CREDENTIAL_TO_EXTERNAL" PolicyDecision.deny
                "External transmission denied: consumed input artifacts contain CREDENTIAL classified information."
                95)
            ++ when (spec.external_sink && p.contains_sensitive_input) (
                rule "RULE_PROVENANCE_SENSITIVE_TO_EXTERNAL" PolicyDecision.deny
                  "External transmission denied: consumed input artifacts contain sensitive data classifications."
                  90)))

-- `if contains and is_privileged_or_destructive`: the variable is read only if the first test holds.
abbrev pub when_both : Bool → Option Bool → MatchedRule → Option (List MatchedRule)
when_both contains variable r =
    if not contains then some [] else elim variable [ none ↦ none | some b ↦ some (when b r) ]

abbrev pub both_lists :
    Option (List MatchedRule) → Option (List MatchedRule) → Option (List MatchedRule)
both_lists none ys = none
both_lists (some xs) none = none
both_lists (some xs) (some ys) = some (xs ++ ys)

abbrev pub untrusted_rule : MatchedRule
untrusted_rule =
    rule "RULE_PROVENANCE_UNTRUSTED_TO_PRIVILEGED" PolicyDecision.require_approval
      "Privileged or destructive action consumes information with untrusted external provenance." 80

abbrev pub unknown_rule : MatchedRule
unknown_rule =
    rule "RULE_PROVENANCE_UNKNOWN_TO_PRIVILEGED" PolicyDecision.require_approval
      "Privileged or destructive action consumes information with unknown provenance origin." 75

unfoldable pub provenance_rules :
    ToolSpec → PolicyProvenanceContext → Option Bool → Option (List MatchedRule)
provenance_rules spec p privileged = both_lists (some (egress_rules spec p)) (
    both_lists (when_both p.contains_untrusted_input privileged untrusted_rule)
      (when_both p.contains_unknown_input privileged unknown_rule))
