-- ===== src/Policy/TrajectoryRules.antt =====
-- backend/app/policies/rules.py: the rules on the trajectory of actions.
use cage_agent_security.Prelude.{not, ◌&&◌, List, [], ◌++◌}
use cage_agent_security.Prelude.Tests.{if◌then◌else◌}
use cage_agent_security.Prelude.Eq.{◌==◌}
use cage_agent_security.Enums.{PolicyDecision, TrajectoryAnalysisStatus, TrajectoryStatus}
use cage_agent_security.Enums.Same.{trajectory_status_eq}
use cage_agent_security.Policy.Contexts.{PolicyTrajectoryContext}
use cage_agent_security.Policy.Rule.{MatchedRule, rule, when}

-- `rule_map.get(status_str, ...)`: the rule for an analysis that stopped.
unfoldable pub stopped_rule : TrajectoryAnalysisStatus → MatchedRule
stopped_rule TrajectoryAnalysisStatus.action_depth_limit_exceeded =
    rule "RULE_TRAJECTORY_ACTION_DEPTH_LIMIT_EXCEEDED" PolicyDecision.deny
      "Trajectory action traversal depth exceeded safety limits." 95
stopped_rule TrajectoryAnalysisStatus.artifact_depth_limit_exceeded =
    rule "RULE_TRAJECTORY_ARTIFACT_DEPTH_LIMIT_EXCEEDED" PolicyDecision.deny
      "Trajectory artifact derivation depth exceeded safety limits." 95
stopped_rule TrajectoryAnalysisStatus.node_limit_exceeded =
    rule "RULE_TRAJECTORY_NODE_LIMIT_EXCEEDED" PolicyDecision.deny
      "Trajectory graph traversal node limit exceeded safety limits." 95
stopped_rule TrajectoryAnalysisStatus.invalid_typed_path =
    rule "RULE_TRAJECTORY_INVALID_TYPED_PATH" PolicyDecision.deny
      "Trajectory contains invalid or broken typed edge relations." 95
stopped_rule TrajectoryAnalysisStatus.missing_graph_evidence =
    rule "RULE_TRAJECTORY_MISSING_GRAPH_EVIDENCE" PolicyDecision.deny
      "Trajectory causal history contains missing or corrupted graph nodes." 95
stopped_rule TrajectoryAnalysisStatus.inconsistent_provenance =
    rule "RULE_TRAJECTORY_INCONSISTENT_PROVENANCE" PolicyDecision.deny
      "Trajectory references inconsistent or missing provenance artifacts." 95
stopped_rule TrajectoryAnalysisStatus.success =
    rule "RULE_TRAJECTORY_ANALYSIS_FAILED" PolicyDecision.deny
      "Trajectory security analysis failed." 95

-- The rules of an analysis that is complete.
unfoldable pub flagship_rules : PolicyTrajectoryContext → List MatchedRule
flagship_rules t =
    when t.untrusted_path_to_sensitive_access (
      rule "RULE_TRAJECTORY_UNTRUSTED_PATH_TO_SENSITIVE_ACCESS" PolicyDecision.require_approval
        "Externally untrusted information participated in the validated causal trajectory leading to sensitive access."
        85)
    ++ (when t.untrusted_path_to_sensitive_egress (
          rule "RULE_TRAJECTORY_UNTRUSTED_PATH_TO_SENSITIVE_EGRESS" PolicyDecision.deny
            "Validated causal trajectory connects externally untrusted origin to sensitive external egress sink."
            95)
        ++ (when
              (t.unauthorized_authority_expansion_attempted && t.untrusted_path_to_current_action)
              (rule "RULE_TRAJECTORY_INFORMATION_CANNOT_EXPAND_AUTHORITY" PolicyDecision.deny
                "Untrusted information on causal trajectory attempted unauthorized authority expansion."
                90)
            ++ (when t.split_exfiltration_threshold_exceeded (
                  rule "RULE_TRAJECTORY_CUMULATIVE_SENSITIVE_EGRESS" PolicyDecision.quarantine
                    "Cumulative sensitive egress attempts or volume exceeded safety thresholds; quarantining trajectory."
                    95)
                ++ when t.sensitive_hop_laundering_detected (
                    rule "RULE_TRAJECTORY_SENSITIVE_HOP_LAUNDERING" PolicyDecision.deny
                      "Sensitive information traversed multi-hop transformation sequence before exiting to external sink."
                      90))))

unfoldable pub trajectory_rules : PolicyTrajectoryContext → List MatchedRule
trajectory_rules t =
    when (t.trajectory_status == TrajectoryStatus.quarantined) (
      rule "RULE_TRAJECTORY_QUARANTINED" PolicyDecision.deny
        "Action rejected because trajectory is in QUARANTINED containment state." 100)
    ++ (when (t.trajectory_status == TrajectoryStatus.aborted) (
          rule "RULE_TRAJECTORY_ABORTED" PolicyDecision.deny
            "Action rejected because trajectory has been permanently ABORTED." 100)
        ++ (when (not t.analysis_complete) (stopped_rule t.analysis_status)
            ++ (if t.analysis_complete then flagship_rules t else [])))
