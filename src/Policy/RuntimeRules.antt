-- ===== src/Policy/RuntimeRules.antt =====
-- backend/app/policies/rules.py: the runtime rules A, B and C and those on the causal graph.
use cage_agent_security.Prelude.{◌+◌, Bool, not, ◌&&◌, ◌||◌, String, List, [], ◌∷◌, ◌++◌}
use cage_agent_security.Prelude.Tests.{if◌then◌else◌, leb, ltb}
use cage_agent_security.Prelude.Lists.{any}
use cage_agent_security.Prelude.Eq.{◌==◌, string_eq, contains}
use cage_agent_security.Enums.{
  ActionType, DataClassification, GraphAnalysisStatus, PolicyDecision, TargetEnvironment,
}
use cage_agent_security.Enums.Same.{action_type_eq, data_classification_eq, target_environment_eq}
use cage_agent_security.Action.{AgentAction}
use cage_agent_security.Registry.{
  ToolRegistry, ToolSpec, lookup_tool, get_effective_classifications,
}
use cage_agent_security.Policy.Contexts.{PolicyGraphContext}
use cage_agent_security.Policy.Rule.{Part, MatchedRule, rule, when}

abbrev pub sensitive_classifications : List DataClassification
sensitive_classifications = DataClassification.secret ∷ DataClassification.credential ∷ []

unfoldable pub has_sensitive_data : ToolRegistry → AgentAction → Bool
has_sensitive_data registry action =
    any (λ c. contains sensitive_classifications c)
      (get_effective_classifications registry action.tool_name action.data_classifications)

abbrev pub is_destructive : ToolSpec → AgentAction → Bool
is_destructive spec action = spec.destructive || action.action_type == ActionType.destructive

abbrev pub is_privileged_or_destructive : ToolSpec → AgentAction → Bool
is_privileged_or_destructive spec action =
    spec.privileged
    || (spec.destructive
        || (action.action_type == ActionType.destructive
            || action.action_type == ActionType.execute))

unfoldable pub runtime_rules : ToolRegistry → AgentAction → List MatchedRule
runtime_rules registry action =
    let spec = lookup_tool registry action.tool_name in
    when (has_sensitive_data registry action && spec.external_sink) (
      rule "RULE_B_CREDENTIAL_EXTERNAL_EXFILTRATION" PolicyDecision.deny
        "Sensitive data (SECRET or CREDENTIAL) cannot be transmitted to external destinations." 90)
    ++ (when
          (action.target_environment == TargetEnvironment.production && is_destructive spec action)
          (rule "RULE_A_PRODUCTION_DESTRUCTIVE" PolicyDecision.require_approval
            "Destructive operations targeting PRODUCTION environments require explicit human approval."
            75)
        ++ when
            ((not (action.action_type == ActionType.delegation) && not spec.known)
              && (spec.privileged
                  || (is_destructive spec action || action.action_type == ActionType.execute)))
            (record {
              rule_id = "RULE_C_UNKNOWN_TOOL_PRIVILEGED";
              decision = PolicyDecision.require_approval;
              reason =
                  Part.text "Unknown tool '"
                  ∷ Part.text action.tool_name
                  ∷ Part.text "' requesting privileged access requires human approval."
                  ∷ [];
              risk_score = 60;
            }))

-- Reaching a limit, or a graph that is not a DAG, denies.
unfoldable pub graph_status_rules : GraphAnalysisStatus → List MatchedRule
graph_status_rules GraphAnalysisStatus.success = []
graph_status_rules GraphAnalysisStatus.depth_limit_exceeded =
    rule "RULE_GRAPH_DEPTH_LIMIT_EXCEEDED" PolicyDecision.deny
      "Causal graph traversal depth limit exceeded during analysis. Fail-closed enforced." 95
    ∷ []
graph_status_rules GraphAnalysisStatus.node_limit_exceeded =
    rule "RULE_GRAPH_NODE_LIMIT_EXCEEDED" PolicyDecision.deny
      "Causal graph traversal node limit exceeded during analysis. Fail-closed enforced." 95
    ∷ []
graph_status_rules status =
    record {
      rule_id = "RULE_GRAPH_INVALID_DAG";
      decision = PolicyDecision.deny;
      reason =
          Part.text "Causal graph integrity failure ("
          ∷ Part.graph_status status
          ∷ Part.text "). Fail-closed enforced."
          ∷ [];
      risk_score = 99;
    }
    ∷ []

abbrev pub sensitive_ancestor_classes : List String
sensitive_ancestor_classes = "CONFIDENTIAL" ∷ "RESTRICTED" ∷ "PII" ∷ "SECRET" ∷ "CREDENTIAL" ∷ []

unfoldable pub has_sensitive_ancestor : PolicyGraphContext → Bool
has_sensitive_ancestor graph =
    any (λ c. contains sensitive_ancestor_classes c) graph.ancestor_data_classifications

unfoldable pub is_current_probe : ToolSpec → AgentAction → Bool
is_current_probe spec action =
    not spec.known
    || (spec.privileged || (is_destructive spec action || action.action_type == ActionType.execute))

abbrev is_high_env : TargetEnvironment → Bool
is_high_env env = env == TargetEnvironment.production || env == TargetEnvironment.staging

unfoldable pub graph_rules : ToolSpec → AgentAction → PolicyGraphContext → List MatchedRule
graph_rules spec action graph =
    let probes = graph.privileged_probe_count + (if is_current_probe spec action then 1 else 0) in
    graph_status_rules graph.analysis_status
    ++ (when (graph.analysis_complete && (spec.external_sink && has_sensitive_ancestor graph)) (
          rule "RULE_GRAPH_EXTERNAL_AFTER_SENSITIVE_ACCESS" PolicyDecision.deny
            "External transmission denied because the validated causal ancestry contains access to sensitive-classified data."
            90)
        ++ (when
              (graph.analysis_complete
                && (graph.contains_denied_ancestor && is_privileged_or_destructive spec action))
              (rule "RULE_GRAPH_DENIED_ANCESTOR_ESCALATION" PolicyDecision.require_approval
                "Privileged or destructive operation attempted following a previously denied action in the causal trajectory."
                80)
            ++ (when (is_current_probe spec action && leb 3 probes) (record {
              rule_id = "RULE_GRAPH_REPEATED_PRIVILEGE_PROBING";
              decision = PolicyDecision.quarantine;
              reason =
                  Part.text
                    "Repeated privileged or destructive probing detected in causal trajectory ("
                  ∷ Part.number probes
                  ∷ Part.text " attempts >= 3). Action quarantined."
                  ∷ [];
              risk_score = 95;
            })
                ++ when
                    (ltb 0 graph.ancestor_count
                      && (graph.has_lower_environment_ancestor
                          && (not graph.has_high_environment_ancestor
                              && (is_high_env action.target_environment
                                  && is_privileged_or_destructive spec action))))
                    (rule "RULE_GRAPH_ENVIRONMENT_ESCALATION" PolicyDecision.require_approval
                      "Causal trajectory escalated from development to production without prior production lineage."
                      75))))
