-- ===== src/Policy/ScopeRules.antt =====
-- backend/app/policies/intent_rules.py: what the checks say that look at the action's content, numbers 5
-- to 10 of `evaluate_intent`.
use cage_agent_security.Prelude.{
  ℕ, Bool, true, false, not, ◌&&◌, ◌||◌, String, Option, none, some, List, [], ◌∷◌, ◌++◌,
}
use cage_agent_security.Prelude.Lists.{is_empty}
use cage_agent_security.Prelude.Eq.{◌==◌, string_eq, contains, difference}
use cage_agent_security.Enums.{PolicyDecision}
use cage_agent_security.Enums.Same.{
  action_type_eq, data_classification_eq, intent_status_eq, target_environment_eq,
}
use cage_agent_security.Action.{AgentAction}
use cage_agent_security.Intent.{IntentContract}
use cage_agent_security.Registry.{ToolRegistry, lookup_tool, get_effective_classifications}
use cage_agent_security.Policy.Rule.{Part, MatchedRule, when}

abbrev pub deny_rule : String → List Part → ℕ → MatchedRule
deny_rule id reason risk = record {
  rule_id = id;
  decision = PolicyDecision.deny;
  reason = reason;
  risk_score = risk;
}

-- `action.target_resource in resources`, where there is a target.
abbrev pub names_one_of : Option String → List String → Bool
names_one_of none resources = false
names_one_of (some r) resources = contains resources r

-- `not target or target not in resources`; the empty text is false in Python.
abbrev pub misses : Option String → List String → Bool
misses none resources = true
misses (some r) resources = r == "" || not (contains resources r)

unfoldable pub scope_rules : ToolRegistry → AgentAction → IntentContract → List MatchedRule
scope_rules registry action contract =
    let unauthorized_data =
      difference
        (get_effective_classifications registry action.tool_name action.data_classifications)
        contract.allowed_data_classifications in
    when (contains contract.denied_tools action.tool_name) (
      deny_rule "RULE_TOOL_EXPLICITLY_DENIED"
        (Part.text "Tool '"
          ∷ Part.text action.tool_name
          ∷ Part.text "' is explicitly forbidden by Intent Contract."
          ∷ [])
        90)
    ++ (when (not (contains contract.allowed_tools action.tool_name)) (
          deny_rule "RULE_TOOL_OUTSIDE_INTENT"
            (Part.text "Tool '"
              ∷ Part.text action.tool_name
              ∷ Part.text "' is not in authorized tool scope: "
              ∷ Part.sorted_texts contract.allowed_tools
              ∷ Part.text "."
              ∷ [])
            85)
        ++ (when (not (contains contract.allowed_environments action.target_environment)) (
              deny_rule "RULE_ENVIRONMENT_OUTSIDE_INTENT"
                (Part.text "Environment '"
                  ∷ Part.environment action.target_environment
                  ∷ Part.text "' is outside authorized scope: "
                  ∷ Part.environments contract.allowed_environments
                  ∷ Part.text "."
                  ∷ [])
                85)
            ++ (when (names_one_of action.target_resource contract.denied_resources) (
                  deny_rule "RULE_RESOURCE_EXPLICITLY_DENIED"
                    (Part.text "Resource '"
                      ∷ Part.optional action.target_resource
                      ∷ Part.text "' is explicitly forbidden by Intent Contract."
                      ∷ [])
                    90)
                ++ (when
                      (not (is_empty contract.allowed_resources)
                        && ((lookup_tool registry action.tool_name).resource_scoped
                            && misses action.target_resource contract.allowed_resources))
                      (deny_rule "RULE_RESOURCE_OUTSIDE_INTENT"
                        (Part.text "Resource '"
                          ∷ Part.optional action.target_resource
                          ∷ Part.text "' is outside authorized resource scope: "
                          ∷ Part.sorted_texts contract.allowed_resources
                          ∷ Part.text "."
                          ∷ [])
                        85)
                    ++ (when (not (is_empty unauthorized_data)) (
                          deny_rule "RULE_DATA_SCOPE_VIOLATION"
                            (Part.text "Data classifications "
                              ∷ Part.classifications unauthorized_data
                              ∷ Part.text " exceed authorized data scope: "
                              ∷ Part.classifications contract.allowed_data_classifications
                              ∷ Part.text "."
                              ∷ [])
                            85)
                        ++ when (contains contract.requires_approval action.tool_name) (record {
                          rule_id = "RULE_APPROVAL_TOOL";
                          decision = PolicyDecision.require_approval;
                          reason =
                              Part.text "Tool '"
                              ∷ Part.text action.tool_name
                              ∷ Part.text
                                  "' is authorized by Intent Contract but mandates human approval."
                              ∷ [];
                          risk_score = 60;
                        }))))))
