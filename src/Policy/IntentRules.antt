-- ===== src/Policy/IntentRules.antt =====
-- backend/app/policies/intent_rules.py: what the Intent Contract says of an action.
use cage_agent_security.Prelude.{
  ℕ, Bool, true, false, not, ◌&&◌, ◌||◌, String, Option, none, some, List, [], ◌∷◌,
}
use cage_agent_security.Prelude.Tests.{if◌then◌else◌, leb}
use cage_agent_security.Prelude.Eq.{◌==◌, string_eq}
use cage_agent_security.Enums.{ActionType, IntentStatus, PolicyDecision}
use cage_agent_security.Enums.Same.{
  action_type_eq, data_classification_eq, intent_status_eq, target_environment_eq,
}
use cage_agent_security.Action.{AgentAction}
use cage_agent_security.Intent.{IntentContract, deadline_passed}
use cage_agent_security.Registry.{ToolRegistry}
use cage_agent_security.Policy.Contexts.{PolicyDelegationContext}
use cage_agent_security.Policy.ScopeRules.{deny_rule, scope_rules}
use cage_agent_security.Policy.Rule.{Part, MatchedRule, rule, when}

-- `a != b`
abbrev pub differs : String → String → Bool
differs a b = not (a == b)

pub delegated_and_covered : Option PolicyDelegationContext → Bool
delegated_and_covered none = false
delegated_and_covered (some d) =
    d.is_delegated
    && (d.principal_matches_delegatee
        && (d.effective_status == "ACTIVE"
            && (d.current_tool_within_effective_authority
                && (d.current_resource_within_effective_authority
                    && (d.current_environment_within_effective_authority
                        && d.current_classification_within_effective_authority)))))

pub has_delegation : Option String → Option PolicyDelegationContext → Bool
has_delegation none d = false
has_delegation (some id) d = delegated_and_covered d

unfoldable pub is_valid_delegated : AgentAction → Option PolicyDelegationContext → Bool
unfolding delegated_and_covered has_delegation
is_valid_delegated action d =
    if action.action_type == ActionType.delegation
    then true
    else has_delegation action.delegation_id d

pub or_intent_allow : List MatchedRule → List MatchedRule
or_intent_allow [] =
    rule "RULE_INTENT_ALLOW" PolicyDecision.allow
      "Action conforms to authorized Intent Contract bounds." 10
    ∷ []
or_intent_allow (r ∷ rs) = r ∷ rs

-- The text after an `or`: none and the empty text give the other.
reason_given : Option String → String
reason_given none = "No reason provided"
reason_given (some r) = if r == "" then "No reason provided" else r

mismatch_reason : AgentAction → IntentContract → List Part
mismatch_reason action contract =
    Part.text "Intent Contract binding mismatch: contract bound to agent '"
    ∷ Part.text contract.agent_id
    ∷ Part.text "' / session '"
    ∷ Part.text contract.session_id
    ∷ Part.text "', but action has agent '"
    ∷ Part.text action.agent_id
    ∷ Part.text "' / session '"
    ∷ Part.text action.session_id
    ∷ Part.text "'."
    ∷ []

-- The checks against a contract that is there, at the time `now`.
unfoldable pub contract_rules :
    ToolRegistry
    → AgentAction
    → IntentContract
    → Option PolicyDelegationContext
    → ℕ
    → List MatchedRule
unfolding scope_rules or_intent_allow reason_given mismatch_reason
contract_rules registry action contract d now =
    if contract.status == IntentStatus.revoked
    then deny_rule "RULE_INTENT_REVOKED"
        (Part.text "Intent Contract '"
          ∷ Part.text contract.intent_id
          ∷ Part.text "' has been revoked. ("
          ∷ Part.text (reason_given contract.revoked_reason)
          ∷ Part.text ")"
          ∷ [])
        95
      ∷ []
    else if contract.status == IntentStatus.expired || deadline_passed contract.expires_at now
    then deny_rule "RULE_INTENT_EXPIRED"
        (Part.text "Intent Contract '"
          ∷ Part.text contract.intent_id
          ∷ Part.text "' expired at "
          ∷ Part.time contract.expires_at
          ∷ Part.text "."
          ∷ [])
        95
      ∷ []
    else if contract.status == IntentStatus.completed
    then deny_rule "RULE_INTENT_COMPLETED"
        (Part.text "Intent Contract '"
          ∷ Part.text contract.intent_id
          ∷ Part.text "' is completed and no longer authorizes actions."
          ∷ [])
        90
      ∷ []
    else if (not (is_valid_delegated action d) && differs contract.agent_id action.agent_id)
        || differs contract.session_id action.session_id
    then deny_rule "RULE_INTENT_MISMATCH" (mismatch_reason action contract) 95 ∷ []
    else if action.action_type == ActionType.delegation
    then or_intent_allow []
    else if leb contract.maximum_tool_calls contract.tool_calls_count
    then deny_rule "RULE_TOOL_BUDGET_EXCEEDED"
        (Part.text "Tool call budget exceeded: "
          ∷ Part.number contract.tool_calls_count
          ∷ Part.text "/"
          ∷ Part.number contract.maximum_tool_calls
          ∷ Part.text " executions consumed."
          ∷ [])
        85
      ∷ []
    else or_intent_allow (scope_rules registry action contract)

if_there :
    ToolRegistry
    → AgentAction
    → Option IntentContract
    → Bool
    → Option PolicyDelegationContext
    → ℕ
    → List MatchedRule
if_there registry action (some contract) require_intent d now =
    contract_rules registry action contract d now
if_there registry action none require_intent d now = when require_intent (
    rule "RULE_INTENT_MISSING" PolicyDecision.deny
      "Protected session requires a valid, active Intent Contract." 95)

unfoldable pub evaluate_intent :
    ToolRegistry
    → AgentAction
    → Option IntentContract
    → Bool
    → Bool
    → Option PolicyDelegationContext
    → ℕ
    → List MatchedRule
unfolding if_there
evaluate_intent registry action contract require_intent intent_mismatch d now =
    if intent_mismatch
    then rule "RULE_INTENT_MISMATCH" PolicyDecision.deny
        "Intent Contract binding mismatch: supplied intent reference or session/agent binding does not match authoritative server state."
        95
      ∷ []
    else if_there registry action contract require_intent d now
