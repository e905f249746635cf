-- ===== src/Policy/DelegationRules.antt =====
-- backend/app/policies/rules.py: the rules on delegation, one list for each operation.
use cage_agent_security.Prelude.{ℕ, not, ◌&&◌, String, List, [], ◌∷◌, ◌++◌}
use cage_agent_security.Prelude.Tests.{if◌then◌else◌, is_some}
use cage_agent_security.Prelude.Eq.{◌==◌, string_eq}
use cage_agent_security.Enums.{PolicyDecision}
use cage_agent_security.Policy.Contexts.{PolicyApprovalFactContext, PolicyDelegationContext}
use cage_agent_security.Policy.Rule.{MatchedRule, rule, when}

-- A rule that denies.
abbrev denial : String → String → ℕ → MatchedRule
denial id reason risk = rule id PolicyDecision.deny reason risk

unfoldable pub create_grant_rules : PolicyDelegationContext → List MatchedRule
create_grant_rules d =
    when (not d.caller_is_authorized_issuer) (
      denial "RULE_DELEGATION_CALLER_NOT_AUTHORIZED"
        "Caller principal is not authorized to issue this delegation grant." 100)
    ++ (when (is_some d.parent_delegation_id && not d.parent_grant_valid) (
          denial "RULE_DELEGATION_INVALID_PARENT"
            "Referenced parent delegation grant does not exist or is invalid." 100)
        ++ (when (not d.cross_session_match) (
              denial "RULE_DELEGATION_CROSS_SESSION"
                "Delegation proposal references an intent or parent from a different session." 100)
            ++ (when (is_some d.parent_delegation_id && not d.subdelegation_allowed) (
                  denial "RULE_DELEGATION_SUBDELEGATION_NOT_ALLOWED"
                    "Parent delegation grant explicitly prohibits creating child subdelegations."
                    95)
                ++ (when (not d.depth_within_limits) (
                      denial "RULE_DELEGATION_DEPTH_EXCEEDED"
                        "Requested delegation depth exceeds maximum allowed session depth." 95)
                    ++ (when (not d.scope_within_parent) (
                          denial "RULE_DELEGATION_SCOPE_EXCEEDS_PARENT"
                            "Requested delegation authority exceeds parent grant envelope." 100)
                        ++ (when (not d.scope_within_root) (
                              denial "RULE_DELEGATION_SCOPE_EXCEEDS_ROOT"
                                "Requested delegation authority exceeds root Intent Contract scope."
                                100)
                            ++ when
                                (d.is_high_risk_delegation
                                  && (d.caller_is_authorized_issuer
                                      && (d.scope_within_root
                                          && (d.scope_within_parent
                                              && (d.depth_within_limits
                                                  && d.cross_session_match)))))
                                (rule "RULE_DELEGATION_REQUIRE_APPROVAL"
                                  PolicyDecision.require_approval
                                  "Delegation grants high-risk or approval-required capabilities."
                                  70)))))))

-- The chain of `elif`s on `effective_status`.
unfoldable pub effective_status_rules : String → List MatchedRule
effective_status_rules status =
    if status == "REVOKED"
    then denial "RULE_DELEGATION_REVOKED"
        "Delegation grant or an ancestor in its chain has been REVOKED." 100
      ∷ []
    else if status == "CLOSED"
    then denial "RULE_DELEGATION_CLOSED" "Delegation grant has been CLOSED upon completed task." 95
      ∷ []
    else if status == "EXPIRED"
    then denial "RULE_DELEGATION_EXPIRED" "Delegation grant TTL has expired." 95 ∷ []
    else if status == "CONSUMED"
    then denial "RULE_DELEGATION_BUDGET_EXHAUSTED"
        "Delegation grant action execution budget has been exhausted." 95
      ∷ []
    else if status == "ROOT_INVALID"
    then denial "RULE_DELEGATION_ROOT_INTENT_INVALID"
        "Root Intent Contract is inactive, expired, or revoked." 100
      ∷ []
    else if status == "ANCESTOR_INVALID"
    then denial "RULE_DELEGATION_INVALID_PARENT"
        "An ancestor grant in the delegation hierarchy is expired, consumed, or invalid." 100
      ∷ []
    else []

unfoldable pub execute_action_rules : PolicyDelegationContext → List MatchedRule
execute_action_rules d =
    when (not d.principal_matches_delegatee) (
      denial "RULE_DELEGATION_PRINCIPAL_MISMATCH"
        "Authenticated caller principal does not match grant delegatee." 100)
    ++ (effective_status_rules d.effective_status
        ++ (when (not d.budget_available) (
              denial "RULE_DELEGATION_BUDGET_EXHAUSTED"
                "Action budget on root intent or ancestor grant has been exhausted." 95)
            ++ (when (not d.current_tool_within_effective_authority) (
                  denial "RULE_DELEGATION_TOOL_NOT_AUTHORIZED"
                    "Requested tool is not authorized under live effective delegation authority."
                    100)
                ++ (when (not d.current_resource_within_effective_authority) (
                      denial "RULE_DELEGATION_RESOURCE_NOT_AUTHORIZED"
                        "Target resource is not authorized under live effective delegation scope."
                        100)
                    ++ (when (not d.current_environment_within_effective_authority) (
                          denial "RULE_DELEGATION_ENVIRONMENT_NOT_AUTHORIZED"
                            "Target environment is not authorized under live effective delegation scope."
                            100)
                        ++ when (not d.current_classification_within_effective_authority) (
                            denial "RULE_DELEGATION_CLASSIFICATION_NOT_AUTHORIZED"
                              "Data classification exceeds live effective delegation limits."
                              100))))))

unfoldable pub resolve_approval_rules : PolicyApprovalFactContext → List MatchedRule
resolve_approval_rules appr =
    if appr.approval_context_present
    then when (not appr.approval_identity_match) (
        denial "RULE_DELEGATION_APPROVAL_IDENTITY_MISMATCH"
          "Approver identity does not match designated approver for delegation checkpoint." 100)
      ++ when (not appr.approval_revalidation_passed) (
          denial "RULE_DELEGATION_APPROVAL_STALE_AUTHORITY"
            "Pre-execution revalidation failed; root intent or parent authority was modified or revoked."
            100)
    else []

unfoldable pub revoke_grant_rules : PolicyDelegationContext → List MatchedRule
revoke_grant_rules d = when (not d.caller_is_authorized_to_revoke) (
    denial "RULE_DELEGATION_REVOCATION_NOT_AUTHORIZED"
      "Caller is not authorized to revoke this delegation grant." 100)

pub operation_rules : PolicyDelegationContext → List MatchedRule
operation_rules d =
    if d.operation == "CREATE_GRANT"
    then create_grant_rules d
    else if d.operation == "EXECUTE_ACTION"
    then execute_action_rules d
    else if d.operation == "RESOLVE_APPROVAL"
    then resolve_approval_rules d.approval
    else if d.operation == "REVOKE_GRANT"
    then revoke_grant_rules d
    else []

-- Nothing is said of a context that is not delegated.
unfoldable pub delegation_rules : PolicyDelegationContext → List MatchedRule
unfolding operation_rules
delegation_rules d =
    if d.is_delegated
    then operation_rules d
      ++ when (d.analysis_status == "FAILED") (
          denial "RULE_DELEGATION_ANALYSIS_FAILED"
            "Delegation analysis failed or delegation invariants could not be verified." 100)
    else []
