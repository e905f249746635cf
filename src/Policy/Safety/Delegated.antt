-- ===== src/Policy/Safety/Delegated.antt =====
-- backend/app/policies/rules.py: what the delegation rules let through.
use text.Mathlib.TextEquality.{eq_iff}
use cage_agent_security.Prelude.{
  ℕ, ◌≡◌, ◌≢◌, refl, sym, ap, ◌∙◌, true, false, not, ◌||◌, ◌&&◌, String, Option, some, arith,
}
use cage_agent_security.Prelude.Tests.{is_some}
use cage_agent_security.Prelude.Lists.{any}
use cage_agent_security.Prelude.Eq.{◌==◌, string_eq}
use cage_agent_security.Enums.{PolicyDecision}
use cage_agent_security.Enums.Same.{policy_decision_eq}
use cage_agent_security.Action.{AgentAction}
use cage_agent_security.Intent.{IntentContract}
use cage_agent_security.Registry.{ToolRegistry}
use cage_agent_security.Policy.Contexts.{PolicyDelegationContext}
use cage_agent_security.Policy.Rule.{SecurityDecision}
use cage_agent_security.Policy.Severity.{denies, denies-append, denies-when}
use cage_agent_security.Policy.DelegationRules.{
  delegation_rules, operation_rules, create_grant_rules, execute_action_rules,
  effective_status_rules,
}
use cage_agent_security.Policy.Evaluator.{Evaluation, evaluate}
use cage_agent_security.Policy.Safety.{not_denied-Quiet}

-- The facts that a delegated execution needs.
pub record Executes (c : PolicyDelegationContext) : Type 0 where
  pub principal : c.principal_matches_delegatee ≡ true
  pub not_revoked : c.effective_status ≢ "REVOKED"
  pub not_closed : c.effective_status ≢ "CLOSED"
  pub not_expired : c.effective_status ≢ "EXPIRED"
  pub not_consumed : c.effective_status ≢ "CONSUMED"
  pub root_valid : c.effective_status ≢ "ROOT_INVALID"
  pub ancestors_valid : c.effective_status ≢ "ANCESTOR_INVALID"
  pub budget : c.budget_available ≡ true
  pub tool : c.current_tool_within_effective_authority ≡ true
  pub resource : c.current_resource_within_effective_authority ≡ true
  pub environment : c.current_environment_within_effective_authority ≡ true
  pub classification : c.current_classification_within_effective_authority ≡ true
  pub analysed : c.analysis_status ≢ "FAILED"

-- The facts that the creation of a grant needs.
pub record Creates (c : PolicyDelegationContext) : Type 0 where
  pub issuer : c.caller_is_authorized_issuer ≡ true
  pub parent :
      (id : String)
      → c.parent_delegation_id ≡ some id
      → (c.parent_grant_valid ≡ true) × (c.subdelegation_allowed ≡ true)
  pub session : c.cross_session_match ≡ true
  pub depth : c.depth_within_limits ≡ true
  pub within_parent : c.scope_within_parent ≡ true
  pub within_root : c.scope_within_root ≡ true
  pub analysed : c.analysis_status ≢ "FAILED"

-- The values of the status that the rules deny.
status-denies :
    (status : String)
    → denies (effective_status_rules status) ≡ (
        status == "REVOKED"
        || (status == "CLOSED"
            || (status == "EXPIRED"
                || (status == "CONSUMED"
                    || (status == "ROOT_INVALID" || status == "ANCESTOR_INVALID")))))
unfolding effective_status_rules denies any
status-denies status = ground arith

execute-denies :
    (c : PolicyDelegationContext)
    → denies (execute_action_rules c) ≡ (
        not c.principal_matches_delegatee
        || (denies (effective_status_rules c.effective_status)
            || (not c.budget_available
                || (not c.current_tool_within_effective_authority
                    || (not c.current_resource_within_effective_authority
                        || (not c.current_environment_within_effective_authority
                            || not c.current_classification_within_effective_authority))))))
unfolding execute_action_rules
execute-denies c = simp (denies-append, denies-when) (ground arith)

create-denies :
    (c : PolicyDelegationContext)
    → denies (create_grant_rules c) ≡ (
        not c.caller_is_authorized_issuer
        || ((is_some c.parent_delegation_id && not c.parent_grant_valid)
            || (not c.cross_session_match
                || ((is_some c.parent_delegation_id && not c.subdelegation_allowed)
                    || (not c.depth_within_limits
                        || (not c.scope_within_parent || not c.scope_within_root))))))
unfolding create_grant_rules
create-denies c = simp (denies-append, denies-when) (ground arith)

delegated-denies :
    (c : PolicyDelegationContext)
    → c.is_delegated ≡ true
    → denies (delegation_rules c) ≡ (denies (operation_rules c) || c.analysis_status == "FAILED")
unfolding delegation_rules
delegated-denies c h = rw h (simp (denies-append, denies-when) (ground arith))

execute_lem :
    (c : PolicyDelegationContext)
    → c.operation ≡ "EXECUTE_ACTION"
    → operation_rules c ≡ execute_action_rules c
unfolding delegation_rules
execute_lem c op = rw (operation_rules, op) refl

create_lem :
    (c : PolicyDelegationContext)
    → c.operation ≡ "CREATE_GRANT"
    → operation_rules c ≡ create_grant_rules c
unfolding delegation_rules
create_lem c op = rw (operation_rules, op) refl

module _ (registry : ToolRegistry) (action : AgentAction) (contract : Option IntentContract)
    (e : Evaluation) (now : ℕ) (d : SecurityDecision) (c : PolicyDelegationContext) where
  quiet_operation :
      evaluate registry action contract e now ≡ some d
      → d.decision ≢ PolicyDecision.deny
      → e.delegation_context ≡ some c
      → c.is_delegated ≡ true
      → (denies (operation_rules c) ≡ false) × (c.analysis_status ≢ "FAILED")
  quiet_operation h ne given delegated =
      let q = not_denied-Quiet registry action contract e now d h ne in
      let quiet : denies (delegation_rules c) ≡ false = ground (arith, q.delegation) in
      (
        ground (arith, delegated-denies c delegated),
        ground (arith, delegated-denies c delegated, eq_iff c.analysis_status "FAILED"),
      )

  -- A delegated execution whose decision is not DENY: the caller is the delegatee, the effective
  -- status is none that the rules know as bad, the budget is there, the tool, the resource, the
  -- environment and the classification are within the live authority, and the analysis did not fail.
  pub delegated_execution_holds :
      evaluate registry action contract e now ≡ some d
      → d.decision ≢ PolicyDecision.deny
      → e.delegation_context ≡ some c
      → c.is_delegated ≡ true
      → c.operation ≡ "EXECUTE_ACTION"
      → Executes c
  unfolding delegation_rules
  delegated_execution_holds h ne given delegated op =
      let (quiet, fine) = quiet_operation h ne given delegated in
      let rules : denies (execute_action_rules c) ≡ false =
        ap denies (sym (execute_lem c op)) ∙ quiet in
      let all = sym (execute-denies c) ∙ rules in
      record {
        principal = ground arith;
        not_revoked =
            ground (arith, status-denies c.effective_status, eq_iff c.effective_status "REVOKED");
        not_closed =
            ground (arith, status-denies c.effective_status, eq_iff c.effective_status "CLOSED");
        not_expired =
            ground (arith, status-denies c.effective_status, eq_iff c.effective_status "EXPIRED");
        not_consumed =
            ground (arith, status-denies c.effective_status, eq_iff c.effective_status "CONSUMED");
        root_valid =
            ground
              (arith, status-denies c.effective_status, eq_iff c.effective_status "ROOT_INVALID");
        ancestors_valid =
            ground (
              arith,
              status-denies c.effective_status,
              eq_iff c.effective_status "ANCESTOR_INVALID",
            );
        budget = ground arith;
        tool = ground arith;
        resource = ground arith;
        environment = ground arith;
        classification = ground arith;
        analysed = fine;
      }

  -- The creation of a grant whose decision is not DENY: the caller may issue it, a parent that is
  -- named is valid and allows subdelegation, the sessions agree, the depth and the scopes are within
  -- the limits of the parent and of the root, and the analysis did not fail.
  pub delegated_creation_holds :
      evaluate registry action contract e now ≡ some d
      → d.decision ≢ PolicyDecision.deny
      → e.delegation_context ≡ some c
      → c.is_delegated ≡ true
      → c.operation ≡ "CREATE_GRANT"
      → Creates c
  unfolding delegation_rules
  delegated_creation_holds h ne given delegated op =
      let (quiet, fine) = quiet_operation h ne given delegated in
      let rules : denies (create_grant_rules c) ≡ false =
        ap denies (sym (create_lem c op)) ∙ quiet in
      let all = sym (create-denies c) ∙ rules in
      record {
        issuer = ground arith;
        parent = λ id k. ground arith;
        session = ground arith;
        depth = ground arith;
        within_parent = ground arith;
        within_root = ground arith;
        analysed = fine;
      }
