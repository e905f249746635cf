-- ===== src/Policy/DelegationInput/Within.antt =====
-- From the rules back to the grants: backend/app/policies/policy_input.py and rules.py with
-- backend/app/delegation/analyzer.py.
use text.Mathlib.TextEquality.{eq_iff}
use cage_agent_security.Prelude.{
  ℕ, ◌≡◌, ◌≢◌, refl, true, false, ◌||◌, String, Option, some, List, [], ◌∷◌, arith,
}
use cage_agent_security.Prelude.Lists.{All, any}
use cage_agent_security.Prelude.Eq.{◌==◌, string_eq, contains_of_issubset}
use cage_agent_security.Enums.{EffectiveDelegationStatus, PolicyDecision}
use cage_agent_security.Enums.Same.{data_classification_eq, target_environment_eq}
use cage_agent_security.Enums.Values.{effective_status_value}
use cage_agent_security.Principal.{AgentPrincipal}
use cage_agent_security.Action.{AgentAction}
use cage_agent_security.Registry.{ToolRegistry}
use cage_agent_security.Authority.{
  AuthorityEnvelope, is_tool_allowed, is_resource_allowed, is_environment_allowed,
  is_classification_allowed,
}
use cage_agent_security.Authority.Laws.{Covers}
use cage_agent_security.Intent.{IntentContract}
use cage_agent_security.Delegation.Models.{
  DelegationGrant, DelegationProposal, DelegationRuntimeState,
}
use cage_agent_security.Delegation.Analyzer.{
  is_authorized_issuer, compute_effective_status, compute_live_effective_authority,
}
use cage_agent_security.Delegation.Proposal.{
  check_scope_subset_parent, check_scope_subset_root, is_tool_authorized, is_resource_authorized,
  is_environment_authorized, is_classification_authorized,
}
use cage_agent_security.Policy.Rule.{SecurityDecision}
use cage_agent_security.Policy.Evaluator.{Evaluation, evaluate}
use cage_agent_security.Policy.Safety.Delegated.{
  delegated_execution_holds, delegated_creation_holds,
}
use cage_agent_security.Policy.DelegationInput.{
  build_delegated_action_context, build_delegation_create_context, among_ancestors,
}

-- The status that no rule objects to.
only_active :
    (s : EffectiveDelegationStatus)
    → effective_status_value s ≢ "REVOKED"
    → effective_status_value s ≢ "CLOSED"
    → effective_status_value s ≢ "EXPIRED"
    → effective_status_value s ≢ "CONSUMED"
    → effective_status_value s ≢ "ROOT_INVALID"
    → effective_status_value s ≢ "ANCESTOR_INVALID"
    → s ≡ EffectiveDelegationStatus.active
only_active EffectiveDelegationStatus.active a b c d e f = refl
only_active EffectiveDelegationStatus.revoked a b c d e f = absurd (a refl)
only_active EffectiveDelegationStatus.closed a b c d e f = absurd (b refl)
only_active EffectiveDelegationStatus.expired a b c d e f = absurd (c refl)
only_active EffectiveDelegationStatus.consumed a b c d e f = absurd (d refl)
only_active EffectiveDelegationStatus.root_invalid a b c d e f = absurd (e refl)
only_active EffectiveDelegationStatus.ancestor_invalid a b c d e f = absurd (f refl)

tests-Covers :
    (scope : AuthorityEnvelope) (action : AgentAction)
    → is_tool_authorized scope action.tool_name ≡ true
    → is_resource_authorized scope action.target_resource ≡ true
    → is_environment_authorized scope action.target_environment ≡ true
    → is_classification_authorized scope action.data_classifications ≡ true
    → Covers scope action.tool_name action.target_resource action.target_environment
        action.data_classifications
unfolding is_tool_authorized is_resource_authorized is_environment_authorized
    is_classification_authorized is_tool_allowed is_resource_allowed is_environment_allowed
    is_classification_allowed
tests-Covers scope action t r v c = record {
  tool_allowed = t;
  resource_allowed = r;
  environment_allowed = v;
  classes_allowed = λ x k.
      contains_of_issubset action.data_classifications scope.allowed_data_classifications x c k;
}

-- An action that is evaluated with the context that the server builds for its grant, and is not
-- denied: the caller is the grant's delegatee, the analyzer finds the grant's effective status
-- ACTIVE, and the grant's live authority covers the tool, the resource, the environment and every
-- classification that the action declares.
pub delegated_action_within_authority :
    (registry : ToolRegistry) (action : AgentAction) (contract : Option IntentContract)
    (e : Evaluation) (now : ℕ) (d : SecurityDecision) (principal : AgentPrincipal)
    (grant : DelegationGrant) (state : DelegationRuntimeState) (root : IntentContract)
    (ancestors : List DelegationGrant) (ancestor_states : List DelegationRuntimeState) (built : ℕ)
    → evaluate registry action contract e now ≡ some d
    → d.decision ≢ PolicyDecision.deny
    → e.delegation_context
      ≡ some (
          build_delegated_action_context action principal grant state root ancestors ancestor_states
            built)
    → (principal.agent_id ≡ grant.delegatee_agent_id)
      × ((compute_effective_status grant state ancestors ancestor_states root built
            ≡ EffectiveDelegationStatus.active)
          × Covers
              (compute_live_effective_authority grant ancestors root)
              action.tool_name
              action.target_resource
              action.target_environment
              action.data_classifications)
unfolding build_delegated_action_context
delegated_action_within_authority registry action contract e now d principal grant state root
      ancestors ancestor_states built h ne given =
    let x =
      delegated_execution_holds registry action contract e now d
        (build_delegated_action_context action principal grant state root ancestors ancestor_states
          built)
        h ne given refl refl in
    (
      (eq_iff principal.agent_id grant.delegatee_agent_id).0 x.principal,
      (
        only_active (compute_effective_status grant state ancestors ancestor_states root built)
            x.not_revoked x.not_closed x.not_expired x.not_consumed x.root_valid x.ancestors_valid,
        tests-Covers (compute_live_effective_authority grant ancestors root) action x.tool
            x.resource x.environment x.classification,
      ),
    )

-- The agent takes no part in the grant.
abbrev pub Apart : String → DelegationGrant → Type 0
Apart agent a = (agent ≢ a.delegator_agent_id) × (agent ≢ a.delegatee_agent_id)

All-Apart :
    (agent : String) (ancestors : List DelegationGrant)
    → any (λ a. a.delegator_agent_id == agent || a.delegatee_agent_id == agent) ancestors ≡ false
    → All (Apart agent) ancestors
unfolding any
All-Apart agent [] h = tt
All-Apart agent (a ∷ ancestors) h = (
  (
    ground (arith, eq_iff a.delegator_agent_id agent),
    ground (arith, eq_iff a.delegatee_agent_id agent),
  ),
  All-Apart agent ancestors (ground arith),
)

-- The creation of a grant below a parent that is evaluated with the context that the server builds
-- for it, with the parent's chain of grants, and is not denied: the caller is an authorized issuer,
-- the parent allows subdelegation, the request is within the parent and within the root, and the new
-- delegatee is neither the root's agent nor an agent of a grant of the chain.
pub delegated_creation_adds_no_cycle :
    (registry : ToolRegistry) (action : AgentAction) (contract : Option IntentContract)
    (e : Evaluation) (now : ℕ) (d : SecurityDecision) (max_depth : ℕ)
    (proposal : DelegationProposal) (principal : AgentPrincipal) (root : IntentContract)
    (parent first : DelegationGrant) (rest : List DelegationGrant)
    → evaluate registry action contract e now ≡ some d
    → d.decision ≢ PolicyDecision.deny
    → e.delegation_context
      ≡ some (
          build_delegation_create_context max_depth proposal principal root
            (some parent)
            (first ∷ rest))
    → (is_authorized_issuer proposal principal root (some parent) ≡ true)
      × ((parent.allow_subdelegation ≡ true)
          × ((check_scope_subset_parent proposal (some parent) ≡ true)
              × ((check_scope_subset_root proposal root ≡ true)
                  × ((proposal.delegatee_agent_id ≢ root.agent_id)
                      × All (Apart proposal.delegatee_agent_id) (first ∷ rest)))))
unfolding build_delegation_create_context among_ancestors
delegated_creation_adds_no_cycle registry action contract e now d max_depth proposal principal root
      parent first rest h ne given =
    let x =
      delegated_creation_holds registry action contract e now d
        (build_delegation_create_context max_depth proposal principal root (some parent)
          (first ∷ rest))
        h ne given refl refl in
    let (valid, allows) = x.parent parent.delegation_id refl in
    let agent = proposal.delegatee_agent_id in
    (
      x.issuer,
      (
        allows,
        (
          x.within_parent,
          (
            x.within_root,
            (
              ground (arith, valid, eq_iff root.agent_id agent),
              All-Apart agent (first ∷ rest) (ground (arith, valid)),
            ),
          ),
        ),
      ),
    )
