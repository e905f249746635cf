-- ===== src/Services/DelegationService/Propose.antt =====
-- backend/app/delegation/service.py: `propose_delegation`.
use mathlib.Core.Option.{get_or}
use cage_agent_security.Prelude.{
  ℕ, ◌-◌, Bool, false, String, Option, none, some, List, [], ◌∷◌, ◌||◌,
}
use cage_agent_security.Prelude.Int.{ℤ, pos, negsuc}
use cage_agent_security.Prelude.Tests.{if◌then◌else◌}
use cage_agent_security.Prelude.Eq.{◌==◌, string_eq}
use cage_agent_security.Prelude.Dict.{put}
use cage_agent_security.Enums.{
  ActionType, DelegationIssuanceSource, PolicyDecision, TargetEnvironment,
}
use cage_agent_security.Enums.Same.{policy_decision_eq}
use cage_agent_security.Principal.{AgentPrincipal}
use cage_agent_security.Action.{AgentAction}
use cage_agent_security.Intent.{IntentContract}
use cage_agent_security.Intent.Service.{IntentService, get_intent, get_active_intent_for_session}
use cage_agent_security.Delegation.Models.{DelegationGrant, DelegationProposal}
use cage_agent_security.Delegation.Chain
use cage_agent_security.Delegation.Chain.{Result, StoreError, get_chain, default_max_depth}
use cage_agent_security.Delegation.Store.{DelegationStore, get_grant}
use cage_agent_security.Graph.{Edge}
use cage_agent_security.Policy.Contexts.{PolicyDelegationContext}
use cage_agent_security.Policy.Rule.{Part, SecurityDecision}
use cage_agent_security.Policy.Evaluator.{Evaluation, evaluate}
use cage_agent_security.Policy.DelegationInput.{build_delegation_create_context}
use cage_agent_security.Services.DelegationService.{
  DelegationService, Settings, PendingApproval, DelegationCreateResponse, Reply, responded, raised,
  from_store, evaluator_raised, HashedPayload, hashed_payload, new_grant, mediator, issue,
}

-- The four readings of the clock: the lookup of the root contract, the check that it is still
-- active, the evaluation, and the issue or the checkpoint.
pub record Times : Type 0 where
  pub looked_up : ℕ
  pub rechecked : ℕ
  pub evaluated : ℕ
  pub issued : ℕ

unfoldable pub find_root :
    IntentService → DelegationProposal → Times → Option IntentContract × IntentService
find_root intents p t = elim p.root_intent_id [
  | some id ↦ get_intent intents id t.looked_up
  | none ↦ get_active_intent_for_session intents p.session_id t.looked_up t.rechecked
]

unfoldable pub find_parent : DelegationStore → DelegationProposal → Option DelegationGrant
find_parent store p = elim p.parent_delegation_id [ none ↦ none | some id ↦ get_grant store id ]

unfoldable pub find_ancestors : DelegationStore → DelegationProposal → Result (List DelegationGrant)
find_ancestors store p = elim p.parent_delegation_id [
  | none ↦ Chain.ok []
  | some id ↦ get_chain store.grants id default_max_depth
]

unfoldable pub normalized_action : DelegationProposal → IntentContract → String → AgentAction
normalized_action p root action_id = record {
  action_id = action_id;
  trajectory_id = none;
  delegation_id = none;
  agent_id = p.delegator_agent_id;
  session_id = p.session_id;
  user_id = none;
  intent_contract_id = some root.intent_id;
  action_type = ActionType.delegation;
  tool_name = "delegation.create";
  target_resource = none;
  target_environment = TargetEnvironment.development;
  parent_action_id = none;
  delegation_chain = [];
  data_classifications = [];
}

-- The other arguments of `evaluate` have their defaults.
unfoldable pub creation_evaluation : PolicyDelegationContext → Evaluation
creation_evaluation context = record {
  require_intent = false;
  intent_mismatch = false;
  graph_context = none;
  provenance_context = none;
  trajectory_context = none;
  delegation_context = some context;
}

-- `max(0, n)`
abbrev pub clamp : ℤ → ℕ
clamp (pos n) = n
clamp (negsuc n) = 0

unfoldable pub remaining_depth : ℕ → DelegationProposal → Option DelegationGrant → ℕ
remaining_depth max_depth p none =
    if p.allow_subdelegation then clamp (get_or p.requested_depth (pos max_depth)) else 0
remaining_depth max_depth p (some parent) =
    if p.allow_subdelegation then parent.remaining_subdelegation_depth - 1 else 0

abbrev pub issuance_source : AgentPrincipal → DelegationIssuanceSource
issuance_source principal =
    if principal.is_control_plane
    then DelegationIssuanceSource.control_plane_mediated
    else DelegationIssuanceSource.agent_direct

abbrev pub response :
    PolicyDecision
    → Option String
    → String
    → String
    → List String
    → List (List Part)
    → DelegationCreateResponse
response decision id request status rules reasons = record {
  decision = decision;
  delegation_id = id;
  delegation_request_id = request;
  status = status;
  matched_rules = rules;
  reasons = reasons;
}

module _ (has_path : List Edge → String → String → Bool) (digest : HashedPayload → String)
    (settings : Settings) (p : DelegationProposal) (principal : AgentPrincipal)
    (action_id grant_id : String) (t : Times) where
  unfoldable pub direct_grant : IntentContract → Option DelegationGrant → DelegationGrant
  unfolding remaining_depth
  direct_grant root parent =
      new_grant p root parent grant_id action_id
        (remaining_depth settings.max_session_delegation_depth p parent) (mediator principal)
        (issuance_source principal) t.issued

  unfoldable pub checkpoint : IntentContract → PendingApproval
  checkpoint root = record {
    action_id = action_id;
    proposal = p;
    principal = principal;
    root_intent_id = root.intent_id;
    session_id = p.session_id;
    delegator_agent_id = p.delegator_agent_id;
    delegatee_agent_id = p.delegatee_agent_id;
    parent_delegation_id = p.parent_delegation_id;
    payload_hash = digest (hashed_payload p);
    created_at = t.issued;
  }

  -- Step 6, by the verdict.
  unfoldable pub branch :
      DelegationService
      → IntentContract
      → Option DelegationGrant
      → SecurityDecision
      → Reply × DelegationService
  unfolding direct_grant checkpoint
  branch s root parent d =
      if d.decision == PolicyDecision.allow || d.decision == PolicyDecision.allow_with_limits
      then issue has_path s root (direct_grant root parent) t.issued
          (response d.decision (some grant_id) action_id "ACTIVE" d.matched_rules (d.reason ∷ []))
      else if d.decision == PolicyDecision.require_approval
      then (
        responded (
            response PolicyDecision.require_approval none action_id "PENDING_APPROVAL"
              d.matched_rules (d.reason ∷ [])),
        record s { pending_approvals = put s.pending_approvals action_id (checkpoint root) },
      )
      else (
        responded
            (response PolicyDecision.deny none action_id "DENIED" d.matched_rules (d.reason ∷ [])),
        s,
      )

  unfoldable pub with_verdict :
      DelegationService
      → IntentContract
      → Option DelegationGrant
      → Option SecurityDecision
      → Reply × DelegationService
  unfolding branch
  with_verdict s root parent none = (raised evaluator_raised, s)
  with_verdict s root parent (some d) = branch s root parent d

  unfoldable pub verdict :
      IntentContract → Option DelegationGrant → List DelegationGrant → Option SecurityDecision
  unfolding normalized_action creation_evaluation
  verdict root parent ancestors =
      evaluate settings.registry (normalized_action p root action_id) (some root)
        (creation_evaluation (
          build_delegation_create_context settings.max_session_delegation_depth p principal root
            parent ancestors))
        t.evaluated

  unfoldable pub with_chain :
      DelegationService → IntentContract → Result (List DelegationGrant) → Reply × DelegationService
  unfolding with_verdict verdict
  with_chain s root (Chain.err e) = (raised (from_store e), s)
  with_chain s root (Chain.ok ancestors) =
      with_verdict s root (find_parent s.store p) (verdict root (find_parent s.store p) ancestors)

  unfoldable pub with_root : DelegationService → Option IntentContract → Reply × DelegationService
  unfolding with_chain
  with_root s none = (
    responded (
        response PolicyDecision.deny none action_id "DENIED"
          ("RULE_DELEGATION_CALLER_NOT_AUTHORIZED" ∷ [])
          ((Part.text "No active Intent Contract found for session." ∷ []) ∷ [])),
    s,
  )
  with_root s (some root) = with_chain s root (find_ancestors s.store p)

  unfoldable pub propose_delegation : DelegationService → Reply × DelegationService
  unfolding with_root find_root
  propose_delegation s =
      let (root, intents) = find_root s.intent_service p t in
      with_root (record s { intent_service = intents }) root
