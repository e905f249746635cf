-- ===== src/Services/DelegationService/Approval.antt =====
-- backend/app/delegation/service.py: `resolve_delegation_approval` and its alias, and the remaining
-- calls of the service.
pub mod Deletions
pub mod Once
pub mod Attenuation
pub mod Checks
pub mod Established
use mathlib.Core.Option.{get_or}
use cage_agent_security.Prelude.{
  ℕ, ◌+◌, ◌-◌, Bool, true, false, String, Option, none, some, List, [], ◌∷◌, ◌||◌, ◌&&◌, not,
}
use cage_agent_security.Prelude.Int.{ℤ, pos, negsuc}
use cage_agent_security.Prelude.Tests.{if◌then◌else◌, leb}
use cage_agent_security.Prelude.Eq.{◌==◌, string_eq}
use cage_agent_security.Prelude.Dict.{get, put, remove}
use cage_agent_security.Enums.{DelegationIssuanceSource, DelegationStatus, PolicyDecision}
use cage_agent_security.Principal.{AgentPrincipal}
use cage_agent_security.Intent.{IntentContract}
use cage_agent_security.Intent.Service.{get_intent}
use cage_agent_security.Delegation.Models.{DelegationGrant, DelegationProposal}
use cage_agent_security.Delegation.Store.{DelegationStore, get_grant, revoke, close, empty_store}
use cage_agent_security.Delegation.Analyzer.{is_authorized_to_revoke, is_authorized_to_close}
use cage_agent_security.Graph.{Edge}
use cage_agent_security.Policy.Rule.{Part}
use cage_agent_security.Services.DelegationService.{
  DelegationService, Settings, PendingApproval, DelegationCreateResponse, Reply, responded,
  HashedPayload, new_grant, mediator, issue,
}
use cage_agent_security.Services.DelegationService.Propose.{response, clamp}
use cage_agent_security.Services.DelegationService.Revalidation.{
  Refusal, Verdict, del, keep, refused, approved, require, stale, is_authorized_approver,
  hash_matches, bindings_match, check_root,
}

-- The readings of the clock: the lookup of the root contract, the checks, and the issue.
pub record ApprovalTimes : Type 0 where
  pub looked_up : ℕ
  pub checked : ℕ
  pub issued : ℕ

-- `requested_depth or maximum`, less one, and not below zero.
less_one : ℤ → ℕ
less_one (pos n) = n - 1
less_one (negsuc n) = 0

requested_or : Option ℤ → ℕ → ℤ
requested_or none maximum = pos maximum
requested_or (some (pos n)) maximum = if leb n 0 then pos maximum else pos n
requested_or (some (negsuc n)) maximum = negsuc n

unfoldable pub approved_remaining : ℕ → DelegationProposal → Option DelegationGrant → ℕ
unfolding less_one requested_or
approved_remaining max_depth p none =
    if p.allow_subdelegation then less_one (requested_or p.requested_depth max_depth) else 0
approved_remaining max_depth p (some parent) =
    if p.allow_subdelegation then parent.remaining_subdelegation_depth - 1 else 0

abbrev pub denial : String → Refusal → DelegationCreateResponse
denial request refusal =
    response PolicyDecision.deny none request refusal.status (refusal.rule ∷ [])
      (refusal.reason ∷ [])

abbrev pub identity_mismatch : Refusal
identity_mismatch = record {
  status = "DENIED";
  rule = "RULE_DELEGATION_APPROVAL_IDENTITY_MISMATCH";
  reason = Part.text "Approver principal is not authorized to approve this delegation." ∷ [];
}

abbrev pub rejected : Refusal
rejected = record {
  status = "REJECTED";
  rule = "RULE_DELEGATION_APPROVAL_REJECTED";
  reason = Part.text "Delegation proposal was rejected by reviewer." ∷ [];
}

abbrev pub not_pending : Refusal
not_pending = record {
  status = "REJECTED";
  rule = "RULE_DELEGATION_APPROVAL_STALE_AUTHORITY";
  reason = Part.text "Pending delegation approval checkpoint not found." ∷ [];
}

module _ (has_path : List Edge → String → String → Bool) (digest : HashedPayload → String)
    (settings : Settings) (request_id : String) (approver : AgentPrincipal) (grant_id : String)
    (t : ApprovalTimes) where
  unfoldable pub check_live :
      DelegationService → DelegationProposal → Option IntentContract → Verdict
  check_live s p none =
      refused del
        (stale "Root Intent Contract is inactive, expired, revoked, or session-mismatched.")
  check_live s p (some root) = check_root settings p root t.checked s

  unfoldable pub revalidate : DelegationService → PendingApproval → Option IntentContract → Verdict
  unfolding check_live
  revalidate s pending root = require (is_authorized_approver approver root) del identity_mismatch (
      require (hash_matches digest pending) del
        (stale "Proposal payload or requested scope was mutated between submission and approval.")
        (require (bindings_match pending) del
          (stale "Proposal bindings do not match stored approval checkpoint.")
          (check_live s pending.proposal root)))

  unfoldable pub approved_grant :
      DelegationProposal → IntentContract → Option DelegationGrant → DelegationGrant
  unfolding approved_remaining
  approved_grant p root parent =
      new_grant p root parent grant_id request_id
        (approved_remaining settings.max_session_delegation_depth p parent) (mediator approver)
        DelegationIssuanceSource.agent_direct t.issued

  -- `del self._pending_approvals[request_id]`
  unfoldable pub dropped : DelegationService → DelegationService
  dropped s = record s { pending_approvals = remove s.pending_approvals request_id }

  -- A refusal deletes the checkpoint where its own return says so; a grant is issued after it is
  -- deleted.
  unfoldable pub conclude :
      DelegationService → DelegationProposal → Verdict → Reply × DelegationService
  unfolding approved_grant dropped
  conclude s p (refused del refusal) = (responded (denial request_id refusal), dropped s)
  conclude s p (refused keep refusal) = (responded (denial request_id refusal), s)
  conclude s p (approved root parent) =
      issue has_path (dropped s) root (approved_grant p root parent) t.issued (
        response PolicyDecision.allow (some grant_id) request_id "ACTIVE"
          ("RULE_DELEGATION_APPROVAL_RESOLVED" ∷ [])
          ((Part.text "Delegation approved and successfully revalidated." ∷ []) ∷ []))

  unfoldable pub resolved : DelegationService → PendingApproval → Reply × DelegationService
  unfolding revalidate conclude
  resolved s pending =
      let (root, intents) = get_intent s.intent_service pending.root_intent_id t.looked_up in
      let s' = record s { intent_service = intents } in
      conclude s' pending.proposal (revalidate s' pending root)

  unfoldable pub resolve_delegation_approval :
      DelegationService → String → Reply × DelegationService
  unfolding dropped resolved
  resolve_delegation_approval s decision = elim (get s.pending_approvals request_id) [
    | none ↦ (responded (denial request_id not_pending), s)
    | some pending ↦
        if decision == "APPROVED"
        then resolved s pending
        else (responded (denial request_id rejected), dropped s)
  ]

-- The calls on a grant that is there.
module _ (s : DelegationService) (id : String) (principal : AgentPrincipal) where
  unfoldable pub revoke_delegation : Option String → ℕ → ℕ → Bool × DelegationService
  revoke_delegation reason looked_up now = elim (get_grant s.store id) [
    | none ↦ (false, s)
    | some grant ↦
        let (root, intents) = get_intent s.intent_service grant.root_intent_id looked_up in
        let s' = record s { intent_service = intents } in
        elim root [
          | none ↦ (false, s')
          | some root ↦
              if not (is_authorized_to_revoke grant principal root)
              then (false, s')
              else let (done, store) = revoke s.store id principal.agent_id reason now in
                (done, record s' { store = store })
        ]
  ]

  unfoldable pub close_delegation : ℕ → Bool × DelegationService
  close_delegation now = elim (get_grant s.store id) [
    | none ↦ (false, s)
    | some grant ↦
        if not (is_authorized_to_close grant principal)
        then (false, s)
        else let (done, store) = close s.store id principal.agent_id now in
          (done, record s { store = store })
  ]

unfoldable pub clear_delegations : DelegationService → DelegationService
clear_delegations s = record s { store = empty_store; pending_approvals = [] }
