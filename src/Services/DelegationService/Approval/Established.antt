-- ===== src/Services/DelegationService/Approval/Established.antt =====
-- backend/app/delegation/service.py: an approval issues a grant only from what holds at that moment.
use text.Mathlib.TextEquality.{eq_iff}
use cage_agent_security.Prelude.{◌≡◌, inl, inr, refl, Bool, String, Option, some, List, arith}
use cage_agent_security.Prelude.Tests.{Bool-cases, Option-cases}
use cage_agent_security.Prelude.Dict.{get}
use cage_agent_security.Prelude.Eq.{◌==◌, string_eq}
use cage_agent_security.Enums.{PolicyDecision}
use cage_agent_security.Principal.{AgentPrincipal}
use cage_agent_security.Intent.{IntentContract}
use cage_agent_security.Intent.Service.{get_intent}
use cage_agent_security.Delegation.Models.{DelegationGrant}
use cage_agent_security.Graph.{Edge}
use cage_agent_security.Services.DelegationService.{
  DelegationService, Settings, PendingApproval, DelegationCreateResponse, responded, HashedPayload,
}
use cage_agent_security.Services.DelegationService.Issue.{Stored, issue-Stored}
use cage_agent_security.Services.DelegationService.Revalidation.{
  Verdict, del, keep, refused, approved,
}
use cage_agent_security.Services.DelegationService.Approval.{
  ApprovalTimes, resolve_delegation_approval, resolved, dropped, conclude, approved_grant,
}
use cage_agent_security.Services.DelegationService.Approval.Checks.{
  Revalidated, revalidate-approved,
}

module _ (has_path : List Edge → String → String → Bool) (digest : HashedPayload → String)
    (settings : Settings) (request_id : String) (approver : AgentPrincipal) (grant_id : String)
    (t : ApprovalTimes) (s : DelegationService) (pending : PendingApproval) where
  -- What an approval that answered ALLOW has done.
  pub record Approves (decision : String) (s' : DelegationService) : Type 0 where
    pub root : IntentContract
    pub parent : Option DelegationGrant
    pub said : decision ≡ "APPROVED"
    pub known : (get_intent s.intent_service pending.root_intent_id t.looked_up).0 ≡ some root
    pub checks : Revalidated digest settings approver t s.store pending root parent
    pub issued : Stored s s' (
        approved_grant has_path digest settings request_id approver grant_id t pending.proposal root
          parent)

  conclude-Approves :
      (v : Verdict) (s0 s' : DelegationService) (r : DelegationCreateResponse)
      → conclude has_path digest settings request_id approver grant_id t s0 pending.proposal v
        ≡ (responded r, s')
      → r.decision ≡ PolicyDecision.allow
      → (root : IntentContract) × (parent : Option DelegationGrant) × (v ≡ approved root parent)
        × Stored s0 s' (
            approved_grant has_path digest settings request_id approver grant_id t pending.proposal
              root parent)
  unfolding conclude dropped
  conclude-Approves (refused del refusal) s0 s' r h allowed = absurd (ground (arith, h, allowed))
  conclude-Approves (refused keep refusal) s0 s' r h allowed = absurd (ground (arith, h, allowed))
  conclude-Approves (approved root parent) s0 s' r h allowed =
      let stored = (issue-Stored has_path _ s' root _ t.issued _ r h).0 in
      (root, parent, refl, record { free = stored.free; kept = stored.kept })

-- If an approval is answered ALLOW, then the request was pending and the decision was "APPROVED"; the
-- approver is the control plane, the user of the root contract or the security officer; the payload
-- is the one that was submitted; the root contract is active, of the same session, has calls left
-- and covers the request; and a named parent stands on a chain read from the store at that moment,
-- in which every grant is ACTIVE, in time and within its budget, every grant allows subdelegation,
-- and whose live authority covers every tool, resource, environment and classification of the
-- request. The grant that is stored is the one that the request comes to, under a new id.
pub approval_revalidated :
    (has_path : List Edge → String → String → Bool) (digest : HashedPayload → String)
    (settings : Settings) (request_id : String) (approver : AgentPrincipal) (grant_id : String)
    (t : ApprovalTimes) (s s' : DelegationService) (decision : String)
    (r : DelegationCreateResponse)
    → resolve_delegation_approval has_path digest settings request_id approver grant_id t s decision
      ≡ (responded r, s')
    → r.decision ≡ PolicyDecision.allow
    → (pending : PendingApproval) × (get s.pending_approvals request_id ≡ some pending)
      × Approves has_path digest settings request_id approver grant_id t s pending decision s'
unfolding resolve_delegation_approval resolved
approval_revalidated has_path digest settings request_id approver grant_id t s s' decision r h
      allowed =
    elim (Option-cases (get s.pending_approvals request_id)) [
      | inl missing ↦
          absurd (ground (arith, rw (missing, resolve_delegation_approval) at h, allowed))
      | inr (pending, e) ↦ elim (Bool-cases (decision == "APPROVED")) [
        | inr other ↦
            absurd (ground (arith, rw (e, resolve_delegation_approval, other) at h, allowed))
        | inl approves ↦
            let h1 = rw (e, resolve_delegation_approval, approves) at h in
            let (root, parent, passed, stored) =
              conclude-Approves has_path digest settings request_id approver grant_id t s pending _
                _ s' r h1 allowed in
            let (known, checks) =
              revalidate-approved has_path digest settings request_id approver grant_id t _ pending
                _ root parent passed in
            (
              pending,
              e,
              record {
                root = root;
                parent = parent;
                said = (eq_iff decision "APPROVED").0 approves;
                known = known;
                checks = checks;
                issued = record { free = stored.free; kept = stored.kept };
              },
            )
      ]
    ]
