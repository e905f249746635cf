-- ===== src/Services/DelegationService/Approval/Once.antt =====
-- backend/app/delegation/service.py: a checkpoint is resolved once.
use text.Mathlib.TextEquality.{eq_iff}
use cage_agent_security.Prelude.{
  ℕ, ◌≡◌, refl, inl, inr, Bool, String, Option, none, some, List, arith,
}
use cage_agent_security.Prelude.Tests.{if◌then◌else◌, Bool-cases, Option-cases}
use cage_agent_security.Prelude.Dict.{get, remove, get-remove}
use cage_agent_security.Prelude.Eq.{◌==◌, string_eq, ==-refl}
use cage_agent_security.Principal.{AgentPrincipal}
use cage_agent_security.Intent.{IntentContract}
use cage_agent_security.Delegation.Models.{DelegationGrant, DelegationProposal}
use cage_agent_security.Delegation.Chain
use cage_agent_security.Delegation.Chain.{Result}
use cage_agent_security.Delegation.Store.{DelegationStore, create_grant}
use cage_agent_security.Graph.{Edge}
use cage_agent_security.Services.DelegationService.{
  DelegationService, PendingApproval, Settings, DelegationCreateResponse, responded, HashedPayload,
  issue, after_create,
}
use cage_agent_security.Services.DelegationService.Revalidation.{
  Verdict, del, keep, refused, approved,
}
use cage_agent_security.Services.DelegationService.Approval.Deletions.{
  Deletes, require-Deletes, check_root-Deletes,
}
use cage_agent_security.Services.DelegationService.Approval
use cage_agent_security.Services.DelegationService.Approval.{
  ApprovalTimes, resolve_delegation_approval, revalidate, check_live, conclude, dropped, denial,
  not_pending,
}

-- Issuing a grant leaves the checkpoints alone.
after_create-pending :
    (has_path : List Edge → String → String → Bool) (s : DelegationService) (root : IntentContract)
    (grant : DelegationGrant) (now : ℕ) (response : DelegationCreateResponse)
    (made : Result DelegationGrant × DelegationStore)
    → (after_create has_path s root grant now response made).1.pending_approvals
      ≡ s.pending_approvals
unfolding after_create
after_create-pending has_path s root grant now response (Chain.err e, store) = refl
after_create-pending has_path s root grant now response (Chain.ok g, store) = refl

pub issue-pending :
    (has_path : List Edge → String → String → Bool) (s : DelegationService) (root : IntentContract)
    (grant : DelegationGrant) (now : ℕ) (response : DelegationCreateResponse)
    → (issue has_path s root grant now response).1.pending_approvals ≡ s.pending_approvals
unfolding issue
issue-pending has_path s root grant now response =
    after_create-pending has_path s root grant now response (create_grant s.store grant none)

module _ (has_path : List Edge → String → String → Bool) (digest : HashedPayload → String)
    (settings : Settings) (request_id : String) (approver : AgentPrincipal) (grant_id : String)
    (t : ApprovalTimes) where
  revalidate-Deletes :
      (s : DelegationService) (pending : PendingApproval) (root : Option IntentContract)
      → Deletes (revalidate has_path digest settings request_id approver grant_id t s pending root)
  unfolding revalidate check_live
  revalidate-Deletes s pending none =
      require-Deletes _ _ _ (require-Deletes _ _ _ (require-Deletes _ _ _ tt))
  revalidate-Deletes s pending (some root) = require-Deletes _ _ _ (
      require-Deletes _ _ _
        (require-Deletes _ _ _ (check_root-Deletes settings pending.proposal root t.checked s)))

  conclude-pending :
      (s : DelegationService) (p : DelegationProposal) (v : Verdict)
      → Deletes v
      → (conclude has_path digest settings request_id approver grant_id t s p v).1.pending_approvals
        ≡ remove s.pending_approvals request_id
  unfolding conclude dropped
  conclude-pending s p (refused del refusal) d = refl
  conclude-pending s p (refused keep refusal) d = absurd d
  conclude-pending s p (approved root parent) d = issue-pending has_path _ root _ t.issued _

  resolve-pending :
      (s : DelegationService) (decision : String) (j : String)
      → get
          (resolve_delegation_approval has_path digest settings request_id approver grant_id t s
            decision).1.pending_approvals
          j
        ≡ (if request_id == j then none else get s.pending_approvals j)
  unfolding resolve_delegation_approval dropped Approval.resolved
  resolve-pending s decision j = elim (Option-cases (get s.pending_approvals request_id)) [
    | inl missing ↦ rw (missing, resolve_delegation_approval) (ground (arith, eq_iff request_id j))
    | inr (pending, e) ↦ elim (Bool-cases (decision == "APPROVED")) [
      | inl approves ↦
          rw (e, resolve_delegation_approval, approves)
            (rw (conclude-pending _ pending.proposal _ (revalidate-Deletes _ pending _))
              (get-remove s.pending_approvals request_id j))
      | inr rejects ↦
          rw (e, resolve_delegation_approval, rejects) (get-remove s.pending_approvals request_id j)
    ]
  ]

no_checkpoint :
    (has_path : List Edge → String → String → Bool) (digest : HashedPayload → String)
    (settings : Settings) (request_id : String) (approver : AgentPrincipal) (grant_id : String)
    (t : ApprovalTimes) (s : DelegationService) (decision : String)
    → get s.pending_approvals request_id ≡ none
    → resolve_delegation_approval has_path digest settings request_id approver grant_id t s decision
      ≡ (responded (denial request_id not_pending), s)
unfolding resolve_delegation_approval
no_checkpoint has_path digest settings request_id approver grant_id t s decision missing =
    rw (missing, resolve_delegation_approval) refl

-- The state after a call: the other checkpoints are as they were, and whoever resolves the same
-- request again, with whatever decision and at whatever time, is told that it is not pending.
pub record ResolvedOnce (has_path : List Edge → String → String → Bool)
    (digest : HashedPayload → String) (settings : Settings) (request_id : String)
    (s s' : DelegationService) : Type 0 where
  pub others :
      (j : String)
      → get s'.pending_approvals j ≡ (if request_id == j then none else get s.pending_approvals j)
  pub again :
      (approver : AgentPrincipal) (grant_id decision : String) (t : ApprovalTimes)
      → resolve_delegation_approval has_path digest settings request_id approver grant_id t s'
          decision
        ≡ (responded (denial request_id not_pending), s')

-- A checkpoint is resolved once: after a call for a request, approved or not, issued or not, the
-- request has no checkpoint and the others have theirs; every further call for it is answered
-- REJECTED and changes nothing, so that one checkpoint never issues two grants.
pub approval-ResolvedOnce :
    (has_path : List Edge → String → String → Bool) (digest : HashedPayload → String)
    (settings : Settings) (request_id : String) (approver : AgentPrincipal)
    (grant_id decision : String) (t : ApprovalTimes) (s : DelegationService)
    → ResolvedOnce has_path digest settings request_id s
        (resolve_delegation_approval has_path digest settings request_id approver grant_id t s
          decision).1
approval-ResolvedOnce has_path digest settings request_id approver grant_id decision t s =
    let gone = resolve-pending has_path digest settings request_id approver grant_id t s decision in
    record {
      others = gone;
      again = λ approver' grant_id' decision' t'.
          no_checkpoint has_path digest settings request_id approver' grant_id' t' _ decision'
            (ground (arith, gone request_id, ==-refl request_id));
    }
