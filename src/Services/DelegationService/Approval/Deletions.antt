-- ===== src/Services/DelegationService/Approval/Deletions.antt =====
-- backend/app/delegation/service.py: the checks of an approval that refuse delete the checkpoint.
use cage_agent_security.Prelude.{
  ℕ, inl, inr, Bool, true, false, String, Option, none, some, List, [], ◌∷◌,
}
use cage_agent_security.Prelude.Tests.{Option-cases}
use cage_agent_security.Prelude.Eq.{string_eq}
use cage_agent_security.Intent.{IntentContract}
use cage_agent_security.Delegation.Models.{
  DelegationGrant, DelegationProposal, DelegationRuntimeState,
}
use cage_agent_security.Delegation.Chain
use cage_agent_security.Delegation.Chain.{Result}
use cage_agent_security.Services.DelegationService.{DelegationService, Settings}
use cage_agent_security.Services.DelegationService.Revalidation.{
  Refusal, Verdict, del, keep, refused, approved, require, check_ancestors, check_permissions,
  all_but_last, last_grant, check_parent, check_chain, check_read, last_checks, check_trajectory,
  check_session_limit, check_ancestry, check_root_level, check_root,
}
use cage_agent_security.Trajectory.State.{make_key}
use cage_agent_security.Trajectory.Store.{get_trajectory_id, get_snapshot}

-- A verdict that, where it refuses, has deleted the checkpoint.
abbrev pub Deletes : Verdict → Type 0
Deletes (refused del refusal) = Unit {0}
Deletes (refused keep refusal) = ⊥
Deletes (approved root parent) = Unit {0}

pub require-Deletes :
    (holds : Bool) (refusal : Refusal) (rest : Verdict)
    → Deletes rest
    → Deletes (require holds del refusal rest)
unfolding require
require-Deletes true refusal rest d = d
require-Deletes false refusal rest d = tt

check_ancestors-Deletes :
    (p : DelegationProposal) (root : IntentContract) (now : ℕ) (gs : List DelegationGrant)
    (states : List DelegationRuntimeState) (rest : Verdict)
    → Deletes rest
    → Deletes (check_ancestors p root now gs states rest)
unfolding check_ancestors
check_ancestors-Deletes p root now [] states rest d = d
check_ancestors-Deletes p root now (g ∷ gs) [] rest d = d
check_ancestors-Deletes p root now (g ∷ gs) (st ∷ states) rest d = require-Deletes _ _ _ (
    require-Deletes _ _ _ (
      require-Deletes _ _ _
        (require-Deletes _ _ _ (check_ancestors-Deletes p root now gs states rest d))))

check_permissions-Deletes :
    (gs : List DelegationGrant) (rest : Verdict)
    → Deletes rest
    → Deletes (check_permissions gs rest)
unfolding check_permissions
check_permissions-Deletes [] rest d = d
check_permissions-Deletes (g ∷ gs) rest d =
    require-Deletes _ _ _ (check_permissions-Deletes gs rest d)

module _ (settings : Settings) (p : DelegationProposal) (root : IntentContract) (now : ℕ) where
  check_parent-Deletes :
      (g : DelegationGrant) (gs : List DelegationGrant) (rest : Verdict)
      → Deletes rest
      → Deletes (check_parent settings p root now g gs rest)
  unfolding check_parent
  check_parent-Deletes g gs rest d = require-Deletes _ _ _ (
      require-Deletes _ _ _ (
        require-Deletes _ _ _ (
          require-Deletes _ _ _ (
            require-Deletes _ _ _
              (require-Deletes _ _ _ (require-Deletes _ _ _ (require-Deletes _ _ _ d)))))))

  check_read-Deletes :
      (id : String) (chain : Result (List DelegationGrant × List DelegationRuntimeState))
      (rest : DelegationGrant → Verdict)
      → ((g : DelegationGrant) → Deletes (rest g))
      → Deletes (check_read settings p root now id chain rest)
  unfolding check_read check_chain
  check_read-Deletes id (Chain.err e) rest d = tt
  check_read-Deletes id (Chain.ok ([], states)) rest d = tt
  check_read-Deletes id (Chain.ok (g ∷ gs, states)) rest d = require-Deletes _ _ _ (
      require-Deletes _ _ _ (
        require-Deletes _ _ _ (
          require-Deletes _ _ _ (
            check_ancestors-Deletes p root now (g ∷ gs) states _ (
              check_permissions-Deletes (all_but_last g gs) _
                (check_parent-Deletes g gs _ (d (last_grant g gs))))))))

  last_checks-Deletes :
      (s : DelegationService) (parent : Option DelegationGrant)
      → Deletes (last_checks settings p root now s parent)
  unfolding last_checks check_trajectory check_session_limit
  last_checks-Deletes s parent =
      elim (Option-cases (
        get_trajectory_id s.trajectory_store
          (make_key p.session_id root.intent_id p.delegator_agent_id))) [
            | inl none_known ↦ rw (none_known, check_trajectory) (require-Deletes _ _ _ tt)
            | inr (id, known) ↦ elim (Option-cases (get_snapshot s.trajectory_store id)) [
              | inl missing ↦ rw (known, check_trajectory, missing) (require-Deletes _ _ _ tt)
              | inr (snapshot, found) ↦
                  rw (known, check_trajectory, found)
                    (require-Deletes _ _ _ (require-Deletes _ _ _ tt))
            ]
          ]

  check_ancestry-Deletes :
      (s : DelegationService) (named : Option String)
      → Deletes (check_ancestry settings p root now s named)
  unfolding check_ancestry check_root_level
  check_ancestry-Deletes s none =
      require-Deletes _ _ _ (require-Deletes _ _ _ (last_checks-Deletes s none))
  check_ancestry-Deletes s (some id) =
      check_read-Deletes id _ _ (λ g. last_checks-Deletes s (some g))

  pub check_root-Deletes : (s : DelegationService) → Deletes (check_root settings p root now s)
  unfolding check_root
  check_root-Deletes s = require-Deletes _ _ _ (
      require-Deletes _ _ _
        (require-Deletes _ _ _ (check_ancestry-Deletes s p.parent_delegation_id)))
