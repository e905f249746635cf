-- ===== src/Services/DelegationService/Revalidation/Ancestors.antt =====
-- backend/app/delegation/service.py: the checks of `resolve_delegation_approval` on the chain of the
-- parent, in its order.
use cage_agent_security.Prelude.{ℕ, ◌+◌, Bool, true, String, none, some, List, [], ◌∷◌, ◌&&◌, not}
use cage_agent_security.Prelude.Tests.{leb, ltb}
use cage_agent_security.Prelude.Lists.{is_empty}
use cage_agent_security.Prelude.Eq.{◌==◌, issubset, string_eq}
use cage_agent_security.Enums.{DelegationStatus}
use cage_agent_security.Enums.Same.{
  delegation_status_eq, trajectory_status_eq, target_environment_eq, data_classification_eq,
}
use cage_agent_security.Intent.{IntentContract}
use cage_agent_security.Delegation.Models.{
  DelegationGrant, DelegationProposal, DelegationRuntimeState,
}
use cage_agent_security.Delegation.Chain
use cage_agent_security.Delegation.Chain.{Result, StoreError, default_max_depth}
use cage_agent_security.Delegation.Analyzer.{
  compute_live_effective_authority, is_resource_scope_subset,
}
use cage_agent_security.Policy.Rule.{Part}
use cage_agent_security.Services.DelegationService.{Settings, expiry, seconds, smaller}
use cage_agent_security.Services.DelegationService.Revalidation.Verdicts.{
  del, Refusal, stale, stale_at, Verdict, refused, require, same_option,
}

-- `grants[idx].parent_delegation_id == grants[idx - 1].delegation_id` from the second grant on.
unfoldable pub linked : DelegationGrant → List DelegationGrant → Bool
linked g [] = true
linked g (h ∷ hs) = same_option h.parent_delegation_id (some g.delegation_id) && linked h hs

abbrev pub last_grant : DelegationGrant → List DelegationGrant → DelegationGrant
last_grant g [] = g
last_grant g (h ∷ hs) = last_grant h hs

-- `grants[:-1]`
abbrev pub all_but_last : DelegationGrant → List DelegationGrant → List DelegationGrant
all_but_last g [] = []
all_but_last g (h ∷ hs) = g ∷ all_but_last h hs

-- The loop over `zip(grants, states)`, with the checks that remain after it.
unfoldable pub check_ancestors :
    DelegationProposal
    → IntentContract
    → ℕ
    → List DelegationGrant
    → List DelegationRuntimeState
    → Verdict
    → Verdict
check_ancestors p root now [] states rest = rest
check_ancestors p root now (g ∷ gs) [] rest = rest
check_ancestors p root now (g ∷ gs) (st ∷ states) rest =
    require (g.session_id == p.session_id && g.root_intent_id == root.intent_id) del
      (stale "Ancestor delegation belongs to different session or root Intent.")
      (require (st.status == DelegationStatus.active) del
        (stale_at "Ancestor delegation grant " (Part.text g.delegation_id) " is revoked or closed.")
        (require (not (leb g.expires_at now)) del
          (stale_at "Ancestor delegation grant " (Part.text g.delegation_id) " has expired.")
          (require (not (leb g.max_actions st.actions_executed_count)) del
            (stale_at "Ancestor delegation grant " (Part.text g.delegation_id)
              " action budget is exhausted.")
            (check_ancestors p root now gs states rest))))

unfoldable pub check_permissions : List DelegationGrant → Verdict → Verdict
check_permissions [] rest = rest
check_permissions (g ∷ gs) rest =
    require g.allow_subdelegation del
      (stale_at "Ancestor grant " (Part.text g.delegation_id) " prohibits subdelegation.")
      (check_permissions gs rest)

-- `min(chain_expirations)`, the root's deadline included if it has one.
earliest : ℕ → List DelegationGrant → ℕ
earliest best [] = best
earliest best (g ∷ gs) = earliest (smaller best g.expires_at) gs

unfoldable pub effective_expiry : IntentContract → DelegationGrant → List DelegationGrant → ℕ
unfolding earliest
effective_expiry root g gs = elim root.expires_at [
  | none ↦ earliest g.expires_at gs
  | some deadline ↦ smaller (earliest g.expires_at gs) deadline
]

abbrev stale_because : List Part → Refusal
stale_because reason = record {
  status = "STALE_AUTHORITY";
  rule = "RULE_DELEGATION_APPROVAL_STALE_AUTHORITY";
  reason = reason;
}

-- The text of what `get_chain` raises; the other constructors do not come from it.
message : StoreError → List Part
message (Chain.cycle_detected id) = Part.text "Delegation cycle detected at " ∷ Part.text id ∷ []
message (Chain.depth_exceeded id) =
    Part.text "Delegation chain exceeded max traversal depth " ∷ Part.number default_max_depth ∷ []
message (Chain.already_exists id) = []
message (Chain.key_error id) = []
message Chain.out_of_fuel = []

module _ (settings : Settings) (p : DelegationProposal) (root : IntentContract) (now : ℕ) where
  -- The immediate parent, and its live authority across the chain.
  unfoldable pub check_parent : DelegationGrant → List DelegationGrant → Verdict → Verdict
  check_parent g gs rest =
      let parent = last_grant g gs in
      let live = compute_live_effective_authority parent (all_but_last g gs) root in
      require (parent.allow_subdelegation && not (leb parent.remaining_subdelegation_depth 0)) del
        (stale "Parent delegation grant explicitly prohibits subdelegation or depth is exhausted.")
        (require (not (ltb settings.max_session_delegation_depth (parent.depth + 1))) del
          (stale "Requested delegation depth exceeds session delegation depth limit.")
          (require (issubset p.requested_tools live.allowed_tools) del
            (stale "Requested tools exceed live effective parent authority across ancestor chain.")
            (require
              (is_resource_scope_subset p.requested_resource_scope.mode
                p.requested_resource_scope.allowed_resources live.resource_scope)
              del
              (stale
                "Requested resource scope exceeds live effective parent authority across ancestor chain.")
              (require (issubset p.requested_environments live.allowed_environments) del
                (stale
                  "Requested environments exceed live effective parent authority across ancestor chain.")
                (require (issubset p.requested_classifications live.allowed_data_classifications)
                  del
                  (stale
                    "Requested data classifications exceed live effective parent authority across ancestor chain.")
                  (require (not (ltb parent.max_actions p.requested_max_actions)) del
                    (stale "Parent grant authority narrowed; proposal exceeds parent max actions.")
                    (require
                      (not (
                        ltb (effective_expiry root g gs + seconds 1)
                          (expiry now p.requested_ttl_seconds)))
                      del
                      (stale "Requested delegation expiration exceeds ancestor chain expiration.")
                      rest)))))))

  -- The chain of the parent, from its root on, with its states.
  unfoldable pub check_chain :
      String
      → List DelegationGrant
      → List DelegationRuntimeState
      → (DelegationGrant → Verdict)
      → Verdict
  unfolding check_parent
  check_chain parent_id [] states rest =
      refused del (stale "Parent delegation grant hierarchy not found.")
  check_chain parent_id (g ∷ gs) states rest =
      require (not (is_empty states)) del (stale "Parent delegation grant hierarchy not found.") (
        require (same_option g.parent_delegation_id none) del
          (stale "Ancestor delegation chain is structurally disconnected from root.")
          (require (linked g gs) del
            (stale "Ancestor delegation chain has a broken structural link.")
            (require ((last_grant g gs).delegation_id == parent_id) del
              (stale "Parent delegation ID does not match terminal chain grant.")
              (check_ancestors p root now (g ∷ gs) states (
                check_permissions (all_but_last g gs)
                  (check_parent g gs (rest (last_grant g gs))))))))

  unfoldable pub check_read :
      String
      → Result (List DelegationGrant × List DelegationRuntimeState)
      → (DelegationGrant → Verdict)
      → Verdict
  unfolding check_chain message
  check_read parent_id (Chain.err e) rest =
      refused del (stale_because (Part.text "Delegation ancestry validation error: " ∷ message e))
  check_read parent_id (Chain.ok (grants, states)) rest = check_chain parent_id grants states rest
