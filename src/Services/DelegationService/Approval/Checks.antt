-- ===== src/Services/DelegationService/Approval/Checks.antt =====
-- backend/app/delegation/service.py: what the checks of an approval have found when they all pass.
use mathlib.Core.Path.{subst}
use text.Mathlib.TextEquality.{eq_iff}
use cage_agent_security.Prelude.{
  ℕ, ◌<◌, ◌≡◌, ◌⊎◌, inl, inr, refl, ap, sym, ◌∙◌, Bool, true, String, Option, none, some, List, ◌∷◌,
  ◌||◌, arith,
}
use cage_agent_security.Prelude.Tests.{Bool-cases}
use cage_agent_security.Prelude.Eq.{◌==◌, string_eq}
use cage_agent_security.Principal.{AgentPrincipal}
use cage_agent_security.Intent.{IntentContract, is_active}
use cage_agent_security.Delegation.Models.{
  DelegationGrant, DelegationProposal, DelegationRuntimeState,
}
use cage_agent_security.Delegation.Chain
use cage_agent_security.Delegation.Chain.{Result, default_max_depth}
use cage_agent_security.Delegation.Proposal.{check_scope_subset_root}
use cage_agent_security.Delegation.Store.{DelegationStore, get_chain_with_states}
use cage_agent_security.Graph.{Edge}
use cage_agent_security.Services.DelegationService.{
  DelegationService, Settings, PendingApproval, HashedPayload, hashed_payload,
}
use cage_agent_security.Services.DelegationService.Revalidation.{
  approved, require, last_grant, check_read, check_root, check_ancestry, check_root_level,
  last_checks, check_trajectory, check_session_limit, is_authorized_approver, hash_matches,
  root_is_live, same_option,
}
use cage_agent_security.Services.DelegationService.Approval.{ApprovalTimes, revalidate, check_live}
use cage_agent_security.Services.DelegationService.Approval.Attenuation.{
  ParentHolds, require-approved, check_chain-approved,
}

-- The last checks pass on the contract and the parent that they were given.
last_checks-approved :
    (settings : Settings) (p : DelegationProposal) (r root : IntentContract) (now : ℕ)
    (s : DelegationService) (q parent : Option DelegationGrant)
    → last_checks settings p r now s q ≡ approved root parent
    → (root ≡ r) × (parent ≡ q)
unfolding last_checks check_trajectory check_session_limit require
last_checks-approved settings p r root now s q parent h = ground arith

module _ (settings : Settings) (p : DelegationProposal) (now : ℕ) (store : DelegationStore)
    (root : IntentContract) where
  -- What the chain of a named parent has passed.
  pub record BelowParent (id : String) (parent : Option DelegationGrant) : Type 0 where
    pub first : DelegationGrant
    pub rest : List DelegationGrant
    pub states : List DelegationRuntimeState
    pub read : get_chain_with_states store id default_max_depth ≡ Chain.ok (first ∷ rest, states)
    pub named : (last_grant first rest).delegation_id ≡ id
    pub is_parent : parent ≡ some (last_grant first rest)
    pub holds : ParentHolds settings p root now first rest states

  -- A request at root level has no parent; below a parent, the chain was read and holds.
  abbrev pub Ancestry : Option String → Option DelegationGrant → Type 0
  Ancestry none parent = parent ≡ none
  Ancestry (some id) parent = BelowParent id parent

module _ (settings : Settings) (p : DelegationProposal) (now : ℕ) (s : DelegationService)
    (root : IntentContract) where
  read-BelowParent :
      (r : IntentContract) (id : String) (parent : Option DelegationGrant)
      (chain : Result (List DelegationGrant × List DelegationRuntimeState))
      → get_chain_with_states s.store id default_max_depth ≡ chain
      → check_read settings p root now id chain (λ g. last_checks settings p root now s (some g))
        ≡ approved r parent
      → BelowParent settings p now s.store root id parent × (r ≡ root)
  unfolding check_read
  read-BelowParent r id parent (Chain.err e) is h = absurd (cc)
  read-BelowParent r id parent (Chain.ok (grants, states)) is h =
      let (g, gs, same, named, holds, end) =
        check_chain-approved r parent settings p root now id grants states _ h in
      let (root-eq, parent-eq) =
        last_checks-approved settings p root r now s (some (last_grant g gs)) parent end in
      (
        record {
          first = g;
          rest = gs;
          states = states;
          read = is ∙ ap (λ x. Chain.ok (x, states)) same;
          named = named;
          is_parent = parent-eq;
          holds = holds;
        },
        root-eq,
      )

  Ancestry-approved :
      (r : IntentContract) (named : Option String) (parent : Option DelegationGrant)
      → check_ancestry settings p root now s named ≡ approved r parent
      → Ancestry settings p now s.store root named parent × (r ≡ root)
  unfolding check_ancestry check_root_level
  Ancestry-approved r none parent h =
      let (_, h1) = require-approved _ _ _ _ r parent h in
      let (_, h2) = require-approved _ _ _ _ r parent h1 in
      let (root-eq, parent-eq) = last_checks-approved settings p root r now s none parent h2 in
      (parent-eq, root-eq)
  Ancestry-approved r (some id) parent h = read-BelowParent r id parent _ refl h

-- What an approval that passes all checks has found, at the times of the call.
pub record Revalidated (digest : HashedPayload → String) (settings : Settings)
    (approver : AgentPrincipal) (t : ApprovalTimes) (store : DelegationStore)
    (pending : PendingApproval) (root : IntentContract) (parent : Option DelegationGrant)
    : Type 0 where
  pub authorized :
      (approver.is_control_plane ≡ true)
      ⊎ ((root.user_id ≡ some approver.agent_id) ⊎ (approver.agent_id ≡ "security-officer"))
  pub unchanged :
      (pending.payload_hash ≡ "")
      ⊎ (digest (hashed_payload pending.proposal) ≡ pending.payload_hash)
  pub active : is_active root t.checked ≡ true
  pub same_session : root.session_id ≡ pending.proposal.session_id
  pub root_budget : root.tool_calls_count < root.maximum_tool_calls
  pub within_root : check_scope_subset_root pending.proposal root ≡ true
  pub ancestry :
      Ancestry settings pending.proposal t.checked store root pending.proposal.parent_delegation_id
        parent

approver_cases :
    (approver : AgentPrincipal) (root : IntentContract) (user : Option String)
    → root.user_id ≡ user
    → (approver.is_control_plane
        || (same_option (some approver.agent_id) user || approver.agent_id == "security-officer"))
      ≡ true
    → (approver.is_control_plane ≡ true)
      ⊎ ((root.user_id ≡ some approver.agent_id) ⊎ (approver.agent_id ≡ "security-officer"))
approver_cases approver root none e h = elim (Bool-cases approver.is_control_plane) [
  | inl control ↦ inl control
  | inr other ↦ inr (inr (ground (arith, eq_iff approver.agent_id "security-officer")))
]
approver_cases approver root (some user) e h = elim (Bool-cases approver.is_control_plane) [
  | inl control ↦ inl control
  | inr other ↦ elim (Bool-cases (approver.agent_id == user)) [
    | inl owner ↦ inr (inl (ground (arith, e, eq_iff approver.agent_id user)))
    | inr stranger ↦ inr (inr (ground (arith, eq_iff approver.agent_id "security-officer")))
  ]
]

hash_cases :
    (digest : HashedPayload → String) (pending : PendingApproval)
    → hash_matches digest pending ≡ true
    → (pending.payload_hash ≡ "")
      ⊎ (digest (hashed_payload pending.proposal) ≡ pending.payload_hash)
unfolding hash_matches
hash_cases digest pending h = elim (Bool-cases (pending.payload_hash == "")) [
  | inl empty ↦ inl ((eq_iff pending.payload_hash "").0 empty)
  | inr hashed ↦
      inr
        ((eq_iff (digest (hashed_payload pending.proposal)) pending.payload_hash).0 (ground arith))
]

module _ (has_path : List Edge → String → String → Bool) (digest : HashedPayload → String)
    (settings : Settings) (request_id : String) (approver : AgentPrincipal) (grant_id : String)
    (t : ApprovalTimes) (s : DelegationService) (pending : PendingApproval) where
  pub revalidate-approved :
      (found : Option IntentContract) (root : IntentContract) (parent : Option DelegationGrant)
      → revalidate has_path digest settings request_id approver grant_id t s pending found
        ≡ approved root parent
      → (found ≡ some root) × Revalidated digest settings approver t s.store pending root parent
  unfolding revalidate check_live check_root is_authorized_approver root_is_live
  revalidate-approved none root parent h =
      let (_, h1) = require-approved _ _ _ _ root parent h in
      let (_, h2) = require-approved _ _ _ _ root parent h1 in
      let (_, h3) = require-approved _ _ _ _ root parent h2 in absurd (cc)
  revalidate-approved (some r) root parent h =
      let (who, h1) = require-approved _ _ _ _ root parent h in
      let (hash, h2) = require-approved _ _ _ _ root parent h1 in
      let (_, h3) = require-approved _ _ _ _ root parent h2 in
      let (live, h4) = require-approved _ _ _ _ root parent h3 in
      let (budget, h5) = require-approved _ _ _ _ root parent h4 in
      let (scope, h6) = require-approved _ _ _ _ root parent h5 in
      let (ancestry, root-eq) =
        Ancestry-approved settings pending.proposal t.checked s r root
          pending.proposal.parent_delegation_id parent h6 in
      (
        ap some (sym root-eq),
        subst (λ x. Revalidated digest settings approver t s.store pending x parent) (sym root-eq)
            (record {
              authorized = approver_cases approver r r.user_id refl who;
              unchanged = hash_cases digest pending hash;
              active = ground (arith, live);
              same_session = ground (arith, live, eq_iff r.session_id pending.proposal.session_id);
              root_budget = ground (arith, budget);
              within_root = scope;
              ancestry = ancestry;
            }),
      )
