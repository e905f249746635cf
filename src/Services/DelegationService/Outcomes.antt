-- ===== src/Services/DelegationService/Outcomes.antt =====
-- backend/app/delegation/service.py: what `propose_delegation` leaves behind, by how it ended.
use cage_agent_security.Prelude.{
  ◌≡◌, ◌≢◌, ◌⊎◌, inl, inr, refl, ap, sym, ◌∙◌, Bool, String, Option, none, some, List, arith,
}
use cage_agent_security.Prelude.Eq.{string_eq}
use cage_agent_security.Prelude.Dict.{get, put}
use cage_agent_security.Enums.{PolicyDecision}
use cage_agent_security.Enums.Same.{policy_decision_eq}
use cage_agent_security.Principal.{AgentPrincipal}
use cage_agent_security.Intent.{IntentContract}
use cage_agent_security.Delegation.Models.{DelegationGrant, DelegationProposal}
use cage_agent_security.Delegation.Chain
use cage_agent_security.Delegation.Chain.{Result, StoreError}
use cage_agent_security.Graph.{Edge, GraphError}
use cage_agent_security.Policy.Rule.{SecurityDecision}
use cage_agent_security.Policy.Safety.FailClosed.{evaluate_raises_iff}
use cage_agent_security.Services.DelegationService.{
  new_grant, DelegationService, Settings, DelegationCreateResponse, Reply, responded, raised,
  from_store, from_graph, HashedPayload,
}
use cage_agent_security.Services.DelegationService.Propose.{
  Times, find_root, find_parent, find_ancestors, verdict, branch, with_verdict, with_chain,
  with_root, creation_evaluation, direct_grant, checkpoint, propose_delegation,
}
use cage_agent_security.Services.DelegationService.Issue.{
  Stored, IssueEnds, collided, answers, unrecorded, issue-IssueEnds,
}

-- The policy lets the grant be issued at once.
abbrev pub Allows : PolicyDecision → Type 0
Allows decision = (decision ≡ PolicyDecision.allow) ⊎ (decision ≡ PolicyDecision.allow_with_limits)

-- The policy neither lets it be issued nor asks for an approval.
abbrev pub Refuses : PolicyDecision → Type 0
Refuses decision = ¬ Allows decision × (decision ≢ PolicyDecision.require_approval)

module _ (has_path : List Edge → String → String → Bool) (digest : HashedPayload → String)
    (settings : Settings) (p : DelegationProposal) (principal : AgentPrincipal)
    (action_id grant_id : String) (t : Times) where
  -- The verdict of the policy on the proposal, with the root contract, the parent and the ancestors
  -- that the service finds.
  pub record Judged (s : DelegationService) (d : SecurityDecision) : Type 0 where
    pub root : IntentContract
    pub ancestors : List DelegationGrant
    pub root_found : (find_root s.intent_service p t).0 ≡ some root
    pub chain_read : find_ancestors s.store p ≡ Chain.ok ancestors
    pub decided :
        verdict has_path digest settings p principal action_id grant_id t root
          (find_parent s.store p)
          ancestors
        ≡ some d

  -- How a proposal may end.
  pub data Ends (s : DelegationService) (reply : Reply) (s' : DelegationService) : Type 0 where
    no_contract :
        (r : DelegationCreateResponse)
        → (find_root s.intent_service p t).0 ≡ none
        → reply ≡ responded r
        → r.decision ≡ PolicyDecision.deny
        → s'.store ≡ s.store
        → s'.pending_approvals ≡ s.pending_approvals
        → Ends s reply s'
    no_chain :
        (e : StoreError)
        → find_ancestors s.store p ≡ Chain.err e
        → reply ≡ raised (from_store e)
        → s'.store ≡ s.store
        → s'.pending_approvals ≡ s.pending_approvals
        → Ends s reply s'
    refused :
        (r : DelegationCreateResponse) (d : SecurityDecision) (j : Judged s d)
        → reply ≡ responded r
        → r.decision ≡ PolicyDecision.deny
        → r.matched_rules ≡ d.matched_rules
        → Refuses d.decision
        → s'.store ≡ s.store
        → s'.pending_approvals ≡ s.pending_approvals
        → Ends s reply s'
    id_taken :
        (old : DelegationGrant) (d : SecurityDecision) (j : Judged s d)
        → get s.store.grants grant_id ≡ some old
        → reply ≡ raised (from_store (Chain.already_exists grant_id))
        → Allows d.decision
        → s'.store ≡ s.store
        → s'.pending_approvals ≡ s.pending_approvals
        → Ends s reply s'
    waits :
        (r : DelegationCreateResponse) (d : SecurityDecision) (j : Judged s d)
        → reply ≡ responded r
        → r.decision ≡ PolicyDecision.require_approval
        → d.decision ≡ PolicyDecision.require_approval
        → s'.store ≡ s.store
        → s'.pending_approvals
          ≡ put s.pending_approvals action_id
              (checkpoint has_path digest settings p principal action_id grant_id t j.root)
        → Ends s reply s'
    issued :
        (r : DelegationCreateResponse) (d : SecurityDecision) (j : Judged s d)
        → reply ≡ responded r
        → r.decision ≡ d.decision
        → r.delegation_id ≡ some grant_id
        → s'.pending_approvals ≡ s.pending_approvals
        → Allows d.decision
        → Stored s s' (
            direct_grant has_path digest settings p principal action_id grant_id t j.root
              (find_parent s.store p))
        → Ends s reply s'
    left_behind :
        (e : GraphError) (d : SecurityDecision) (j : Judged s d)
        → reply ≡ raised (from_graph e)
        → s'.pending_approvals ≡ s.pending_approvals
        → Allows d.decision
        → Stored s s' (
            direct_grant has_path digest settings p principal action_id grant_id t j.root
              (find_parent s.store p))
        → Ends s reply s'

  issued-Ends :
      (s s0 : DelegationService) (d : SecurityDecision) (j : Judged s d)
      (response : DelegationCreateResponse) (reply : Reply) (s' : DelegationService)
      → s0.store ≡ s.store
      → s0.pending_approvals ≡ s.pending_approvals
      → response.decision ≡ d.decision
      → response.delegation_id ≡ some grant_id
      → Allows d.decision
      → IssueEnds s0
          (direct_grant has_path digest settings p principal action_id grant_id t j.root
            (find_parent s.store p))
          response
          reply
          s'
      → Ends s reply s'
  unfolding direct_grant new_grant
  issued-Ends s s0 d j response reply s' same_store same_waiting by_policy named allowed
        (collided old taken raises same) =
      id_taken old d j (ap (λ x. get x.grants grant_id) (sym same_store) ∙ taken) raises allowed
        (ground (arith, same, same_store)) (ground (arith, same, same_waiting))
  issued-Ends s s0 d j response reply s' same_store same_waiting by_policy named allowed
        (answers responds stored kept) =
      issued response d j responds by_policy named (kept ∙ same_waiting) allowed
        (record { free = ground (arith, same_store, stored.free); kept = stored.kept })
  issued-Ends s s0 d j response reply s' same_store same_waiting by_policy named allowed
        (unrecorded e raises stored kept) =
      left_behind e d j raises (kept ∙ same_waiting) allowed
        (record { free = ground (arith, same_store, stored.free); kept = stored.kept })

  branch-Ends :
      (s : DelegationService) (d : SecurityDecision) (j : Judged s d) (x : PolicyDecision)
      → d.decision ≡ x
      → let after =
          branch has_path digest settings p principal action_id grant_id t
            (record s { intent_service = (find_root s.intent_service p t).1 })
            j.root
            (find_parent s.store p)
            d in
        Ends s after.0 after.1
  unfolding branch
  branch-Ends s d j PolicyDecision.allow e =
      rw (branch, e)
        (issued-Ends s _ d j _ _ _ refl refl (sym e) refl (inl e)
          (issue-IssueEnds has_path _ j.root _ t.issued _))
  branch-Ends s d j PolicyDecision.allow_with_limits e =
      rw (branch, e)
        (issued-Ends s _ d j _ _ _ refl refl (sym e) refl (inr e)
          (issue-IssueEnds has_path _ j.root _ t.issued _))
  branch-Ends s d j PolicyDecision.require_approval e =
      rw (branch, e) (waits _ d j refl refl e refl refl)
  branch-Ends s d j PolicyDecision.deny e =
      rw (branch, e) (refused _ d j refl refl refl (ground (arith, e), ground (arith, e)) refl refl)
  branch-Ends s d j PolicyDecision.quarantine e =
      rw (branch, e) (refused _ d j refl refl refl (ground (arith, e), ground (arith, e)) refl refl)
  branch-Ends s d j PolicyDecision.sandbox e =
      rw (branch, e) (refused _ d j refl refl refl (ground (arith, e), ground (arith, e)) refl refl)

  -- The evaluation does not raise, since no provenance context is given.
  with_verdict-Ends :
      (s : DelegationService) (root : IntentContract) (ancestors : List DelegationGrant)
      (o : Option SecurityDecision)
      → (find_root s.intent_service p t).0 ≡ some root
      → find_ancestors s.store p ≡ Chain.ok ancestors
      → verdict has_path digest settings p principal action_id grant_id t root
          (find_parent s.store p)
          ancestors
        ≡ o
      → let after =
          with_verdict has_path digest settings p principal action_id grant_id t
            (record s { intent_service = (find_root s.intent_service p t).1 })
            root
            (find_parent s.store p)
            o in
        Ends s after.0 after.1
  unfolding with_verdict verdict creation_evaluation
  with_verdict-Ends s root ancestors none found read is =
      let (_, (c, given, _)) = (evaluate_raises_iff _ _ _ _ _).0 is in absurd (cc)
  with_verdict-Ends s root ancestors (some d) found read is =
      branch-Ends s d
        (record {
          root = root;
          ancestors = ancestors;
          root_found = found;
          chain_read = read;
          decided = is;
        })
        d.decision refl

  with_chain-Ends :
      (s : DelegationService) (root : IntentContract) (chain : Result (List DelegationGrant))
      → (find_root s.intent_service p t).0 ≡ some root
      → find_ancestors s.store p ≡ chain
      → let after =
          with_chain has_path digest settings p principal action_id grant_id t
            (record s { intent_service = (find_root s.intent_service p t).1 })
            root
            chain in
        Ends s after.0 after.1
  unfolding with_chain
  with_chain-Ends s root (Chain.err e) found read = no_chain e read refl refl refl
  with_chain-Ends s root (Chain.ok ancestors) found read =
      with_verdict-Ends s root ancestors _ found read refl

  with_root-Ends :
      (s : DelegationService) (o : Option IntentContract)
      → (find_root s.intent_service p t).0 ≡ o
      → let after =
          with_root has_path digest settings p principal action_id grant_id t
            (record s { intent_service = (find_root s.intent_service p t).1 })
            o in
        Ends s after.0 after.1
  unfolding with_root
  with_root-Ends s none found = no_contract _ found refl refl refl refl
  with_root-Ends s (some root) found = with_chain-Ends s root _ found refl

-- A proposal ends in one of seven ways. Without a root contract it is answered DENY; where the chain of
-- the parent cannot be read, that error is raised. Otherwise the policy judges it, with the root
-- contract, parent and ancestors that the stores hold, and never raises. If its verdict is
-- REQUIRE_APPROVAL, it is answered so, and the checkpoint with the digest of the payload is stored. If
-- it is ALLOW or ALLOW_WITH_LIMITS, the grant that the proposal comes to is stored under an id that
-- was free, and the answer is that verdict and id or the error of the graph; or the id was taken, and
-- that is raised. If it is any other, it is answered DENY with the rules of the verdict. A grant is
-- stored in no other way, and a checkpoint neither.
pub proposal_ends :
    (has_path : List Edge → String → String → Bool) (digest : HashedPayload → String)
    (settings : Settings) (p : DelegationProposal) (principal : AgentPrincipal)
    (action_id grant_id : String) (t : Times) (s : DelegationService)
    → let after = propose_delegation has_path digest settings p principal action_id grant_id t s in
      Ends has_path digest settings p principal action_id grant_id t s after.0 after.1
unfolding propose_delegation
proposal_ends has_path digest settings p principal action_id grant_id t s =
    with_root-Ends has_path digest settings p principal action_id grant_id t s _ refl
