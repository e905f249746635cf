-- ===== src/Services/DelegationService/UnknownParent.antt =====
-- backend/app/delegation/service.py: a proposal that names a parent which the store does not hold.
-- `propose_delegation` treats it like one at root level until the graph refuses the edge.
use mathlib.Core.Path.{subst}
use cage_agent_security.Prelude.{
  ℕ, ◌≡◌, refl, sym, Bool, false, String, none, some, List, [], ◌∷◌, arith,
}
use cage_agent_security.Prelude.Eq.{contains, string_eq, ==-refl}
use cage_agent_security.Prelude.Dict.{Dict, get, get-put}
use cage_agent_security.Enums.{PolicyDecision}
use cage_agent_security.Enums.Same.{policy_decision_eq}
use cage_agent_security.Principal.{AgentPrincipal}
use cage_agent_security.Intent.{IntentContract}
use cage_agent_security.Delegation.Models.{DelegationGrant, DelegationProposal}
use cage_agent_security.Delegation.Chain
use cage_agent_security.Delegation.Chain.{get_chain, default_max_depth}
use cage_agent_security.Delegation.Store.{DelegationStore, create_grant, insert_grant, get_grant}
use cage_agent_security.Graph.{Edge, key_error, has_node}
use cage_agent_security.Graph.Actions.{get_or_create}
use cage_agent_security.Services.DelegationService.{
  DelegationService, Settings, DelegationCreateResponse, raised, from_graph, HashedPayload,
  new_grant, issue, after_create, answered,
}
use cage_agent_security.Services.DelegationService.Propose.{
  Times, response, find_root, find_parent, find_ancestors, verdict, branch, with_root, with_chain,
  with_verdict, direct_grant, propose_delegation,
}
use cage_agent_security.Policy.Rule.{SecurityDecision}
use cage_agent_security.Services.DelegationService.Sync.{IsNamed, sync_unknown_parent}

-- What is left where the graph raises after the grant was stored.
issue_unknown_parent :
    (has_path : List Edge → String → String → Bool) (s : DelegationService) (root : IntentContract)
    (grant : DelegationGrant) (now : ℕ) (parent : String) (response : DelegationCreateResponse)
    → grant.parent_delegation_id ≡ some parent
    → grant.root_intent_id ≡ root.intent_id
    → get s.store.grants grant.delegation_id ≡ none
    → has_node (get_or_create s.graph_manager grant.session_id).0 parent ≡ false
    → ¬ IsNamed root grant parent
    → ((issue has_path s root grant now response).0 ≡ raised (from_graph (key_error parent)))
      × (get (issue has_path s root grant now response).1.store.grants grant.delegation_id
          ≡ some grant)
unfolding issue after_create answered create_grant insert_grant
issue_unknown_parent has_path s root grant now parent response below rooted free missing unnamed =
    let refused =
      sync_unknown_parent has_path (get_or_create s.graph_manager grant.session_id).0 root grant now
        parent below rooted missing unnamed in
    (
      rw (free, after_create, refused) refl,
      rw (free, after_create)
          (ground (
            arith,
            get-put s.store.grants grant.delegation_id grant.delegation_id grant,
            ==-refl grant.delegation_id,
          )),
    )

-- The chain of an id that the store does not hold is empty.
unknown_walk :
    (grants : Dict String DelegationGrant) (id : String)
    → get grants id ≡ none
    → get_chain grants id default_max_depth ≡ Chain.ok []
unfolding get_chain contains
unknown_walk grants id missing = rw (missing, get_chain, Chain.chain_loop) refl

unknown_chain :
    (store : DelegationStore) (p : DelegationProposal) (id : String)
    → p.parent_delegation_id ≡ some id
    → get store.grants id ≡ none
    → (find_ancestors store p ≡ Chain.ok []) × (find_parent store p ≡ none)
unfolding find_ancestors find_parent get_grant
unknown_chain store p id e missing =
    (rw (e, find_ancestors) (unknown_walk store.grants id missing), rw (e, find_parent) missing)

module _ (has_path : List Edge → String → String → Bool) (digest : HashedPayload → String)
    (settings : Settings) (p : DelegationProposal) (principal : AgentPrincipal)
    (action_id grant_id : String) (t : Times) (s : DelegationService) (root : IntentContract)
    (d : SecurityDecision) where
  -- What becomes of an allowed proposal below an unknown parent.
  allowed_issue :
      (id : String)
      → (find_root s.intent_service p t).0 ≡ some root
      → p.parent_delegation_id ≡ some id
      → get s.store.grants id ≡ none
      → verdict has_path digest settings p principal action_id grant_id t root none [] ≡ some d
      → d.decision ≡ PolicyDecision.allow
      → propose_delegation has_path digest settings p principal action_id grant_id t s
        ≡ issue has_path
            (record s { intent_service = (find_root s.intent_service p t).1 })
            root
            (direct_grant has_path digest settings p principal action_id grant_id t root none)
            t.issued
            (response d.decision (some grant_id) action_id "ACTIVE" d.matched_rules (d.reason ∷ []))
  unfolding propose_delegation with_root with_chain with_verdict
  allowed_issue id found below missing judged allowed =
      let (chain, parent) = unknown_chain s.store p id below missing in
      rw (found, chain, with_chain, parent, judged, branch, allowed) refl

  -- A proposal that names a parent which neither the store nor the session's graph holds, and that is
  -- none of the names that are recorded with the grant, raises `KeyError` if the policy allows it as
  -- a proposal at root level; but the grant is stored all the same, and stays.
  pub unknown_parent_leaves_grant :
      (id : String)
      → (find_root s.intent_service p t).0 ≡ some root
      → p.parent_delegation_id ≡ some id
      → get s.store.grants id ≡ none
      → verdict has_path digest settings p principal action_id grant_id t root none [] ≡ some d
      → d.decision ≡ PolicyDecision.allow
      → get s.store.grants grant_id ≡ none
      → has_node (get_or_create s.graph_manager p.session_id).0 id ≡ false
      → ¬ IsNamed root
          (direct_grant has_path digest settings p principal action_id grant_id t root none)
          id
      → let after =
          propose_delegation has_path digest settings p principal action_id grant_id t s in
        (after.0 ≡ raised (from_graph (key_error id)))
        × (get after.1.store.grants grant_id
            ≡ some
                (direct_grant has_path digest settings p principal action_id grant_id t root none))
  unfolding direct_grant new_grant
  unknown_parent_leaves_grant id found below missing judged allowed free absent unnamed =
      let is = allowed_issue id found below missing judged allowed in
      let (raises, keeps) =
        issue_unknown_parent has_path
          (record s { intent_service = (find_root s.intent_service p t).1 }) root
          (direct_grant has_path digest settings p principal action_id grant_id t root none)
          t.issued id
          (response d.decision (some grant_id) action_id "ACTIVE" d.matched_rules (d.reason ∷ []))
          below refl free absent unnamed in
      (
        subst (λ x. x.0 ≡ raised (from_graph (key_error id))) (sym is) raises,
        subst
            (λ x.
              get x.1.store.grants grant_id
              ≡ some (
                  direct_grant has_path digest settings p principal action_id grant_id t root none))
            (sym is) keeps,
      )
