-- ===== src/Services/DelegationService/Sync.antt =====
-- backend/app/delegation/service.py: how the session graph is brought up to date with a grant, whose
-- parent may have no node.
use text.Mathlib.TextEquality.{eq_iff}
use cage_agent_security.Prelude.{
  ℕ, ◌≡◌, refl, ◌∙◌, Bool, true, false, String, Option, none, some, List, ◌||◌, arith,
}
use cage_agent_security.Prelude.Eq.{◌==◌, string_eq, ==-refl}
use cage_agent_security.Prelude.Dict.{get-put}
use cage_agent_security.Enums.Same.{policy_decision_eq}
use cage_agent_security.Intent.{IntentContract}
use cage_agent_security.Delegation.Models.{DelegationGrant}
use cage_agent_security.Graph.{
  Edge, NodeData, agent_node, CausalExecutionGraph, key_error, Done, ◌>>=◌, has_node, add_edge,
}
use cage_agent_security.Graph.Nodes.{
  add_new, add_intent_node, add_agent_node, add_delegation_node, add_issues_delegation_edge,
  add_grants_to_edge, add_intent_delegation_governs_edge, link,
}
use cage_agent_security.Graph.Edges.{add_subdelegates_edge}
use cage_agent_security.Services.DelegationService.{sync_grant, grant_nodes, subdelegates}

has_node-add_new :
    (g : CausalExecutionGraph) (id : String) (n : NodeData) (j : String)
    → has_node (add_new g id n) j ≡ (id == j || has_node g j)
unfolding add_new has_node
has_node-add_new g id n j = ground (arith, get-put g.nodes id j n, eq_iff id j)

has_node-add_edge :
    (g : CausalExecutionGraph) (source target relation j : String)
    → has_node (add_edge g source target relation) j ≡ has_node g j
unfolding has_node add_edge
has_node-add_edge g source target relation j = refl

-- The nodes of a grant that is being recorded: the root contract, the two agents and the grant.
abbrev pub IsNamed : IntentContract → DelegationGrant → String → Type 0
IsNamed root grant id =
    (root.intent_id == id
      || (grant.delegator_agent_id == id
          || (grant.delegatee_agent_id == id || grant.delegation_id == id)))
    ≡ true

-- A step that went through, and the nodes of the graph that it leaves.
record Went (g : CausalExecutionGraph) (added : String) (after : Done) : Type 0 where
  graph : CausalExecutionGraph
  fine : after ≡ (none, graph)
  nodes : (j : String) → has_node graph j ≡ (added == j || has_node g j)

issues-Went :
    (g : CausalExecutionGraph) (agent delegation : String) (now : ℕ)
    → has_node g delegation ≡ true
    → Went g agent (add_issues_delegation_edge g agent delegation now)
unfolding add_issues_delegation_edge add_agent_node add_edge
issues-Went g agent delegation now there =
    let node = agent_node agent false g.session_id now in
    record {
      graph = add_edge (add_agent_node g agent now) agent delegation "issues_delegation";
      fine = ground (arith, has_node-add_new g agent node delegation);
      nodes = λ j.
          has_node-add_edge (add_new g agent node) agent delegation "issues_delegation" j
          ∙ has_node-add_new g agent node j;
    }

grants-Went :
    (g : CausalExecutionGraph) (delegation agent : String) (now : ℕ)
    → has_node g delegation ≡ true
    → Went g agent (add_grants_to_edge g delegation agent now)
unfolding add_grants_to_edge add_agent_node add_edge
grants-Went g delegation agent now there =
    let node = agent_node agent false g.session_id now in
    record {
      graph = add_edge (add_agent_node g agent now) delegation agent "grants_to";
      fine = ground arith;
      nodes = λ j.
          has_node-add_edge (add_new g agent node) delegation agent "grants_to" j
          ∙ has_node-add_new g agent node j;
    }

governs-Went :
    (g : CausalExecutionGraph) (intent delegation : String)
    → has_node g intent ≡ true
    → has_node g delegation ≡ true
    → Went g intent (add_intent_delegation_governs_edge g intent delegation)
unfolding add_intent_delegation_governs_edge link
governs-Went g intent delegation a b = record {
  graph = add_edge g intent delegation "governs";
  fine = ground arith;
  nodes =
      λ j. ground (arith, has_node-add_edge g intent delegation "governs" j, eq_iff intent j, a);
}

subdelegates_refused :
    (has_path : List Edge → String → String → Bool) (g : CausalExecutionGraph)
    (parent child : String)
    → has_node g parent ≡ false
    → (add_subdelegates_edge has_path g parent child).0 ≡ some (key_error parent)
unfolding add_subdelegates_edge
subdelegates_refused has_path g parent child missing = ground arith

agent_nodes :
    (g : CausalExecutionGraph) (agent : String) (now : ℕ) (j : String)
    → has_node (add_agent_node g agent now) j ≡ (agent == j || has_node g j)
unfolding add_agent_node
agent_nodes g agent now j = has_node-add_new g agent _ j

intent_nodes :
    (g : CausalExecutionGraph) (intent goal agent : String) (user : Option String) (at : ℕ)
    (j : String)
    → has_node (add_intent_node g intent goal agent user at) j ≡ (intent == j || has_node g j)
unfolding add_intent_node
intent_nodes g intent goal agent user at j = has_node-add_new g intent _ j

delegation_nodes :
    (g : CausalExecutionGraph) (grant : DelegationGrant) (j : String)
    → has_node (add_delegation_node g grant) j ≡ (grant.delegation_id == j || has_node g j)
unfolding add_delegation_node
delegation_nodes g grant j = has_node-add_new g grant.delegation_id _ j

named_nodes :
    (g : CausalExecutionGraph) (root : IntentContract) (grant : DelegationGrant) (now : ℕ)
    (j : String)
    → has_node (grant_nodes g root grant now) j ≡ (
        grant.delegation_id == j
        || (grant.delegatee_agent_id == j
            || (grant.delegator_agent_id == j || (root.intent_id == j || has_node g j))))
unfolding grant_nodes
named_nodes g root grant now j = simp (agent_nodes, intent_nodes, delegation_nodes)

unnamed_parts :
    (root : IntentContract) (grant : DelegationGrant) (id : String)
    → ¬ IsNamed root grant id
    → ((root.intent_id == id) ≡ false)
      × ((grant.delegator_agent_id == id) ≡ false)
      × ((grant.delegatee_agent_id == id) ≡ false)
      × ((grant.delegation_id == id) ≡ false)
unnamed_parts root grant id h = (ground arith, ground arith, ground arith, ground arith)

edges_refused :
    (has_path : List Edge → String → String → Bool) (g4 g5 g6 g7 : CausalExecutionGraph)
    (from id to root parent : String) (now : ℕ) (named : Option String)
    → named ≡ some parent
    → add_issues_delegation_edge g4 from id now ≡ (none, g5)
    → add_grants_to_edge g5 id to now ≡ (none, g6)
    → add_intent_delegation_governs_edge g6 root id ≡ (none, g7)
    → has_node g7 parent ≡ false
    → (add_issues_delegation_edge g4 from id now
        >>= (λ g. add_grants_to_edge g id to now)
        >>= (λ g. add_intent_delegation_governs_edge g root id)
        >>= (λ g. subdelegates has_path named id g)).0
      ≡ some (key_error parent)
unfolding subdelegates
edges_refused has_path g4 g5 g6 g7 from id to root parent now named below e5 e6 e7 missing =
    rw (e5, e6, e7, below) (subdelegates_refused has_path g7 parent id missing)

-- The graph refuses a grant below a parent that has no node.
pub sync_unknown_parent :
    (has_path : List Edge → String → String → Bool) (g : CausalExecutionGraph)
    (root : IntentContract) (grant : DelegationGrant) (now : ℕ) (parent : String)
    → grant.parent_delegation_id ≡ some parent
    → grant.root_intent_id ≡ root.intent_id
    → has_node g parent ≡ false
    → ¬ IsNamed root grant parent
    → (sync_grant has_path g root grant now).0 ≡ some (key_error parent)
unfolding sync_grant
sync_unknown_parent has_path g root grant now parent below rooted missing unnamed =
    let g4 = grant_nodes g root grant now in
    let id = grant.delegation_id in
    let to = grant.delegatee_agent_id in
    let by_ = grant.delegator_agent_id in
    let nodes = λ (j : String). named_nodes g root grant now j in
    let w5 = issues-Went g4 by_ id now (ground (arith, nodes id, ==-refl id)) in
    let w6 = grants-Went w5.graph id to now (ground (arith, w5.nodes id, nodes id, ==-refl id)) in
    let w7 =
      governs-Went w6.graph grant.root_intent_id id
        (ground (
          arith,
          w6.nodes grant.root_intent_id,
          w5.nodes grant.root_intent_id,
          nodes grant.root_intent_id,
          ==-refl root.intent_id,
          rooted,
        ))
        (ground (arith, w6.nodes id, w5.nodes id, nodes id, ==-refl id)) in
    let (no_root, no_delegator, no_delegatee, no_grant) = unnamed_parts root grant parent unnamed in
    let absent : has_node w7.graph parent ≡ false =
      rw
        (
          w7.nodes parent,
          w6.nodes parent,
          w5.nodes parent,
          named_nodes g root grant now parent,
          rooted,
          no_root,
          no_delegator,
          no_delegatee,
          no_grant,
        )
        missing in
    edges_refused has_path g4 w5.graph w6.graph w7.graph by_ id to grant.root_intent_id parent now
      grant.parent_delegation_id below w5.fine w6.fine w7.fine absent
