-- ===== src/Graph/Parents.antt =====
-- backend/app/graph/causal_graph.py: what `get_parents` reads, and that a second relationship between
-- two nodes replaces the first.
use text.Mathlib.TextEquality.{eq_iff}
use cage_agent_security.Prelude.{
  ◌≡◌, ◌↔◌, refl, Bool, true, String, none, some, List, [], ◌∷◌, arith,
}
use cage_agent_security.Prelude.Dict.{get, get-put}
use cage_agent_security.Prelude.Eq.{contains, string_eq, ==-refl}
use cage_agent_security.Graph.{
  Edge, edge, edge_eq, edge_equals_iff, CausalExecutionGraph, has_node, add_edge,
}
use cage_agent_security.Graph.Edges.{add_relationship, get_parents, sources, subgraph_view}
use cage_agent_security.Graph.Acyclic.{contains-subgraph_view}

contains-sources :
    (id parent : String) (es : List Edge)
    → contains (sources id es) parent ≡ contains es (edge parent id)
unfolding contains sources
contains-sources id parent [] = refl
contains-sources id parent (e ∷ es) = ground (
  arith,
  contains-sources id parent es,
  edge_equals_iff e (edge parent id),
  eq_iff e.source parent,
  eq_iff e.target id,
)

-- A node's parents are the nodes whose edge to it has the relation "causes" now.
pub get_parents_iff :
    (g : CausalExecutionGraph) (id parent : String)
    → (contains (get_parents g id) parent ≡ true)
      ↔ ((has_node g id ≡ true) × (get g.edges (edge parent id) ≡ some "causes"))
unfolding get_parents contains
get_parents_iff g id parent = ground (
  arith,
  contains-sources id parent (subgraph_view g.edges "causes"),
  contains-subgraph_view g.edges "causes" (edge parent id),
)

-- A relationship that is accepted replaces the one that stood between the two nodes: after any other
-- relation, "precedes" say, the source is no causal parent of the target any more, also if a
-- causal relationship had been accepted before; after "causes" it is one.
pub relationship_replaces :
    (has_path : List Edge → String → String → Bool) (g g' : CausalExecutionGraph)
    (source target relation : String)
    → add_relationship has_path g source target relation ≡ (none, g')
    → (contains (get_parents g' target) source ≡ true) ↔ (relation ≡ "causes")
unfolding add_relationship add_edge has_node
relationship_replaces has_path g g' source target relation h = ground (
  arith,
  get_parents_iff g' target source,
  get-put g.edges (edge source target) (edge source target) relation,
  ==-refl (edge source target),
  eq_iff relation "causes",
)
