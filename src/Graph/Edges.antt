-- ===== src/Graph/Edges.antt =====
-- backend/app/graph/causal_graph.py: the edges of the typed hierarchies with their cycle checks, and
-- the readers of edges. `has_path` is NetworkX's, on the list of edges that a view keeps.
use cage_agent_security.Prelude.{
  Bool, false, String, Option, none, some, List, [], ◌∷◌, ◌&&◌, not, map,
}
use cage_agent_security.Prelude.Tests.{if◌then◌else◌}
use cage_agent_security.Prelude.Eq.{◌==◌, string_eq}
use cage_agent_security.Prelude.Dict.{Dict, get, put}
use cage_agent_security.Enums.{GraphRelation}
use cage_agent_security.Graph.{
  Edge, edge_eq, CausalExecutionGraph, key_error, parent_action_not_found, graph_cycle,
  provenance_cycle, delegation_cycle, Done, has_node, add_edge, relation_value, bare_node,
}

-- `self._graph[u][v].get("relation") == relation`
unfoldable pub has_relation : Dict Edge String → String → Edge → Bool
has_relation edges relation e = elim (get edges e) [ none ↦ false | some r ↦ r == relation ]

unfoldable pub kept_edges : Dict Edge String → String → Dict Edge String → List Edge
unfolding has_relation
kept_edges edges relation [] = []
kept_edges edges relation ((e, r) ∷ rest) =
    let others = kept_edges edges relation rest in
    if has_relation edges relation e then e ∷ others else others

-- `nx.subgraph_view` with the filter on the relation. A view keeps every node.
unfoldable pub subgraph_view : Dict Edge String → String → List Edge
unfolding kept_edges
subgraph_view edges relation = kept_edges edges relation edges

-- The node, with no attributes if it was missing.
unfoldable pub with_node : CausalExecutionGraph → String → CausalExecutionGraph
with_node g id = if has_node g id then g else record g { nodes = put g.nodes id bare_node }

module _ (has_path : List Edge → String → String → Bool) where
  -- A missing end is added with the edge, and is not checked.
  unfoldable pub add_causal_edge : CausalExecutionGraph → String → String → String → Done
  unfolding with_node
  add_causal_edge g source target relation =
      let causes_graph = subgraph_view g.edges (relation_value GraphRelation.causes) in
      if relation == "causes"
        && (has_node g target && (has_node g source && has_path causes_graph target source))
      then (some (graph_cycle source target), g)
      else (none, add_edge (with_node (with_node g source) target) source target relation)

  -- The check of a causal relation runs on all edges, whatever their relation.
  unfoldable pub add_relationship : CausalExecutionGraph → String → String → String → Done
  add_relationship g source target relation =
      if not (has_node g source)
      then (some (parent_action_not_found source), g)
      else if not (has_node g target)
      then (some (key_error target), g)
      else if relation == "causes" && has_path (map (λ p. p.0) g.edges) target source
      then (some (graph_cycle source target), g)
      else (none, add_edge g source target relation)

  unfoldable pub add_subdelegates_edge : CausalExecutionGraph → String → String → Done
  add_subdelegates_edge g parent child =
      let subdel_graph = subgraph_view g.edges (relation_value GraphRelation.subdelegates) in
      if not (has_node g parent)
      then (some (key_error parent), g)
      else if not (has_node g child)
      then (some (key_error child), g)
      else if has_path subdel_graph child parent
      then (some (delegation_cycle parent child), g)
      else (none, add_edge g parent child (relation_value GraphRelation.subdelegates))

  unfoldable pub add_derived_from_edge : CausalExecutionGraph → String → String → Done
  add_derived_from_edge g child parent =
      let derived_graph = subgraph_view g.edges (relation_value GraphRelation.derived_from) in
      if not (has_node g child)
      then (some (key_error child), g)
      else if not (has_node g parent)
      then (some (key_error parent), g)
      else if has_path derived_graph parent child
      then (some (provenance_cycle child parent), g)
      else (none, add_edge g child parent (relation_value GraphRelation.derived_from))

  unfoldable pub has_data_flow_path : CausalExecutionGraph → String → String → Bool
  has_data_flow_path g source target =
      if not (has_node g source && has_node g target)
      then false
      else has_path (map (λ p. p.0) g.edges) source target

-- `in_edges` and `out_edges` of a node, on the edges that the filter on the relation keeps.
unfoldable pub sources : String → List Edge → List String
sources id [] = []
sources id (e ∷ es) =
    let others = sources id es in if e.target == id then e.source ∷ others else others

unfoldable pub targets : String → List Edge → List String
targets id [] = []
targets id (e ∷ es) =
    let others = targets id es in if e.source == id then e.target ∷ others else others

first_of : List String → Option String
first_of [] = none
first_of (x ∷ xs) = some x

module _ (g : CausalExecutionGraph) (id : String) where
  unfoldable pub get_parents : List String
  unfolding sources
  get_parents = if not (has_node g id) then [] else sources id (subgraph_view g.edges "causes")

  unfoldable pub get_children : List String
  unfolding targets
  get_children = if not (has_node g id) then [] else targets id (subgraph_view g.edges "causes")

  unfoldable pub get_artifact_parents : List String
  unfolding targets
  get_artifact_parents =
      if not (has_node g id) then [] else targets id (subgraph_view g.edges "derived_from")

  unfoldable pub get_artifact_children : List String
  unfolding sources
  get_artifact_children =
      if not (has_node g id) then [] else sources id (subgraph_view g.edges "derived_from")

  unfoldable pub get_artifact_producer : Option String
  unfolding sources first_of
  get_artifact_producer =
      if not (has_node g id) then none else first_of (sources id (subgraph_view g.edges "produces"))

  unfoldable pub get_artifact_consumers : List String
  unfolding targets
  get_artifact_consumers =
      if not (has_node g id) then [] else targets id (subgraph_view g.edges "consumes")

  unfoldable pub get_action_inputs : List String
  unfolding sources
  get_action_inputs =
      if not (has_node g id) then [] else sources id (subgraph_view g.edges "consumes")

  unfoldable pub get_action_outputs : List String
  unfolding targets
  get_action_outputs =
      if not (has_node g id) then [] else targets id (subgraph_view g.edges "produces")

-- The tests of the typed hierarchies, with NetworkX's `is_directed_acyclic_graph` on a view's edges.
module _ (is_directed_acyclic : List Edge → Bool) (g : CausalExecutionGraph) where
  unfoldable pub is_action_causality_dag : Bool
  is_action_causality_dag = is_directed_acyclic (subgraph_view g.edges "causes")

  unfoldable pub is_artifact_lineage_dag : Bool
  is_artifact_lineage_dag = is_directed_acyclic (subgraph_view g.edges "derived_from")

  unfoldable pub is_subdelegation_dag : Bool
  is_subdelegation_dag = is_directed_acyclic (subgraph_view g.edges "subdelegates")

  unfoldable pub has_valid_typed_dags : Bool
  unfolding is_action_causality_dag is_artifact_lineage_dag is_subdelegation_dag
  has_valid_typed_dags =
      is_action_causality_dag && (is_artifact_lineage_dag && is_subdelegation_dag)
