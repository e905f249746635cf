-- ===== src/Tests/Graphs.antt =====
-- backend/app/graph/causal_graph.py and backend/app/graph/analyzer.py at concrete graphs.
use cage_agent_security.Prelude.{◌≡◌, ◌↔◌, inl, refl, true, false, String, none, some}
use cage_agent_security.Prelude.Dict.{get, put}
use cage_agent_security.Prelude.Eq.{contains, string_eq}
use cage_agent_security.Graph.{
  CausalExecutionGraph, agent_node, edge_equals, new_graph, has_node, add_edge,
}
use cage_agent_security.Graph.Nodes.{add_new}
use cage_agent_security.Graph.Edges.{has_valid_typed_dags, add_relationship, get_parents}
use cage_agent_security.Graph.Search.{
  is_acyclic, is_acyclic-DecidesDag, find_path, find_path-Decides,
}
use cage_agent_security.Graph.Lifecycle.{TypedDags, added, next, related, start}
use cage_agent_security.Graph.Parents.{relationship_replaces}
use cage_agent_security.Graph.Analyzer.{analyze_action_causality}
use cage_agent_security.Graph.Analyzer.Chain.{Reports, analysis-Reports}
use cage_agent_security.Policy.Contexts.{PolicyGraphContext}
use cage_agent_security.Graph.Lifecycle.Hierarchies.{TypedDags-kept}

abbrev empty_graph : CausalExecutionGraph
empty_graph = new_graph "session"

abbrev first_graph : CausalExecutionGraph
first_graph = add_new empty_graph "a" (agent_node "a" false "session" 0)

abbrev pair_graph : CausalExecutionGraph
pair_graph = add_new first_graph "b" (agent_node "b" false "session" 0)

abbrev caused_graph : CausalExecutionGraph
caused_graph = (add_relationship find_path pair_graph "a" "b" "causes").1

-- The edge back would close a cycle.
abbrev asked_graph : CausalExecutionGraph
asked_graph = (add_relationship find_path caused_graph "b" "a" "causes").1

TypedDags-kept_example :
    TypedDags asked_graph.edges × (has_valid_typed_dags is_acyclic asked_graph ≡ true)
TypedDags-kept_example =
    TypedDags-kept find_path is_acyclic "session" asked_graph find_path-Decides
      is_acyclic-DecidesDag
      (next
        (next
          (next (next start (added "a" (agent_node "a" false "session" 0)))
            (added "b" (agent_node "b" false "session" 0)))
          (related "a" "b" "causes" (inl refl)))
        (related "b" "a" "causes" (inl refl)))

abbrev preceded_graph : CausalExecutionGraph
preceded_graph = (add_relationship find_path caused_graph "a" "b" "precedes").1

preceded-answer :
    add_relationship find_path caused_graph "a" "b" "precedes" ≡ (none, preceded_graph)
unfolding add_relationship add_edge has_node add_new find_path get put edge_equals
preceded-answer = refl

relationship_replaces_example :
    (contains (get_parents preceded_graph "b") "a" ≡ true) ↔ (◌≡◌ {A = String} "precedes" "causes")
relationship_replaces_example =
    relationship_replaces find_path caused_graph preceded_graph "a" "b" "precedes" preceded-answer

analysis-Reports_example :
    (c : PolicyGraphContext) × (analyze_action_causality is_acyclic 10 10 caused_graph (some "b")
      ≡ some c)
    × Reports is_acyclic caused_graph 10 10 "b" c
analysis-Reports_example = analysis-Reports is_acyclic 10 10 caused_graph "b" is_acyclic-DecidesDag
