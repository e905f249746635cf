-- ===== src/Graph/Lifecycle.antt =====
-- backend/app/graph/causal_graph.py as a state machine: the steps that change a session's graph, and
-- the hierarchies that they keep acyclic.
pub mod Effects
pub mod Hierarchies
use mathlib.Core.Path.{subst}
use text.Mathlib.TextEquality.{eq_iff}
use cage_agent_security.Prelude.{
  ℕ, ◌≡◌, ◌⊎◌, inl, inr, refl, sym, Bool, true, false, String, Option, List, [], ◌&&◌, ◌||◌, map,
  arith,
}
use cage_agent_security.Prelude.Tests.{Bool-cases, Option-cases}
use cage_agent_security.Prelude.Dict.{Dict, get, put}
use cage_agent_security.Prelude.Eq.{◌==◌, string_eq}
use cage_agent_security.Enums.{GraphRelation}
use cage_agent_security.Registry.{ToolSpec}
use cage_agent_security.Graph.{
  Edge, edge, edge_eq, CausalExecutionGraph, NodeData, agent_node, RecordedAction, has_node,
  add_edge, new_graph, relation_value,
}
use cage_agent_security.Graph.Nodes.{
  add_new, add_agent_node, add_issues_delegation_edge, add_grants_to_edge, link,
}
use cage_agent_security.Graph.Edges.{
  add_relationship, add_subdelegates_edge, add_derived_from_edge, subgraph_view,
}
use cage_agent_security.Graph.Actions.{
  add_action, ActionUpdate, update_action_state, add_action_output_artifact,
}
use cage_agent_security.Graph.Walk.{Walk, here, along, IsAcyclic, Decides}
use cage_agent_security.Graph.Acyclic.{
  IsAcyclic-other, IsAcyclic-checked, contains-subgraph_view, contains_of_get,
}

-- The relations of the hierarchies that must be acyclic.
abbrev pub is_typed : String → Bool
is_typed relation =
    relation == "causes" || (relation == "derived_from" || relation == "subdelegates")

-- A relation that a `link` adds: none of these.
abbrev pub Links : GraphRelation → Type 0
Links relation = is_typed (relation_value relation) ≡ false

-- The steps of the methods, without `add_causal_edge`, which nothing calls. A relationship is one of
-- those that the gateway adds.
pub data GraphStep (has_path : List Edge → String → String → Bool) (g : CausalExecutionGraph)
    : CausalExecutionGraph → Type 0 where
  added : (id : String) (node : NodeData) → GraphStep has_path g (add_new g id node)
  linked :
      (source target : String) (relation : GraphRelation)
      → Links relation
      → GraphStep has_path g (link g source target relation).1
  issued :
      (agent delegation : String) (now : ℕ)
      → GraphStep has_path g (add_issues_delegation_edge g agent delegation now).1
  granted :
      (delegation agent : String) (now : ℕ)
      → GraphStep has_path g (add_grants_to_edge g delegation agent now).1
  related :
      (source target relation : String)
      → (relation ≡ "causes") ⊎ (relation ≡ "precedes")
      → GraphStep has_path g (add_relationship has_path g source target relation).1
  subdelegated :
      (parent child : String)
      → GraphStep has_path g (add_subdelegates_edge has_path g parent child).1
  derived :
      (child parent : String)
      → GraphStep has_path g (add_derived_from_edge has_path g child parent).1
  recorded :
      (r : RecordedAction) (spec : Option ToolSpec) (classes : Option (List String))
      (policy schema : Option String)
      → GraphStep has_path g (add_action r spec classes policy schema g).1
  updated :
      (id : String) (u : ActionUpdate) (now : ℕ)
      → GraphStep has_path g (update_action_state g id u now).1
  output : (id artifact : String) → GraphStep has_path g (add_action_output_artifact g id artifact)

pub data GraphRun (has_path : List Edge → String → String → Bool) (g : CausalExecutionGraph)
    : CausalExecutionGraph → Type 0 where
  start : GraphRun has_path g g
  next :
      {h k : CausalExecutionGraph}
      → GraphRun has_path g h
      → GraphStep has_path h k
      → GraphRun has_path g k

-- The action hierarchy (`causes`), the artifact lineage (`derived_from`) and the delegation
-- hierarchy (`subdelegates`) are acyclic: what `has_valid_typed_dags` tests.
abbrev pub TypedDags : Dict Edge String → Type 0
TypedDags d = (relation : String) → is_typed relation ≡ true → IsAcyclic (subgraph_view d relation)
