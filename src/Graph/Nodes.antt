-- ===== src/Graph/Nodes.antt =====
-- backend/app/graph/causal_graph.py: the methods that add a node, and the edges between nodes that
-- must be there. `now` is what the clock reads.
use cage_agent_security.Prelude.{ℕ, false, String, Option, none, some, not}
use cage_agent_security.Prelude.Tests.{if◌then◌else◌}
use cage_agent_security.Prelude.Eq.{string_eq}
use cage_agent_security.Prelude.Dict.{put}
use cage_agent_security.Enums.{GraphRelation}
use cage_agent_security.Delegation.Models.{DelegationGrant}
use cage_agent_security.Graph.{
  CausalExecutionGraph, NodeData, InformationArtifact, key_error, Done, has_node, add_edge,
  relation_value, intent_node, agent_node, delegation_node, artifact_node,
}

-- A node that is there keeps its attributes.
unfoldable pub add_new : CausalExecutionGraph → String → NodeData → CausalExecutionGraph
add_new g id node = if has_node g id then g else record g { nodes = put g.nodes id node }

module _ (g : CausalExecutionGraph) where
  -- The time of creation is passed by every caller.
  unfoldable pub add_intent_node :
      String → String → String → Option String → ℕ → CausalExecutionGraph
  unfolding add_new
  add_intent_node intent_id goal agent_id user_id created_at =
      add_new g intent_id (intent_node goal agent_id user_id created_at)

  -- With the default arguments, as every caller passes them.
  unfoldable pub add_agent_node : String → ℕ → CausalExecutionGraph
  unfolding add_new
  add_agent_node agent_id now = add_new g agent_id (agent_node agent_id false g.session_id now)

  unfoldable pub add_delegation_node : DelegationGrant → CausalExecutionGraph
  unfolding add_new
  add_delegation_node grant = add_new g grant.delegation_id (delegation_node grant)

  unfoldable pub add_artifact_node : InformationArtifact → CausalExecutionGraph
  unfolding add_new
  add_artifact_node artifact = add_new g artifact.artifact_id (artifact_node artifact)

  -- The edge, if the first node is there and then the second.
  unfoldable pub link : String → String → GraphRelation → Done
  link source target relation =
      if not (has_node g source)
      then (some (key_error source), g)
      else if not (has_node g target)
      then (some (key_error target), g)
      else (none, add_edge g source target (relation_value relation))

  unfoldable pub add_governs_edge : String → String → Done
  unfolding link
  add_governs_edge intent_id action_id = link intent_id action_id GraphRelation.governs

  unfoldable pub add_creates_delegation_edge : String → String → Done
  unfolding link
  add_creates_delegation_edge action_id delegation_id =
      link action_id delegation_id GraphRelation.creates_delegation

  unfoldable pub add_delegation_governs_edge : String → String → Done
  unfolding link
  add_delegation_governs_edge delegation_id action_id =
      link delegation_id action_id GraphRelation.governs

  unfoldable pub add_intent_delegation_governs_edge : String → String → Done
  unfolding link
  add_intent_delegation_governs_edge intent_id delegation_id =
      link intent_id delegation_id GraphRelation.governs

  unfoldable pub add_produces_edge : String → String → Done
  unfolding link
  add_produces_edge action_id artifact_id = link action_id artifact_id GraphRelation.produces

  unfoldable pub add_consumes_edge : String → String → Done
  unfolding link
  add_consumes_edge artifact_id action_id = link artifact_id action_id GraphRelation.consumes

-- The agent's node is added before the delegation's is looked for.
unfoldable pub add_issues_delegation_edge : CausalExecutionGraph → String → String → ℕ → Done
unfolding add_agent_node
add_issues_delegation_edge g agent_id delegation_id now =
    let g' = add_agent_node g agent_id now in
    if not (has_node g' delegation_id)
    then (some (key_error delegation_id), g')
    else (none, add_edge g' agent_id delegation_id (relation_value GraphRelation.issues_delegation))

unfoldable pub add_grants_to_edge : CausalExecutionGraph → String → String → ℕ → Done
unfolding add_agent_node
add_grants_to_edge g delegation_id agent_id now =
    if not (has_node g delegation_id) then (some (key_error delegation_id), g) else (
      none,
      add_edge (add_agent_node g agent_id now) delegation_id agent_id
          (relation_value GraphRelation.grants_to),
    )
