-- ===== src/Graph/Analyzer.antt =====
-- backend/app/graph/analyzer.py: the facts about the causal ancestors of an action. `is_dag` is
-- NetworkX's `is_directed_acyclic_graph`, on the edges of the causal view.
pub mod Chain
use cage_agent_security.Prelude.{
  ℕ, zero, suc, ◌+◌, Bool, true, false, String, Option, none, some, List, [], ◌∷◌, ◌++◌, ◌||◌, not,
  reverse,
}
use cage_agent_security.Prelude.Tests.{if◌then◌else◌, leb, ltb}
use cage_agent_security.Prelude.Lists.{length, any}
use cage_agent_security.Prelude.Sorted.{sorted, to_set}
use cage_agent_security.Prelude.Eq.{◌==◌, contains, string_eq}
use cage_agent_security.Enums.{ActionType, GraphAnalysisStatus, PolicyDecision, ToolExecutionStatus}
use cage_agent_security.Enums.Same.{action_type_eq, policy_decision_eq, tool_execution_status_eq}
use cage_agent_security.Enums.Values.{environment_value}
use cage_agent_security.Graph.{
  Edge, ActionNode, NodeData, action_node, intent_node, agent_node, delegation_node, artifact_node,
  bare_node, CausalExecutionGraph,
}
use cage_agent_security.Graph.Edges.{is_action_causality_dag, get_parents}
use cage_agent_security.Graph.Actions.{get_node_data}
use cage_agent_security.Policy.Contexts.{PolicyGraphContext}
use cage_agent_security.Policy.Defaults.{default_graph}

-- How the traversal ends: at the oldest ancestor, nearest first, or at a limit with what it counted.
pub data Traversal : Type 0 where
  complete : List NodeData → Traversal
  cyclic : Traversal
  too_deep too_many : ℕ → ℕ → Traversal
  out_of_fuel : Traversal

abbrev pub first_parent : List String → Option String
first_parent [] = none
first_parent (p ∷ ps) = some p

module _ (g : CausalExecutionGraph) (max_depth max_nodes : ℕ) where
  -- The `while` loop, on fuel.
  unfoldable pub traverse : ℕ → Option String → ℕ → List String → List NodeData → Traversal
  traverse fuel none depth visited nodes = complete nodes
  traverse zero (some id) depth visited nodes = out_of_fuel
  traverse (suc fuel) (some id) depth visited nodes = elim (contains visited id) [
    | true ↦ cyclic
    | false ↦ elim (ltb max_depth (depth + 1)) [
      | true ↦ too_deep (depth + 1) (length nodes)
      | false ↦ elim (leb max_nodes (length nodes)) [
        | true ↦ too_many (depth + 1) (length nodes)
        | false ↦ elim (get_node_data g id) [
          | none ↦ complete nodes
          | some n ↦
              traverse fuel (first_parent (get_parents g id)) (depth + 1) (id ∷ visited)
                (nodes ++ n ∷ [])
        ]
      ]
    ]
  ]

-- The attributes are those of action nodes; no other node has them.
abbrev pub of_action {ℓ} : {A : Type ℓ} → (ActionNode → A) → A → NodeData → A
of_action f other (action_node n) = f n
of_action f other (intent_node goal agent user at) = other
of_action f other (agent_node agent control session at) = other
of_action f other (delegation_node grant) = other
of_action f other (artifact_node artifact) = other
of_action f other bare_node = other

-- The values of an attribute, where it is there.
collect : (ActionNode → List String) → List NodeData → List String
collect f [] = []
collect f (n ∷ ns) = of_action f [] n ++ collect f ns

abbrev pub is_result : PolicyDecision → Option PolicyDecision → Bool
is_result d none = false
is_result d (some r) = r == d

unfoldable pub was_denied : NodeData → Bool
was_denied =
    of_action
      (λ n.
        is_result PolicyDecision.deny n.policy_result
        || n.execution_status == ToolExecutionStatus.denied)
      false

unfoldable pub awaited_approval : NodeData → Bool
awaited_approval =
    of_action
      (λ n.
        is_result PolicyDecision.require_approval n.policy_result
        || n.execution_status == ToolExecutionStatus.pending_approval)
      false

unfoldable pub is_probe : NodeData → Bool
is_probe =
    of_action
      (λ n.
        not n.tool_known
        || (n.tool_privileged
            || (n.tool_destructive
                || (n.action_type == ActionType.destructive
                    || n.action_type == ActionType.execute))))
      false

-- The consecutive probes from the immediate parent on.
unfoldable pub count_probes : List NodeData → ℕ
count_probes [] = 0
count_probes (n ∷ ns) = let rest = count_probes ns in if is_probe n then rest + 1 else 0

abbrev pub among : List String → String → Bool
among values x = contains values x

unfoldable pub facts : List NodeData → PolicyGraphContext
unfolding collect
facts ancestor_nodes =
    let topo = reverse ancestor_nodes in
    let environments = collect (λ n. environment_value n.target_environment ∷ []) topo in
    record {
      analysis_status = GraphAnalysisStatus.success;
      analysis_complete = true;
      causal_depth = length ancestor_nodes;
      ancestor_count = length ancestor_nodes;
      ancestor_action_ids = collect (λ n. n.action_id ∷ []) topo;
      ancestor_tool_sequence = collect (λ n. n.tool_name ∷ []) topo;
      ancestor_environments = environments;
      ancestor_data_classifications =
          sorted (to_set (collect (λ n. n.effective_data_classifications) topo));
      contains_denied_ancestor = any was_denied topo;
      contains_approval_ancestor = any awaited_approval topo;
      contains_external_sink_ancestor = any (of_action (λ n. n.tool_external_sink) false) topo;
      contains_privileged_ancestor = any (of_action (λ n. n.tool_privileged) false) topo;
      contains_destructive_ancestor =
          any (of_action (λ n. n.tool_destructive || n.action_type == ActionType.destructive) false)
            topo;
      privileged_probe_count = count_probes ancestor_nodes;
      has_lower_environment_ancestor = any (among ("LOCAL" ∷ "DEVELOPMENT" ∷ [])) environments;
      has_high_environment_ancestor = any (among ("STAGING" ∷ "PRODUCTION" ∷ [])) environments;
    }

-- `PolicyGraphContext` with a failure, and what was counted where that is reported.
abbrev pub failure : GraphAnalysisStatus → ℕ → ℕ → PolicyGraphContext
failure status depth count = record default_graph {
  analysis_status = status;
  analysis_complete = false;
  causal_depth = depth;
  ancestor_count = count;
}

unfoldable pub context : Traversal → Option PolicyGraphContext
unfolding facts
context (complete nodes) = some (facts nodes)
context cyclic = some (failure GraphAnalysisStatus.cycle_detected 0 0)
context (too_deep depth count) = some (failure GraphAnalysisStatus.depth_limit_exceeded depth count)
context (too_many depth count) = some (failure GraphAnalysisStatus.node_limit_exceeded depth count)
context out_of_fuel = none

-- `none` if the fuel runs out. Every round but the last goes one deeper, so it does not.
unfoldable pub analyze_action_causality :
    (List Edge → Bool) → ℕ → ℕ → CausalExecutionGraph → Option String → Option PolicyGraphContext
unfolding traverse context
analyze_action_causality is_dag max_depth max_nodes g none = some default_graph
analyze_action_causality is_dag max_depth max_nodes g (some parent) =
    if not (is_action_causality_dag is_dag g)
    then some (failure GraphAnalysisStatus.invalid_graph 0 0)
    else context (traverse g max_depth max_nodes (max_depth + 1) (some parent) 0 [] [])
