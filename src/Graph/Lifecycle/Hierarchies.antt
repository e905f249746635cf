-- ===== src/Graph/Lifecycle/Hierarchies.antt =====
-- backend/app/graph/causal_graph.py: the typed hierarchies over every run of the methods.
use mathlib.Core.Path.{subst}
use text.Mathlib.TextEquality.{eq_iff}
use cage_agent_security.Prelude.{◌≡◌, inl, inr, refl, sym, Bool, true, String, List, [], arith}
use cage_agent_security.Prelude.Tests.{Bool-cases}
use cage_agent_security.Prelude.Dict.{Dict, get, put}
use cage_agent_security.Prelude.Eq.{◌==◌, string_eq}
use cage_agent_security.Graph.{Edge, edge, edge_eq, CausalExecutionGraph, new_graph}
use cage_agent_security.Graph.Edges.{subgraph_view}
use cage_agent_security.Graph.Edges.{
  has_valid_typed_dags, is_action_causality_dag, is_artifact_lineage_dag, is_subdelegation_dag,
}
use cage_agent_security.Graph.Walk.{DecidesDag, IsAcyclic, Decides}
use cage_agent_security.Graph.Acyclic.{IsAcyclic-other, IsAcyclic-checked, contains-subgraph_view}
use cage_agent_security.Graph.Lifecycle.{is_typed, GraphRun, TypedDags, start, next}
use cage_agent_security.Graph.Lifecycle.Effects.{EdgeEffect, same, free, checked, step-effect}

EdgeEffect-TypedDags : (d d' : Dict Edge String) → EdgeEffect d d' → TypedDags d → TypedDags d'
EdgeEffect-TypedDags d d' (same e) v = subst TypedDags (sym e) v
EdgeEffect-TypedDags d d' (free s t r untyped e) v = subst TypedDags (sym e) (λ relation typed.
    IsAcyclic-other d s t relation r (λ eq. ground (arith, eq, typed, untyped)) (v relation typed))
EdgeEffect-TypedDags d d' (checked s t r unreachable e) v =
    subst TypedDags (sym e) (λ relation typed. elim (Bool-cases (r == relation)) [
      | inl is ↦
          subst (λ x. IsAcyclic (subgraph_view (put d (edge s t) r) x)) ((eq_iff r relation).0 is)
            (IsAcyclic-checked d s t r unreachable (
              subst (λ x. IsAcyclic (subgraph_view d x)) (sym ((eq_iff r relation).0 is))
                (v relation typed)))
      | inr other ↦
          IsAcyclic-other d s t relation r (λ eq. ground (arith, eq_iff r relation, other))
            (v relation typed)
    ])

run-TypedDags :
    (has_path : List Edge → String → String → Bool)
    → Decides has_path
    → {g g' : CausalExecutionGraph} → GraphRun has_path g g'
    → TypedDags g.edges
    → TypedDags g'.edges
run-TypedDags has_path decides start v = v
run-TypedDags has_path decides (next {h} {k} run step) v =
    EdgeEffect-TypedDags h.edges k.edges (step-effect has_path decides h k step)
      (run-TypedDags has_path decides run v)

empty-TypedDags : TypedDags []
unfolding get
empty-TypedDags relation typed a b e w = cc ((contains-subgraph_view [] relation (edge a b)).0 e)

-- If NetworkX's two tests decide whether there is a walk and whether a graph is acyclic, then whatever
-- methods but `add_causal_edge` change a new session graph, in any order and with relationships that
-- are "causes" or "precedes", the action hierarchy, the artifact lineage and the delegation hierarchy
-- are each acyclic, and `has_valid_typed_dags` says so.
pub TypedDags-kept :
    (has_path : List Edge → String → String → Bool) (is_dag : List Edge → Bool) (session : String)
    (g : CausalExecutionGraph)
    → Decides has_path
    → DecidesDag is_dag
    → GraphRun has_path (new_graph session) g
    → TypedDags g.edges × (has_valid_typed_dags is_dag g ≡ true)
unfolding has_valid_typed_dags is_action_causality_dag is_artifact_lineage_dag is_subdelegation_dag
TypedDags-kept has_path is_dag session g decides accepts run =
    let typed = run-TypedDags has_path decides run empty-TypedDags in
    let accepted = λ (relation : String) (t : is_typed relation ≡ true).
      (accepts (subgraph_view g.edges relation)).1 (typed relation t) in
    (
      typed,
      ground (
        arith,
        accepted "causes" refl,
        accepted "derived_from" refl,
        accepted "subdelegates" refl,
      ),
    )
