-- ===== src/Graph/Lifecycle/Effects.antt =====
-- backend/app/graph/causal_graph.py: what each step does to the edges of a session graph.
use text.Mathlib.TextEquality.{eq_iff}
use cage_agent_security.Prelude.{
  ℕ, ◌≡◌, ◌⊎◌, inl, inr, refl, Bool, false, String, List, ◌&&◌, map, arith,
}
use cage_agent_security.Prelude.Tests.{Bool-cases, Option-cases}
use cage_agent_security.Prelude.Dict.{Dict, get, put}
use cage_agent_security.Prelude.Eq.{string_eq}
use cage_agent_security.Enums.{GraphRelation}
use cage_agent_security.Graph.{
  Edge, edge, edge_eq, CausalExecutionGraph, NodeData, agent_node, has_node, add_edge,
  relation_value,
}
use cage_agent_security.Graph.Nodes.{
  add_new, add_agent_node, add_issues_delegation_edge, add_grants_to_edge, link,
}
use cage_agent_security.Graph.Edges.{
  add_relationship, add_subdelegates_edge, add_derived_from_edge, subgraph_view,
}
use cage_agent_security.Graph.Actions.{add_action, update_action_state, add_action_output_artifact}
use cage_agent_security.Graph.Walk.{Walk, here, along, Decides}
use cage_agent_security.Graph.Acyclic.{contains-subgraph_view, contains_of_get}
use cage_agent_security.Graph.Lifecycle.{
  GraphStep, Links, is_typed, added, linked, issued, granted, related, subdelegated, derived,
  recorded, updated, output,
}

-- What a step does to the edges.
pub data EdgeEffect (d d' : Dict Edge String) : Type 0 where
  same : d' ≡ d → EdgeEffect d d'
  free :
      (s t relation : String)
      → is_typed relation ≡ false
      → d' ≡ put d (edge s t) relation
      → EdgeEffect d d'
  checked :
      (s t relation : String)
      → ¬ Walk (subgraph_view d relation) t s
      → d' ≡ put d (edge s t) relation
      → EdgeEffect d d'

-- A walk in a view is a walk along all edges.
Walk-all :
    (d : Dict Edge String) (relation : String) {a b : String}
    → Walk (subgraph_view d relation) a b
    → Walk (map (λ p. p.0) d) a b
Walk-all d relation here = here
Walk-all d relation (along {a} {b} e w) =
    along
      (contains_of_get d (edge a b) relation ((contains-subgraph_view d relation (edge a b)).0 e))
      (Walk-all d relation w)

module _ (has_path : List Edge → String → String → Bool) (decides : Decides has_path)
    (g : CausalExecutionGraph) where
  related-effect :
      (s t relation : String)
      → (relation ≡ "causes") ⊎ (relation ≡ "precedes")
      → EdgeEffect g.edges (add_relationship has_path g s t relation).1.edges
  unfolding add_relationship add_edge
  related-effect s t relation how = elim (Bool-cases (has_node g s)) [
    | inr missing ↦ same (ground arith)
    | inl source ↦ elim (Bool-cases (has_node g t)) [
      | inr missing ↦ same (ground arith)
      | inl target ↦ elim how [
        | inr precedes ↦
            free s t relation (rw precedes refl)
              (rw (precedes, add_relationship, source, target) refl)
        | inl causes ↦ elim (Bool-cases (has_path (map (λ p. p.0) g.edges) t s)) [
          | inl cycle ↦ same (ground (arith, eq_iff relation "causes"))
          | inr clear ↦
              checked s t relation
                (λ w.
                  ground
                    (arith, (decides (map (λ p. p.0) g.edges) t s).1 (Walk-all g.edges relation w)))
                (ground (arith, eq_iff relation "causes"))
        ]
      ]
    ]
  ]

  subdelegated-effect :
      (p c : String) → EdgeEffect g.edges (add_subdelegates_edge has_path g p c).1.edges
  unfolding add_subdelegates_edge add_edge
  subdelegated-effect p c =
      elim (Bool-cases (has_path (subgraph_view g.edges "subdelegates") c p)) [
        | inl cycle ↦ same (ground arith)
        | inr clear ↦ elim (Bool-cases (has_node g p && has_node g c)) [
          | inr missing ↦ same (ground arith)
          | inl present ↦
              checked p c "subdelegates"
                (λ w. ground (arith, (decides (subgraph_view g.edges "subdelegates") c p).1 w))
                (ground arith)
        ]
      ]

  derived-effect :
      (c p : String) → EdgeEffect g.edges (add_derived_from_edge has_path g c p).1.edges
  unfolding add_derived_from_edge add_edge
  derived-effect c p = elim (Bool-cases (has_path (subgraph_view g.edges "derived_from") p c)) [
    | inl cycle ↦ same (ground arith)
    | inr clear ↦ elim (Bool-cases (has_node g c && has_node g p)) [
      | inr missing ↦ same (ground arith)
      | inl present ↦
          checked c p "derived_from"
            (λ w. ground (arith, (decides (subgraph_view g.edges "derived_from") p c).1 w))
            (ground arith)
    ]
  ]

add_new-edges :
    (g : CausalExecutionGraph) (id : String) (n : NodeData) → (add_new g id n).edges ≡ g.edges
unfolding add_new
add_new-edges g id n = ground arith

linked-effect :
    (g : CausalExecutionGraph) (s t : String) (relation : GraphRelation)
    → Links relation
    → EdgeEffect g.edges (link g s t relation).1.edges
unfolding link add_edge
linked-effect g s t relation untyped = elim (Bool-cases (has_node g s && has_node g t)) [
  | inr missing ↦ same (ground arith)
  | inl present ↦ free s t (relation_value relation) untyped (ground arith)
]

issued-effect :
    (g : CausalExecutionGraph) (agent delegation : String) (now : ℕ)
    → EdgeEffect g.edges (add_issues_delegation_edge g agent delegation now).1.edges
unfolding add_issues_delegation_edge add_agent_node add_edge
issued-effect g agent delegation now =
    let g' = add_agent_node g agent now in
    elim (Bool-cases (has_node g' delegation)) [
      | inr missing ↦
          same (ground (arith, add_new-edges g agent (agent_node agent false g.session_id now)))
      | inl present ↦
          free agent delegation "issues_delegation" refl
            (ground (arith, add_new-edges g agent (agent_node agent false g.session_id now)))
    ]

granted-effect :
    (g : CausalExecutionGraph) (delegation agent : String) (now : ℕ)
    → EdgeEffect g.edges (add_grants_to_edge g delegation agent now).1.edges
unfolding add_grants_to_edge add_agent_node add_edge
granted-effect g delegation agent now = elim (Bool-cases (has_node g delegation)) [
  | inr missing ↦ same (ground arith)
  | inl present ↦
      free delegation agent "grants_to" refl
        (ground (arith, add_new-edges g agent (agent_node agent false g.session_id now)))
]

pub step-effect :
    (has_path : List Edge → String → String → Bool)
    → Decides has_path
    → (g g' : CausalExecutionGraph) → GraphStep has_path g g'
    → EdgeEffect g.edges g'.edges
unfolding add_action update_action_state add_action_output_artifact
step-effect has_path decides g _ (added id node) = same (add_new-edges g id node)
step-effect has_path decides g _ (linked s t relation untyped) =
    linked-effect g s t relation untyped
step-effect has_path decides g _ (issued agent delegation now) =
    issued-effect g agent delegation now
step-effect has_path decides g _ (granted delegation agent now) =
    granted-effect g delegation agent now
step-effect has_path decides g _ (related s t relation how) =
    related-effect has_path decides g s t relation how
step-effect has_path decides g _ (subdelegated p c) = subdelegated-effect has_path decides g p c
step-effect has_path decides g _ (derived c p) = derived-effect has_path decides g c p
step-effect has_path decides g _ (recorded r spec classes policy schema) = same (ground arith)
step-effect has_path decides g _ (updated id u now) = elim (Option-cases (get g.actions id)) [
  | inl missing ↦ same (ground arith)
  | inr (r, e) ↦ same (ground arith)
]
step-effect has_path decides g _ (output id artifact) = same refl
