-- ===== src/Graph/Acyclic.antt =====
-- The typed hierarchies of backend/app/graph/causal_graph.py stay acyclic, and what a second edge
-- between two nodes does to the first.
use mathlib.Core.Path.{subst}
use text.Mathlib.TextEquality.{eq_iff}
use cage_agent_security.Prelude.{
  ◌≡◌, ◌≢◌, ◌⊎◌, ◌↔◌, inl, inr, refl, sym, ap, true, String, some, [], ◌∷◌, ◌&&◌, map, arith,
}
use cage_agent_security.Prelude.Tests.{Bool-cases, Option-cases}
use cage_agent_security.Prelude.Dict.{Dict, get, put, get-put}
use cage_agent_security.Prelude.Eq.{◌==◌, contains, string_eq}
use cage_agent_security.Graph.{Edge, edge, edge_eq, edge_equals_iff}
use cage_agent_security.Graph.Edges
use cage_agent_security.Graph.Edges.{has_relation, subgraph_view}
use cage_agent_security.Graph.Walk.{Walk, here, along, Walk-trans, IsAcyclic, Walk-split}

contains-kept_edges :
    (d : Dict Edge String) (relation : String) (rest : Dict Edge String) (e : Edge)
    → contains (Edges.kept_edges d relation rest) e
      ≡ (contains (map (λ p. p.0) rest) e && has_relation d relation e)
unfolding Edges.kept_edges contains
contains-kept_edges d relation [] e = refl
contains-kept_edges d relation ((k, r) ∷ rest) e =
    ground (arith, contains-kept_edges d relation rest e, edge_equals_iff k e)

pub contains_of_get :
    (d : Dict Edge String) (e : Edge) (r : String)
    → get d e ≡ some r
    → contains (map (λ p. p.0) d) e ≡ true
unfolding get contains
contains_of_get [] e r h = cc
contains_of_get ((k, v) ∷ d) e r h = ground (arith, contains_of_get d e r)

-- The view keeps exactly the edges whose relation is this one.
pub contains-subgraph_view :
    (d : Dict Edge String) (relation : String) (e : Edge)
    → (contains (subgraph_view d relation) e ≡ true) ↔ (get d e ≡ some relation)
unfolding subgraph_view has_relation
contains-subgraph_view d relation e = elim (Option-cases (get d e)) [
  | inl missing ↦ ground (arith, contains-kept_edges d relation d e)
  | inr (r, found) ↦
      ground
        (arith, contains-kept_edges d relation d e, contains_of_get d e r found, eq_iff r relation)
]

module _ (d : Dict Edge String) (s t relation : String) where
  -- An edge of another relation only takes edges away from the view.
  pub IsAcyclic-other :
      (r : String)
      → r ≢ relation
      → IsAcyclic (subgraph_view d relation)
      → IsAcyclic (subgraph_view (put d (edge s t) r) relation)
  IsAcyclic-other r ne acyclic a b e w = acyclic a b (older a b e) (Walk-older w)
    where
      older :
          (a b : String)
          → contains (subgraph_view (put d (edge s t) r) relation) (edge a b) ≡ true
          → contains (subgraph_view d relation) (edge a b) ≡ true
      older a b e = ground (
        arith,
        contains-subgraph_view (put d (edge s t) r) relation (edge a b),
        contains-subgraph_view d relation (edge a b),
        get-put d (edge s t) (edge a b) r,
      )

      Walk-older :
          {a b : String}
          → Walk (subgraph_view (put d (edge s t) r) relation) a b
          → Walk (subgraph_view d relation) a b
      Walk-older here = here
      Walk-older (along {a} {b} e w) = along (older a b e) (Walk-older w)

  -- A checked edge closes no cycle.
  pub IsAcyclic-checked :
      ¬ Walk (subgraph_view d relation) t s
      → IsAcyclic (subgraph_view d relation)
      → IsAcyclic (subgraph_view (put d (edge s t) relation) relation)
  IsAcyclic-checked checked acyclic a b e w = elim (grown a b e) [
    | inl old ↦ elim (Walk-split grown w) [
      | inl v ↦ acyclic a b old v
      | inr (up, down) ↦ checked (Walk-trans down (along old up))
    ]
    | inr new ↦
        let w' : Walk (subgraph_view (put d (edge s t) relation) relation) t s =
          subst (λ x. Walk (subgraph_view (put d (edge s t) relation) relation) x s)
            (ap (λ x. x.target) new)
            (subst (Walk (subgraph_view (put d (edge s t) relation) relation) b)
              (ap (λ x. x.source) new) w) in
        elim (Walk-split grown w') [ inl v ↦ checked v | inr (up, down) ↦ checked up ]
  ]
    where
      grown :
          (a b : String)
          → contains (subgraph_view (put d (edge s t) relation) relation) (edge a b) ≡ true
          → (contains (subgraph_view d relation) (edge a b) ≡ true) ⊎ (edge a b ≡ edge s t)
      grown a b e = elim (Bool-cases (edge s t == edge a b)) [
        | inl same ↦ inr (sym ((edge_equals_iff (edge s t) (edge a b)).0 same))
        | inr other ↦ inl (
            ground (
              arith,
              contains-subgraph_view (put d (edge s t) relation) relation (edge a b),
              contains-subgraph_view d relation (edge a b),
              get-put d (edge s t) (edge a b) relation,
            ))
      ]
