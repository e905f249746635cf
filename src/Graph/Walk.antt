-- ===== src/Graph/Walk.antt =====
-- What NetworkX's `has_path` decides, for backend/app/graph/causal_graph.py: a walk along edges.
use mathlib.Core.Path.{subst}
use cage_agent_security.Prelude.{◌≡◌, ◌⊎◌, ◌↔◌, inl, inr, ap, Bool, true, String, List}
use cage_agent_security.Prelude.Eq.{contains}
use cage_agent_security.Graph.{Edge, edge, edge_eq}

-- A walk of zero or more edges.
pub data Walk (es : List Edge) : String → String → Type 0 where
  here : {a : String} → Walk es a a
  along : {a b c : String} → contains es (edge a b) ≡ true → Walk es b c → Walk es a c

pub Walk-trans : {es : List Edge} {a b c : String} → Walk es a b → Walk es b c → Walk es a c
Walk-trans here v = v
Walk-trans (along e w) v = along e (Walk-trans w v)

-- No edge leads back to where it came from.
abbrev pub IsAcyclic : List Edge → Type 0
IsAcyclic es = (a b : String) → contains es (edge a b) ≡ true → ¬ Walk es b a

-- The documented behaviour of `has_path`.
abbrev pub Decides : (List Edge → String → String → Bool) → Type 0
Decides has_path = (es : List Edge) (a b : String) → (has_path es a b ≡ true) ↔ Walk es a b

-- The documented behaviour of `is_directed_acyclic_graph`.
abbrev pub DecidesDag : (List Edge → Bool) → Type 0
DecidesDag is_dag = (es : List Edge) → (is_dag es ≡ true) ↔ IsAcyclic es

-- A walk in a graph that has one more edge, and none besides, avoids it or goes up to its source and
-- on from its target.
pub Walk-split :
    {es es' : List Edge} {s t : String}
    → ((a b : String)
        → contains es' (edge a b) ≡ true
        → (contains es (edge a b) ≡ true) ⊎ (edge a b ≡ edge s t))
    → {a c : String} → Walk es' a c
    → Walk es a c ⊎ (Walk es a s × Walk es t c)
Walk-split grown here = inl here
Walk-split {es} {es'} {s} {t} grown (along {a} {b} {c} e w) = elim (grown a b e) [
  | inl old ↦ elim (Walk-split grown w) [
    | inl v ↦ inl (along old v)
    | inr (u, v) ↦ inr (along old u, v)
  ]
  | inr new ↦
      let up : Walk es a s = subst (Walk es a) (ap (λ x. x.source) new) here in
      elim (Walk-split grown w) [
        | inl v ↦ inr (up, subst (λ x. Walk es x c) (ap (λ x. x.target) new) v)
        | inr (u, v) ↦ inr (up, v)
      ]
]
