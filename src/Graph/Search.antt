-- ===== src/Graph/Search.antt =====
-- A search that decides whether there is a walk, for backend/app/graph/causal_graph.py: it shows that
-- what is assumed of NetworkX's `has_path` can be met.
use mathlib.Core.Path.{subst}
use cage_agent_security.Prelude.{
  ◌≡◌, inl, inr, refl, ap, Bool, true, false, String, List, [], ◌∷◌, ◌||◌, ◌&&◌, not, arith,
}
use cage_agent_security.Prelude.Tests.{Bool-cases}
use cage_agent_security.Prelude.Eq.{◌==◌, contains, ==-refl, string_eq}
use cage_agent_security.Graph.{Edge, edge, edge_eq, edge_equals, edge_equals_iff}
use cage_agent_security.Graph.Walk.{Walk, here, along, Walk-trans, Decides, DecidesDag, IsAcyclic}

-- A walk avoids the first edge, or goes up to its source and on from its target.
unfoldable pub find_path : List Edge → String → String → Bool
find_path [] a b = a == b
find_path (e ∷ es) a b = elim (find_path es a b) [
  | true ↦ true
  | false ↦ find_path es a e.source && find_path es e.target b
]

find_path-cons :
    (e : Edge) (es : List Edge) (a b : String)
    → find_path (e ∷ es) a b
      ≡ (find_path es a b || (find_path es a e.source && find_path es e.target b))
unfolding find_path
find_path-cons e es a b = ground arith

find_path_refl : (es : List Edge) (a : String) → find_path es a a ≡ true
unfolding find_path
find_path_refl [] a = ==-refl a
find_path_refl (e ∷ es) a = ground (arith, find_path_refl es a)

find_path_trans :
    (es : List Edge) (a b c : String)
    → find_path es a b ≡ true
    → find_path es b c ≡ true
    → find_path es a c ≡ true
find_path_trans [] a b c h k = unfold find_path in ground (arith, string_eq.equals_iff a b)
find_path_trans (e ∷ es) a b c h k = ground (
  arith,
  find_path-cons e es a b,
  find_path-cons e es b c,
  find_path-cons e es a c,
  find_path_trans es a b c,
  find_path_trans es a b e.source,
  find_path_trans es e.target b c,
)

find_path-edge :
    (es : List Edge) (a b : String) → contains es (edge a b) ≡ true → find_path es a b ≡ true
unfolding contains
find_path-edge [] a b h = cc
find_path-edge (e ∷ es) a b h = ground (
  arith,
  find_path-cons e es a b,
  find_path-edge es a b,
  find_path_refl es a,
  find_path_refl es b,
  edge_equals_iff e (edge a b),
)

find_path_complete : {es : List Edge} {a b : String} → Walk es a b → find_path es a b ≡ true
find_path_complete {es} (here {a}) = find_path_refl es a
find_path_complete {es} (along {a} {b} {c} e w) =
    find_path_trans es a b c (find_path-edge es a b e) (find_path_complete w)

-- A walk remains where an edge is added.
Walk-cons : (e : Edge) {es : List Edge} {a b : String} → Walk es a b → Walk (e ∷ es) a b
unfolding contains
Walk-cons e here = here
Walk-cons e (along {a} {b} k w) = along (ground arith) (Walk-cons e w)

find_path_sound : (es : List Edge) (a b : String) → find_path es a b ≡ true → Walk es a b
unfolding contains
find_path_sound [] a b h =
    subst (Walk [] a) ((string_eq.equals_iff a b).0 (unfold find_path in h)) here
find_path_sound (e ∷ es) a b h = elim (Bool-cases (find_path es a b)) [
  | inl avoids ↦ Walk-cons e (find_path_sound es a b avoids)
  | inr through ↦
      Walk-trans
        (Walk-cons e (find_path_sound es a e.source (ground (arith, find_path-cons e es a b))))
        (along {b = e.target} (ground (arith, edge_equals_iff e e))
          (Walk-cons e (find_path_sound es e.target b (ground (arith, find_path-cons e es a b)))))
]

pub find_path-Decides : Decides find_path
find_path-Decides es a b = (find_path_sound es a b, find_path_complete)

-- No edge of the list is closed to a cycle by a path.
none_back : List Edge → List Edge → Bool
none_back all [] = true
none_back all (e ∷ es) = not (find_path all e.target e.source) && none_back all es

-- What is assumed of `is_directed_acyclic_graph` can be met too.
unfoldable pub is_acyclic : List Edge → Bool
unfolding none_back
is_acyclic es = none_back es es

none_back-edge :
    (all es : List Edge) (a b : String)
    → none_back all es ≡ true
    → contains es (edge a b) ≡ true
    → find_path all b a ≡ false
unfolding none_back contains
none_back-edge all [] a b h e = absurd (cc)
none_back-edge all (x ∷ es) a b h e = elim (Bool-cases (edge_equals x (edge a b))) [
  | inl same ↦
      let is = (edge_equals_iff x (edge a b)).0 same in
      ground (arith, h, ap (λ y. y.source) is, ap (λ y. y.target) is)
  | inr other ↦ none_back-edge all es a b (ground (arith, h)) (ground (arith, e, other))
]

is_acyclic_sound : (es : List Edge) → is_acyclic es ≡ true → IsAcyclic es
unfolding is_acyclic
is_acyclic_sound es h a b e w = cc (none_back-edge es es a b h e, find_path_complete w)

none_back_complete :
    (all es : List Edge)
    → ((a b : String) → contains es (edge a b) ≡ true → find_path all b a ≡ false)
    → none_back all es ≡ true
unfolding none_back contains
none_back_complete all [] clear = refl
none_back_complete all (x ∷ es) clear =
    let first : find_path all x.target x.source ≡ false =
      clear x.source x.target (ground (arith, edge_equals_iff x x)) in
    ground (arith, first, none_back_complete all es (λ a b e. clear a b (ground (arith, e))))

is_acyclic_complete : (es : List Edge) → IsAcyclic es → is_acyclic es ≡ true
unfolding is_acyclic
is_acyclic_complete es acyclic = none_back_complete es es (λ a b e.
    elim (Bool-cases (find_path es b a)) [
      | inl back ↦ absurd (acyclic a b e (find_path_sound es b a back))
      | inr clear ↦ clear
    ])

pub is_acyclic-DecidesDag : DecidesDag is_acyclic
is_acyclic-DecidesDag es = (is_acyclic_sound es, is_acyclic_complete es)
