-- ===== src/Graph/Analyzer/Chain.antt =====
-- What the traversal of backend/app/graph/analyzer.py has seen when it reports success: the whole
-- chain of first causal parents, within the limits.
use mathlib.Core.List.{append_assoc, append-nil}
use cage_agent_security.Prelude.{
  ℕ, zero, suc, ◌+◌, ◌≤◌, ◌<◌, ◌≡◌, inl, inr, refl, Bool, true, false, String, Option, none, some,
  List, [], ◌∷◌, ◌++◌, reverse, arith,
}
use mathlib.Core.Path.{subst}
use mathlib.Core.List.{reverse-append}
use cage_agent_security.Prelude.Tests.{leb, ltb, Bool-cases, Option-cases}
use cage_agent_security.Prelude.Lists.{length, length-append, any, any-append}
use cage_agent_security.Prelude.Eq.{contains, string_eq}
use cage_agent_security.Enums.{GraphAnalysisStatus}
use text.Mathlib.TextEquality.{eq_iff}
use cage_agent_security.Graph.Walk.{Walk, here, along, IsAcyclic, DecidesDag}
use cage_agent_security.Graph.Acyclic.{contains-subgraph_view}
use cage_agent_security.Graph.Parents.{get_parents_iff}
use cage_agent_security.Graph.{edge_eq, edge, Edge, NodeData, CausalExecutionGraph}
use cage_agent_security.Graph.Edges.{is_action_causality_dag, subgraph_view, get_parents}
use cage_agent_security.Graph.Actions.{get_node_data}
use cage_agent_security.Graph.Analyzer
use cage_agent_security.Graph.Analyzer.{
  Traversal, complete, cyclic, too_deep, too_many, out_of_fuel, first_parent, traverse, facts,
  was_denied, awaited_approval, analyze_action_causality,
}
use cage_agent_security.Policy.Contexts.{PolicyGraphContext}

-- The nodes met by following the first causal parent, nearest first, up to a node without one or
-- one that the graph does not have.
pub data ParentChain (g : CausalExecutionGraph) : Option String → List NodeData → Type 0 where
  top : ParentChain g none []
  unknown : {id : String} → get_node_data g id ≡ none → ParentChain g (some id) []
  up :
      {id : String} {n : NodeData} {ns : List NodeData}
      → get_node_data g id ≡ some n
      → ParentChain g (first_parent (get_parents g id)) ns
      → ParentChain g (some id) (n ∷ ns)

-- A limit was reached, with as many nodes as it allows.
pub data Stopped (max_depth max_nodes : ℕ) : Traversal → Type 0 where
  depth : (d n : ℕ) → n ≡ max_depth → Stopped max_depth max_nodes (too_deep d n)
  count : (d n : ℕ) → n ≡ max_nodes → Stopped max_depth max_nodes (too_many d n)

-- Every node that was visited can be reached from here, over at least one edge.
abbrev Above : CausalExecutionGraph → Option String → List String → Type 0
Above g curr visited =
    (j id : String)
    → contains visited j ≡ true
    → curr ≡ some id
    → (k : String) × (contains (subgraph_view g.edges "causes") (edge id k) ≡ true)
      × Walk (subgraph_view g.edges "causes") k j

first_parent-contains :
    (ps : List String) (p : String) → first_parent ps ≡ some p → contains ps p ≡ true
unfolding contains
first_parent-contains [] p e = absurd (cc)
first_parent-contains (q ∷ qs) p e = ground (arith, eq_iff q p)

first_parent-edge :
    (g : CausalExecutionGraph) (id p : String)
    → first_parent (get_parents g id) ≡ some p
    → contains (subgraph_view g.edges "causes") (edge p id) ≡ true
first_parent-edge g id p e =
    (contains-subgraph_view g.edges "causes" (edge p id)).1
      ((get_parents_iff g id p).0 (first_parent-contains (get_parents g id) p e)).1

Above-parent :
    (g : CausalExecutionGraph) (id : String) (visited : List String)
    → Above g (some id) visited
    → Above g (first_parent (get_parents g id)) (id ∷ visited)
unfolding contains
Above-parent g id visited above j p seen is = elim (Bool-cases (contains visited j)) [
  | inl old ↦ let (k, e, w) = above j id old refl in (id, first_parent-edge g id p is, along e w)
  | inr new ↦
      let same : id ≡ j = ground (arith, eq_iff id j) in
      (id, first_parent-edge g id p is, subst (Walk (subgraph_view g.edges "causes") id) same here)
]

-- A traversal from here on: it completes the chain within the limits, or it stops at one.
data Ends (g : CausalExecutionGraph) (max_depth max_nodes : ℕ) (curr : Option String)
    (nodes : List NodeData) (r : Traversal) : Type 0 where
  walked :
      (rest : List NodeData)
      → ParentChain g curr rest
      → r ≡ complete (nodes ++ rest)
      → length (nodes ++ rest) ≤ max_depth
      → length (nodes ++ rest) ≤ max_nodes
      → Ends g max_depth max_nodes curr nodes r
  stopped : Stopped max_depth max_nodes r → Ends g max_depth max_nodes curr nodes r

module _ (g : CausalExecutionGraph) (acyclic : IsAcyclic (subgraph_view g.edges "causes"))
    (max_depth max_nodes : ℕ) where
  extend :
      (id : String) (n : NodeData) (nodes : List NodeData) (r : Traversal)
      → get_node_data g id ≡ some n
      → Ends g max_depth max_nodes (first_parent (get_parents g id)) (nodes ++ n ∷ []) r
      → Ends g max_depth max_nodes (some id) nodes r
  extend id n nodes r found (walked rest chain is hd hn) =
      let same : (nodes ++ n ∷ []) ++ rest ≡ nodes ++ n ∷ rest = append_assoc nodes (n ∷ []) rest in
      walked (n ∷ rest) (up found chain) (subst (λ x. r ≡ complete x) same is)
        (subst (λ x. length x ≤ max_depth) same hd) (subst (λ x. length x ≤ max_nodes) same hn)
  extend id n nodes r found (stopped s) = stopped s

  traverse-Ends :
      (fuel : ℕ) (curr : Option String) (d : ℕ) (visited : List String) (nodes : List NodeData)
      → max_depth < fuel + d
      → length nodes ≡ d
      → d ≤ max_depth
      → d ≤ max_nodes
      → Above g curr visited
      → Ends g max_depth max_nodes curr nodes
          (traverse g max_depth max_nodes fuel curr d visited nodes)
  unfolding traverse
  traverse-Ends fuel none d visited nodes f e hd hn above =
      walked [] top (rw append-nil refl) (rw append-nil (omega (arith, e)))
        (rw append-nil (omega (arith, e)))
  traverse-Ends zero (some id) d visited nodes f e hd hn above = absurd (omega arith)
  traverse-Ends (suc fuel) (some id) d visited nodes f e hd hn above =
      elim (Bool-cases (contains visited id)) [
        | inl seen ↦ let (k, back, w) = above id id seen refl in absurd (acyclic id k back w)
        | inr unseen ↦ elim (Bool-cases (ltb max_depth (d + 1))) [
          | inl deep ↦ rw (unseen, traverse, deep) (stopped (depth _ _ (ground (arith, e))))
          | inr shallow ↦ elim (Bool-cases (leb max_nodes (length nodes))) [
            | inl many ↦
                rw (unseen, traverse, shallow, many) (stopped (count _ _ (ground (arith, e))))
            | inr few ↦ elim (Option-cases (get_node_data g id)) [
              | inl missing ↦
                  rw (unseen, traverse, shallow, few, missing)
                    (walked [] (unknown missing) (rw append-nil refl)
                      (rw append-nil (omega (arith, e))) (rw append-nil (omega (arith, e))))
              | inr (n, found) ↦
                  rw (unseen, traverse, shallow, few, found)
                    (extend id n nodes _ found (
                      traverse-Ends fuel (first_parent (get_parents g id)) (d + 1) (id ∷ visited)
                        (nodes ++ n ∷ []) (omega arith)
                        (omega (arith, e, length-append nodes (n ∷ []))) (ground arith)
                        (ground (arith, e)) (Above-parent g id visited above)))
            ]
          ]
        ]
      ]

any-reverse : (p : NodeData → Bool) (ns : List NodeData) → any p (reverse ns) ≡ any p ns
unfolding any
any-reverse p [] = refl
any-reverse p (n ∷ ns) =
    rw (reverse-append (n ∷ []) ns)
      (ground (arith, any-append p (reverse ns) (n ∷ []), any-reverse p ns))

-- What a report says: it failed and is incomplete, or it is complete and speaks of the whole chain.
pub data Reports (is_dag : List Edge → Bool) (g : CausalExecutionGraph) (max_depth max_nodes : ℕ)
    (parent : String) (c : PolicyGraphContext) : Type 0 where
  invalid :
      is_action_causality_dag is_dag g ≡ false
      → c.analysis_complete ≡ false
      → c.analysis_status ≡ GraphAnalysisStatus.invalid_graph
      → Reports is_dag g max_depth max_nodes parent c
  deep :
      c.analysis_complete ≡ false
      → c.analysis_status ≡ GraphAnalysisStatus.depth_limit_exceeded
      → c.ancestor_count ≡ max_depth
      → Reports is_dag g max_depth max_nodes parent c
  many :
      c.analysis_complete ≡ false
      → c.analysis_status ≡ GraphAnalysisStatus.node_limit_exceeded
      → c.ancestor_count ≡ max_nodes
      → Reports is_dag g max_depth max_nodes parent c
  of_chain :
      (ns : List NodeData)
      → ParentChain g (some parent) ns
      → c.analysis_complete ≡ true
      → c.analysis_status ≡ GraphAnalysisStatus.success
      → c.ancestor_count ≡ length ns
      → c.contains_denied_ancestor ≡ any was_denied ns
      → c.contains_approval_ancestor ≡ any awaited_approval ns
      → length ns ≤ max_depth
      → length ns ≤ max_nodes
      → Reports is_dag g max_depth max_nodes parent c

module _ (is_dag : List Edge → Bool) (g : CausalExecutionGraph) (max_depth max_nodes : ℕ)
    (parent : String) where
  Stopped-report :
      (r : Traversal)
      → Stopped max_depth max_nodes r
      → (c : PolicyGraphContext) × (Analyzer.context r ≡ some c)
        × Reports is_dag g max_depth max_nodes parent c
  unfolding Analyzer.context
  Stopped-report _ (depth d n e) = (_, refl, deep refl refl e)
  Stopped-report _ (count d n e) = (_, refl, many refl refl e)

  ends-report :
      (r : Traversal)
      → Ends g max_depth max_nodes (some parent) [] r
      → (c : PolicyGraphContext) × (Analyzer.context r ≡ some c)
        × Reports is_dag g max_depth max_nodes parent c
  unfolding Analyzer.context facts
  ends-report r (walked ns chain is hd hn) = (
    facts ns,
    rw is refl,
    of_chain ns chain refl refl refl (any-reverse was_denied ns) (any-reverse awaited_approval ns)
        hd hn,
  )
  ends-report r (stopped s) = Stopped-report r s

-- If `is_dag` decides whether a graph is acyclic, the analysis of an action that names a parent always
-- returns a report, whatever the graph and the limits, and never finds a cycle. It is incomplete where
-- the causal view has a cycle, and where one of the limits is reached with as many ancestors as it
-- allows. Otherwise it is a success and speaks of the whole chain of first causal parents of the
-- action: it counts them all, they are no more than either limit allows, and it says that one was
-- denied, or awaited an approval, exactly if one of them was.
pub analysis-Reports :
    (is_dag : List Edge → Bool) (max_depth max_nodes : ℕ) (g : CausalExecutionGraph)
    (parent : String)
    → DecidesDag is_dag
    → (c : PolicyGraphContext) × (analyze_action_causality is_dag max_depth max_nodes g
          (some parent)
        ≡ some c)
      × Reports is_dag g max_depth max_nodes parent c
unfolding analyze_action_causality is_action_causality_dag contains
analysis-Reports is_dag max_depth max_nodes g parent decides =
    elim (Bool-cases (is_action_causality_dag is_dag g)) [
      | inr refused ↦ rw refused (_, refl, invalid refused refl refl)
      | inl valid ↦ rw valid (
          ends-report is_dag g max_depth max_nodes parent _ (
            traverse-Ends g ((decides _).0 valid) max_depth max_nodes (max_depth + 1) (some parent)
              0 [] [] (omega arith) refl (omega arith) (omega arith) (λ j id seen is. absurd (cc))))
    ]
