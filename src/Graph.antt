-- ===== src/Graph.antt =====
-- backend/app/graph/causal_graph.py: the graph of a session. A NetworkX `DiGraph` is its nodes and,
-- for each ordered pair of nodes, at most one edge with its `relation`: adding an edge again
-- replaces the relation and keeps its place.
pub mod Nodes
pub mod Edges
pub mod Actions
pub mod Walk
pub mod Acyclic
pub mod Lifecycle
pub mod Parents
pub mod Analyzer
pub mod Search
use cage_agent_security.Prelude.{
  ℕ, ◌≡◌, ◌↔◌, Bool, true, false, String, Option, none, some, List, [], ◌∷◌, ◌&&◌, arith,
}
use cage_agent_security.Prelude.Tests.{if◌then◌else◌, is_some}
use cage_agent_security.Prelude.Eq.{HasEq, ◌==◌, string_eq}
use cage_agent_security.Prelude.Dict.{Dict, get, put}
use cage_agent_security.Enums.{
  ActionType, ArtifactSourceType, DataClassification, GraphRelation, PolicyDecision,
  ProvenanceTrust, TargetEnvironment, ToolExecutionStatus,
}
use cage_agent_security.Action.{AgentAction}
use cage_agent_security.Delegation.Models.{DelegationGrant}

-- An artifact as backend/app/provenance/models.py declares it.
pub record InformationArtifact : Type 0 where
  pub artifact_id : String
  pub session_id : String
  pub created_by_action_id : Option String
  pub source_type : ArtifactSourceType
  pub source_resource : String
  pub direct_trust_level : ProvenanceTrust
  pub inherited_trust_levels : List ProvenanceTrust
  pub data_classifications : List DataClassification
  pub parent_artifact_ids : List String
  pub content_digest : Option String
  pub size_bytes : Option ℕ
  pub mime_type : Option String
  pub created_at : ℕ

-- The attributes of an action node. The last two are there once they were written.
pub record ActionNode : Type 0 where
  pub action_id : String
  pub agent_id : String
  pub session_id : String
  pub tool_name : String
  pub tool_known : Bool
  pub tool_privileged : Bool
  pub tool_destructive : Bool
  pub tool_external_sink : Bool
  pub action_type : ActionType
  pub target_resource : Option String
  pub target_environment : TargetEnvironment
  pub effective_data_classifications : List String
  pub execution_status : ToolExecutionStatus
  pub policy_result : Option PolicyDecision
  pub risk_score : ℕ
  pub intent_contract_id : Option String
  pub policy_version : Option String
  pub policy_input_schema_version : Option String
  pub created_at : ℕ
  pub has_execution_result : Bool
  pub output_artifact_ids : List String

-- The attributes of a node, by its `node_type`; an edge brings a missing end with none.
pub data NodeData : Type 0 where
  intent_node : String → String → Option String → ℕ → NodeData
  agent_node : String → Bool → String → ℕ → NodeData
  delegation_node : DelegationGrant → NodeData
  artifact_node : InformationArtifact → NodeData
  action_node : ActionNode → NodeData
  bare_node : NodeData

-- An action as the graph keeps it: the action with the fields of its verdict.
pub record RecordedAction : Type 0 where
  pub action : AgentAction
  pub execution_status : ToolExecutionStatus
  pub policy_result : Option PolicyDecision
  pub security_reason : Option String
  pub matched_rules : List String
  pub risk_score : ℕ
  pub execution_result : Option String
  pub output_artifact_ids : List String
  pub created_at : ℕ
  pub updated_at : ℕ

pub record Edge : Type 0 where
  pub source : String
  pub target : String

unfoldable pub edge_equals : Edge → Edge → Bool
edge_equals a b = a.source == b.source && a.target == b.target

pub edge_equals_iff : (a b : Edge) → (edge_equals a b ≡ true) ↔ (a ≡ b)
unfolding edge_equals
edge_equals_iff a b =
    ground (arith, string_eq.equals_iff a.source b.source, string_eq.equals_iff a.target b.target)

instance abbrev pub edge_eq : HasEq Edge
edge_eq = record { equals = edge_equals; equals_iff = edge_equals_iff }

abbrev pub edge : String → String → Edge
edge source target = record { source = source; target = target }

pub record CausalExecutionGraph : Type 0 where
  pub session_id : String
  pub nodes : Dict String NodeData
  pub edges : Dict Edge String
  pub actions : Dict String RecordedAction

abbrev pub new_graph : String → CausalExecutionGraph
new_graph session = record { session_id = session; nodes = []; edges = []; actions = [] }

-- What the methods raise.
pub data GraphError : Type 0 where
  action_collision parent_action_not_found key_error : String → GraphError
  graph_cycle provenance_cycle delegation_cycle : String → String → GraphError

-- What a method raised, if anything, and the graph that it leaves.
abbrev pub Done : Type 0
Done = Option GraphError × CausalExecutionGraph

infixl 5 ◌>>=◌
abbrev pub ◌>>=◌ : Done → (CausalExecutionGraph → Done) → Done
(none, g) >>= f = f g
(some e, g) >>= f = (some e, g)

unfoldable pub has_node : CausalExecutionGraph → String → Bool
has_node g id = is_some (get g.nodes id)

-- `self._graph.add_edge(...)` between nodes that are there.
unfoldable pub add_edge : CausalExecutionGraph → String → String → String → CausalExecutionGraph
add_edge g source target relation = record g { edges = put g.edges (edge source target) relation }

abbrev pub relation_value : GraphRelation → String
relation_value GraphRelation.governs = "governs"
relation_value GraphRelation.causes = "causes"
relation_value GraphRelation.produces = "produces"
relation_value GraphRelation.consumes = "consumes"
relation_value GraphRelation.derived_from = "derived_from"
relation_value GraphRelation.issues_delegation = "issues_delegation"
relation_value GraphRelation.grants_to = "grants_to"
relation_value GraphRelation.subdelegates = "subdelegates"
relation_value GraphRelation.creates_delegation = "creates_delegation"
