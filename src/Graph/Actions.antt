-- ===== src/Graph/Actions.antt =====
-- backend/app/graph/causal_graph.py: the actions of a session with their verdicts, and
-- `SessionGraphManager`. The lock makes each method of the manager one step.
use mathlib.Core.Option.{get_or}
use cage_agent_security.Prelude.{
  ℕ, Bool, true, false, String, Option, none, some, List, [], ◌||◌, map,
}
use cage_agent_security.Prelude.Tests.{if◌then◌else◌, is_some}
use cage_agent_security.Prelude.Eq.{◌==◌, add, string_eq}
use cage_agent_security.Prelude.Dict.{Dict, get, put}
use cage_agent_security.Enums.{ActionType, PolicyDecision, ToolExecutionStatus}
use cage_agent_security.Enums.Same.{action_type_eq}
use cage_agent_security.Enums.Values.{classification_value}
use cage_agent_security.Action.{AgentAction}
use cage_agent_security.Registry.{ToolSpec}
use cage_agent_security.Graph.{
  ActionNode, NodeData, action_node, intent_node, agent_node, delegation_node, artifact_node,
  bare_node, RecordedAction, CausalExecutionGraph, action_collision, key_error, Done, new_graph,
  has_node,
}

-- The facts of the tool that are kept with the action, and their defaults without a specification.
known_of : Option ToolSpec → Bool
known_of none = true
known_of (some spec) = spec.known

privileged_of : Option ToolSpec → Bool
privileged_of none = false
privileged_of (some spec) = spec.privileged

destructive_of : AgentAction → Option ToolSpec → Bool
destructive_of action none = action.action_type == ActionType.destructive
destructive_of action (some spec) = spec.destructive

external_sink_of : Option ToolSpec → Bool
external_sink_of none = false
external_sink_of (some spec) = spec.external_sink

module _ (recorded : RecordedAction) (spec : Option ToolSpec) (classes : Option (List String))
    (policy_version schema_version : Option String) where
  unfoldable pub action_attributes : ActionNode
  unfolding known_of privileged_of destructive_of external_sink_of
  action_attributes = record {
    action_id = recorded.action.action_id;
    agent_id = recorded.action.agent_id;
    session_id = recorded.action.session_id;
    tool_name = recorded.action.tool_name;
    tool_known = known_of spec;
    tool_privileged = privileged_of spec;
    tool_destructive = destructive_of recorded.action spec;
    tool_external_sink = external_sink_of spec;
    action_type = recorded.action.action_type;
    target_resource = recorded.action.target_resource;
    target_environment = recorded.action.target_environment;
    effective_data_classifications =
        get_or classes (map classification_value recorded.action.data_classifications);
    execution_status = recorded.execution_status;
    policy_result = recorded.policy_result;
    risk_score = recorded.risk_score;
    intent_contract_id = recorded.action.intent_contract_id;
    policy_version = policy_version;
    policy_input_schema_version = schema_version;
    created_at = recorded.created_at;
    has_execution_result = false;
    output_artifact_ids = [];
  }

  unfoldable pub add_action : CausalExecutionGraph → Done
  unfolding action_attributes
  add_action g =
      let id = recorded.action.action_id in
      if is_some (get g.actions id) || has_node g id then (some (action_collision id), g) else (
        none,
        record g {
          actions = put g.actions id recorded;
          nodes = put g.nodes id (action_node action_attributes);
        },
      )

-- The optional arguments of `update_action_state`.
pub record ActionUpdate : Type 0 where
  pub execution_status : ToolExecutionStatus
  pub policy_result : Option PolicyDecision
  pub security_reason : Option String
  pub matched_rules : Option (List String)
  pub risk_score : Option ℕ
  pub execution_result : Option String
  pub policy_version : Option String
  pub policy_input_schema_version : Option String

-- `if value is not None: attribute = value`
abbrev pub or_keep {ℓ} : {A : Type ℓ} → Option A → A → A
or_keep none old = old
or_keep (some new) old = new

abbrev pub or_keep? {ℓ} : {A : Type ℓ} → Option A → Option A → Option A
or_keep? none old = old
or_keep? (some new) old = some new

unfoldable pub updated_action : ActionUpdate → ℕ → RecordedAction → RecordedAction
updated_action u now r = record r {
  execution_status = u.execution_status;
  policy_result = or_keep? u.policy_result r.policy_result;
  security_reason = or_keep? u.security_reason r.security_reason;
  matched_rules = or_keep u.matched_rules r.matched_rules;
  risk_score = or_keep u.risk_score r.risk_score;
  execution_result = or_keep? u.execution_result r.execution_result;
  updated_at = now;
}

-- Only an action's node carries these attributes.
unfoldable pub updated_node : ActionUpdate → NodeData → NodeData
updated_node u (action_node n) = action_node (record n {
  execution_status = u.execution_status;
  policy_result = or_keep? u.policy_result n.policy_result;
  risk_score = or_keep u.risk_score n.risk_score;
  has_execution_result = is_some u.execution_result || n.has_execution_result;
  policy_version = or_keep? u.policy_version n.policy_version;
  policy_input_schema_version =
      or_keep? u.policy_input_schema_version n.policy_input_schema_version;
})
updated_node u (intent_node goal agent user at) = intent_node goal agent user at
updated_node u (agent_node agent control session at) = agent_node agent control session at
updated_node u (delegation_node grant) = delegation_node grant
updated_node u (artifact_node artifact) = artifact_node artifact
updated_node u bare_node = bare_node

rewrite_node : Dict String NodeData → String → (NodeData → NodeData) → Dict String NodeData
rewrite_node nodes id change = elim (get nodes id) [
  | none ↦ nodes
  | some n ↦ put nodes id (change n)
]

unfoldable pub update_action_state : CausalExecutionGraph → String → ActionUpdate → ℕ → Done
unfolding updated_action updated_node rewrite_node
update_action_state g id u now = elim (get g.actions id) [
  | none ↦ (some (key_error id), g)
  | some r ↦ (
    none,
    record g {
      actions = put g.actions id (updated_action u now r);
      nodes = rewrite_node g.nodes id (updated_node u);
    },
  )
]

with_output : String → NodeData → NodeData
with_output artifact (action_node n) =
    action_node (record n { output_artifact_ids = add n.output_artifact_ids artifact })
with_output artifact (intent_node goal agent user at) = intent_node goal agent user at
with_output artifact (agent_node agent control session at) = agent_node agent control session at
with_output artifact (delegation_node grant) = delegation_node grant
with_output artifact (artifact_node a) = artifact_node a
with_output artifact bare_node = bare_node

unfoldable pub add_action_output_artifact :
    CausalExecutionGraph → String → String → CausalExecutionGraph
unfolding with_output rewrite_node
add_action_output_artifact g id artifact = record g {
  actions = elim (get g.actions id) [
    | none ↦ g.actions
    | some r ↦
        put g.actions id (record r { output_artifact_ids = add r.output_artifact_ids artifact })
  ];
  nodes = rewrite_node g.nodes id (with_output artifact);
}

unfoldable pub get_action : CausalExecutionGraph → String → Option RecordedAction
get_action g id = get g.actions id

unfoldable pub get_node_data : CausalExecutionGraph → String → Option NodeData
get_node_data g id = get g.nodes id

pub record SessionGraphManager : Type 0 where
  pub sessions : Dict String CausalExecutionGraph
  pub action_to_session : Dict String String

module _ (m : SessionGraphManager) where
  -- The graph is stored where it is new; what is returned is the stored object.
  unfoldable pub get_or_create : String → CausalExecutionGraph × SessionGraphManager
  get_or_create session = elim (get m.sessions session) [
    | some g ↦ (g, m)
    | none ↦ (new_graph session, record m { sessions = put m.sessions session (new_graph session) })
  ]

  unfoldable pub get_graph : String → Option CausalExecutionGraph
  get_graph session = get m.sessions session

  unfoldable pub session_exists : String → Bool
  session_exists session = is_some (get m.sessions session)

  unfoldable pub register_action_session : String → String → SessionGraphManager
  register_action_session action session = record m {
    action_to_session = put m.action_to_session action session;
  }

  unfoldable pub get_action_globally : String → Option RecordedAction
  get_action_globally action = elim (get m.action_to_session action) [
    | none ↦ none
    | some session ↦
        if session == ""
        then none
        else elim (get m.sessions session) [ none ↦ none | some g ↦ get g.actions action ]
  ]
