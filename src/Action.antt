-- ===== src/Action.antt =====
-- backend/app/schemas/action.py: the authoritative action, with the fields that a modelled component
-- reads. The free-form dictionaries (tool_arguments, execution_result), the lineage that only the
-- causal graph reads and the fields of the verdict are left out.
use cage_agent_security.Prelude.{String, Option, List}
use cage_agent_security.Enums.{ActionType, DataClassification, TargetEnvironment}

pub record AgentAction : Type 0 where
  pub action_id : String
  pub trajectory_id : Option String
  pub delegation_id : Option String
  pub agent_id : String
  pub session_id : String
  pub user_id : Option String
  pub intent_contract_id : Option String
  pub action_type : ActionType
  pub tool_name : String
  pub target_resource : Option String
  pub target_environment : TargetEnvironment
  pub parent_action_id : Option String
  pub delegation_chain : List String
  pub data_classifications : List DataClassification
