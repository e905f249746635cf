-- ===== src/Policy/Input.antt =====
-- backend/app/policies/policy_input.py and backend/app/schemas/policy.py: the document that both
-- policy engines are given. The builders of a delegation context are in Policy/DelegationInput.antt.
use cage_agent_security.Prelude.{ℕ, Bool, ◌||◌, String, Option, none, some, List, [], ◌∷◌, map}
use cage_agent_security.Prelude.Lists.{length}
use cage_agent_security.Prelude.Eq.{◌==◌}
use cage_agent_security.Prelude.Sorted.{sorted}
use cage_agent_security.Enums.{ActionType, DataClassification}
use cage_agent_security.Enums.Same.{action_type_eq}
use cage_agent_security.Enums.Values.{
  action_type_value, binding_mode_value, classification_value, environment_value,
  intent_status_value,
}
use cage_agent_security.Policy.Defaults.{
  default_graph, default_provenance, default_trajectory, default_delegation,
}
use cage_agent_security.Action.{AgentAction}
use cage_agent_security.Intent.{IntentContract}
use cage_agent_security.Registry.{ToolRegistry, lookup_tool, get_effective_classifications}
use cage_agent_security.Policy.Contexts.{
  PolicyDelegationContext, PolicyGraphContext, PolicyProvenanceContext, PolicyTrajectoryContext,
}

pub record PolicyActionContext : Type 0 where
  pub action_id : String
  pub action_type : String
  pub tool_name : String
  pub target_resource : Option String
  pub target_environment : String

pub record PolicyAgentContext : Type 0 where
  pub agent_id : String
  pub session_id : String
  pub user_id : Option String

pub record PolicyIntentContext : Type 0 where
  pub intent_id : String
  pub status : String
  pub allowed_tools : List String
  pub denied_tools : List String
  pub allowed_environments : List String
  pub allowed_resources : List String
  pub denied_resources : List String
  pub allowed_data_classifications : List String
  pub requires_approval : List String
  pub maximum_tool_calls : ℕ
  pub tool_calls_count : ℕ

pub record PolicyToolContext : Type 0 where
  pub known : Bool
  pub privileged : Bool
  pub destructive : Bool
  pub external_sink : Bool
  pub resource_scoped : Bool
  pub server_known_classifications : List String
  pub requires_tracked_inputs : Bool
  pub payload_binding_mode : String

pub record PolicyDataContext : Type 0 where
  pub effective_classifications : List String

pub record PolicyRuntimeContext : Type 0 where
  pub require_intent : Bool
  pub intent_mismatch : Bool
  pub parent_action_id : Option String
  pub delegation_depth : ℕ

pub record CagePolicyInput : Type 0 where
  pub schema_version : String
  pub action : PolicyActionContext
  pub agent : PolicyAgentContext
  pub intent : Option PolicyIntentContext
  pub tool : PolicyToolContext
  pub data_context : PolicyDataContext
  pub context : PolicyRuntimeContext
  pub graph : PolicyGraphContext
  pub provenance : PolicyProvenanceContext
  pub trajectory : PolicyTrajectoryContext
  pub delegation : PolicyDelegationContext

intent_context : Option IntentContract → Option PolicyIntentContext
intent_context none = none
intent_context (some contract) = some (record {
  intent_id = contract.intent_id;
  status = intent_status_value contract.status;
  allowed_tools = sorted contract.allowed_tools;
  denied_tools = sorted contract.denied_tools;
  allowed_environments = sorted (map environment_value contract.allowed_environments);
  allowed_resources = sorted contract.allowed_resources;
  denied_resources = sorted contract.denied_resources;
  allowed_data_classifications =
      sorted (map classification_value contract.allowed_data_classifications);
  requires_approval = sorted contract.requires_approval;
  maximum_tool_calls = contract.maximum_tool_calls;
  tool_calls_count = contract.tool_calls_count;
})

or_default : {C : Type 0} → Option C → C → C
or_default none c = c
or_default (some c) c' = c

known_classifications : Option DataClassification → List String
known_classifications none = []
known_classifications (some c) = classification_value c ∷ []

unfoldable pub build_cage_policy_input :
    ToolRegistry
    → AgentAction
    → Option IntentContract
    → Bool
    → Bool
    → Option PolicyGraphContext
    → Option PolicyProvenanceContext
    → Option PolicyTrajectoryContext
    → Option PolicyDelegationContext
    → CagePolicyInput
unfolding intent_context or_default known_classifications
build_cage_policy_input registry action contract require_intent intent_mismatch graph provenance
      trajectory delegation =
    let spec = lookup_tool registry action.tool_name in
    record {
      schema_version = "cage-policy-input-v5";
      action = record {
        action_id = action.action_id;
        action_type = action_type_value action.action_type;
        tool_name = action.tool_name;
        target_resource = action.target_resource;
        target_environment = environment_value action.target_environment;
      };
      agent = record {
        agent_id = action.agent_id;
        session_id = action.session_id;
        user_id = action.user_id;
      };
      intent = intent_context contract;
      tool = record {
        known = spec.known;
        privileged = spec.privileged;
        destructive = spec.destructive || action.action_type == ActionType.destructive;
        external_sink = spec.external_sink;
        resource_scoped = spec.resource_scoped;
        server_known_classifications = known_classifications spec.default_classification;
        requires_tracked_inputs = spec.requires_tracked_inputs;
        payload_binding_mode = binding_mode_value spec.payload_binding_mode;
      };
      data_context = record {
        effective_classifications = sorted (
            map classification_value (
              get_effective_classifications registry action.tool_name action.data_classifications));
      };
      context = record {
        require_intent = require_intent;
        intent_mismatch = intent_mismatch;
        parent_action_id = action.parent_action_id;
        delegation_depth = length action.delegation_chain;
      };
      graph = or_default graph default_graph;
      provenance = or_default provenance default_provenance;
      trajectory = or_default trajectory default_trajectory;
      delegation = or_default delegation default_delegation;
    }
