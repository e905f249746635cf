-- ===== src/Intent.antt =====
-- backend/app/schemas/intent.py: the Intent Contract and the requests that create and narrow it.
-- A datetime is a number of ticks, and a call that reads the clock takes the time as an argument.
pub mod Result
pub mod Narrowing
pub mod Service
use cage_agent_security.Prelude.{
  ℕ, Bool, true, false, String, Option, none, some, List, [], not, ◌&&◌,
}
use cage_agent_security.Prelude.Tests.{leb, if◌then◌else◌}
use cage_agent_security.Prelude.Eq.{◌==◌}
use cage_agent_security.Enums.{DataClassification, IntentStatus, TargetEnvironment}
use cage_agent_security.Enums.Same.{intent_status_eq}

pub record IntentContractCreate : Type 0 where
  pub user_id : Option String
  pub agent_id : String
  pub session_id : String
  pub goal : String
  pub description : Option String
  pub allowed_tools : List String
  pub denied_tools : List String
  pub allowed_resources : List String
  pub denied_resources : List String
  pub allowed_environments : List TargetEnvironment
  pub allowed_data_classifications : List DataClassification
  pub requires_approval : List String
  pub maximum_tool_calls : ℕ
  pub delegation_allowed : Bool
  pub maximum_delegation_depth : ℕ
  pub expires_at : Option ℕ

-- `expires_at_set` is `"expires_at" in narrow.model_fields_set`.
pub record IntentContractNarrow : Type 0 where
  pub allowed_tools : Option (List String)
  pub denied_tools : Option (List String)
  pub allowed_resources : Option (List String)
  pub denied_resources : Option (List String)
  pub allowed_environments : Option (List TargetEnvironment)
  pub allowed_data_classifications : Option (List DataClassification)
  pub requires_approval : Option (List String)
  pub maximum_tool_calls : Option ℕ
  pub delegation_allowed : Option Bool
  pub maximum_delegation_depth : Option ℕ
  pub expires_at : Option ℕ
  pub expires_at_set : Bool

pub record IntentContract : Type 0 where
  pub intent_id : String
  pub user_id : Option String
  pub agent_id : String
  pub session_id : String
  pub goal : String
  pub description : Option String
  pub allowed_tools : List String
  pub denied_tools : List String
  pub allowed_resources : List String
  pub denied_resources : List String
  pub allowed_environments : List TargetEnvironment
  pub allowed_data_classifications : List DataClassification
  pub requires_approval : List String
  pub maximum_tool_calls : ℕ
  pub tool_calls_count : ℕ
  pub delegation_allowed : Bool
  pub maximum_delegation_depth : ℕ
  pub expires_at : Option ℕ
  pub created_at : ℕ
  pub updated_at : ℕ
  pub status : IntentStatus
  pub revoked_reason : Option String

-- `expires_at is not None and now >= expires_at`
abbrev pub deadline_passed : Option ℕ → ℕ → Bool
deadline_passed none now = false
deadline_passed (some t) now = leb t now

unfoldable pub is_active : IntentContract → ℕ → Bool
is_active contract now =
    if not (contract.status == IntentStatus.active)
    then false
    else if deadline_passed contract.expires_at now
    then false
    else true

-- `intent_id` is the fresh `uuid4()`.
unfoldable pub from_create : IntentContractCreate → String → ℕ → IntentContract
from_create req intent_id now = record {
  intent_id = intent_id;
  user_id = req.user_id;
  agent_id = req.agent_id;
  session_id = req.session_id;
  goal = req.goal;
  description = req.description;
  allowed_tools = req.allowed_tools;
  denied_tools = req.denied_tools;
  allowed_resources = req.allowed_resources;
  denied_resources = req.denied_resources;
  allowed_environments = req.allowed_environments;
  allowed_data_classifications = req.allowed_data_classifications;
  requires_approval = req.requires_approval;
  maximum_tool_calls = req.maximum_tool_calls;
  tool_calls_count = 0;
  delegation_allowed = req.delegation_allowed;
  maximum_delegation_depth = req.maximum_delegation_depth;
  expires_at = req.expires_at;
  created_at = now;
  updated_at = now;
  status = IntentStatus.active;
  revoked_reason = none;
}
