-- ===== src/Enums/Values.antt =====
-- backend/app/schemas/enums.py: the strings of the members that a policy input or a reason spells out.
use cage_agent_security.Prelude.{String}
use cage_agent_security.Enums.{
  ActionType, DataClassification, EffectiveDelegationStatus, IntentStatus, PayloadBindingMode,
  TargetEnvironment, TrajectoryStatus,
}

abbrev pub action_type_value : ActionType → String
action_type_value ActionType.tool_call = "TOOL_CALL"
action_type_value ActionType.delegation = "DELEGATION"
action_type_value ActionType.read = "READ"
action_type_value ActionType.write = "WRITE"
action_type_value ActionType.execute = "EXECUTE"
action_type_value ActionType.network_request = "NETWORK_REQUEST"
action_type_value ActionType.destructive = "DESTRUCTIVE"

abbrev pub classification_value : DataClassification → String
classification_value DataClassification.public_ = "PUBLIC"
classification_value DataClassification.internal = "INTERNAL"
classification_value DataClassification.confidential = "CONFIDENTIAL"
classification_value DataClassification.restricted = "RESTRICTED"
classification_value DataClassification.pii = "PII"
classification_value DataClassification.secret = "SECRET"
classification_value DataClassification.credential = "CREDENTIAL"

abbrev pub environment_value : TargetEnvironment → String
environment_value TargetEnvironment.local_ = "LOCAL"
environment_value TargetEnvironment.development = "DEVELOPMENT"
environment_value TargetEnvironment.staging = "STAGING"
environment_value TargetEnvironment.production = "PRODUCTION"

abbrev pub intent_status_value : IntentStatus → String
intent_status_value IntentStatus.active = "ACTIVE"
intent_status_value IntentStatus.expired = "EXPIRED"
intent_status_value IntentStatus.revoked = "REVOKED"
intent_status_value IntentStatus.completed = "COMPLETED"

abbrev pub binding_mode_value : PayloadBindingMode → String
binding_mode_value PayloadBindingMode.unbound = "NONE"
binding_mode_value PayloadBindingMode.artifact_required = "ARTIFACT_REQUIRED"

abbrev pub effective_status_value : EffectiveDelegationStatus → String
effective_status_value EffectiveDelegationStatus.active = "ACTIVE"
effective_status_value EffectiveDelegationStatus.revoked = "REVOKED"
effective_status_value EffectiveDelegationStatus.closed = "CLOSED"
effective_status_value EffectiveDelegationStatus.expired = "EXPIRED"
effective_status_value EffectiveDelegationStatus.consumed = "CONSUMED"
effective_status_value EffectiveDelegationStatus.root_invalid = "ROOT_INVALID"
effective_status_value EffectiveDelegationStatus.ancestor_invalid = "ANCESTOR_INVALID"

abbrev pub trajectory_status_value : TrajectoryStatus → String
trajectory_status_value TrajectoryStatus.active = "ACTIVE"
trajectory_status_value TrajectoryStatus.quarantined = "QUARANTINED"
trajectory_status_value TrajectoryStatus.closed = "CLOSED"
trajectory_status_value TrajectoryStatus.aborted = "ABORTED"
