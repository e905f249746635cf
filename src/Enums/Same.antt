-- ===== src/Enums/Same.antt =====
-- `==` on the enumerations of backend/app/schemas/enums.py, through a number for each member.
use cage_agent_security.Prelude.{ℕ, ◌≡◌, arith}
use cage_agent_security.Prelude.Eq.{HasEq, by_code}
use cage_agent_security.Enums.{
  ActionType, PolicyDecision, DataClassification, TargetEnvironment, IntentStatus, TrajectoryStatus,
  OpaStatus, AuthorityScopeMode, DelegationStatus, EffectiveDelegationStatus, DelegationOperation,
  GraphAnalysisStatus, ProvenanceAnalysisStatus, ToolExecutionStatus,
}

abbrev pub action_type_code : ActionType → ℕ
action_type_code ActionType.tool_call = 0
action_type_code ActionType.delegation = 1
action_type_code ActionType.read = 2
action_type_code ActionType.write = 3
action_type_code ActionType.execute = 4
action_type_code ActionType.network_request = 5
action_type_code ActionType.destructive = 6

pub action_type_code_injective :
    (a b : ActionType) → action_type_code a ≡ action_type_code b → a ≡ b
action_type_code_injective a b h = ground arith

instance abbrev pub action_type_eq : HasEq ActionType
action_type_eq = by_code action_type_code action_type_code_injective

abbrev pub policy_decision_code : PolicyDecision → ℕ
policy_decision_code PolicyDecision.deny = 0
policy_decision_code PolicyDecision.quarantine = 1
policy_decision_code PolicyDecision.sandbox = 2
policy_decision_code PolicyDecision.require_approval = 3
policy_decision_code PolicyDecision.allow_with_limits = 4
policy_decision_code PolicyDecision.allow = 5

pub policy_decision_code_injective :
    (a b : PolicyDecision) → policy_decision_code a ≡ policy_decision_code b → a ≡ b
policy_decision_code_injective a b h = ground arith

instance abbrev pub policy_decision_eq : HasEq PolicyDecision
policy_decision_eq = by_code policy_decision_code policy_decision_code_injective

abbrev pub provenance_analysis_status_code : ProvenanceAnalysisStatus → ℕ
provenance_analysis_status_code ProvenanceAnalysisStatus.success = 0
provenance_analysis_status_code ProvenanceAnalysisStatus.depth_limit_exceeded = 1
provenance_analysis_status_code ProvenanceAnalysisStatus.artifact_limit_exceeded = 2
provenance_analysis_status_code ProvenanceAnalysisStatus.invalid_lineage = 3
provenance_analysis_status_code ProvenanceAnalysisStatus.missing_artifact = 4
provenance_analysis_status_code ProvenanceAnalysisStatus.cross_session_reference = 5
provenance_analysis_status_code ProvenanceAnalysisStatus.cycle_detected = 6
provenance_analysis_status_code ProvenanceAnalysisStatus.untracked_payload = 7

pub provenance_analysis_status_code_injective :
    (a b : ProvenanceAnalysisStatus)
    → provenance_analysis_status_code a ≡ provenance_analysis_status_code b
    → a ≡ b
provenance_analysis_status_code_injective a b h = ground arith

instance abbrev pub provenance_analysis_status_eq : HasEq ProvenanceAnalysisStatus
provenance_analysis_status_eq =
    by_code provenance_analysis_status_code provenance_analysis_status_code_injective

abbrev pub data_classification_code : DataClassification → ℕ
data_classification_code DataClassification.public_ = 0
data_classification_code DataClassification.internal = 1
data_classification_code DataClassification.confidential = 2
data_classification_code DataClassification.restricted = 3
data_classification_code DataClassification.pii = 4
data_classification_code DataClassification.secret = 5
data_classification_code DataClassification.credential = 6

pub data_classification_code_injective :
    (a b : DataClassification) → data_classification_code a ≡ data_classification_code b → a ≡ b
data_classification_code_injective a b h = ground arith

instance abbrev pub data_classification_eq : HasEq DataClassification
data_classification_eq = by_code data_classification_code data_classification_code_injective

abbrev pub target_environment_code : TargetEnvironment → ℕ
target_environment_code TargetEnvironment.local_ = 0
target_environment_code TargetEnvironment.development = 1
target_environment_code TargetEnvironment.staging = 2
target_environment_code TargetEnvironment.production = 3

pub target_environment_code_injective :
    (a b : TargetEnvironment) → target_environment_code a ≡ target_environment_code b → a ≡ b
target_environment_code_injective a b h = ground arith

instance abbrev pub target_environment_eq : HasEq TargetEnvironment
target_environment_eq = by_code target_environment_code target_environment_code_injective

abbrev pub intent_status_code : IntentStatus → ℕ
intent_status_code IntentStatus.active = 0
intent_status_code IntentStatus.expired = 1
intent_status_code IntentStatus.revoked = 2
intent_status_code IntentStatus.completed = 3

pub intent_status_code_injective :
    (a b : IntentStatus) → intent_status_code a ≡ intent_status_code b → a ≡ b
intent_status_code_injective a b h = ground arith

instance abbrev pub intent_status_eq : HasEq IntentStatus
intent_status_eq = by_code intent_status_code intent_status_code_injective

abbrev pub opa_status_code : OpaStatus → ℕ
opa_status_code OpaStatus.success = 0
opa_status_code OpaStatus.timeout = 1
opa_status_code OpaStatus.unavailable = 2
opa_status_code OpaStatus.invalid_response = 3
opa_status_code OpaStatus.evaluation_error = 4

pub opa_status_code_injective : (a b : OpaStatus) → opa_status_code a ≡ opa_status_code b → a ≡ b
opa_status_code_injective a b h = ground arith

instance abbrev pub opa_status_eq : HasEq OpaStatus
opa_status_eq = by_code opa_status_code opa_status_code_injective

abbrev pub graph_analysis_status_code : GraphAnalysisStatus → ℕ
graph_analysis_status_code GraphAnalysisStatus.success = 0
graph_analysis_status_code GraphAnalysisStatus.depth_limit_exceeded = 1
graph_analysis_status_code GraphAnalysisStatus.node_limit_exceeded = 2
graph_analysis_status_code GraphAnalysisStatus.invalid_graph = 3
graph_analysis_status_code GraphAnalysisStatus.cycle_detected = 4

pub graph_analysis_status_code_injective :
    (a b : GraphAnalysisStatus)
    → graph_analysis_status_code a ≡ graph_analysis_status_code b
    → a ≡ b
graph_analysis_status_code_injective a b h = ground arith

instance abbrev pub graph_analysis_status_eq : HasEq GraphAnalysisStatus
graph_analysis_status_eq = by_code graph_analysis_status_code graph_analysis_status_code_injective

abbrev pub trajectory_status_code : TrajectoryStatus → ℕ
trajectory_status_code TrajectoryStatus.active = 0
trajectory_status_code TrajectoryStatus.quarantined = 1
trajectory_status_code TrajectoryStatus.closed = 2
trajectory_status_code TrajectoryStatus.aborted = 3

pub trajectory_status_code_injective :
    (a b : TrajectoryStatus) → trajectory_status_code a ≡ trajectory_status_code b → a ≡ b
trajectory_status_code_injective a b h = ground arith

instance abbrev pub trajectory_status_eq : HasEq TrajectoryStatus
trajectory_status_eq = by_code trajectory_status_code trajectory_status_code_injective

abbrev pub authority_scope_mode_code : AuthorityScopeMode → ℕ
authority_scope_mode_code AuthorityScopeMode.unconstrained = 0
authority_scope_mode_code AuthorityScopeMode.allowlist = 1

pub authority_scope_mode_code_injective :
    (a b : AuthorityScopeMode) → authority_scope_mode_code a ≡ authority_scope_mode_code b → a ≡ b
authority_scope_mode_code_injective a b h = ground arith

instance abbrev pub authority_scope_mode_eq : HasEq AuthorityScopeMode
authority_scope_mode_eq = by_code authority_scope_mode_code authority_scope_mode_code_injective

abbrev pub delegation_status_code : DelegationStatus → ℕ
delegation_status_code DelegationStatus.active = 0
delegation_status_code DelegationStatus.revoked = 1
delegation_status_code DelegationStatus.closed = 2

pub delegation_status_code_injective :
    (a b : DelegationStatus) → delegation_status_code a ≡ delegation_status_code b → a ≡ b
delegation_status_code_injective a b h = ground arith

instance abbrev pub delegation_status_eq : HasEq DelegationStatus
delegation_status_eq = by_code delegation_status_code delegation_status_code_injective

abbrev pub effective_delegation_status_code : EffectiveDelegationStatus → ℕ
effective_delegation_status_code EffectiveDelegationStatus.active = 0
effective_delegation_status_code EffectiveDelegationStatus.revoked = 1
effective_delegation_status_code EffectiveDelegationStatus.closed = 2
effective_delegation_status_code EffectiveDelegationStatus.expired = 3
effective_delegation_status_code EffectiveDelegationStatus.consumed = 4
effective_delegation_status_code EffectiveDelegationStatus.root_invalid = 5
effective_delegation_status_code EffectiveDelegationStatus.ancestor_invalid = 6

pub effective_delegation_status_code_injective :
    (a b : EffectiveDelegationStatus)
    → effective_delegation_status_code a ≡ effective_delegation_status_code b
    → a ≡ b
effective_delegation_status_code_injective a b h = ground arith

instance abbrev pub effective_delegation_status_eq : HasEq EffectiveDelegationStatus
effective_delegation_status_eq =
    by_code effective_delegation_status_code effective_delegation_status_code_injective

abbrev pub delegation_operation_code : DelegationOperation → ℕ
delegation_operation_code DelegationOperation.nop = 0
delegation_operation_code DelegationOperation.create_grant = 1
delegation_operation_code DelegationOperation.execute_action = 2
delegation_operation_code DelegationOperation.resolve_approval = 3
delegation_operation_code DelegationOperation.revoke_grant = 4

pub delegation_operation_code_injective :
    (a b : DelegationOperation) → delegation_operation_code a ≡ delegation_operation_code b → a ≡ b
delegation_operation_code_injective a b h = ground arith

instance abbrev pub delegation_operation_eq : HasEq DelegationOperation
delegation_operation_eq = by_code delegation_operation_code delegation_operation_code_injective

abbrev pub tool_execution_status_code : ToolExecutionStatus → ℕ
tool_execution_status_code ToolExecutionStatus.proposed = 0
tool_execution_status_code ToolExecutionStatus.authorized = 1
tool_execution_status_code ToolExecutionStatus.executing = 2
tool_execution_status_code ToolExecutionStatus.completed = 3
tool_execution_status_code ToolExecutionStatus.denied = 4
tool_execution_status_code ToolExecutionStatus.pending_approval = 5
tool_execution_status_code ToolExecutionStatus.failed = 6
tool_execution_status_code ToolExecutionStatus.aborted = 7

pub tool_execution_status_code_injective :
    (a b : ToolExecutionStatus)
    → tool_execution_status_code a ≡ tool_execution_status_code b
    → a ≡ b
tool_execution_status_code_injective a b h = ground arith

instance abbrev pub tool_execution_status_eq : HasEq ToolExecutionStatus
tool_execution_status_eq = by_code tool_execution_status_code tool_execution_status_code_injective
