-- ===== src/Enums.antt =====
-- backend/app/schemas/enums.py: the enumerations that the modelled components use. A member of a
-- `StrEnum` equals another exactly when their strings do, and the strings of one class differ, so
-- a member is a constructor. `PUBLIC`, `LOCAL`, `MATCH` and `NONE` are spelled public_, local_,
-- match_, unbound and nop here.
pub mod Same
pub mod Trust
pub mod Values
use cage_agent_security.Prelude.{ℕ}

pub data ActionType : Type 0 where
  tool_call delegation read write execute network_request destructive : ActionType

pub data PolicyDecision : Type 0 where
  deny quarantine sandbox require_approval allow_with_limits allow : PolicyDecision

pub data ProvenanceTrust : Type 0 where
  trusted_human trusted_system internal_trusted external_untrusted agent_derived : ProvenanceTrust
  unknown : ProvenanceTrust

pub data ArtifactSourceType : Type 0 where
  human_input tool_result external_content internal_resource agent_generated : ArtifactSourceType
  file database system unknown : ArtifactSourceType

pub data PayloadBindingMode : Type 0 where
  unbound artifact_required : PayloadBindingMode

pub data ProvenanceAnalysisStatus : Type 0 where
  success depth_limit_exceeded artifact_limit_exceeded invalid_lineage : ProvenanceAnalysisStatus
  missing_artifact cross_session_reference cycle_detected : ProvenanceAnalysisStatus
  untracked_payload : ProvenanceAnalysisStatus

pub data DataClassification : Type 0 where
  public_ internal confidential restricted pii secret credential : DataClassification

pub data TargetEnvironment : Type 0 where
  local_ development staging production : TargetEnvironment

pub data IntentStatus : Type 0 where
  active expired revoked completed : IntentStatus

pub data PolicyBackend : Type 0 where
  python shadow opa : PolicyBackend

pub data PolicyParityStatus : Type 0 where
  match_ divergence opa_error not_evaluated : PolicyParityStatus

pub data OpaStatus : Type 0 where
  success timeout unavailable invalid_response evaluation_error : OpaStatus

pub data GraphAnalysisStatus : Type 0 where
  success depth_limit_exceeded node_limit_exceeded invalid_graph : GraphAnalysisStatus
  cycle_detected : GraphAnalysisStatus

pub data GraphRelation : Type 0 where
  governs causes produces consumes derived_from issues_delegation : GraphRelation
  grants_to subdelegates creates_delegation : GraphRelation

pub data ToolExecutionStatus : Type 0 where
  proposed authorized executing completed denied pending_approval failed : ToolExecutionStatus
  aborted : ToolExecutionStatus

pub data TrajectoryStatus : Type 0 where
  active quarantined closed aborted : TrajectoryStatus

pub data TrajectoryAnalysisStatus : Type 0 where
  success action_depth_limit_exceeded artifact_depth_limit_exceeded : TrajectoryAnalysisStatus
  node_limit_exceeded invalid_typed_path missing_graph_evidence : TrajectoryAnalysisStatus
  inconsistent_provenance : TrajectoryAnalysisStatus

pub data AuthorityScopeMode : Type 0 where
  unconstrained allowlist : AuthorityScopeMode

pub data AuthorityViolationType : Type 0 where
  tool resource environment data_classification : AuthorityViolationType

pub data DelegationStatus : Type 0 where
  active revoked closed : DelegationStatus

pub data EffectiveDelegationStatus : Type 0 where
  active revoked closed expired consumed root_invalid ancestor_invalid : EffectiveDelegationStatus

pub data DelegationIssuanceSource : Type 0 where
  agent_direct control_plane_mediated : DelegationIssuanceSource

pub data DelegationOperation : Type 0 where
  nop create_grant execute_action resolve_approval revoke_grant : DelegationOperation

pub data DelegationAnalysisStatus : Type 0 where
  completed failed : DelegationAnalysisStatus

unfoldable pub severity_rank : PolicyDecision → ℕ
severity_rank PolicyDecision.deny = 6
severity_rank PolicyDecision.quarantine = 5
severity_rank PolicyDecision.sandbox = 4
severity_rank PolicyDecision.require_approval = 3
severity_rank PolicyDecision.allow_with_limits = 2
severity_rank PolicyDecision.allow = 1
