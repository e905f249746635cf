-- ===== src/Policy/Contexts.antt =====
-- backend/app/schemas/policy.py: the facts that the server derives for the rules. A field that the
-- schema types as `str` is a text here.
use cage_agent_security.Prelude.{ℕ, Bool, String, Option, List}
use cage_agent_security.Prelude.Dict.{Dict}
use cage_agent_security.Enums.{
  GraphAnalysisStatus, ProvenanceAnalysisStatus, TrajectoryAnalysisStatus, TrajectoryStatus,
}

pub record PolicyGraphContext : Type 0 where
  pub analysis_status : GraphAnalysisStatus
  pub analysis_complete : Bool
  pub causal_depth : ℕ
  pub ancestor_count : ℕ
  pub ancestor_action_ids : List String
  pub ancestor_tool_sequence : List String
  pub ancestor_environments : List String
  pub ancestor_data_classifications : List String
  pub contains_denied_ancestor : Bool
  pub contains_approval_ancestor : Bool
  pub contains_external_sink_ancestor : Bool
  pub contains_privileged_ancestor : Bool
  pub contains_destructive_ancestor : Bool
  pub privileged_probe_count : ℕ
  pub has_lower_environment_ancestor : Bool
  pub has_high_environment_ancestor : Bool

pub record PolicyProvenanceContext : Type 0 where
  pub analysis_status : ProvenanceAnalysisStatus
  pub analysis_complete : Bool
  pub validated_input_artifact_ids : List String
  pub input_artifact_count : ℕ
  pub input_classifications : List String
  pub input_direct_trust_levels : List String
  pub input_inherited_trust_levels : List String
  pub contains_sensitive_input : Bool
  pub contains_credential_input : Bool
  pub contains_untrusted_input : Bool
  pub contains_unknown_input : Bool
  pub has_tracked_inputs : Bool
  pub all_referenced_artifacts_valid : Bool
  pub payload_binding_required : Bool
  pub payload_binding_satisfied : Bool
  pub resolved_payload_bindings : Dict String String
  pub provenance_depth : ℕ
  pub ancestor_artifact_count : ℕ

pub record TrajectoryEvidence : Type 0 where
  pub evaluated_action_ids : List String
  pub untrusted_artifact_ids : List String
  pub sensitive_artifact_ids : List String
  pub causal_path : List String
  pub findings : List String

pub record PolicyTrajectoryContext : Type 0 where
  pub trajectory_status : TrajectoryStatus
  pub analysis_status : TrajectoryAnalysisStatus
  pub analysis_complete : Bool
  pub trajectory_id : Option String
  pub trajectory_length : ℕ
  pub trajectory_action_ids : List String
  pub trajectory_tool_sequence : List String
  pub contains_untrusted_external_origin : Bool
  pub contains_sensitive_information : Bool
  pub contains_credential_information : Bool
  pub contains_external_sink : Bool
  pub contains_privileged_action : Bool
  pub contains_destructive_action : Bool
  pub untrusted_path_to_current_action : Bool
  pub nearest_untrusted_action_distance : Option ℕ
  pub current_action_attempts_sensitive_access : Bool
  pub prospective_access_classifications : List String
  pub untrusted_path_to_sensitive_access : Bool
  pub untrusted_path_to_sensitive_egress : Bool
  pub sensitive_hop_laundering_detected : Bool
  pub unauthorized_authority_expansion_attempted : Bool
  pub authority_violation_types : List String
  pub sensitive_egress_attempt_count : ℕ
  pub cumulative_sensitive_egress_attempt_bytes : ℕ
  pub split_exfiltration_threshold_exceeded : Bool
  pub evidence : TrajectoryEvidence
  pub trajectory_instance_fingerprint : String

pub record PolicyApprovalFactContext : Type 0 where
  pub approval_context_present : Bool
  pub approval_required : Bool
  pub approval_decision : Option String
  pub approval_identity_match : Bool
  pub approval_payload_hash_match : Bool
  pub approval_revalidation_passed : Bool

pub record PolicyDelegationContext : Type 0 where
  pub operation : String
  pub is_delegated : Bool
  pub delegation_id : Option String
  pub parent_delegation_id : Option String
  pub delegation_depth : ℕ
  pub remaining_subdelegation_depth : ℕ
  pub caller_is_authorized_issuer : Bool
  pub parent_grant_valid : Bool
  pub cross_session_match : Bool
  pub subdelegation_allowed : Bool
  pub depth_within_limits : Bool
  pub scope_within_parent : Bool
  pub scope_within_root : Bool
  pub is_high_risk_delegation : Bool
  pub principal_matches_delegatee : Bool
  pub effective_status : String
  pub budget_available : Bool
  pub current_tool_within_effective_authority : Bool
  pub current_resource_within_effective_authority : Bool
  pub current_environment_within_effective_authority : Bool
  pub current_classification_within_effective_authority : Bool
  pub caller_is_authorized_to_revoke : Bool
  pub approval : PolicyApprovalFactContext
  pub analysis_status : String
