-- ===== src/Policy/Defaults.antt =====
-- backend/app/schemas/policy.py: the contexts that are built when none is given.
use cage_agent_security.Prelude.{true, false, none, []}
use cage_agent_security.Enums.{
  GraphAnalysisStatus, ProvenanceAnalysisStatus, TrajectoryAnalysisStatus, TrajectoryStatus,
}
use cage_agent_security.Policy.Contexts.{
  PolicyApprovalFactContext, PolicyDelegationContext, PolicyGraphContext, PolicyProvenanceContext,
  PolicyTrajectoryContext,
}

abbrev pub default_graph : PolicyGraphContext
default_graph = record {
  analysis_status = GraphAnalysisStatus.success;
  analysis_complete = true;
  causal_depth = 0;
  ancestor_count = 0;
  ancestor_action_ids = [];
  ancestor_tool_sequence = [];
  ancestor_environments = [];
  ancestor_data_classifications = [];
  contains_denied_ancestor = false;
  contains_approval_ancestor = false;
  contains_external_sink_ancestor = false;
  contains_privileged_ancestor = false;
  contains_destructive_ancestor = false;
  privileged_probe_count = 0;
  has_lower_environment_ancestor = false;
  has_high_environment_ancestor = false;
}

abbrev pub default_provenance : PolicyProvenanceContext
default_provenance = record {
  analysis_status = ProvenanceAnalysisStatus.success;
  analysis_complete = true;
  validated_input_artifact_ids = [];
  input_artifact_count = 0;
  input_classifications = [];
  input_direct_trust_levels = [];
  input_inherited_trust_levels = [];
  contains_sensitive_input = false;
  contains_credential_input = false;
  contains_untrusted_input = false;
  contains_unknown_input = false;
  has_tracked_inputs = false;
  all_referenced_artifacts_valid = true;
  payload_binding_required = false;
  payload_binding_satisfied = false;
  resolved_payload_bindings = [];
  provenance_depth = 0;
  ancestor_artifact_count = 0;
}

abbrev pub default_trajectory : PolicyTrajectoryContext
default_trajectory = record {
  trajectory_status = TrajectoryStatus.active;
  analysis_status = TrajectoryAnalysisStatus.success;
  analysis_complete = true;
  trajectory_id = none;
  trajectory_length = 0;
  trajectory_action_ids = [];
  trajectory_tool_sequence = [];
  contains_untrusted_external_origin = false;
  contains_sensitive_information = false;
  contains_credential_information = false;
  contains_external_sink = false;
  contains_privileged_action = false;
  contains_destructive_action = false;
  untrusted_path_to_current_action = false;
  nearest_untrusted_action_distance = none;
  current_action_attempts_sensitive_access = false;
  prospective_access_classifications = [];
  untrusted_path_to_sensitive_access = false;
  untrusted_path_to_sensitive_egress = false;
  sensitive_hop_laundering_detected = false;
  unauthorized_authority_expansion_attempted = false;
  authority_violation_types = [];
  sensitive_egress_attempt_count = 0;
  cumulative_sensitive_egress_attempt_bytes = 0;
  split_exfiltration_threshold_exceeded = false;
  evidence = record {
    evaluated_action_ids = [];
    untrusted_artifact_ids = [];
    sensitive_artifact_ids = [];
    causal_path = [];
    findings = [];
  };
  trajectory_instance_fingerprint = "";
}

abbrev pub default_approval : PolicyApprovalFactContext
default_approval = record {
  approval_context_present = false;
  approval_required = false;
  approval_decision = none;
  approval_identity_match = false;
  approval_payload_hash_match = false;
  approval_revalidation_passed = false;
}

abbrev pub default_delegation : PolicyDelegationContext
default_delegation = record {
  operation = "NONE";
  is_delegated = false;
  delegation_id = none;
  parent_delegation_id = none;
  delegation_depth = 0;
  remaining_subdelegation_depth = 0;
  caller_is_authorized_issuer = false;
  parent_grant_valid = false;
  cross_session_match = true;
  subdelegation_allowed = false;
  depth_within_limits = false;
  scope_within_parent = false;
  scope_within_root = false;
  is_high_risk_delegation = false;
  principal_matches_delegatee = false;
  effective_status = "ACTIVE";
  budget_available = true;
  current_tool_within_effective_authority = false;
  current_resource_within_effective_authority = true;
  current_environment_within_effective_authority = true;
  current_classification_within_effective_authority = true;
  caller_is_authorized_to_revoke = false;
  approval = default_approval;
  analysis_status = "COMPLETED";
}
