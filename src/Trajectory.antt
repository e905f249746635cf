-- ===== src/Trajectory.antt =====
-- backend/app/trajectory/models.py: the snapshot of a trajectory, beside the envelopes of
-- Authority.antt. The store that issues snapshots is in child modules.
pub mod State
pub mod Store
pub mod Methods
pub mod Lifecycle
pub mod Continuation
use cage_agent_security.Prelude.{ℕ, String, Option, List}
use cage_agent_security.Enums.{TrajectoryStatus}
use cage_agent_security.Authority.{AuthorityEnvelope}

pub record TrajectorySnapshot : Type 0 where
  pub trajectory_id : String
  pub session_id : String
  pub intent_id : String
  pub agent_id : String
  pub status : TrajectoryStatus
  pub created_at : ℕ
  pub updated_at : ℕ
  pub root_authority : AuthorityEnvelope
  pub effective_authority : AuthorityEnvelope
  pub evaluated_action_ids : List String
  pub executed_action_ids : List String
  pub rejected_lineage_attempt_ids : List String
  pub last_action_id : Option String
  pub pending_approval_action_id : Option String
  pub sensitive_egress_attempt_count : ℕ
  pub cumulative_sensitive_egress_attempt_bytes : ℕ
  pub recorded_egress_action_ids : List String
