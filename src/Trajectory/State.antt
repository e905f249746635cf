-- ===== src/Trajectory/State.antt =====
-- backend/app/trajectory/store.py: the state of one trajectory, the store and what its methods raise.
use cage_agent_security.Prelude.{ℕ, ◌≡◌, ◌↔◌, Bool, true, String, Option, List, [], ◌&&◌, arith}
use cage_agent_security.Prelude.Eq.{HasEq, ◌==◌, string_eq}
use cage_agent_security.Prelude.Dict.{Dict}
use cage_agent_security.Enums.{TrajectoryStatus}
use cage_agent_security.Authority.{AuthorityEnvelope}
use cage_agent_security.Trajectory.{TrajectorySnapshot}

pub record TrajectoryState : Type 0 where
  pub trajectory_id : String
  pub session_id : String
  pub intent_id : String
  pub agent_id : String
  pub status : TrajectoryStatus
  pub created_at : ℕ
  pub updated_at : ℕ
  pub root_authority : AuthorityEnvelope
  pub effective_authority : AuthorityEnvelope
  pub evaluated_action_ids : List String
  pub executed_action_ids : List String
  pub rejected_lineage_attempt_ids : List String
  pub last_action_id : Option String
  pub pending_approval_action_id : Option String
  pub sensitive_egress_attempt_count : ℕ
  pub cumulative_sensitive_egress_attempt_bytes : ℕ
  pub recorded_egress_action_ids : List String

unfoldable pub to_snapshot : TrajectoryState → TrajectorySnapshot
to_snapshot st = record {
  trajectory_id = st.trajectory_id;
  session_id = st.session_id;
  intent_id = st.intent_id;
  agent_id = st.agent_id;
  status = st.status;
  created_at = st.created_at;
  updated_at = st.updated_at;
  root_authority = st.root_authority;
  effective_authority = st.effective_authority;
  evaluated_action_ids = st.evaluated_action_ids;
  executed_action_ids = st.executed_action_ids;
  rejected_lineage_attempt_ids = st.rejected_lineage_attempt_ids;
  last_action_id = st.last_action_id;
  pending_approval_action_id = st.pending_approval_action_id;
  sensitive_egress_attempt_count = st.sensitive_egress_attempt_count;
  cumulative_sensitive_egress_attempt_bytes = st.cumulative_sensitive_egress_attempt_bytes;
  recorded_egress_action_ids = st.recorded_egress_action_ids;
}

-- The tuple (session_id, intent_id, agent_id) by which a trajectory is owned.
pub record OwnershipKey : Type 0 where
  pub session_id : String
  pub intent_id : String
  pub agent_id : String

unfoldable pub ownership_equals : OwnershipKey → OwnershipKey → Bool
ownership_equals a b =
    a.session_id == b.session_id && (a.intent_id == b.intent_id && a.agent_id == b.agent_id)

pub ownership_equals_iff : (a b : OwnershipKey) → (ownership_equals a b ≡ true) ↔ (a ≡ b)
unfolding ownership_equals
ownership_equals_iff a b = ground (
  arith,
  string_eq.equals_iff a.session_id b.session_id,
  string_eq.equals_iff a.intent_id b.intent_id,
  string_eq.equals_iff a.agent_id b.agent_id,
)

instance abbrev pub ownership_eq : HasEq OwnershipKey
ownership_eq = record { equals = ownership_equals; equals_iff = ownership_equals_iff }

abbrev pub make_key : String → String → String → OwnershipKey
make_key session intent agent = record {
  session_id = session;
  intent_id = intent;
  agent_id = agent;
}

pub record TrajectoryStore : Type 0 where
  pub trajectories : Dict String TrajectoryState
  pub ownership_index : Dict OwnershipKey String

abbrev pub empty_trajectories : TrajectoryStore
empty_trajectories = record { trajectories = []; ownership_index = [] }

-- What the methods raise: a `KeyError` for an id that is not there, `PendingApprovalExistsError`.
pub data TrajectoryError : Type 0 where
  trajectory_not_found : String → TrajectoryError
  pending_approval_exists : String → String → TrajectoryError

pub data Outcome {ℓ} (A : Type ℓ) : Type ℓ where
  returned : A → Outcome A
  raised : TrajectoryError → Outcome A

-- Why a continuation is refused.
pub data ContinuationError : Type 0 where
  not_found is_quarantined is_aborted is_closed : ContinuationError
  first_with_parent : Option String → ContinuationError
  parent_mismatch : Option String → String → ContinuationError
