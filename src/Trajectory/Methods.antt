-- ===== src/Trajectory/Methods.antt =====
-- backend/app/trajectory/store.py: the methods that change one trajectory. A refusal's text is a
-- constructor with what it quotes.
use cage_agent_security.Prelude.{
  ℕ, ◌+◌, Bool, true, false, String, Option, none, some, [], ◌∷◌, ◌++◌, not,
}
use cage_agent_security.Prelude.Tests.{if◌then◌else◌, is_some}
use cage_agent_security.Prelude.Int.{ℤ, pos, negsuc}
use cage_agent_security.Prelude.Eq.{◌==◌, contains, add, string_eq}
use cage_agent_security.Prelude.Dict.{get, put}
use cage_agent_security.Enums.{TrajectoryStatus}
use cage_agent_security.Enums.Same.{trajectory_status_eq}
use cage_agent_security.Authority.{AuthorityEnvelope}
use cage_agent_security.Trajectory.{TrajectorySnapshot}
use cage_agent_security.Trajectory.State.{
  TrajectoryState, to_snapshot, TrajectoryStore, trajectory_not_found, pending_approval_exists,
  Outcome, returned, raised, ContinuationError, not_found, is_quarantined, is_aborted, is_closed,
  first_with_parent, parent_mismatch,
}

abbrev pub stored : TrajectoryStore → String → TrajectoryState → TrajectoryStore
stored s id st = record s { trajectories = put s.trajectories id st }

-- The shape of most methods: read the state or raise, change it, stamp it, return its snapshot.
unfoldable pub modify :
    TrajectoryStore
    → String
    → ℕ
    → (TrajectoryState → TrajectoryState)
    → Outcome TrajectorySnapshot × TrajectoryStore
modify s id now change = elim (get s.trajectories id) [
  | none ↦ (raised (trajectory_not_found id), s)
  | some st ↦
      let st' : TrajectoryState = record (change st) { updated_at = now } in
      (returned (to_snapshot st'), stored s id st')
]

module _ (s : TrajectoryStore) (id : String) (now : ℕ) where
  unfoldable pub update_status : TrajectoryStatus → Outcome TrajectorySnapshot × TrajectoryStore
  update_status status = modify s id now (λ st. record st { status = status })

  unfoldable pub mark_quarantined : Outcome TrajectorySnapshot × TrajectoryStore
  mark_quarantined = modify s id now (λ st. record st { status = TrajectoryStatus.quarantined })

  unfoldable pub mark_aborted : Outcome TrajectorySnapshot × TrajectoryStore
  mark_aborted = modify s id now (λ st. record st { status = TrajectoryStatus.aborted })

  unfoldable pub close_trajectory : Outcome TrajectorySnapshot × TrajectoryStore
  close_trajectory = modify s id now (λ st. record st { status = TrajectoryStatus.closed })

  unfoldable pub update_effective_authority :
      AuthorityEnvelope → Outcome TrajectorySnapshot × TrajectoryStore
  update_effective_authority narrowed =
      modify s id now (λ st. record st { effective_authority = narrowed })

  module _ (action : String) where
    unfoldable pub record_invalid_continuation_attempt :
        Outcome TrajectorySnapshot × TrajectoryStore
    record_invalid_continuation_attempt = modify s id now (λ st. record st {
      rejected_lineage_attempt_ids = add st.rejected_lineage_attempt_ids action;
    })

    unfoldable pub record_action_evaluation : Outcome TrajectorySnapshot × TrajectoryStore
    record_action_evaluation = modify s id now (λ st. record st {
      evaluated_action_ids = add st.evaluated_action_ids action;
      last_action_id = some action;
    })

    unfoldable pub record_action_execution : Outcome TrajectorySnapshot × TrajectoryStore
    record_action_execution =
        modify s id now
          (λ st. record st { executed_action_ids = add st.executed_action_ids action })

-- Another action holds the checkpoint.
unfoldable pub held_by_other : Option String → String → Bool
held_by_other none action = false
held_by_other (some held) action = not (held == action)

held_id : Option String → String
held_id none = ""
held_id (some held) = held

unfoldable pub checkpointed : String → ℕ → TrajectoryState → TrajectoryState
checkpointed action now st = record st {
  pending_approval_action_id = some action;
  last_action_id = some action;
  evaluated_action_ids = add st.evaluated_action_ids action;
  updated_at = now;
}

unfoldable pub set_pending_approval :
    TrajectoryStore → String → String → ℕ → Outcome TrajectorySnapshot × TrajectoryStore
unfolding held_by_other held_id checkpointed
set_pending_approval s id action now = elim (get s.trajectories id) [
  | none ↦ (raised (trajectory_not_found id), s)
  | some st ↦
      if held_by_other st.pending_approval_action_id action
      then (raised (pending_approval_exists id (held_id st.pending_approval_action_id)), s)
      else (
        returned (to_snapshot (checkpointed action now st)),
        stored s id (checkpointed action now st),
      )
]

unfoldable pub cleared : String → Option String → Option String
cleared action none = none
cleared action (some held) = if held == action then none else some held

unfoldable pub clear_pending_approval :
    TrajectoryStore → String → String → ℕ → Outcome TrajectorySnapshot × TrajectoryStore
unfolding cleared
clear_pending_approval s id action now =
    modify s id now (λ st. record st {
      pending_approval_action_id = cleared action st.pending_approval_action_id;
    })

-- `max(0, payload_bytes)`
abbrev pub payload_size : ℤ → ℕ
payload_size (pos n) = n
payload_size (negsuc n) = 0

unfoldable pub attempted : String → ℤ → ℕ → TrajectoryState → TrajectoryState
attempted action payload now st = record st {
  recorded_egress_action_ids = add st.recorded_egress_action_ids action;
  sensitive_egress_attempt_count = st.sensitive_egress_attempt_count + 1;
  cumulative_sensitive_egress_attempt_bytes =
      st.cumulative_sensitive_egress_attempt_bytes + payload_size payload;
  updated_at = now;
}

-- The counters of a state, and whether the attempt had been recorded.
abbrev pub counters : TrajectoryState → Bool → Outcome (ℕ × ℕ × Bool)
counters st old =
    returned (st.sensitive_egress_attempt_count, st.cumulative_sensitive_egress_attempt_bytes, old)

unfoldable pub record_sensitive_egress_attempt :
    TrajectoryStore → String → String → ℤ → ℕ → Outcome (ℕ × ℕ × Bool) × TrajectoryStore
unfolding attempted
record_sensitive_egress_attempt s id action payload now = elim (get s.trajectories id) [
  | none ↦ (raised (trajectory_not_found id), s)
  | some st ↦ if contains st.recorded_egress_action_ids action then (counters st true, s) else (
    counters (attempted action payload now st) false,
    stored s id (attempted action payload now st),
  )
]

-- The parent that the next action must name: none at first, then the tip.
unfoldable pub continuation_error : Option String → Option String → Option ContinuationError
continuation_error none none = none
continuation_error none (some parent) = some (first_with_parent (some parent))
continuation_error (some tip) none = some (parent_mismatch none tip)
continuation_error (some tip) (some parent) =
    if parent == tip then none else some (parent_mismatch (some parent) tip)

unfoldable pub validate_linear_continuation :
    TrajectoryStore → String → Option String → Bool × Option ContinuationError × Option String
unfolding continuation_error
validate_linear_continuation s id parent = elim (get s.trajectories id) [
  | none ↦ (false, some not_found, none)
  | some st ↦ (
    not (is_some (continuation_error st.last_action_id parent)),
    continuation_error st.last_action_id parent,
    st.last_action_id,
  )
]

unfoldable pub rejected_attempt : String → ℕ → TrajectoryState → TrajectoryState
rejected_attempt action now st = record st {
  rejected_lineage_attempt_ids = st.rejected_lineage_attempt_ids ++ action ∷ [];
  updated_at = now;
}

module _ (s : TrajectoryStore) (id : String) (action : String) (now : ℕ) where
  unfoldable pub linear_verdict :
      TrajectoryState
      → Option ContinuationError
      → (Bool × Option ContinuationError) × TrajectoryStore
  linear_verdict st none = ((true, none), s)
  linear_verdict st (some e) = ((false, some e), stored s id (rejected_attempt action now st))

  unfoldable pub status_verdict :
      TrajectoryState
      → TrajectoryStatus
      → Option String
      → (Bool × Option ContinuationError) × TrajectoryStore
  unfolding linear_verdict
  status_verdict st TrajectoryStatus.quarantined parent = ((false, some is_quarantined), s)
  status_verdict st TrajectoryStatus.aborted parent = ((false, some is_aborted), s)
  status_verdict st TrajectoryStatus.closed parent = ((false, some is_closed), s)
  status_verdict st TrajectoryStatus.active parent =
      linear_verdict st (continuation_error st.last_action_id parent)

  unfoldable pub validate_continuation :
      Option String → (Bool × Option ContinuationError) × TrajectoryStore
  unfolding linear_verdict status_verdict continuation_error rejected_attempt
  validate_continuation parent = elim (get s.trajectories id) [
    | none ↦ ((false, some not_found), s)
    | some st ↦ status_verdict st st.status parent
  ]
