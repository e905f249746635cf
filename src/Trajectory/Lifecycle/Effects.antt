-- ===== src/Trajectory/Lifecycle/Effects.antt =====
-- backend/app/trajectory/store.py: what each method may change. It leaves the store as it is, or
-- writes one state that was there, keeping its identity and its consistency.
use cage_agent_security.Prelude.{ℕ, ◌≡◌, refl, inl, inr, String, Option, none, some}
use cage_agent_security.Prelude.Tests.{Bool-cases, Option-cases}
use cage_agent_security.Prelude.Int.{ℤ}
use cage_agent_security.Prelude.Eq.{contains, string_eq}
use cage_agent_security.Prelude.Dict.{get}
use cage_agent_security.Enums.{TrajectoryStatus}
use cage_agent_security.Authority.{AuthorityEnvelope}
use cage_agent_security.Trajectory.State.{TrajectoryState, TrajectoryStore, ContinuationError}
use cage_agent_security.Trajectory.Methods
use cage_agent_security.Trajectory.Methods.{
  modify, update_status, mark_quarantined, mark_aborted, close_trajectory,
  update_effective_authority, record_invalid_continuation_attempt, record_action_evaluation,
  record_action_execution, set_pending_approval, clear_pending_approval,
  record_sensitive_egress_attempt, validate_continuation, held_by_other, checkpointed, cleared,
  continuation_error, rejected_attempt, stored,
}
use cage_agent_security.Trajectory.Lifecycle.Kept.{
  Kept, Quarantines, Distinct-add, Kept-same, Kept-evaluated, Kept-cleared, Kept-attempted,
}

-- The store is unchanged, or one state was replaced by a related one.
pub data Effect (P : TrajectoryState → TrajectoryState → Type 0) (s s' : TrajectoryStore)
    : Type 0 where
  unchanged : s' ≡ s → Effect P s s'
  wrote :
      (id : String) (st st' : TrajectoryState)
      → get s.trajectories id ≡ some st
      → P st st'
      → s' ≡ stored s id st'
      → Effect P s s'

-- A method that is one `modify`.
modify-Effect :
    (P : TrajectoryState → TrajectoryState → Type 0) (s : TrajectoryStore) (id : String) (now : ℕ)
    (change : TrajectoryState → TrajectoryState)
    → ((st : TrajectoryState) → P st (record (change st) { updated_at = now }))
    → Effect P s (modify s id now change).1
unfolding modify
modify-Effect P s id now change h = elim (Option-cases (get s.trajectories id)) [
  | inl missing ↦ rw (missing, modify) (unchanged refl)
  | inr (st, e) ↦
      rw (e, modify) (wrote id st (record (change st) { updated_at = now }) e (h st) refl)
]

module _ (s : TrajectoryStore) (id : String) (now : ℕ) where
  pub update_status-Effect :
      (status : TrajectoryStatus) → Effect Kept s (update_status s id now status).1
  unfolding update_status
  update_status-Effect status =
      modify-Effect Kept s id now _ (λ st. Kept-same st now status _ _ _ (λ d. d))

  pub mark_aborted-Effect : Effect Kept s (mark_aborted s id now).1
  unfolding mark_aborted
  mark_aborted-Effect = modify-Effect Kept s id now _ (λ st. Kept-same st now _ _ _ _ (λ d. d))

  pub close_trajectory-Effect : Effect Kept s (close_trajectory s id now).1
  unfolding close_trajectory
  close_trajectory-Effect = modify-Effect Kept s id now _ (λ st. Kept-same st now _ _ _ _ (λ d. d))

  pub update_effective_authority-Effect :
      (authority : AuthorityEnvelope)
      → Effect Kept s (update_effective_authority s id now authority).1
  unfolding update_effective_authority
  update_effective_authority-Effect authority =
      modify-Effect Kept s id now _ (λ st. Kept-same st now _ _ _ _ (λ d. d))

  pub rejected-Effect :
      (action : String) → Effect Kept s (record_invalid_continuation_attempt s id now action).1
  unfolding record_invalid_continuation_attempt
  rejected-Effect action = modify-Effect Kept s id now _ (λ st. Kept-same st now _ _ _ _ (λ d. d))

  pub mark_quarantined-Effect : Effect Quarantines s (mark_quarantined s id now).1
  unfolding mark_quarantined
  mark_quarantined-Effect =
      modify-Effect Quarantines s id now _ (λ st. (Kept-same st now _ _ _ _ (λ d. d), inr refl))

  module _ (action : String) where
    pub record_action_evaluation-Effect :
        Effect Quarantines s (record_action_evaluation s id now action).1
    unfolding record_action_evaluation
    record_action_evaluation-Effect =
        modify-Effect Quarantines s id now _
          (λ st. (Kept-evaluated st now action _ (inl refl), inl refl))

    pub record_action_execution-Effect :
        Effect Quarantines s (record_action_execution s id now action).1
    unfolding record_action_execution
    record_action_execution-Effect =
        modify-Effect Quarantines s id now _
          (λ st. (Kept-same st now _ _ _ _ (Distinct-add st.executed_action_ids action), inl refl))

    pub clear_pending_approval-Effect :
        Effect Quarantines s (clear_pending_approval s id action now).1
    unfolding clear_pending_approval
    clear_pending_approval-Effect =
        modify-Effect Quarantines s id now _ (λ st. (Kept-cleared st now action, inl refl))

    pub set_pending_approval-Effect : Effect Quarantines s (set_pending_approval s id action now).1
    unfolding set_pending_approval
    set_pending_approval-Effect = elim (Option-cases (get s.trajectories id)) [
      | inl missing ↦ rw (missing, set_pending_approval) (unchanged refl)
      | inr (st, e) ↦ elim (Bool-cases (held_by_other st.pending_approval_action_id action)) [
        | inl held ↦ rw (e, set_pending_approval, held) (unchanged refl)
        | inr free ↦
            rw (e, set_pending_approval, free)
              (wrote id st _ e (Kept-evaluated st now action _ (inr refl), inl refl) refl)
      ]
    ]

    pub egress-Effect :
        (payload : ℤ)
        → Effect Quarantines s (record_sensitive_egress_attempt s id action payload now).1
    unfolding record_sensitive_egress_attempt
    egress-Effect payload = elim (Option-cases (get s.trajectories id)) [
      | inl missing ↦ rw (missing, record_sensitive_egress_attempt) (unchanged refl)
      | inr (st, e) ↦ elim (Bool-cases (contains st.recorded_egress_action_ids action)) [
        | inl old ↦ rw (e, record_sensitive_egress_attempt, old) (unchanged refl)
        | inr new ↦
            rw (e, record_sensitive_egress_attempt, new)
              (wrote id st _ e (Kept-attempted st now action payload new, inl refl) refl)
      ]
    ]

    linear-Effect :
        (st : TrajectoryState) (o : Option ContinuationError)
        → get s.trajectories id ≡ some st
        → Effect Quarantines s (Methods.linear_verdict s id action now st o).1
    unfolding Methods.linear_verdict rejected_attempt
    linear-Effect st none e = unchanged refl
    linear-Effect st (some _) e = wrote id st _ e (Kept-same st now _ _ _ _ (λ d. d), inl refl) refl

    status-Effect :
        (st : TrajectoryState) (status : TrajectoryStatus) (parent : Option String)
        → get s.trajectories id ≡ some st
        → Effect Quarantines s (Methods.status_verdict s id action now st status parent).1
    unfolding Methods.status_verdict
    status-Effect st TrajectoryStatus.active parent e =
        linear-Effect st (continuation_error st.last_action_id parent) e
    status-Effect st TrajectoryStatus.quarantined parent e = unchanged refl
    status-Effect st TrajectoryStatus.aborted parent e = unchanged refl
    status-Effect st TrajectoryStatus.closed parent e = unchanged refl

    pub validate_continuation-Effect :
        (parent : Option String)
        → Effect Quarantines s (validate_continuation s id action now parent).1
    unfolding validate_continuation
    validate_continuation-Effect parent = elim (Option-cases (get s.trajectories id)) [
      | inl missing ↦ rw (missing, validate_continuation) (unchanged refl)
      | inr (st, e) ↦ rw (e, validate_continuation) (status-Effect st st.status parent e)
    ]
