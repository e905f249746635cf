-- ===== src/Trajectory/Continuation.antt =====
-- backend/app/trajectory/store.py: when a continuation is accepted, and that a repeated egress
-- attempt is counted once.
use cage_agent_security.Prelude.{
  ℕ, ◌+◌, ◌≡◌, ◌↔◌, refl, true, false, String, Option, none, some, arith,
}
use text.Mathlib.TextEquality.{eq_iff}
use cage_agent_security.Prelude.Int.{ℤ}
use cage_agent_security.Prelude.Dict.{get, get-put}
use cage_agent_security.Prelude.Eq.{contains, contains-add, ==-refl, string_eq}
use cage_agent_security.Enums.{TrajectoryStatus}
use cage_agent_security.Trajectory.State.{TrajectoryState, TrajectoryStore, ContinuationError}
use cage_agent_security.Trajectory.Methods
use cage_agent_security.Trajectory.Methods.{
  validate_continuation, continuation_error, record_sensitive_egress_attempt, counters,
  payload_size, attempted, stored,
}

continuation_error-none :
    (tip parent : Option String) → (continuation_error tip parent ≡ none) ↔ (parent ≡ tip)
unfolding continuation_error
continuation_error-none none none = ground arith
continuation_error-none none (some p) = ground arith
continuation_error-none (some t) none = ground arith
continuation_error-none (some t) (some p) = ground (arith, eq_iff p t)

linear_verdict_iff :
    (s : TrajectoryStore) (id action : String) (now : ℕ) (st : TrajectoryState)
    (o : Option ContinuationError)
    → ((Methods.linear_verdict s id action now st o).0.0 ≡ true) ↔ (o ≡ none)
unfolding Methods.linear_verdict
linear_verdict_iff s id action now st none = ground arith
linear_verdict_iff s id action now st (some e) = ground arith

status_verdict_iff :
    (s : TrajectoryStore) (id action : String) (now : ℕ) (st : TrajectoryState)
    (status : TrajectoryStatus) (parent : Option String)
    → ((Methods.status_verdict s id action now st status parent).0.0 ≡ true)
      ↔ ((status ≡ TrajectoryStatus.active) × (parent ≡ st.last_action_id))
unfolding Methods.status_verdict
status_verdict_iff s id action now st TrajectoryStatus.active parent = ground (
  arith,
  linear_verdict_iff s id action now st (continuation_error st.last_action_id parent),
  continuation_error-none st.last_action_id parent,
)
status_verdict_iff s id action now st TrajectoryStatus.quarantined parent = ground arith
status_verdict_iff s id action now st TrajectoryStatus.closed parent = ground arith
status_verdict_iff s id action now st TrajectoryStatus.aborted parent = ground arith

-- A continuation of a stored trajectory is accepted exactly if the trajectory is ACTIVE and the
-- action names the tip as its parent, or no parent where nothing was evaluated yet; one of an
-- unknown trajectory is refused.
pub continuation_accepted_iff :
    (s : TrajectoryStore) (id action : String) (parent : Option String) (now : ℕ)
    → ((st : TrajectoryState)
        → get s.trajectories id ≡ some st
        → ((validate_continuation s id action now parent).0.0 ≡ true)
          ↔ ((st.status ≡ TrajectoryStatus.active) × (parent ≡ st.last_action_id)))
      × (get s.trajectories id ≡ none → (validate_continuation s id action now parent).0.0 ≡ false)
unfolding validate_continuation
continuation_accepted_iff s id action parent now = (
  λ st e. rw (e, validate_continuation) (status_verdict_iff s id action now st st.status parent),
  λ e. rw (e, validate_continuation) refl,
)

-- What the first attempt of an action leaves behind, and what a repetition answers.
pub record CountsOnce (s : TrajectoryStore) (id action : String) (payload again : ℤ) (now later : ℕ)
    (st : TrajectoryState) : Type 0 where
  pub after : TrajectoryState
  pub found :
      get (record_sensitive_egress_attempt s id action payload now).1.trajectories id ≡ some after
  pub count : after.sensitive_egress_attempt_count ≡ st.sensitive_egress_attempt_count + 1
  pub bytes :
      after.cumulative_sensitive_egress_attempt_bytes
      ≡ st.cumulative_sensitive_egress_attempt_bytes + payload_size payload
  pub repeated :
      record_sensitive_egress_attempt
        (record_sensitive_egress_attempt s id action payload now).1
        id
        action
        again
        later
      ≡ (counters after true, (record_sensitive_egress_attempt s id action payload now).1)

-- A recorded action is answered with the counters and changes nothing.
old_attempt :
    (s : TrajectoryStore) (id action : String) (payload : ℤ) (now : ℕ) (st : TrajectoryState)
    → get s.trajectories id ≡ some st
    → contains st.recorded_egress_action_ids action ≡ true
    → record_sensitive_egress_attempt s id action payload now ≡ (counters st true, s)
unfolding record_sensitive_egress_attempt
old_attempt s id action payload now st e old = rw (e, record_sensitive_egress_attempt, old) refl

new_attempt :
    (s : TrajectoryStore) (id action : String) (payload : ℤ) (now : ℕ) (st : TrajectoryState)
    → get s.trajectories id ≡ some st
    → contains st.recorded_egress_action_ids action ≡ false
    → (record_sensitive_egress_attempt s id action payload now).1
      ≡ stored s id (attempted action payload now st)
unfolding record_sensitive_egress_attempt
new_attempt s id action payload now st e new = rw (e, record_sensitive_egress_attempt, new) refl

-- The first sensitive egress attempt of an action adds one to the count and its payload to the
-- bytes, a negative size counting as zero; every repetition, with whatever payload, answers with
-- these counters, says that it was recorded, and leaves the store as it is.
pub egress_counted_once :
    (s : TrajectoryStore) (id action : String) (payload again : ℤ) (now later : ℕ)
    (st : TrajectoryState)
    → get s.trajectories id ≡ some st
    → contains st.recorded_egress_action_ids action ≡ false
    → CountsOnce s id action payload again now later st
unfolding attempted
egress_counted_once s id action payload again now later st e new =
    let after = attempted action payload now st in
    let is = new_attempt s id action payload now st e new in
    let found : get (record_sensitive_egress_attempt s id action payload now).1.trajectories id
        ≡ some after =
      ground (arith, is, get-put s.trajectories id id after, ==-refl id) in
    record {
      after = after;
      found = found;
      count = refl;
      bytes = refl;
      repeated = old_attempt _ id action again later after found (
          ground (arith, contains-add st.recorded_egress_action_ids action action, ==-refl action));
    }
