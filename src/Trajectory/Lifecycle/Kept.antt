-- ===== src/Trajectory/Lifecycle/Kept.antt =====
-- backend/app/trajectory/store.py: what the methods keep of one trajectory, its owner and the
-- agreement of its history.
use cage_agent_security.Prelude.{
  ℕ, ◌≡◌, ◌⊎◌, refl, inl, inr, true, false, String, Option, some, List, [], ◌∷◌, ◌++◌, arith,
}
use cage_agent_security.Prelude.Tests.{Bool-cases}
use cage_agent_security.Prelude.Int.{ℤ}
use cage_agent_security.Prelude.Lists.{length-append}
use cage_agent_security.Prelude.Eq.{
  contains, add, contains-add, contains-append, ==-refl, string_eq,
}
use cage_agent_security.Enums.{TrajectoryStatus}
use cage_agent_security.Authority.{AuthorityEnvelope}
use cage_agent_security.Trajectory.State.{TrajectoryState}
use cage_agent_security.Trajectory.Methods
use cage_agent_security.Trajectory.Methods.{
  modify, update_status, mark_quarantined, mark_aborted, close_trajectory,
  update_effective_authority, record_invalid_continuation_attempt, record_action_evaluation,
  record_action_execution, set_pending_approval, clear_pending_approval,
  record_sensitive_egress_attempt, validate_continuation, held_by_other, checkpointed, cleared,
  continuation_error, rejected_attempt, stored,
}
use cage_agent_security.Trajectory.Lifecycle.{Distinct, IsConsistent}

-- One state after a method that keeps who owns it.
pub record Kept (st st' : TrajectoryState) : Type 0 where
  pub same_id : st'.trajectory_id ≡ st.trajectory_id
  pub same_session : st'.session_id ≡ st.session_id
  pub same_intent : st'.intent_id ≡ st.intent_id
  pub same_agent : st'.agent_id ≡ st.agent_id
  pub consistent : IsConsistent st → IsConsistent st'

-- The status stays, or becomes QUARANTINED.
abbrev pub Quarantines : TrajectoryState → TrajectoryState → Type 0
Quarantines st st' =
    Kept st st' × ((st'.status ≡ st.status) ⊎ (st'.status ≡ TrajectoryStatus.quarantined))

Distinct-append :
    (xs : List String) (a : String) → contains xs a ≡ false → Distinct xs → Distinct (xs ++ a ∷ [])
unfolding contains
Distinct-append [] a h d = (refl, tt)
Distinct-append (x ∷ xs) a h d = (
  ground (
    arith,
    contains-append xs (a ∷ []) x,
    string_eq.equals_iff x a,
    string_eq.equals_iff a x,
    d.0,
  ),
  Distinct-append xs a (ground arith) d.1,
)

pub Distinct-add : (xs : List String) (a : String) → Distinct xs → Distinct (add xs a)
unfolding add
Distinct-add xs a d = elim (Bool-cases (contains xs a)) [
  | inl old ↦ rw old d
  | inr new ↦ rw new (Distinct-append xs a new d)
]

contains-add_self : (xs : List String) (a : String) → contains (add xs a) a ≡ true
contains-add_self xs a = ground (arith, contains-add xs a a, ==-refl a)

contains-add_old :
    (xs : List String) (a b : String) → contains xs b ≡ true → contains (add xs a) b ≡ true
contains-add_old xs a b h = ground (arith, contains-add xs a b)

-- Status, authority and rejected attempts are no part of the history.
module _ (st : TrajectoryState) (now : ℕ) where
  pub Kept-same :
      (status : TrajectoryStatus) (authority : AuthorityEnvelope) (rejected executed : List String)
      → (Distinct st.executed_action_ids → Distinct executed)
      → Kept st (record st {
        status = status;
        effective_authority = authority;
        rejected_lineage_attempt_ids = rejected;
        executed_action_ids = executed;
        updated_at = now;
      })
  Kept-same status authority rejected executed d = record {
    same_id = refl;
    same_session = refl;
    same_intent = refl;
    same_agent = refl;
    consistent = λ v. record {
      counted = v.counted;
      attempts_distinct = v.attempts_distinct;
      evaluations_distinct = v.evaluations_distinct;
      executions_distinct = d v.executions_distinct;
      unstarted = v.unstarted;
      tip = v.tip;
      waits = v.waits;
    };
  }

  pub Kept-evaluated :
      (action : String) (pending : Option String)
      → (pending ≡ st.pending_approval_action_id) ⊎ (pending ≡ some action)
      → Kept st (record st {
        evaluated_action_ids = add st.evaluated_action_ids action;
        last_action_id = some action;
        pending_approval_action_id = pending;
        updated_at = now;
      })
  Kept-evaluated action pending how = record {
    same_id = refl;
    same_session = refl;
    same_intent = refl;
    same_agent = refl;
    consistent = λ v. record {
      counted = v.counted;
      attempts_distinct = v.attempts_distinct;
      evaluations_distinct = Distinct-add st.evaluated_action_ids action v.evaluations_distinct;
      executions_distinct = v.executions_distinct;
      unstarted = λ e. absurd (cc);
      tip = λ a e. ground (arith, contains-add_self st.evaluated_action_ids action);
      waits = λ a e. ground (
        arith,
        how,
        v.waits a,
        contains-add_self st.evaluated_action_ids action,
        contains-add_old st.evaluated_action_ids action a,
      );
    };
  }

  pub Kept-cleared :
      (action : String)
      → Kept st (record st {
        pending_approval_action_id = cleared action st.pending_approval_action_id;
        updated_at = now;
      })
  unfolding cleared
  Kept-cleared action = record {
    same_id = refl;
    same_session = refl;
    same_intent = refl;
    same_agent = refl;
    consistent = λ v. record {
      counted = v.counted;
      attempts_distinct = v.attempts_distinct;
      evaluations_distinct = v.evaluations_distinct;
      executions_distinct = v.executions_distinct;
      unstarted = v.unstarted;
      tip = v.tip;
      waits = λ a e. ground (arith, v.waits a);
    };
  }

  pub Kept-attempted :
      (action : String) (payload : ℤ)
      → contains st.recorded_egress_action_ids action ≡ false
      → Kept st (Methods.attempted action payload now st)
  unfolding Methods.attempted add
  Kept-attempted action payload new = record {
    same_id = refl;
    same_session = refl;
    same_intent = refl;
    same_agent = refl;
    consistent = λ v. record {
      counted =
          rw new
            (ground (arith, v.counted, length-append st.recorded_egress_action_ids (action ∷ [])));
      attempts_distinct =
          rw new (Distinct-append st.recorded_egress_action_ids action new v.attempts_distinct);
      evaluations_distinct = v.evaluations_distinct;
      executions_distinct = v.executions_distinct;
      unstarted = v.unstarted;
      tip = v.tip;
      waits = v.waits;
    };
  }
