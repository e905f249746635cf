-- ===== src/Trajectory/Lifecycle.antt =====
-- backend/app/trajectory/store.py as a state machine: the steps that the gateway takes, and those
-- of the remaining methods.
pub mod Kept
pub mod Effects
pub mod Invariant
pub mod Quarantine
use cage_agent_security.Prelude.{
  ℕ, suc, ◌≡◌, ◌⊎◌, Bool, true, false, String, Option, none, some, List, [], ◌∷◌,
}
use cage_agent_security.Prelude.Int.{ℤ}
use cage_agent_security.Prelude.Lists.{length}
use cage_agent_security.Prelude.Eq.{contains, string_eq}
use cage_agent_security.Prelude.Dict.{get}
use cage_agent_security.Enums.{TrajectoryStatus}
use cage_agent_security.Authority.{AuthorityEnvelope}
use cage_agent_security.Intent.{IntentContract}
use cage_agent_security.Trajectory.State.{
  TrajectoryState, TrajectoryStore, OwnershipKey, ownership_eq, make_key,
}
use cage_agent_security.Trajectory.Store.{create_trajectory, get_or_create_trajectory}
use cage_agent_security.Trajectory.Methods.{
  update_status, mark_quarantined, mark_aborted, close_trajectory, update_effective_authority,
  record_invalid_continuation_attempt, record_action_evaluation, record_action_execution,
  set_pending_approval, clear_pending_approval, record_sensitive_egress_attempt,
  validate_continuation,
}

-- A step of backend/app/gateway/service.py. A new trajectory has an id that is not in use.
pub data GatewayStep (s : TrajectoryStore) : TrajectoryStore → Type 0 where
  obtained :
      (fresh : String) (intent : IntentContract) (agent : Option String) (now : ℕ)
      → get s.trajectories fresh ≡ none
      → GatewayStep s (get_or_create_trajectory s fresh intent agent now).1
  validated :
      (id action : String) (parent : Option String) (now : ℕ)
      → GatewayStep s (validate_continuation s id action now parent).1
  attempted :
      (id action : String) (payload : ℤ) (now : ℕ)
      → GatewayStep s (record_sensitive_egress_attempt s id action payload now).1
  evaluated :
      (id action : String) (now : ℕ) → GatewayStep s (record_action_evaluation s id now action).1
  suspended :
      (id action : String) (now : ℕ) → GatewayStep s (set_pending_approval s id action now).1
  resumed :
      (id action : String) (now : ℕ) → GatewayStep s (clear_pending_approval s id action now).1
  quarantined : (id : String) (now : ℕ) → GatewayStep s (mark_quarantined s id now).1
  executed :
      (id action : String) (now : ℕ) → GatewayStep s (record_action_execution s id now action).1

-- A step of any method of the store.
pub data StoreStep (s : TrajectoryStore) : TrajectoryStore → Type 0 where
  by_gateway : {s' : TrajectoryStore} → GatewayStep s s' → StoreStep s s'
  created :
      (fresh : String) (key : OwnershipKey) (initial : Option AuthorityEnvelope) (now : ℕ)
      → get s.trajectories fresh ≡ none
      → StoreStep s (create_trajectory s fresh key initial now).1
  updated :
      (id : String) (status : TrajectoryStatus) (now : ℕ)
      → StoreStep s (update_status s id now status).1
  aborted : (id : String) (now : ℕ) → StoreStep s (mark_aborted s id now).1
  closed : (id : String) (now : ℕ) → StoreStep s (close_trajectory s id now).1
  narrowed :
      (id : String) (authority : AuthorityEnvelope) (now : ℕ)
      → StoreStep s (update_effective_authority s id now authority).1
  rejected :
      (id action : String) (now : ℕ)
      → StoreStep s (record_invalid_continuation_attempt s id now action).1

pub data Reach (s : TrajectoryStore) : TrajectoryStore → Type 0 where
  here : Reach s s
  next : {t u : TrajectoryStore} → Reach s t → StoreStep t u → Reach s u

pub data GatewayRun (s : TrajectoryStore) : TrajectoryStore → Type 0 where
  here : GatewayRun s s
  next : {t u : TrajectoryStore} → GatewayRun s t → GatewayStep t u → GatewayRun s u

-- No id is listed twice.
abbrev pub Distinct : List String → Type 0
Distinct [] = Unit {0}
Distinct (x ∷ xs) = (contains xs x ≡ false) × Distinct xs

-- The history of one trajectory agrees with itself.
pub record IsConsistent (st : TrajectoryState) : Type 0 where
  -- One attempt is counted for each recorded action, once.
  pub counted : st.sensitive_egress_attempt_count ≡ length st.recorded_egress_action_ids
  pub attempts_distinct : Distinct st.recorded_egress_action_ids
  pub evaluations_distinct : Distinct st.evaluated_action_ids
  pub executions_distinct : Distinct st.executed_action_ids
  -- Without a tip nothing was evaluated, and a tip was evaluated.
  pub unstarted : st.last_action_id ≡ none → st.evaluated_action_ids ≡ []
  pub tip : (a : String) → st.last_action_id ≡ some a → contains st.evaluated_action_ids a ≡ true
  -- The action that waits for approval was evaluated.
  pub waits :
      (a : String)
      → st.pending_approval_action_id ≡ some a
      → contains st.evaluated_action_ids a ≡ true

abbrev pub owner : TrajectoryState → OwnershipKey
owner st = make_key st.session_id st.intent_id st.agent_id

-- Every state is consistent and stands under its own id, and the index names states of their owner.
pub record Valid (s : TrajectoryStore) : Type 0 where
  pub keyed :
      (id : String) (st : TrajectoryState)
      → get s.trajectories id ≡ some st
      → (st.trajectory_id ≡ id) × IsConsistent st
  pub owned :
      (key : OwnershipKey) (id : String)
      → get s.ownership_index key ≡ some id
      → (st : TrajectoryState) × (get s.trajectories id ≡ some st) × (owner st ≡ key)
