-- ===== src/Trajectory/Store.antt =====
-- backend/app/trajectory/store.py: the methods that read and the two that create. The lock makes each
-- method one step; a method returns its result beside the store that it leaves. A fresh `uuid4()`
-- and the time are arguments.
use mathlib.Core.Option.{get_or}
use cage_agent_security.Prelude.{
  ℕ, Bool, true, false, String, Option, none, some, List, [], ◌∷◌, ◌&&◌, ◌||◌,
}
use cage_agent_security.Prelude.Tests.{if◌then◌else◌}
use cage_agent_security.Prelude.Eq.{◌==◌, string_eq}
use cage_agent_security.Prelude.Dict.{get, put, values}
use cage_agent_security.Enums.{TrajectoryStatus, TargetEnvironment, DataClassification}
use cage_agent_security.Enums.Same.{trajectory_status_eq}
use cage_agent_security.Authority.{AuthorityEnvelope, from_intent, unconstrained_scope}
use cage_agent_security.Intent.{IntentContract}
use cage_agent_security.Trajectory.{TrajectorySnapshot}
use cage_agent_security.Trajectory.State.{
  TrajectoryState, to_snapshot, OwnershipKey, ownership_eq, make_key, TrajectoryStore,
  trajectory_not_found, Outcome, returned, raised,
}

unfoldable pub get_snapshot : TrajectoryStore → String → Option TrajectorySnapshot
get_snapshot s id = elim (get s.trajectories id) [ none ↦ none | some st ↦ some (to_snapshot st) ]

unfoldable pub get_active_trajectory_id : TrajectoryStore → OwnershipKey → Option String
get_active_trajectory_id s key = elim (get s.ownership_index key) [
  | none ↦ none
  | some id ↦ elim (get s.trajectories id) [
    | none ↦ none
    | some st ↦ if st.status == TrajectoryStatus.active then some id else none
  ]
]

unfoldable pub get_trajectory_id : TrajectoryStore → OwnershipKey → Option String
get_trajectory_id s key = get s.ownership_index key

-- The first state of the list that passes the test, by its own id.
find_id : (TrajectoryState → Bool) → List TrajectoryState → Option String
find_id p [] = none
find_id p (st ∷ sts) = if p st then some st.trajectory_id else find_id p sts

unfoldable pub get_trajectory_id_for_session : TrajectoryStore → String → Option String
unfolding find_id
get_trajectory_id_for_session s session =
    elim (find_id (λ st. st.session_id == session && st.status == TrajectoryStatus.active)
      (values s.trajectories)) [
        | some id ↦ some id
        | none ↦ find_id (λ st. st.session_id == session) (values s.trajectories)
      ]

-- A new state with no history.
abbrev pub fresh_trajectory : String → OwnershipKey → AuthorityEnvelope → ℕ → TrajectoryState
fresh_trajectory id key authority now = record {
  trajectory_id = id;
  session_id = key.session_id;
  intent_id = key.intent_id;
  agent_id = key.agent_id;
  status = TrajectoryStatus.active;
  created_at = now;
  updated_at = now;
  root_authority = authority;
  effective_authority = authority;
  evaluated_action_ids = [];
  executed_action_ids = [];
  rejected_lineage_attempt_ids = [];
  last_action_id = none;
  pending_approval_action_id = none;
  sensitive_egress_attempt_count = 0;
  cumulative_sensitive_egress_attempt_bytes = 0;
  recorded_egress_action_ids = [];
}

-- The new state is stored and takes the key over, whatever the key pointed to.
unfoldable pub register_trajectory :
    TrajectoryStore → String → OwnershipKey → AuthorityEnvelope → ℕ → TrajectoryStore
register_trajectory s id key authority now = record {
  trajectories = put s.trajectories id (fresh_trajectory id key authority now);
  ownership_index = put s.ownership_index key id;
}

-- `AuthorityEnvelope(allowed_tools=frozenset())`
abbrev default_authority : AuthorityEnvelope
default_authority = record {
  allowed_tools = [];
  resource_scope = unconstrained_scope;
  allowed_environments = TargetEnvironment.local_ ∷ TargetEnvironment.development ∷ [];
  allowed_data_classifications = DataClassification.public_ ∷ [];
  explanation = [];
}

unfoldable pub create_trajectory :
    TrajectoryStore
    → String
    → OwnershipKey
    → Option AuthorityEnvelope
    → ℕ
    → String × TrajectoryStore
create_trajectory s id key initial now =
    (id, register_trajectory s id key (get_or initial default_authority) now)

-- `str(agent_id or intent.agent_id)`
unfoldable pub effective_agent : Option String → IntentContract → String
effective_agent none intent = intent.agent_id
effective_agent (some a) intent = if a == "" then intent.agent_id else a

abbrev pub root_envelope : IntentContract → AuthorityEnvelope
root_envelope intent = record {
  allowed_tools = intent.allowed_tools;
  resource_scope = from_intent intent.allowed_resources;
  allowed_environments = intent.allowed_environments;
  allowed_data_classifications = intent.allowed_data_classifications;
  explanation = "Root Intent Authority Scope" ∷ [];
}

abbrev pub intent_key : IntentContract → Option String → OwnershipKey
intent_key intent agent = make_key intent.session_id intent.intent_id (effective_agent agent intent)

module _ (s : TrajectoryStore) (id : String) (key : OwnershipKey) (intent : IntentContract)
    (now : ℕ) where
  created : Outcome (TrajectorySnapshot × Bool) × TrajectoryStore
  created = (
    returned (to_snapshot (fresh_trajectory id key (root_envelope intent) now), true),
    register_trajectory s id key (root_envelope intent) now,
  )

  -- A closed trajectory is replaced, any other is returned as it is.
  reused : String → Option TrajectoryState → Outcome (TrajectorySnapshot × Bool) × TrajectoryStore
  unfolding created
  reused existing none = (raised (trajectory_not_found existing), s)
  reused existing (some st) =
      if st.status == TrajectoryStatus.quarantined || st.status == TrajectoryStatus.aborted
      then (returned (to_snapshot st, false), s)
      else if st.status == TrajectoryStatus.active
      then (returned (to_snapshot st, false), s)
      else created

unfoldable pub get_or_create_trajectory :
    TrajectoryStore
    → String
    → IntentContract
    → Option String
    → ℕ
    → Outcome (TrajectorySnapshot × Bool) × TrajectoryStore
unfolding created reused
get_or_create_trajectory s id intent agent now =
    elim (get s.ownership_index (intent_key intent agent)) [
      | none ↦ created s id (intent_key intent agent) intent now
      | some existing ↦
          reused s id (intent_key intent agent) intent now existing (get s.trajectories existing)
    ]
