-- ===== src/Trajectory/Lifecycle/Quarantine.antt =====
-- backend/app/trajectory/store.py: a blocked trajectory stays with its owner through every run of
-- the gateway's steps.
use mathlib.Core.Path.{subst}
use text.Mathlib.TextEquality.{eq_iff}
use cage_agent_security.Prelude.{
  ℕ, ◌≡◌, ◌⊎◌, inl, inr, refl, sym, false, String, Option, none, some, arith,
}
use cage_agent_security.Prelude.Tests.{Bool-cases}
use cage_agent_security.Prelude.Dict.{get, get-put}
use cage_agent_security.Prelude.Eq.{◌==◌, string_eq}
use cage_agent_security.Enums.{TrajectoryStatus}
use cage_agent_security.Enums.Same.{trajectory_status_eq}
use cage_agent_security.Intent.{IntentContract}
use cage_agent_security.Trajectory.State.{
  TrajectoryState, to_snapshot, TrajectoryStore, OwnershipKey, ownership_eq, ownership_equals_iff,
  returned,
}
use cage_agent_security.Trajectory.Store.{
  fresh_trajectory, register_trajectory, get_or_create_trajectory, intent_key, root_envelope,
}
use cage_agent_security.Trajectory.Methods.{validate_continuation}
use cage_agent_security.Trajectory.Lifecycle.{GatewayRun, here, next}
use cage_agent_security.Trajectory.Lifecycle.Effects.{Effect, unchanged, wrote}
use cage_agent_security.Trajectory.Lifecycle.Kept.{Quarantines}
use cage_agent_security.Trajectory.Lifecycle.Invariant.{gateway-Effect, get_or_create-cases}

abbrev pub IsBlocked : TrajectoryStatus → Type 0
IsBlocked status = (status ≡ TrajectoryStatus.quarantined) ⊎ (status ≡ TrajectoryStatus.aborted)

-- The owner's trajectory is this one, and it is blocked.
pub record Holds (key : OwnershipKey) (id : String) (s : TrajectoryStore) : Type 0 where
  pub state : TrajectoryState
  pub indexed : get s.ownership_index key ≡ some id
  pub found : get s.trajectories id ≡ some state
  pub named : state.trajectory_id ≡ id
  pub blocked : IsBlocked state.status

module _ (key : OwnershipKey) (id : String) where
  Effect-Holds :
      (s s' : TrajectoryStore) → Effect Quarantines s s' → Holds key id s → Holds key id s'
  Effect-Holds s s' (unchanged same) h = subst (Holds key id) (sym same) h
  Effect-Holds s s' (wrote j st st' e (k, status) changed) h =
      subst (Holds key id) (sym changed) (elim (Bool-cases (j == id)) [
        | inl same ↦
            let is : st ≡ h.state = ground (arith, eq_iff j id, h.found) in
            record {
              state = st';
              indexed = h.indexed;
              found = ground (arith, get-put s.trajectories j id st');
              named = ground (arith, k.same_id, h.named, is);
              blocked = ground (arith, status, h.blocked, is);
            }
        | inr other ↦ record {
          state = h.state;
          indexed = h.indexed;
          found = ground (arith, get-put s.trajectories j id st', h.found);
          named = h.named;
          blocked = h.blocked;
        }
      ])

  obtained-Holds :
      (s : TrajectoryStore) (fresh : String) (intent : IntentContract) (agent : Option String)
      (now : ℕ)
      → get s.trajectories fresh ≡ none
      → Holds key id s
      → Holds key id (get_or_create_trajectory s fresh intent agent now).1
  unfolding register_trajectory
  obtained-Holds s fresh intent agent now unused h =
      elim (get_or_create-cases s fresh intent agent now) [
        | inl same ↦ subst (Holds key id) (sym same) h
        | inr (registered, only_closed) ↦ subst (Holds key id) (sym registered) (record {
          state = h.state;
          indexed = ground (
            arith,
            get-put s.ownership_index (intent_key intent agent) key fresh,
            ownership_equals_iff (intent_key intent agent) key,
            only_closed id h.state,
            h.indexed,
            h.found,
            h.blocked,
          );
          found = ground (
            arith,
            get-put s.trajectories fresh id
                (fresh_trajectory fresh (intent_key intent agent) (root_envelope intent) now),
            eq_iff fresh id,
            h.found,
          );
          named = h.named;
          blocked = h.blocked;
        })
      ]

  GatewayRun-Holds : {s s' : TrajectoryStore} → GatewayRun s s' → Holds key id s → Holds key id s'
  GatewayRun-Holds here h = h
  GatewayRun-Holds (next {t} {u} r step) h = elim (gateway-Effect t u step) [
    | inl effect ↦ Effect-Holds t u effect (GatewayRun-Holds r h)
    | inr (fresh, intent, agent, now, unused, is) ↦
        subst (Holds key id) (sym is)
          (obtained-Holds t fresh intent agent now unused (GatewayRun-Holds r h))
  ]

-- What a blocked owner gets: the blocked trajectory itself and no new one, and a refusal of every
-- continuation, with the store left as it is.
pub record StaysBlocked (key : OwnershipKey) (id : String) (s : TrajectoryStore) : Type 0 where
  pub state : TrajectoryState
  pub same : state.trajectory_id ≡ id
  pub blocked : IsBlocked state.status
  pub obtained :
      (fresh : String) (intent : IntentContract) (agent : Option String) (now : ℕ)
      → intent_key intent agent ≡ key
      → get_or_create_trajectory s fresh intent agent now ≡ (returned (to_snapshot state, false), s)
  pub refused :
      (action : String) (parent : Option String) (now : ℕ)
      → ((validate_continuation s id action now parent).0.0 ≡ false)
        × ((validate_continuation s id action now parent).1 ≡ s)

blocked-obtained :
    (s : TrajectoryStore) (key : OwnershipKey) (id : String) (st : TrajectoryState) (fresh : String)
    (intent : IntentContract) (agent : Option String) (now : ℕ)
    → intent_key intent agent ≡ key
    → get s.ownership_index key ≡ some id
    → get s.trajectories id ≡ some st
    → IsBlocked st.status
    → get_or_create_trajectory s fresh intent agent now ≡ (returned (to_snapshot st, false), s)
unfolding get_or_create_trajectory
blocked-obtained s key id st fresh intent agent now k indexed found (inl q) =
    rw (k, indexed, get_or_create_trajectory, found, q) refl
blocked-obtained s key id st fresh intent agent now k indexed found (inr a) =
    rw (k, indexed, get_or_create_trajectory, found, a) refl

blocked-refused :
    (s : TrajectoryStore) (id : String) (st : TrajectoryState) (action : String)
    (parent : Option String) (now : ℕ)
    → get s.trajectories id ≡ some st
    → IsBlocked st.status
    → ((validate_continuation s id action now parent).0.0 ≡ false)
      × ((validate_continuation s id action now parent).1 ≡ s)
unfolding validate_continuation
blocked-refused s id st action parent now found (inl q) =
    (rw (found, validate_continuation, q) refl, rw (found, validate_continuation, q) refl)
blocked-refused s id st action parent now found (inr a) =
    (rw (found, validate_continuation, a) refl, rw (found, validate_continuation, a) refl)

-- Once the trajectory of an owner (session, intent, agent) is quarantined or aborted, after any run
-- of the gateway's steps the owner still gets that trajectory, still blocked and never a new one,
-- and no continuation of it is accepted. The steps are those that the gateway takes: closing a
-- trajectory or setting its status by hand is not among them.
pub quarantine_holds :
    (s s' : TrajectoryStore) (key : OwnershipKey) (id : String) (st : TrajectoryState)
    → get s.ownership_index key ≡ some id
    → get s.trajectories id ≡ some st
    → st.trajectory_id ≡ id
    → IsBlocked st.status
    → GatewayRun s s'
    → StaysBlocked key id s'
quarantine_holds s s' key id st indexed found named blocked run =
    let h =
      GatewayRun-Holds key id run (record {
        state = st;
        indexed = indexed;
        found = found;
        named = named;
        blocked = blocked;
      }) in
    record {
      state = h.state;
      same = h.named;
      blocked = h.blocked;
      obtained = λ fresh intent agent now k.
          blocked-obtained s' key id h.state fresh intent agent now k h.indexed h.found h.blocked;
      refused =
          λ action parent now. blocked-refused s' id h.state action parent now h.found h.blocked;
    }
