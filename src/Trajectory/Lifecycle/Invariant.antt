-- ===== src/Trajectory/Lifecycle/Invariant.antt =====
-- The invariant of backend/app/trajectory/store.py over every run of its methods.
use mathlib.Core.Path.{subst}
use text.Mathlib.TextEquality.{eq_iff}
use cage_agent_security.Prelude.{
  ℕ, ◌≡◌, ◌⊎◌, inl, inr, refl, sym, String, Option, none, some, arith,
}
use cage_agent_security.Prelude.Tests.{Bool-cases, Option-cases}
use cage_agent_security.Prelude.Dict.{get, get-put}
use cage_agent_security.Prelude.Eq.{◌==◌, string_eq}
use cage_agent_security.Enums.{TrajectoryStatus}
use cage_agent_security.Enums.Same.{trajectory_status_eq}
use cage_agent_security.Authority.{AuthorityEnvelope}
use cage_agent_security.Intent.{IntentContract}
use cage_agent_security.Trajectory.State.{
  TrajectoryState, TrajectoryStore, OwnershipKey, ownership_eq, ownership_equals_iff,
  empty_trajectories,
}
use cage_agent_security.Trajectory.Store.{
  fresh_trajectory, register_trajectory, create_trajectory, get_or_create_trajectory, intent_key,
  root_envelope,
}
use cage_agent_security.Trajectory.Lifecycle.{
  GatewayStep, StoreStep, by_gateway, Reach, here, next, IsConsistent, owner, Valid,
}
use cage_agent_security.Trajectory.Lifecycle
use cage_agent_security.Trajectory.Lifecycle.Effects
use cage_agent_security.Trajectory.Lifecycle.Effects.{Effect, unchanged, wrote}
use cage_agent_security.Trajectory.Lifecycle.Kept.{Kept, Quarantines}

fresh-IsConsistent :
    (id : String) (key : OwnershipKey) (authority : AuthorityEnvelope) (now : ℕ)
    → IsConsistent (fresh_trajectory id key authority now)
fresh-IsConsistent id key authority now = record {
  counted = refl;
  attempts_distinct = tt;
  evaluations_distinct = tt;
  executions_distinct = tt;
  unstarted = λ e. refl;
  tip = λ a e. absurd (cc);
  waits = λ a e. absurd (cc);
}

pub register-Valid :
    (s : TrajectoryStore) (id : String) (key : OwnershipKey) (authority : AuthorityEnvelope)
    (now : ℕ)
    → get s.trajectories id ≡ none
    → Valid s
    → Valid (register_trajectory s id key authority now)
unfolding register_trajectory
register-Valid s id key authority now unused v = record {
  keyed = λ j st e. elim (Bool-cases (id == j)) [
    | inl same ↦
        let st-eq : fresh_trajectory id key authority now ≡ st =
          ground (arith, get-put s.trajectories id j (fresh_trajectory id key authority now)) in
        (
          ground (arith, eq_iff id j, st-eq),
          subst IsConsistent st-eq (fresh-IsConsistent id key authority now),
        )
    | inr other ↦
        v.keyed j st
          (ground (arith, get-put s.trajectories id j (fresh_trajectory id key authority now)))
  ];
  owned = λ k j e. elim (Bool-cases (key == k)) [
    | inl same ↦ (
      fresh_trajectory id key authority now,
      ground (
        arith,
        get-put s.ownership_index key k id,
        get-put s.trajectories id j (fresh_trajectory id key authority now),
        eq_iff id j,
      ),
      (ownership_equals_iff key k).0 same,
    )
    | inr other ↦
        let (st, found, own) = v.owned k j (ground (arith, get-put s.ownership_index key k id)) in
        (
          st,
          ground (
            arith,
            get-put s.trajectories id j (fresh_trajectory id key authority now),
            eq_iff id j,
          ),
          own,
        )
  ];
}

-- `get_or_create` leaves the store, or registers a new trajectory where the owner had none or a
-- closed one.
pub get_or_create-cases :
    (s : TrajectoryStore) (fresh : String) (intent : IntentContract) (agent : Option String)
    (now : ℕ)
    → ((get_or_create_trajectory s fresh intent agent now).1 ≡ s)
      ⊎ (((get_or_create_trajectory s fresh intent agent now).1
            ≡ register_trajectory s fresh (intent_key intent agent) (root_envelope intent) now)
          × ((id : String) (st : TrajectoryState)
              → get s.ownership_index (intent_key intent agent) ≡ some id
              → get s.trajectories id ≡ some st
              → st.status ≡ TrajectoryStatus.closed))
unfolding get_or_create_trajectory
get_or_create-cases s fresh intent agent now =
    elim (Option-cases (get s.ownership_index (intent_key intent agent))) [
      | inl unowned ↦ inr (rw (unowned, get_or_create_trajectory) refl, λ id st e found. cc)
      | inr (existing, e) ↦ elim (Option-cases (get s.trajectories existing)) [
        | inl missing ↦ inl (rw (e, get_or_create_trajectory, missing) refl)
        | inr (st, found) ↦ reused_cases existing st e found st.status refl
      ]
    ]
  where
    reused_cases :
        (existing : String) (st : TrajectoryState)
        → get s.ownership_index (intent_key intent agent) ≡ some existing
        → get s.trajectories existing ≡ some st
        → (status : TrajectoryStatus) → st.status ≡ status
        → ((get_or_create_trajectory s fresh intent agent now).1 ≡ s)
          ⊎ (((get_or_create_trajectory s fresh intent agent now).1
                ≡ register_trajectory s fresh (intent_key intent agent) (root_envelope intent) now)
              × ((id : String) (st : TrajectoryState)
                  → get s.ownership_index (intent_key intent agent) ≡ some id
                  → get s.trajectories id ≡ some st
                  → st.status ≡ TrajectoryStatus.closed))
    reused_cases existing st e found TrajectoryStatus.active is =
        inl (rw (e, get_or_create_trajectory, found, is) refl)
    reused_cases existing st e found TrajectoryStatus.quarantined is =
        inl (rw (e, get_or_create_trajectory, found, is) refl)
    reused_cases existing st e found TrajectoryStatus.aborted is =
        inl (rw (e, get_or_create_trajectory, found, is) refl)
    reused_cases existing st e found TrajectoryStatus.closed is =
        inr (rw (e, get_or_create_trajectory, found, is) refl, λ id st' e' found'. ground (arith))

pub Effect-Valid : (s s' : TrajectoryStore) → Effect Kept s s' → Valid s → Valid s'
Effect-Valid s s' (unchanged same) v = subst Valid (sym same) v
Effect-Valid s s' (wrote id st st' e k changed) v = subst Valid (sym changed) (record {
  keyed = λ j st2 e2. elim (Bool-cases (id == j)) [
    | inl same ↦
        let st-eq : st' ≡ st2 = ground (arith, get-put s.trajectories id j st') in
        (
          ground (arith, eq_iff id j, k.same_id, (v.keyed id st e).0, st-eq),
          subst IsConsistent st-eq (k.consistent (v.keyed id st e).1),
        )
    | inr other ↦ v.keyed j st2 (ground (arith, get-put s.trajectories id j st'))
  ];
  owned = λ key j e2.
      let (st2, found, own) = v.owned key j e2 in
      elim (Bool-cases (id == j)) [
        | inl same ↦ (
          st',
          ground (arith, get-put s.trajectories id j st'),
          ground (arith, eq_iff id j, k.same_session, k.same_intent, k.same_agent),
        )
        | inr other ↦ (st2, ground (arith, get-put s.trajectories id j st'), own)
      ];
})

pub forget_status : (s s' : TrajectoryStore) → Effect Quarantines s s' → Effect Kept s s'
forget_status s s' (unchanged same) = unchanged same
forget_status s s' (wrote id st st' e (k, _) changed) = wrote id st st' e k changed

obtained-Valid :
    (s : TrajectoryStore) (fresh : String) (intent : IntentContract) (agent : Option String)
    (now : ℕ)
    → get s.trajectories fresh ≡ none
    → Valid s
    → Valid (get_or_create_trajectory s fresh intent agent now).1
obtained-Valid s fresh intent agent now unused v =
    elim (get_or_create-cases s fresh intent agent now) [
      | inl same ↦ subst Valid (sym same) v
      | inr (registered, _) ↦
          subst Valid (sym registered)
            (register-Valid s fresh (intent_key intent agent) (root_envelope intent) now unused v)
    ]

-- Every step of the gateway but the first is an effect on one state.
pub gateway-Effect :
    (s s' : TrajectoryStore)
    → GatewayStep s s'
    → Effect Quarantines s s'
      ⊎ ((fresh : String) × (intent : IntentContract) × (agent : Option String) × (now : ℕ) × (get
              s.trajectories fresh
            ≡ none)
          × (s' ≡ (get_or_create_trajectory s fresh intent agent now).1))
gateway-Effect s _ (Lifecycle.obtained fresh intent agent now unused) =
    inr (fresh, intent, agent, now, unused, refl)
gateway-Effect s _ (Lifecycle.validated id action parent now) =
    inl (Effects.validate_continuation-Effect s id now action parent)
gateway-Effect s _ (Lifecycle.attempted id action payload now) =
    inl (Effects.egress-Effect s id now action payload)
gateway-Effect s _ (Lifecycle.evaluated id action now) =
    inl (Effects.record_action_evaluation-Effect s id now action)
gateway-Effect s _ (Lifecycle.suspended id action now) =
    inl (Effects.set_pending_approval-Effect s id now action)
gateway-Effect s _ (Lifecycle.resumed id action now) =
    inl (Effects.clear_pending_approval-Effect s id now action)
gateway-Effect s _ (Lifecycle.quarantined id now) = inl (Effects.mark_quarantined-Effect s id now)
gateway-Effect s _ (Lifecycle.executed id action now) =
    inl (Effects.record_action_execution-Effect s id now action)

GatewayStep-Valid : (s s' : TrajectoryStore) → GatewayStep s s' → Valid s → Valid s'
GatewayStep-Valid s s' step v = elim (gateway-Effect s s' step) [
  | inl effect ↦ Effect-Valid s s' (forget_status s s' effect) v
  | inr (fresh, intent, agent, now, unused, is) ↦
      subst Valid (sym is) (obtained-Valid s fresh intent agent now unused v)
]

StoreStep-Valid : (s s' : TrajectoryStore) → StoreStep s s' → Valid s → Valid s'
unfolding create_trajectory
StoreStep-Valid s s' (by_gateway step) v = GatewayStep-Valid s s' step v
StoreStep-Valid s _ (Lifecycle.created fresh key initial now unused) v =
    register-Valid s fresh key _ now unused v
StoreStep-Valid s _ (Lifecycle.updated id status now) v =
    Effect-Valid s _ (Effects.update_status-Effect s id now status) v
StoreStep-Valid s _ (Lifecycle.aborted id now) v =
    Effect-Valid s _ (Effects.mark_aborted-Effect s id now) v
StoreStep-Valid s _ (Lifecycle.closed id now) v =
    Effect-Valid s _ (Effects.close_trajectory-Effect s id now) v
StoreStep-Valid s _ (Lifecycle.narrowed id authority now) v =
    Effect-Valid s _ (Effects.update_effective_authority-Effect s id now authority) v
StoreStep-Valid s _ (Lifecycle.rejected id action now) v =
    Effect-Valid s _ (Effects.rejected-Effect s id now action) v

empty-Valid : Valid empty_trajectories
unfolding get
empty-Valid = record { keyed = λ id st e. absurd (cc); owned = λ key id e. absurd (cc) }

Reach-Valid : {s s' : TrajectoryStore} → Reach s s' → Valid s → Valid s'
Reach-Valid here v = v
Reach-Valid (next {t} {u} r step) v = StoreStep-Valid t u step (Reach-Valid r v)

-- Whatever methods of the store run, in any order from the empty store and with ids that are not in
-- use: every trajectory stands under its own id; it has counted one sensitive egress attempt for
-- each recorded action and recorded none twice; it lists no evaluated or executed action twice; its
-- tip and the action that waits for approval were evaluated; and the index of owners names for each
-- owner a trajectory of that owner.
pub reachable-Valid : (s : TrajectoryStore) → Reach empty_trajectories s → Valid s
reachable-Valid s r = Reach-Valid r empty-Valid
