-- ===== src/Delegation/Dispatch.antt =====
-- backend/app/delegation/store.py: the action budget of a grant and its ancestors.
pub mod Slots
pub mod Reserve
use cage_agent_security.Prelude.{
  ℕ, zero, suc, ◌+◌, ◌-◌, Bool, true, false, String, Option, none, some, List, [], ◌∷◌, not, ◌||◌,
}
use cage_agent_security.Prelude.Tests.{if◌then◌else◌, leb, ltb}
use cage_agent_security.Prelude.Eq.{◌==◌, string_eq}
use cage_agent_security.Prelude.Dict.{Dict, get, put}
use cage_agent_security.Enums.{DelegationStatus}
use cage_agent_security.Enums.Same.{delegation_status_eq}
use cage_agent_security.Delegation.Models.{DelegationGrant, DelegationRuntimeState}
use cage_agent_security.Delegation.Chain.{Result, ok, err, key_error, get_chain, default_max_depth}
use cage_agent_security.Delegation.Store.{DelegationStore}

abbrev pub States : Type 0
States = Dict String DelegationRuntimeState

-- The capacity check of one grant of the chain.
unfoldable pub has_capacity : DelegationGrant → Option DelegationRuntimeState → Bool
has_capacity g none = false
has_capacity g (some state) =
    if not (state.status == DelegationStatus.active)
    then false
    else if leb g.max_actions state.actions_executed_count
    then false
    else true

-- The first loop of `reserve_action_dispatch`.
unfoldable pub all_have_capacity : States → List DelegationGrant → Bool
all_have_capacity d [] = true
all_have_capacity d (g ∷ gs) =
    if has_capacity g (get d g.delegation_id) then all_have_capacity d gs else false

-- One slot consumed.
unfoldable pub consumed : ℕ → ℕ → DelegationRuntimeState → DelegationRuntimeState
consumed now count state = record state {
  actions_executed_count = state.actions_executed_count + count;
  last_action_at = some now;
  state_version = state.state_version + 1;
}

-- The second loop, whose `self._runtime_states[...]` raises on a missing key.
unfoldable pub consume_slots : ℕ → States → List DelegationGrant → Result (Unit {0}) × States
consume_slots now d [] = (ok tt, d)
consume_slots now d (g ∷ gs) = elim (get d g.delegation_id) [
  | none ↦ (err (key_error g.delegation_id), d)
  | some state ↦ consume_slots now (put d g.delegation_id (consumed now 1 state)) gs
]

after_consuming : DelegationStore → Result (Unit {0}) × States → Result Bool × DelegationStore
after_consuming s (ok _, d) = (ok true, record s { runtime_states = d })
after_consuming s (err e, d) = (err e, record s { runtime_states = d })

pub reserve_on : DelegationStore → ℕ → Result (List DelegationGrant) → Result Bool × DelegationStore
reserve_on s now (err e) = (err e, s)
reserve_on s now (ok []) = (ok false, s)
reserve_on s now (ok (g ∷ gs)) =
    if all_have_capacity s.runtime_states (g ∷ gs)
    then after_consuming s (consume_slots now s.runtime_states (g ∷ gs))
    else (ok false, s)

unfoldable pub reserve_action_dispatch :
    DelegationStore → String → ℕ → Result Bool × DelegationStore
unfolding reserve_on after_consuming
reserve_action_dispatch s id now = reserve_on s now (get_chain s.grants id default_max_depth)

-- The loop of `refund_action_dispatch`.
unfoldable pub refunded : DelegationRuntimeState → DelegationRuntimeState
refunded state =
    if ltb 0 state.actions_executed_count
    then record state {
      actions_executed_count = state.actions_executed_count - 1;
      state_version = state.state_version + 1;
    }
    else state

unfoldable pub refund_slots : States → List DelegationGrant → States
refund_slots d [] = d
refund_slots d (g ∷ gs) = elim (get d g.delegation_id) [
  | none ↦ refund_slots d gs
  | some state ↦ refund_slots (put d g.delegation_id (refunded state)) gs
]

pub refund_on :
    DelegationStore → Result (List DelegationGrant) → Result (Unit {0}) × DelegationStore
refund_on s (err e) = (err e, s)
refund_on s (ok gs) = (ok tt, record s { runtime_states = refund_slots s.runtime_states gs })

unfoldable pub refund_action_dispatch :
    DelegationStore → String → Result (Unit {0}) × DelegationStore
unfolding refund_on
refund_action_dispatch s id = refund_on s (get_chain s.grants id default_max_depth)

-- The loop of `record_dispatch`.
unfoldable pub record_slots : ℕ → ℕ → States → List DelegationGrant → States
record_slots now count d [] = d
record_slots now count d (g ∷ gs) = elim (get d g.delegation_id) [
  | none ↦ record_slots now count d gs
  | some state ↦ record_slots now count (put d g.delegation_id (consumed now count state)) gs
]

pub record_on :
    DelegationStore → ℕ → ℕ → Result (List DelegationGrant) → Result Bool × DelegationStore
record_on s now count (err e) = (err e, s)
record_on s now count (ok []) = (ok false, s)
record_on s now count (ok (g ∷ gs)) =
    (ok true, record s { runtime_states = record_slots now count s.runtime_states (g ∷ gs) })

unfoldable pub record_dispatch : DelegationStore → String → ℕ → ℕ → Result Bool × DelegationStore
unfolding record_on
record_dispatch s id count now = record_on s now count (get_chain s.grants id default_max_depth)
