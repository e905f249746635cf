-- ===== src/Delegation/Lifecycle/Effects.antt =====
-- What each mutating method of backend/app/delegation/store.py does to one state: it leaves it, or
-- applies one function to it.
use mathlib.Core.Option
use text.Mathlib.TextEquality.{eq_iff}
use cage_agent_security.Prelude.{
  ℕ, ◌+◌, ◌≡◌, ◌⊎◌, refl, ap, inl, inr, Bool, true, false, ◌||◌, String, Option, some, List, [],
  ◌∷◌, arith,
}
use cage_agent_security.Prelude.Tests.{if◌then◌else◌, Option-cases, Bool-cases}
use cage_agent_security.Prelude.Dict.{get, put, get-put}
use cage_agent_security.Prelude.Eq.{◌==◌, string_eq}
use cage_agent_security.Enums.{DelegationStatus}
use cage_agent_security.Enums.Same.{delegation_status_eq}
use cage_agent_security.Delegation.Models.{DelegationGrant, DelegationRuntimeState}
use cage_agent_security.Delegation.Chain.{Result, ok, err, get_chain, default_max_depth}
use cage_agent_security.Delegation.Chain.Lineage.{WellKeyed, Distinct-get_chain}
use cage_agent_security.Delegation.Store.{DelegationStore, revoke, close}
use cage_agent_security.Delegation.Dispatch.{
  consumed, refunded, reserve_action_dispatch, refund_action_dispatch, refund_on, record_dispatch,
  record_on,
}
use cage_agent_security.Delegation.Dispatch.Slots.{refund_slots_lem, record_slots_lem}
use cage_agent_security.Delegation.Dispatch.Reserve.{reserve_atomic}

-- The grants stay, and every state stays or is changed by `f`.
pub record Touches (f : DelegationRuntimeState → DelegationRuntimeState) (s s' : DelegationStore)
    : Type 0 where
  pub grants : s'.grants ≡ s.grants
  pub states :
      (j : String)
      → (get s'.runtime_states j ≡ get s.runtime_states j)
        ⊎ (get s'.runtime_states j ≡ Option.map f (get s.runtime_states j))

pub Touches-refl :
    (f : DelegationRuntimeState → DelegationRuntimeState) (s : DelegationStore) → Touches f s s
Touches-refl f s = record { grants = refl; states = λ j. inl refl }

-- A value that replaces `f st` under one id.
Touches-put :
    (f : DelegationRuntimeState → DelegationRuntimeState) (s : DelegationStore) (id : String)
    (st : DelegationRuntimeState)
    → get s.runtime_states id ≡ some st
    → Touches f s (record s { runtime_states = put s.runtime_states id (f st) })
Touches-put f s id st e = record {
  grants = refl;
  states = λ j. elim (Bool-cases (id == j)) [
    | inl same ↦ inr (rw (get-put, same) (ground (arith, eq_iff id j)))
    | inr other ↦ inl (rw (get-put, other))
  ];
}

abbrev pub mark_revoked :
    String → Option String → ℕ → DelegationRuntimeState → DelegationRuntimeState
mark_revoked principal reason now st = record st {
  status = DelegationStatus.revoked;
  revoked_at = some now;
  revoked_by_principal_id = some principal;
  revocation_reason = reason;
  state_version = st.state_version + 1;
}

abbrev pub mark_closed : String → ℕ → DelegationRuntimeState → DelegationRuntimeState
mark_closed agent now st =
    if st.status == DelegationStatus.revoked || st.status == DelegationStatus.closed
    then st
    else record st {
      status = DelegationStatus.closed;
      closed_at = some now;
      closed_by_agent_id = some agent;
      state_version = st.state_version + 1;
    }

pub revoke-Touches :
    (s : DelegationStore) (id principal : String) (reason : Option String) (now : ℕ)
    → Touches (mark_revoked principal reason now) s (revoke s id principal reason now).1
unfolding revoke
revoke-Touches s id principal reason now = elim (Option-cases (get s.runtime_states id)) [
  | inl e ↦ rw (e, revoke) (Touches-refl _ s)
  | inr (st, e) ↦ elim (Bool-cases (st.status == DelegationStatus.revoked)) [
    | inl again ↦ rw (e, revoke, again) (Touches-refl _ s)
    | inr first ↦ rw (e, revoke, first) (Touches-put (mark_revoked principal reason now) s id st e)
  ]
]

-- A state that `close` changes is neither revoked nor closed.
mark_closed_open :
    (agent : String) (now : ℕ) (st : DelegationRuntimeState)
    → (st.status == DelegationStatus.revoked || st.status == DelegationStatus.closed) ≡ false
    → mark_closed agent now st ≡ record st {
      status = DelegationStatus.closed;
      closed_at = some now;
      closed_by_agent_id = some agent;
      state_version = st.state_version + 1;
    }
mark_closed_open agent now st h = rw h

pub close-Touches :
    (s : DelegationStore) (id agent : String) (now : ℕ)
    → Touches (mark_closed agent now) s (close s id agent now).1
unfolding close
close-Touches s id agent now = elim (Option-cases (get s.runtime_states id)) [
  | inl e ↦ rw (e, close) (Touches-refl _ s)
  | inr (st, e) ↦
      elim (Bool-cases
        (st.status == DelegationStatus.revoked || st.status == DelegationStatus.closed)) [
          | inl again ↦ rw (e, close, again) (Touches-refl _ s)
          | inr first ↦
              rw (e, close, first, ← mark_closed_open agent now st first)
                (Touches-put (mark_closed agent now) s id st e)
        ]
]

if_touch :
    (f : DelegationRuntimeState → DelegationRuntimeState) (b : Bool)
    (x o : Option DelegationRuntimeState)
    → x ≡ (if b then Option.map f o else o)
    → (x ≡ o) ⊎ (x ≡ Option.map f o)
if_touch f true x o h = inr h
if_touch f false x o h = inl h

pub reserve-Touches :
    (s : DelegationStore) (id : String) (now : ℕ)
    → WellKeyed s.grants
    → Touches (consumed now 1) s (reserve_action_dispatch s id now).1
reserve-Touches s id now keyed = elim (reserve_atomic s id now keyed) [
  | inl (_, done) ↦ record {
    grants = ap (λ (x : DelegationStore). x.grants) done.frame;
    states = λ j. if_touch (consumed now 1) _ _ _ (done.effect j);
  }
  | inr (_, same) ↦ rw same (Touches-refl _ s)
]

refund_on-Touches :
    (s : DelegationStore) (id : String) (r : Result (List DelegationGrant))
    → WellKeyed s.grants
    → get_chain s.grants id default_max_depth ≡ r
    → Touches refunded s (refund_on s r).1
unfolding refund_action_dispatch
refund_on-Touches s id (err x) keyed e = Touches-refl _ s
refund_on-Touches s id (ok gs) keyed e = record {
  grants = refl;
  states = λ j. if_touch refunded _ _ _ (
      refund_slots_lem s.runtime_states gs j
        (Distinct-get_chain s.grants id default_max_depth gs keyed e));
}

pub refund-Touches :
    (s : DelegationStore) (id : String)
    → WellKeyed s.grants
    → Touches refunded s (refund_action_dispatch s id).1
unfolding refund_action_dispatch
refund-Touches s id keyed =
    refund_on-Touches s id (get_chain s.grants id default_max_depth) keyed refl

record_on-Touches :
    (s : DelegationStore) (id : String) (count now : ℕ) (r : Result (List DelegationGrant))
    → WellKeyed s.grants
    → get_chain s.grants id default_max_depth ≡ r
    → Touches (consumed now count) s (record_on s now count r).1
unfolding record_dispatch
record_on-Touches s id count now (err x) keyed e = Touches-refl _ s
record_on-Touches s id count now (ok []) keyed e = Touches-refl _ s
record_on-Touches s id count now (ok (g ∷ gs)) keyed e = record {
  grants = refl;
  states = λ j. if_touch (consumed now count) _ _ _ (
      record_slots_lem now count s.runtime_states (g ∷ gs) j
        (Distinct-get_chain s.grants id default_max_depth (g ∷ gs) keyed e));
}

pub record-Touches :
    (s : DelegationStore) (id : String) (count now : ℕ)
    → WellKeyed s.grants
    → Touches (consumed now count) s (record_dispatch s id count now).1
unfolding record_dispatch
record-Touches s id count now keyed =
    record_on-Touches s id count now (get_chain s.grants id default_max_depth) keyed refl
