-- ===== src/Delegation/Dispatch/Reserve.antt =====
-- `reserve_action_dispatch` and `refund_action_dispatch` of backend/app/delegation/store.py as a
-- transaction over a grant and its ancestors.
use mathlib.Core.Option
use cage_agent_security.Prelude.{
  ℕ, ◌<◌, ◌≡◌, ◌≢◌, ◌⊎◌, ◌↔◌, refl, ap, ◌∙◌, inl, inr, true, String, Option, none, some, List, [],
  ◌∷◌, arith,
}
use cage_agent_security.Prelude.Tests.{if◌then◌else◌, Bool-cases}
use cage_agent_security.Prelude.Lists.{All}
use cage_agent_security.Prelude.Eq.{contains, string_eq}
use cage_agent_security.Prelude.Dict.{get}
use cage_agent_security.Enums.{DelegationStatus}
use cage_agent_security.Delegation.Models.{DelegationGrant, DelegationRuntimeState}
use cage_agent_security.Delegation.Chain.{Result, ok, err, get_chain, default_max_depth}
use cage_agent_security.Delegation.Chain.Lineage.{ids, Distinct, WellKeyed, Distinct-get_chain}
use cage_agent_security.Delegation.Store.{DelegationStore}
use cage_agent_security.Delegation.Dispatch.{
  States, has_capacity, all_have_capacity, consumed, consume_slots, refunded, refund_slots,
  reserve_on, after_consuming, reserve_action_dispatch, refund_action_dispatch,
}
use cage_agent_security.Delegation.Dispatch.Slots.{consume_slots_lem, refund_slots_lem}

-- The state of a grant is there, ACTIVE, and has a slot left.
abbrev pub HasSlot : States → DelegationGrant → Type 0
HasSlot d g =
    (st : DelegationRuntimeState) × (get d g.delegation_id ≡ some st)
    × (st.status ≡ DelegationStatus.active)
    × (st.actions_executed_count < g.max_actions)

capacity_slot :
    (g : DelegationGrant) (o : Option DelegationRuntimeState)
    → has_capacity g o ≡ true
    → (st : DelegationRuntimeState) × (o ≡ some st)
      × (st.status ≡ DelegationStatus.active)
      × (st.actions_executed_count < g.max_actions)
unfolding has_capacity
capacity_slot g none h = absurd (cc)
capacity_slot g (some st) h = (st, refl, ground arith, ground arith)

slot_capacity :
    (g : DelegationGrant) (o : Option DelegationRuntimeState) (st : DelegationRuntimeState)
    → o ≡ some st
    → st.status ≡ DelegationStatus.active
    → st.actions_executed_count < g.max_actions
    → has_capacity g o ≡ true
unfolding has_capacity
slot_capacity g none st e a lt = cc
slot_capacity g (some x) st e a lt = ground arith

pub all_have_capacity_iff :
    (d : States) (gs : List DelegationGrant) → (all_have_capacity d gs ≡ true) ↔ All (HasSlot d) gs
unfolding all_have_capacity
all_have_capacity_iff d [] = (λ _. tt, λ _. refl)
all_have_capacity_iff d (g ∷ gs) = (
  λ h. (
    capacity_slot g (get d g.delegation_id) (ground arith),
    (all_have_capacity_iff d gs).0 (ground arith),
  ),
  λ h.
      let (st, e, a, lt) = h.0 in
      let here = slot_capacity g (get d g.delegation_id) st e a lt in
      let there = (all_have_capacity_iff d gs).1 h.1 in ground arith,
)

-- A reservation that was granted: every grant of the chain had a slot, each of them lost one, and
-- nothing else changed.
pub record Reserved (s : DelegationStore) (id : String) (now : ℕ) (s' : DelegationStore)
    : Type 0 where
  pub chain : List DelegationGrant
  pub returned : get_chain s.grants id default_max_depth ≡ ok chain
  pub present : chain ≢ []
  pub slots : All (HasSlot s.runtime_states) chain
  pub effect :
      (j : String)
      → get s'.runtime_states j ≡ (
          if contains (ids chain) j
          then Option.map (consumed now 1) (get s.runtime_states j)
          else get s.runtime_states j)
  pub frame : s' ≡ record s { runtime_states = s'.runtime_states }

after_ok :
    (s : DelegationStore) (r : Result (Unit {0}) × States)
    → r.0 ≡ ok tt
    → after_consuming s r ≡ (ok true, record s { runtime_states = r.1 })
unfolding after_consuming
after_ok s (ok _, d) h = refl
after_ok s (err x, d) h = cc

reserve_on_cases :
    (s : DelegationStore) (id : String) (now : ℕ) (r : Result (List DelegationGrant))
    → WellKeyed s.grants
    → get_chain s.grants id default_max_depth ≡ r
    → (((reserve_on s now r).0 ≡ ok true) × Reserved s id now (reserve_on s now r).1)
      ⊎ (((reserve_on s now r).0 ≢ ok true) × ((reserve_on s now r).1 ≡ s))
unfolding reserve_action_dispatch
reserve_on_cases s id now (err x) keyed e = inr (λ p. cc, refl)
reserve_on_cases s id now (ok []) keyed e = inr (λ p. cc, refl)
reserve_on_cases s id now (ok (g ∷ gs)) keyed e =
    elim (Bool-cases (all_have_capacity s.runtime_states (g ∷ gs))) [
      | inl fits ↦
          let distinct = Distinct-get_chain s.grants id default_max_depth (g ∷ gs) keyed e in
          let (done, at) = consume_slots_lem now s.runtime_states (g ∷ gs) distinct fits in
          let result = consume_slots now s.runtime_states (g ∷ gs) in
          rw (fits, after_ok s result done)
            (inl (
              refl,
              record {
                chain = g ∷ gs;
                returned = e;
                present = λ p. cc;
                slots = (all_have_capacity_iff s.runtime_states (g ∷ gs)).0 fits;
                effect = at;
                frame = refl;
              },
            ))
      | inr full ↦ inr (rw full (λ p. cc), rw full)
    ]

-- A reservation is all or nothing. Either it is granted, and then exactly the states of the grant
-- and its ancestors lose one slot each; or it is refused or raises, and the store is as before.
pub reserve_atomic :
    (s : DelegationStore) (id : String) (now : ℕ)
    → WellKeyed s.grants
    → (((reserve_action_dispatch s id now).0 ≡ ok true)
        × Reserved s id now (reserve_action_dispatch s id now).1)
      ⊎ (((reserve_action_dispatch s id now).0 ≢ ok true)
          × ((reserve_action_dispatch s id now).1 ≡ s))
unfolding reserve_action_dispatch
reserve_atomic s id now keyed =
    reserve_on_cases s id now (get_chain s.grants id default_max_depth) keyed refl

-- The converse: what makes `reserve_on` grant.
reserve_on_grants :
    (s : DelegationStore) (now : ℕ) (chain : List DelegationGrant)
    → Distinct (ids chain)
    → chain ≢ []
    → All (HasSlot s.runtime_states) chain
    → (reserve_on s now (ok chain)).0 ≡ ok true
unfolding reserve_action_dispatch
reserve_on_grants s now [] distinct present slots = absurd (present refl)
reserve_on_grants s now (g ∷ gs) distinct present slots =
    let fits = (all_have_capacity_iff s.runtime_states (g ∷ gs)).1 slots in
    let (done, at) = consume_slots_lem now s.runtime_states (g ∷ gs) distinct fits in
    rw (fits, after_ok s (consume_slots now s.runtime_states (g ∷ gs)) done) refl

-- A reservation is granted exactly if the chain of the grant is returned, is not empty, and each of
-- its grants is ACTIVE with a slot left.
pub reserve_granted_iff :
    (s : DelegationStore) (id : String) (now : ℕ)
    → WellKeyed s.grants
    → ((reserve_action_dispatch s id now).0 ≡ ok true) ↔ (
        (chain : List DelegationGrant) × (get_chain s.grants id default_max_depth ≡ ok chain)
        × (chain ≢ [])
        × All (HasSlot s.runtime_states) chain)
unfolding reserve_action_dispatch
reserve_granted_iff s id now keyed = (
  λ h. elim (reserve_atomic s id now keyed) [
    | inl (_, done) ↦ (done.chain, done.returned, done.present, done.slots)
    | inr (no_, _) ↦ absurd (no_ h)
  ],
  λ (chain, returned, present, slots). rw returned (
      reserve_on_grants s now chain
        (Distinct-get_chain s.grants id default_max_depth chain keyed returned) present slots),
)

-- What a reservation counts.
abbrev pub usage : DelegationRuntimeState → DelegationStatus × ℕ
usage st = (st.status, st.actions_executed_count)

usage-refund-consume :
    (now : ℕ) (o : Option DelegationRuntimeState)
    → Option.map usage (Option.map refunded (Option.map (consumed now 1) o)) ≡ Option.map usage o
unfolding refunded consumed
usage-refund-consume now none = refl
usage-refund-consume now (some st) = ground arith

refund_on_chain :
    (s : DelegationStore) (id : String) (chain : List DelegationGrant)
    → get_chain s.grants id default_max_depth ≡ ok chain
    → refund_action_dispatch s id
      ≡ (ok tt, record s { runtime_states = refund_slots s.runtime_states chain })
unfolding refund_action_dispatch
refund_on_chain s id chain e = rw e

refund-Reserved :
    (s s' : DelegationStore) (id : String) (now : ℕ)
    → WellKeyed s.grants
    → Reserved s id now s'
    → ((refund_action_dispatch s' id).0 ≡ ok tt)
      × ((j : String)
          → Option.map usage (get (refund_action_dispatch s' id).1.runtime_states j)
            ≡ Option.map usage (get s.runtime_states j))
refund-Reserved s s' id now keyed done =
    let chain = done.chain in
    let same = ap (λ (x : DelegationStore). get_chain x.grants id default_max_depth) done.frame in
    let distinct = Distinct-get_chain s.grants id default_max_depth chain keyed done.returned in
    rw (refund_on_chain s' id chain (same ∙ done.returned)) (
      refl,
      λ j. ground (
        arith,
        refund_slots_lem s'.runtime_states chain j distinct,
        done.effect j,
        usage-refund-consume now (get s.runtime_states j),
      ),
    )

-- A refund undoes a granted reservation: every state has its status and its count back.
pub refund-reserve :
    (s : DelegationStore) (id : String) (now : ℕ)
    → WellKeyed s.grants
    → (reserve_action_dispatch s id now).0 ≡ ok true
    → ((refund_action_dispatch (reserve_action_dispatch s id now).1 id).0 ≡ ok tt)
      × ((j : String)
          → Option.map usage (
              get
                (refund_action_dispatch (reserve_action_dispatch s id now).1 id).1.runtime_states
                j)
            ≡ Option.map usage (get s.runtime_states j))
refund-reserve s id now keyed h = elim (reserve_atomic s id now keyed) [
  | inl (_, done) ↦ refund-Reserved s (reserve_action_dispatch s id now).1 id now keyed done
  | inr (no_, _) ↦ absurd (no_ h)
]
