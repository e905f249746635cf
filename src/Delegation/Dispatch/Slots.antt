-- ===== src/Delegation/Dispatch/Slots.antt =====
-- What the loops of the dispatch methods of backend/app/delegation/store.py do to each state.
use text.Mathlib.TextEquality.{eq_iff}
use mathlib.Core.Option
use cage_agent_security.Prelude.{
  ℕ, ◌≡◌, refl, ◌∙◌, inl, inr, true, false, String, Option, none, some, List, [], ◌∷◌, arith,
}
use cage_agent_security.Prelude.Tests.{if◌then◌else◌, Option-cases}
use cage_agent_security.Prelude.Eq.{contains, string_eq}
use cage_agent_security.Prelude.Dict.{get, put, get-put}
use cage_agent_security.Delegation.Models.{DelegationGrant, DelegationRuntimeState}
use cage_agent_security.Delegation.Chain.{ok}
use cage_agent_security.Delegation.Chain.Lineage.{ids, Distinct}
use cage_agent_security.Delegation.Dispatch.{
  States, has_capacity, all_have_capacity, consumed, consume_slots, refunded, refund_slots,
  record_slots,
}

capacity_frame :
    (d : States) (k : String) (v : DelegationRuntimeState) (gs : List DelegationGrant)
    → contains (ids gs) k ≡ false
    → all_have_capacity (put d k v) gs ≡ all_have_capacity d gs
unfolding all_have_capacity contains
capacity_frame d k v [] h = refl
capacity_frame d k v (g ∷ gs) h = ground (
  arith,
  get-put d k g.delegation_id v,
  eq_iff k g.delegation_id,
  eq_iff g.delegation_id k,
  capacity_frame d k v gs,
)

-- A passed check has found the state.
capacity_some :
    (g : DelegationGrant) (o : Option DelegationRuntimeState)
    → has_capacity g o ≡ true
    → (st : DelegationRuntimeState) × (o ≡ some st)
unfolding has_capacity
capacity_some g none h = absurd (cc)
capacity_some g (some st) h = (st, refl)

-- `consume_slots` finds every state that the check found, and consumes one slot of each grant of
-- the chain and of no other.
pub consume_slots_lem :
    (now : ℕ) (d : States) (gs : List DelegationGrant)
    → Distinct (ids gs)
    → all_have_capacity d gs ≡ true
    → ((consume_slots now d gs).0 ≡ ok tt)
      × ((j : String)
          → get (consume_slots now d gs).1 j
            ≡ (if contains (ids gs) j then Option.map (consumed now 1) (get d j) else get d j))
unfolding consume_slots contains all_have_capacity
consume_slots_lem now d [] distinct h = (refl, λ j. refl)
consume_slots_lem now d (g ∷ gs) distinct h =
    let (st, e) = capacity_some g (get d g.delegation_id) (ground arith) in
    let d' = put d g.delegation_id (consumed now 1 st) in
    let (done, at) =
      consume_slots_lem now d' gs distinct.1
        (capacity_frame d g.delegation_id (consumed now 1 st) gs distinct.0 ∙ ground arith) in
    (
      ground arith,
      λ j.
          ground (
            arith,
            at j,
            get-put d g.delegation_id j (consumed now 1 st),
            eq_iff g.delegation_id j,
          ),
    )

-- A refund acts on the state of each grant of the chain and of no other.
pub refund_slots_lem :
    (d : States) (gs : List DelegationGrant) (j : String)
    → Distinct (ids gs)
    → get (refund_slots d gs) j
      ≡ (if contains (ids gs) j then Option.map refunded (get d j) else get d j)
unfolding refund_slots contains
refund_slots_lem d [] j distinct = refl
refund_slots_lem d (g ∷ gs) j distinct = elim (Option-cases (get d g.delegation_id)) [
  | inl e ↦ ground (arith, refund_slots_lem d gs j distinct.1, eq_iff g.delegation_id j)
  | inr (st, e) ↦ ground (
    arith,
    refund_slots_lem (put d g.delegation_id (refunded st)) gs j distinct.1,
    get-put d g.delegation_id j (refunded st),
    eq_iff g.delegation_id j,
  )
]

-- So does a recorded dispatch.
pub record_slots_lem :
    (now count : ℕ) (d : States) (gs : List DelegationGrant) (j : String)
    → Distinct (ids gs)
    → get (record_slots now count d gs) j
      ≡ (if contains (ids gs) j then Option.map (consumed now count) (get d j) else get d j)
unfolding record_slots contains
record_slots_lem now count d [] j distinct = refl
record_slots_lem now count d (g ∷ gs) j distinct = elim (Option-cases (get d g.delegation_id)) [
  | inl e ↦ ground (arith, record_slots_lem now count d gs j distinct.1, eq_iff g.delegation_id j)
  | inr (st, e) ↦ ground (
    arith,
    record_slots_lem now count (put d g.delegation_id (consumed now count st)) gs j distinct.1,
    get-put d g.delegation_id j (consumed now count st),
    eq_iff g.delegation_id j,
  )
]
