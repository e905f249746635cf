-- ===== src/Delegation/Lifecycle/Revocation.antt =====
-- Revocation in backend/app/delegation/store.py: it is final, and it reaches every descendant.
use mathlib.Core.Option
use text.Mathlib.TextEquality.{eq_iff}
use cage_agent_security.Prelude.{
  ℕ, ◌≡◌, ◌≢◌, ◌∙◌, refl, ap, inl, inr, true, String, Option, some, List, [], ◌∷◌, arith,
}
use cage_agent_security.Prelude.Tests.{is_some, Bool-cases}
use cage_agent_security.Prelude.Lists.{All}
use cage_agent_security.Prelude.Dict.{get, get-put}
use cage_agent_security.Prelude.Eq.{◌==◌, contains, string_eq}
use cage_agent_security.Enums.{DelegationStatus}
use cage_agent_security.Delegation.Models.{DelegationGrant, DelegationRuntimeState, fresh_state}
use cage_agent_security.Delegation.Chain.{ok, get_chain, default_max_depth}
use cage_agent_security.Delegation.Chain.Lineage.{ids}
use cage_agent_security.Delegation.Store.{DelegationStore, create_grant}
use cage_agent_security.Delegation.Dispatch.{States, consumed, refunded, reserve_action_dispatch}
use cage_agent_security.Delegation.Dispatch.Reserve.{HasSlot, reserve_granted_iff}
use cage_agent_security.Delegation.Lifecycle.{
  create, revoked, closed, reserve, refund, AnyStep, metered, recorded, ReachAny, here, next, Valid,
}
use cage_agent_security.Delegation.Lifecycle.Effects.{
  Touches, revoke-Touches, close-Touches, reserve-Touches, refund-Touches, record-Touches,
}
use cage_agent_security.Delegation.Lifecycle.Budget.{AnyStep-Valid}

abbrev pub IsRevoked : DelegationStore → String → Type 0
IsRevoked s id =
    (st : DelegationRuntimeState) × (get s.runtime_states id ≡ some st)
    × (st.status ≡ DelegationStatus.revoked)

Touches-IsRevoked :
    (f : DelegationRuntimeState → DelegationRuntimeState) (s s' : DelegationStore) (id : String)
    → ((st : DelegationRuntimeState)
        → st.status ≡ DelegationStatus.revoked
        → (f st).status ≡ DelegationStatus.revoked)
    → Touches f s s'
    → IsRevoked s id
    → IsRevoked s' id
Touches-IsRevoked f s s' id keeps t (st, e, r) = elim (t.states id) [
  | inl same ↦ (st, same ∙ e, r)
  | inr changed ↦ (f st, changed ∙ ap (Option.map f) e, keeps st r)
]

-- A new grant does not take the id of a state that is there.
create-IsRevoked :
    (s : DelegationStore) (g : DelegationGrant) (initial : Option DelegationRuntimeState)
    (id : String)
    → Valid s
    → IsRevoked s id
    → IsRevoked (create_grant s g initial).1 id
unfolding create_grant
create-IsRevoked s g initial id v (st, e, r) =
    elim (Bool-cases (is_some (get s.grants g.delegation_id))) [
      | inl old ↦ rw old (st, e, r)
      | inr new ↦
          let there = v.owned id st e in
          let law =
            get-put s.runtime_states g.delegation_id id
              (Option.get_or initial (fresh_state g.delegation_id)) in
          rw new (st, ground (arith, law, eq_iff g.delegation_id id), r)
    ]

AnyStep-IsRevoked :
    {s s' : DelegationStore} (id : String)
    → AnyStep s s'
    → Valid s
    → IsRevoked s id
    → IsRevoked s' id
unfolding consumed refunded
AnyStep-IsRevoked {s} id (metered (create g initial starts)) v h =
    create-IsRevoked s g initial id v h
AnyStep-IsRevoked {s} id (metered (revoked j principal reason now)) v h =
    Touches-IsRevoked _ s _ id (λ st r. refl) (revoke-Touches s j principal reason now) h
AnyStep-IsRevoked {s} id (metered (closed j agent now)) v h =
    Touches-IsRevoked _ s _ id (λ st r. ground arith) (close-Touches s j agent now) h
AnyStep-IsRevoked {s} id (metered (reserve j now)) v h =
    Touches-IsRevoked _ s _ id (λ st r. r) (reserve-Touches s j now v.keyed) h
AnyStep-IsRevoked {s} id (metered (refund j)) v h =
    Touches-IsRevoked _ s _ id (λ st r. ground arith) (refund-Touches s j v.keyed) h
AnyStep-IsRevoked {s} id (recorded j count now) v h =
    Touches-IsRevoked _ s _ id (λ st r. r) (record-Touches s j count now v.keyed) h

ReachAny-IsRevoked :
    {s s' : DelegationStore} (id : String)
    → ReachAny s s'
    → Valid s
    → IsRevoked s id
    → Valid s' × IsRevoked s' id
ReachAny-IsRevoked id here v h = (v, h)
ReachAny-IsRevoked id (next r st) v h =
    let (v', h') = ReachAny-IsRevoked id r v h in
    (AnyStep-Valid st v', AnyStep-IsRevoked id st v' h')

-- A revoked grant has no slot.
no_slot :
    (d : States) (chain : List DelegationGrant) (id : String) (st : DelegationRuntimeState)
    → get d id ≡ some st
    → st.status ≡ DelegationStatus.revoked
    → contains (ids chain) id ≡ true
    → All (HasSlot d) chain
    → ⊥
unfolding contains
no_slot d [] id st e r c slots = cc
no_slot d (g ∷ chain) id st e r c slots = elim (Bool-cases (g.delegation_id == id)) [
  | inl same ↦
      let (st0, found, active, _) = slots.0 in
      ground (arith, ap (get d) ((eq_iff g.delegation_id id).0 same))
  | inr other ↦ no_slot d chain id st e r (ground arith) slots.1
]

-- Once a grant is revoked, then after any further calls, in any order, `record_dispatch` included,
-- no action is reserved for it or for any grant whose ancestor chain holds it.
pub revocation_cascades :
    (s s' : DelegationStore) (ancestor id : String) (now : ℕ) (chain : List DelegationGrant)
    → Valid s
    → IsRevoked s ancestor
    → ReachAny s s'
    → get_chain s'.grants id default_max_depth ≡ ok chain
    → contains (ids chain) ancestor ≡ true
    → (reserve_action_dispatch s' id now).0 ≢ ok true
revocation_cascades s s' ancestor id now chain v h r returned member = λ granted.
    let (v', (st, e, is_revoked)) = ReachAny-IsRevoked ancestor r v h in
    let (c, returned', _, slots) = (reserve_granted_iff s' id now v'.keyed).0 granted in
    no_slot s'.runtime_states c ancestor st e is_revoked (ground (arith)) slots
