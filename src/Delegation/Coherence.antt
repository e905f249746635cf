-- ===== src/Delegation/Coherence.antt =====
-- The analyzer's verdict against the store: backend/app/delegation/analyzer.py decides by a snapshot
-- of the chain, and backend/app/delegation/store.py reserves on the live one.
use mathlib.Core.Path.{subst}
use cage_agent_security.Prelude.{
  ℕ, ◌≡◌, ◌≢◌, refl, ap, inl, inr, true, String, some, List, [], ◌∷◌, ◌++◌, arith,
}
use cage_agent_security.Prelude.Tests.{Option-cases}
use cage_agent_security.Prelude.Lists.{All, length, length-append}
use cage_agent_security.Prelude.Dict.{get}
use cage_agent_security.Prelude.Eq.{string_eq}
use cage_agent_security.Enums.{EffectiveDelegationStatus}
use cage_agent_security.Intent.{IntentContract}
use cage_agent_security.Delegation.Models.{DelegationGrant, DelegationRuntimeState}
use cage_agent_security.Delegation.Chain.{Result, ok, err, get_chain, default_max_depth}
use cage_agent_security.Delegation.Chain.Lineage.{get_chain-stored}
use cage_agent_security.Delegation.Store.{
  DelegationStore, states_of, with_states, get_chain_with_states,
}
use cage_agent_security.Delegation.Dispatch.{States, reserve_action_dispatch}
use cage_agent_security.Delegation.Dispatch.Reserve.{HasSlot, reserve_granted_iff}
use cage_agent_security.Delegation.Lifecycle.{Valid}
use cage_agent_security.Delegation.Analyzer.{compute_effective_status}
use cage_agent_security.Delegation.Analyzer.Status.{IsLive, AllLive, effective_status_iff}

live_join :
    (now : ℕ) (gs : List DelegationGrant) (states : List DelegationRuntimeState)
    (g : DelegationGrant) (st : DelegationRuntimeState)
    → length gs ≡ length states
    → AllLive now gs states
    → IsLive now g st
    → AllLive now (gs ++ g ∷ []) (states ++ st ∷ [])
live_join now [] [] g st h all own = (own, tt)
live_join now [] (x ∷ states) g st h all own = absurd (omega arith)
live_join now (x ∷ gs) [] g st h all own = absurd (omega arith)
live_join now (x ∷ gs) (y ∷ states) g st h all own =
    (all.0, live_join now gs states g st (omega arith) all.1 own)

length-states_of : (d : States) (gs : List DelegationGrant) → length (states_of d gs) ≡ length gs
unfolding states_of
length-states_of d [] = refl
length-states_of d (g ∷ gs) = omega (arith, length-states_of d gs)

-- The states of a chain that is live are the stored ones.
live_slots :
    (s : DelegationStore) (now : ℕ) (gs : List DelegationGrant)
    → Valid s
    → All (λ g. get s.grants g.delegation_id ≡ some g) gs
    → AllLive now gs (states_of s.runtime_states gs)
    → All (HasSlot s.runtime_states) gs
unfolding states_of
live_slots s now [] v stored live = tt
live_slots s now (g ∷ gs) v stored live =
    elim (Option-cases (get s.runtime_states g.delegation_id)) [
      | inl missing ↦ absurd (ground (arith, v.stated g.delegation_id g stored.0))
      | inr (st, found) ↦
          let own = live.0 in
          (
            (st, found, ground (arith, own.active), ground (arith, own.in_budget)),
            live_slots s now gs v stored.1 live.1,
          )
    ]

append-ne-nil : (gs : List DelegationGrant) (g : DelegationGrant) → (gs ++ g ∷ []) ≢ []
append-ne-nil [] g = λ e. cc
append-ne-nil (x ∷ gs) g = λ e. cc

with_states-eq-ok :
    (s : DelegationStore) (r : Result (List DelegationGrant)) (c : List DelegationGrant)
    (sts : List DelegationRuntimeState)
    → with_states s r ≡ ok (c, sts)
    → (r ≡ ok c) × (sts ≡ states_of s.runtime_states c)
unfolding with_states
with_states-eq-ok s (ok gs) c sts h = (ground arith, ground arith)
with_states-eq-ok s (err e) c sts h = absurd (cc)

-- If the chain of a grant is read with its states, and the analyzer finds the grant's effective
-- status ACTIVE on it, then a reservation on the same store is granted: the analyzer never declares
-- ACTIVE what the store's own capacity check would refuse.
pub active_status_reserves :
    (s : DelegationStore) (id : String) (now later : ℕ) (root : IntentContract)
    (ancestors : List DelegationGrant) (g : DelegationGrant)
    (ancestor_states : List DelegationRuntimeState) (st : DelegationRuntimeState)
    → Valid s
    → get_chain_with_states s id default_max_depth
      ≡ ok (ancestors ++ g ∷ [], ancestor_states ++ st ∷ [])
    → compute_effective_status g st ancestors ancestor_states root now
      ≡ EffectiveDelegationStatus.active
    → (reserve_action_dispatch s id later).0 ≡ ok true
unfolding get_chain_with_states
active_status_reserves s id now later root ancestors g ancestor_states st v read status =
    let c = ancestors ++ g ∷ [] in
    let (returned, eq) =
      with_states-eq-ok s (get_chain s.grants id default_max_depth) c (ancestor_states ++ st ∷ [])
        read in
    let (_, above, own) = (effective_status_iff g st ancestors ancestor_states root now).0 status in
    let same : length ancestors ≡ length ancestor_states = omega (
      arith,
      ap length eq,
      length-states_of s.runtime_states c,
      length-append ancestors (g ∷ []),
      length-append ancestor_states (st ∷ []),
    ) in
    let live =
      subst (AllLive now c) eq (live_join now ancestors ancestor_states g st same above own) in
    let stored = get_chain-stored s.grants id default_max_depth c v.keyed returned in
    (reserve_granted_iff s id later v.keyed).1
      (c, returned, append-ne-nil ancestors g, live_slots s now c v stored live)
