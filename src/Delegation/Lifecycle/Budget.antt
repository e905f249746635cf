-- ===== src/Delegation/Lifecycle/Budget.antt =====
-- The budget invariant of backend/app/delegation/store.py over every run of the metered methods.
use mathlib.Core.Option
use mathlib.Core.Path.{subst}
use native.Mathlib.Nat.{le_trans}
use text.Mathlib.TextEquality.{eq_iff}
use cage_agent_security.Prelude.{
  ℕ, ◌≤◌, ◌<◌, ◌≡◌, ◌⊎◌, ◌∙◌, refl, sym, ap, inl, inr, true, String, Option, none, some, List, [],
  ◌∷◌, arith,
}
use cage_agent_security.Prelude.Tests.{is_some, Bool-cases}
use cage_agent_security.Prelude.Lists.{All}
use cage_agent_security.Prelude.Dict.{get, get-put}
use cage_agent_security.Prelude.Eq.{◌==◌, contains, string_eq}
use cage_agent_security.Delegation.Models.{DelegationGrant, DelegationRuntimeState, fresh_state}
use cage_agent_security.Delegation.Chain.{default_max_depth}
use cage_agent_security.Delegation.Chain.Lineage.{WellKeyed, ids, get_chain-stored}
use cage_agent_security.Delegation.Store.{DelegationStore, empty_store, create_grant}
use cage_agent_security.Delegation.Dispatch.{consumed, refunded, reserve_action_dispatch}
use cage_agent_security.Delegation.Dispatch.Reserve.{HasSlot, reserve_atomic}
use cage_agent_security.Delegation.Lifecycle.{
  Starts, StoreStep, create, revoked, closed, reserve, refund, AnyStep, metered, recorded, Reach,
  here, next, Valid, WithinBudget,
}
use cage_agent_security.Delegation.Lifecycle.Effects.{
  Touches, mark_revoked, mark_closed, revoke-Touches, close-Touches, reserve-Touches,
  refund-Touches, record-Touches,
}

-- Well-formedness says nothing of the counts, so any change of the states keeps it.
map-some :
    (f : DelegationRuntimeState → DelegationRuntimeState) (o x : Option DelegationRuntimeState)
    (st : DelegationRuntimeState)
    → x ≡ some st
    → (x ≡ o) ⊎ (x ≡ Option.map f o)
    → (st0 : DelegationRuntimeState) × (o ≡ some st0) × ((st ≡ st0) ⊎ (st ≡ f st0))
map-some f none x st e (inl h) = absurd (cc)
map-some f none x st e (inr h) = absurd (cc)
map-some f (some st0) x st e (inl h) = (st0, refl, inl (ground arith))
map-some f (some st0) x st e (inr h) = (st0, refl, inr (ground arith))

stated-touched :
    (f : DelegationRuntimeState → DelegationRuntimeState) (o x : Option DelegationRuntimeState)
    → is_some o ≡ true
    → (x ≡ o) ⊎ (x ≡ Option.map f o)
    → is_some x ≡ true
stated-touched f none x h t = cc
stated-touched f (some st) x h t = ground arith

Touches-Valid :
    (f : DelegationRuntimeState → DelegationRuntimeState) (s s' : DelegationStore)
    → Touches f s s'
    → Valid s
    → Valid s'
Touches-Valid f s s' t v = record {
  keyed = subst WellKeyed (sym t.grants) v.keyed;
  owned = λ id st e.
      let (st0, e0, _) = map-some f (get s.runtime_states id) _ st e (t.states id) in
      subst (λ d. is_some (get d id) ≡ true) (sym t.grants) (v.owned id st0 e0);
  stated = λ id g e.
      stated-touched f (get s.runtime_states id) _
        (v.stated id g (ap (λ d. get d id) (sym t.grants) ∙ e)) (t.states id);
}

create-Valid :
    (s : DelegationStore) (g : DelegationGrant) (initial : Option DelegationRuntimeState)
    → Valid s
    → Valid (create_grant s g initial).1
unfolding create_grant
create-Valid s g initial v = elim (Bool-cases (is_some (get s.grants g.delegation_id))) [
  | inl old ↦ rw old v
  | inr new ↦ rw new (record {
    keyed = λ id h e.
        ground
          (arith, get-put s.grants g.delegation_id id g, eq_iff g.delegation_id id, v.keyed id h);
    owned = λ id st e. ground (
      arith,
      get-put s.grants g.delegation_id id g,
      get-put s.runtime_states g.delegation_id id
          (Option.get_or initial (fresh_state g.delegation_id)),
      v.owned id st,
    );
    stated = λ id h e. ground (
      arith,
      get-put s.grants g.delegation_id id g,
      get-put s.runtime_states g.delegation_id id
          (Option.get_or initial (fresh_state g.delegation_id)),
      v.stated id h,
    );
  })
]

pub StoreStep-Valid : {s s' : DelegationStore} → StoreStep s s' → Valid s → Valid s'
StoreStep-Valid {s} (create g initial starts) v = create-Valid s g initial v
StoreStep-Valid {s} (revoked id principal reason now) v =
    Touches-Valid _ s _ (revoke-Touches s id principal reason now) v
StoreStep-Valid {s} (closed id agent now) v = Touches-Valid _ s _ (close-Touches s id agent now) v
StoreStep-Valid {s} (reserve id now) v = Touches-Valid _ s _ (reserve-Touches s id now v.keyed) v
StoreStep-Valid {s} (refund id) v = Touches-Valid _ s _ (refund-Touches s id v.keyed) v

pub AnyStep-Valid : {s s' : DelegationStore} → AnyStep s s' → Valid s → Valid s'
AnyStep-Valid (metered st) v = StoreStep-Valid st v
AnyStep-Valid {s} (recorded id count now) v =
    Touches-Valid _ s _ (record-Touches s id count now v.keyed) v

pub empty-Valid : Valid empty_store
unfolding get
empty-Valid = record {
  keyed = λ id g e. absurd (cc);
  owned = λ id st e. absurd (cc);
  stated = λ id g e. absurd (cc);
}

-- A change that never adds to a count keeps every count within its cap.
Touches-WithinBudget :
    (f : DelegationRuntimeState → DelegationRuntimeState) (s s' : DelegationStore)
    → ((st : DelegationRuntimeState) → (f st).actions_executed_count ≤ st.actions_executed_count)
    → Touches f s s'
    → WithinBudget s
    → WithinBudget s'
Touches-WithinBudget f s s' shrinks t w id g st eg es =
    let (st0, e0, how) = map-some f (get s.runtime_states id) _ st es (t.states id) in
    let bound = w id g st0 (ap (λ d. get d id) (sym t.grants) ∙ eg) e0 in
    elim how [ inl same ↦ rw same bound | inr changed ↦ rw changed (le_trans (shrinks st0) bound) ]

-- The slot of the stored grant with an id of the chain.
slot_at :
    (s : DelegationStore) (chain : List DelegationGrant) (id : String) (g : DelegationGrant)
    → All (HasSlot s.runtime_states) chain
    → All (λ h. get s.grants h.delegation_id ≡ some h) chain
    → contains (ids chain) id ≡ true
    → get s.grants id ≡ some g
    → (st : DelegationRuntimeState) × (get s.runtime_states id ≡ some st)
      × (st.actions_executed_count < g.max_actions)
unfolding contains
slot_at s [] id g slots stored c e = absurd (cc)
slot_at s (h ∷ chain) id g slots stored c e = elim (Bool-cases (h.delegation_id == id)) [
  | inl same ↦
      let eq = (eq_iff h.delegation_id id).0 same in
      let (st, found, _, lt) = slots.0 in
      (
        st,
        ap (get s.runtime_states) (sym eq) ∙ found,
        ground (arith, ap (get s.grants) eq, stored.0),
      )
  | inr other ↦ slot_at s chain id g slots.1 stored.1 (ground arith) e
]

reserve-WithinBudget :
    (s : DelegationStore) (id : String) (now : ℕ)
    → Valid s
    → WithinBudget s
    → WithinBudget (reserve_action_dispatch s id now).1
unfolding consumed
reserve-WithinBudget s id now v w j g st eg es = elim (reserve_atomic s id now v.keyed) [
  | inr (_, same) ↦
      w j g st (subst (λ x. get x.grants j ≡ some g) same eg)
        (subst (λ x. get x.runtime_states j ≡ some st) same es)
  | inl (_, done) ↦
      let eg' = subst (λ x. get x.grants j ≡ some g) done.frame eg in
      let stored =
        get_chain-stored s.grants id default_max_depth done.chain v.keyed done.returned in
      elim (Bool-cases (contains (ids done.chain) j)) [
        | inl member ↦
            let (st0, found, lt) = slot_at s done.chain j g done.slots stored member eg' in
            ground (arith, done.effect j)
        | inr other ↦ w j g st eg' (ground (arith, done.effect j))
      ]
]

Starts-le :
    (g : DelegationGrant) (initial : Option DelegationRuntimeState)
    → Starts g initial
    → (Option.get_or initial (fresh_state g.delegation_id)).actions_executed_count ≤ g.max_actions
Starts-le g none h = omega arith
Starts-le g (some st) h = h

create-WithinBudget :
    (s : DelegationStore) (g : DelegationGrant) (initial : Option DelegationRuntimeState)
    → Starts g initial
    → Valid s
    → WithinBudget s
    → WithinBudget (create_grant s g initial).1
unfolding create_grant
create-WithinBudget s g initial starts v w =
    elim (Bool-cases (is_some (get s.grants g.delegation_id))) [
      | inl old ↦ rw old w
      | inr new ↦ rw new (λ id h st eg es.
          let start = Option.get_or initial (fresh_state g.delegation_id) in
          ground (
            arith,
            get-put s.grants g.delegation_id id g,
            get-put s.runtime_states g.delegation_id id start,
            Starts-le g initial starts,
            w id h st,
          ))
    ]

revoked-le :
    (principal : String) (reason : Option String) (now : ℕ) (st : DelegationRuntimeState)
    → (mark_revoked principal reason now st).actions_executed_count ≤ st.actions_executed_count
revoked-le principal reason now st = omega arith

closed-le :
    (agent : String) (now : ℕ) (st : DelegationRuntimeState)
    → (mark_closed agent now st).actions_executed_count ≤ st.actions_executed_count
closed-le agent now st = ground arith

refunded-le :
    (st : DelegationRuntimeState) → (refunded st).actions_executed_count ≤ st.actions_executed_count
unfolding refunded
refunded-le st = ground arith

pub StoreStep-WithinBudget :
    {s s' : DelegationStore} → StoreStep s s' → Valid s → WithinBudget s → WithinBudget s'
StoreStep-WithinBudget {s} (create g initial starts) v w =
    create-WithinBudget s g initial starts v w
StoreStep-WithinBudget {s} (revoked id principal reason now) v w =
    Touches-WithinBudget _ s _ (revoked-le principal reason now)
      (revoke-Touches s id principal reason now) w
StoreStep-WithinBudget {s} (closed id agent now) v w =
    Touches-WithinBudget _ s _ (closed-le agent now) (close-Touches s id agent now) w
StoreStep-WithinBudget {s} (reserve id now) v w = reserve-WithinBudget s id now v w
StoreStep-WithinBudget {s} (refund id) v w =
    Touches-WithinBudget _ s _ refunded-le (refund-Touches s id v.keyed) w

Reach-sound :
    {s s' : DelegationStore} → Reach s s' → Valid s → WithinBudget s → Valid s' × WithinBudget s'
Reach-sound here v w = (v, w)
Reach-sound (next r st) v w =
    let (v', w') = Reach-sound r v w in (StoreStep-Valid st v', StoreStep-WithinBudget st v' w')

empty-WithinBudget : WithinBudget empty_store
unfolding get
empty-WithinBudget id g st eg es = cc

-- Whatever grants are created, revoked and closed and whatever slots are reserved and refunded, in
-- any order from the empty store, no grant has executed more actions than its own cap, and every
-- grant stands under its own id.
pub reachable-WithinBudget :
    (s : DelegationStore) → Reach empty_store s → WithinBudget s × WellKeyed s.grants
reachable-WithinBudget s r =
    let (v, w) = Reach-sound r empty-Valid empty-WithinBudget in (w, v.keyed)
