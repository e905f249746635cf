-- ===== src/Delegation/Lifecycle.antt =====
-- backend/app/delegation/store.py as a state machine: one step for each mutating method, whoever
-- calls it and in whatever order the lock lets them in.
pub mod Effects
pub mod Budget
pub mod Revocation
use cage_agent_security.Prelude.{ℕ, ◌≤◌, ◌≡◌, ◌⊎◌, Bool, true, String, Option, none, some}
use cage_agent_security.Prelude.Tests.{is_some}
use cage_agent_security.Prelude.Dict.{get}
use cage_agent_security.Prelude.Eq.{string_eq}
use cage_agent_security.Enums.{DelegationStatus}
use cage_agent_security.Delegation.Models.{DelegationGrant, DelegationRuntimeState}
use cage_agent_security.Delegation.Chain.Lineage.{WellKeyed}
use cage_agent_security.Delegation.Store.{DelegationStore, create_grant, revoke, close, clear}
use cage_agent_security.Delegation.Dispatch.{
  reserve_action_dispatch, refund_action_dispatch, record_dispatch,
}

-- An initial state that a caller passes starts within the cap of its grant.
abbrev pub Starts : DelegationGrant → Option DelegationRuntimeState → Type 0
Starts g none = Unit {0}
Starts g (some st) = st.actions_executed_count ≤ g.max_actions

pub data StoreStep (s : DelegationStore) : DelegationStore → Type 0 where
  create :
      (g : DelegationGrant) (initial : Option DelegationRuntimeState)
      → Starts g initial
      → StoreStep s (create_grant s g initial).1
  revoked :
      (id principal : String) (reason : Option String) (now : ℕ)
      → StoreStep s (revoke s id principal reason now).1
  closed : (id agent : String) (now : ℕ) → StoreStep s (close s id agent now).1
  reserve : (id : String) (now : ℕ) → StoreStep s (reserve_action_dispatch s id now).1
  refund : (id : String) → StoreStep s (refund_action_dispatch s id).1

-- A step of the metered interface, or a `record_dispatch`, which adds without a check.
pub data AnyStep (s : DelegationStore) : DelegationStore → Type 0 where
  metered : {s' : DelegationStore} → StoreStep s s' → AnyStep s s'
  recorded : (id : String) (count now : ℕ) → AnyStep s (record_dispatch s id count now).1

pub data Reach (s : DelegationStore) : DelegationStore → Type 0 where
  here : Reach s s
  next : {t u : DelegationStore} → Reach s t → StoreStep t u → Reach s u

pub data ReachAny (s : DelegationStore) : DelegationStore → Type 0 where
  here : ReachAny s s
  next : {t u : DelegationStore} → ReachAny s t → AnyStep t u → ReachAny s u

-- The store is well formed: a grant stands under its own id and has a state, and a state belongs to
-- a grant.
pub record Valid (s : DelegationStore) : Type 0 where
  pub keyed : WellKeyed s.grants
  pub owned :
      (id : String) (st : DelegationRuntimeState)
      → get s.runtime_states id ≡ some st
      → is_some (get s.grants id) ≡ true
  pub stated :
      (id : String) (g : DelegationGrant)
      → get s.grants id ≡ some g
      → is_some (get s.runtime_states id) ≡ true

-- No grant has executed more actions than its cap.
abbrev pub WithinBudget : DelegationStore → Type 0
WithinBudget s =
    (id : String) (g : DelegationGrant) (st : DelegationRuntimeState)
    → get s.grants id ≡ some g
    → get s.runtime_states id ≡ some st
    → st.actions_executed_count ≤ g.max_actions
