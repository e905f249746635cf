-- ===== src/Delegation/Store.antt =====
-- backend/app/delegation/store.py. The lock makes each method one step; a method returns its result
-- beside the store that it leaves, so that a raise shows what was written before it.
use mathlib.Core.Option.{get_or}
use cage_agent_security.Prelude.{
  ℕ, ◌+◌, ◌-◌, Bool, true, false, String, Option, none, some, List, [], ◌∷◌, ◌++◌, ◌||◌,
}
use cage_agent_security.Prelude.Tests.{if◌then◌else◌, is_some}
use cage_agent_security.Prelude.Eq.{◌==◌, string_eq}
use cage_agent_security.Prelude.Dict.{Dict, get, put}
use cage_agent_security.Enums.{DelegationStatus}
use cage_agent_security.Enums.Same.{delegation_status_eq}
use cage_agent_security.Delegation.Models.{DelegationGrant, DelegationRuntimeState, fresh_state}
use cage_agent_security.Delegation.Chain
use cage_agent_security.Delegation.Chain.{
  Result, ok, err, StoreError, already_exists, key_error, default_max_depth,
}

pub record DelegationStore : Type 0 where
  pub grants : Dict String DelegationGrant
  pub runtime_states : Dict String DelegationRuntimeState
  pub children_by_parent : Dict String (List String)
  pub grants_by_session : Dict String (List String)
  pub grants_by_delegatee : Dict String (List String)
  pub grants_by_root_intent : Dict String (List String)

-- `__init__`, and what `clear` leaves.
abbrev pub empty_store : DelegationStore
empty_store = record {
  grants = [];
  runtime_states = [];
  children_by_parent = [];
  grants_by_session = [];
  grants_by_delegatee = [];
  grants_by_root_intent = [];
}

unfoldable pub clear : DelegationStore → DelegationStore
clear s = empty_store

-- `index.get(key, [])`
abbrev pub indexed : Dict String (List String) → String → List String
indexed index key = get_or (get index key) []

-- `index.setdefault(key, []).append(id)`
unfoldable pub append_to : Dict String (List String) → String → String → Dict String (List String)
append_to index key id = put index key (indexed index key ++ id ∷ [])

index_child : Dict String (List String) → Option String → String → Dict String (List String)
index_child index none id = index
index_child index (some parent) id = append_to index parent id

unfoldable pub insert_grant :
    DelegationStore → DelegationGrant → Option DelegationRuntimeState → DelegationStore
unfolding append_to index_child
insert_grant s grant initial = record {
  grants = put s.grants grant.delegation_id grant;
  runtime_states =
      put s.runtime_states grant.delegation_id (get_or initial (fresh_state grant.delegation_id));
  children_by_parent =
      index_child s.children_by_parent grant.parent_delegation_id grant.delegation_id;
  grants_by_session = append_to s.grants_by_session grant.session_id grant.delegation_id;
  grants_by_delegatee =
      append_to s.grants_by_delegatee grant.delegatee_agent_id grant.delegation_id;
  grants_by_root_intent =
      append_to s.grants_by_root_intent grant.root_intent_id grant.delegation_id;
}

unfoldable pub create_grant :
    DelegationStore
    → DelegationGrant
    → Option DelegationRuntimeState
    → Result DelegationGrant × DelegationStore
unfolding insert_grant
create_grant s grant initial =
    if is_some (get s.grants grant.delegation_id)
    then (err (already_exists grant.delegation_id), s)
    else (ok grant, insert_grant s grant initial)

unfoldable pub get_grant : DelegationStore → String → Option DelegationGrant
get_grant s id = get s.grants id

-- The copy that is returned cannot be told from the state.
unfoldable pub get_runtime_state : DelegationStore → String → Option DelegationRuntimeState
get_runtime_state s id = get s.runtime_states id

unfoldable pub states_of :
    Dict String DelegationRuntimeState → List DelegationGrant → List DelegationRuntimeState
states_of d [] = []
states_of d (g ∷ gs) = get_or (get d g.delegation_id) (fresh_state g.delegation_id) ∷ states_of d gs

unfoldable pub with_states :
    DelegationStore
    → Result (List DelegationGrant)
    → Result (List DelegationGrant × List DelegationRuntimeState)
with_states s (ok grants) = ok (grants, states_of s.runtime_states grants)
with_states s (err e) = err e

unfoldable pub get_chain_with_states :
    DelegationStore → String → ℕ → Result (List DelegationGrant × List DelegationRuntimeState)
unfolding with_states states_of
get_chain_with_states s id max_depth = with_states s (Chain.get_chain s.grants id max_depth)

-- `[self._grants[i] for i in ids if i in self._grants]`
unfoldable pub known_grants : Dict String DelegationGrant → List String → List DelegationGrant
known_grants d [] = []
known_grants d (i ∷ ids) = elim (get d i) [
  | none ↦ known_grants d ids
  | some g ↦ g ∷ known_grants d ids
]

module _ (s : DelegationStore) (key : String) where
  unfoldable pub get_children : List DelegationGrant
  get_children = known_grants s.grants (indexed s.children_by_parent key)

  unfoldable pub get_grants_by_session : List DelegationGrant
  get_grants_by_session = known_grants s.grants (indexed s.grants_by_session key)

  unfoldable pub get_grants_by_delegatee : List DelegationGrant
  get_grants_by_delegatee = known_grants s.grants (indexed s.grants_by_delegatee key)

  unfoldable pub get_grants_by_root_intent : List DelegationGrant
  get_grants_by_root_intent = known_grants s.grants (indexed s.grants_by_root_intent key)

-- One state written back.
abbrev pub set_state : DelegationStore → String → DelegationRuntimeState → DelegationStore
set_state s id state = record s { runtime_states = put s.runtime_states id state }

unfoldable pub revoke :
    DelegationStore → String → String → Option String → ℕ → Bool × DelegationStore
revoke s id revoked_by_principal_id reason now = elim (get s.runtime_states id) [
  | none ↦ (false, s)
  | some state ↦ if state.status == DelegationStatus.revoked then (true, s) else (
    true,
    set_state s id (record state {
      status = DelegationStatus.revoked;
      revoked_at = some now;
      revoked_by_principal_id = some revoked_by_principal_id;
      revocation_reason = reason;
      state_version = state.state_version + 1;
    }),
  )
]

unfoldable pub close : DelegationStore → String → String → ℕ → Bool × DelegationStore
close s id closed_by_agent_id now = elim (get s.runtime_states id) [
  | none ↦ (false, s)
  | some state ↦
      if state.status == DelegationStatus.revoked || state.status == DelegationStatus.closed
      then (true, s)
      else (
        true,
        set_state s id (record state {
          status = DelegationStatus.closed;
          closed_at = some now;
          closed_by_agent_id = some closed_by_agent_id;
          state_version = state.state_version + 1;
        }),
      )
]

counts_active : Option DelegationRuntimeState → ℕ
counts_active none = 0
counts_active (some state) = if state.status == DelegationStatus.active then 1 else 0

count_active : Dict String DelegationRuntimeState → List String → ℕ
unfolding counts_active
count_active d [] = 0
count_active d (i ∷ ids) = counts_active (get d i) + count_active d ids

unfoldable pub get_session_active_grant_count : DelegationStore → String → ℕ
unfolding count_active
get_session_active_grant_count s session_id =
    count_active s.runtime_states (indexed s.grants_by_session session_id)

unfoldable pub remaining_budget : DelegationStore → String → ℕ
remaining_budget s id = elim (get s.grants id) [
  | none ↦ 0
  | some grant ↦ elim (get s.runtime_states id) [
    | none ↦ 0
    | some state ↦ grant.max_actions - state.actions_executed_count
  ]
]
