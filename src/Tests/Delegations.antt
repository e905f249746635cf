-- ===== src/Tests/Delegations.antt =====
-- backend/app/delegation at concrete stores.
use mathlib.Core.Option
use cage_agent_security.Prelude.{
  ◌≡◌, ◌≢◌, ◌↔◌, ◌⊎◌, ◌++◌, refl, true, false, String, none, some, List, [], ◌∷◌,
}
use cage_agent_security.Prelude.Eq.{contains, issubset, intersection, string_eq}
use cage_agent_security.Prelude.Lists.{All}
use cage_agent_security.Prelude.Dict.{get, put}
use cage_agent_security.Enums.{
  AuthorityScopeMode, DataClassification, DelegationStatus, EffectiveDelegationStatus,
  TargetEnvironment,
}
use cage_agent_security.Authority.{
  is_allowed, allowlist_scope, from_intent, is_tool_allowed, is_resource_allowed,
  is_environment_allowed, is_classification_allowed,
}
use cage_agent_security.Delegation.Models.{DelegationGrant, fresh_state}
use cage_agent_security.Delegation.Chain.{ok, err, out_of_fuel, get_chain, default_max_depth}
use cage_agent_security.Delegation.Chain.Lineage.{
  IsChain, WellKeyed, get_chain_iff, get_chain-ne-out_of_fuel, ids,
}
use cage_agent_security.Delegation.Store.{
  DelegationStore, create_grant, revoke, get_chain_with_states,
}
use cage_agent_security.Delegation.Dispatch.{
  reserve_action_dispatch, refund_action_dispatch, consume_slots, all_have_capacity, has_capacity,
  consumed,
}
use cage_agent_security.Delegation.Dispatch.Reserve.{
  Reserved, HasSlot, usage, reserve_atomic, reserve_granted_iff, refund-reserve,
}
use cage_agent_security.Delegation.Lifecycle.{
  create, revoked, reserve, metered, here, next, Valid, WithinBudget,
}
use cage_agent_security.Delegation.Lifecycle.Budget.{
  StoreStep-Valid, empty-Valid, reachable-WithinBudget,
}
use cage_agent_security.Delegation.Lifecycle.Revocation.{IsRevoked, revocation_cascades}
use cage_agent_security.Delegation.Analyzer.{
  is_resource_scope_subset, compute_effective_status, compute_live_effective_authority,
  root_authority, narrow_by, narrow_through, intersect_resource_scopes, ancestors_verdict,
  target_verdict,
}
use cage_agent_security.Delegation.Analyzer.Scope.{Permits, live_authority_sound}
use cage_agent_security.Delegation.Analyzer.Status.{
  IsRootLive, AllLive, IsLive, effective_status_iff,
}
use cage_agent_security.Delegation.Coherence.{active_status_reserves}
use cage_agent_security.Tests.Sample.{contract, top_grant, sub_grant, two_grants}

two-Valid : Valid two_grants
two-Valid =
    StoreStep-Valid (create sub_grant none tt)
      (StoreStep-Valid (create top_grant none tt) empty-Valid)

chain_read : get_chain two_grants.grants "b" 25 ≡ ok (top_grant ∷ sub_grant ∷ [])
unfolding create_grant get put get_chain contains
chain_read = refl

get_chain_iff_example :
    (get_chain two_grants.grants "b" 25 ≡ ok (top_grant ∷ sub_grant ∷ []))
    ↔ IsChain two_grants.grants "b" 25 (top_grant ∷ sub_grant ∷ [])
get_chain_iff_example =
    get_chain_iff two_grants.grants "b" 25 (top_grant ∷ sub_grant ∷ []) two-Valid.keyed

get_chain-ne-out_of_fuel_example : get_chain two_grants.grants "b" 0 ≢ err out_of_fuel
get_chain-ne-out_of_fuel_example = get_chain-ne-out_of_fuel two_grants.grants "b" 0

reserve_atomic_example :
    (((reserve_action_dispatch two_grants "b" 7).0 ≡ ok true)
      × Reserved two_grants "b" 7 (reserve_action_dispatch two_grants "b" 7).1)
    ⊎ (((reserve_action_dispatch two_grants "b" 7).0 ≢ ok true)
        × ((reserve_action_dispatch two_grants "b" 7).1 ≡ two_grants))
reserve_atomic_example = reserve_atomic two_grants "b" 7 two-Valid.keyed

reserve_granted_iff_example : ((reserve_action_dispatch two_grants "b" 7).0 ≡ ok true) ↔ (
    (chain : List DelegationGrant) × (get_chain two_grants.grants "b" default_max_depth ≡ ok chain)
    × (chain ≢ [])
    × All (HasSlot two_grants.runtime_states) chain)
reserve_granted_iff_example = reserve_granted_iff two_grants "b" 7 two-Valid.keyed

reserved_once : (reserve_action_dispatch two_grants "b" 7).0 ≡ ok true
unfolding create_grant get put reserve_action_dispatch get_chain contains consume_slots
    all_have_capacity has_capacity
reserved_once = refl

refund-reserve_example :
    ((refund_action_dispatch (reserve_action_dispatch two_grants "b" 7).1 "b").0 ≡ ok tt)
    × ((j : String)
        → Option.map usage (
            get
              (refund_action_dispatch
                (reserve_action_dispatch two_grants "b" 7).1
                "b").1.runtime_states
              j)
          ≡ Option.map usage (get two_grants.runtime_states j))
refund-reserve_example = refund-reserve two_grants "b" 7 two-Valid.keyed reserved_once

abbrev used_up : DelegationStore
used_up = (reserve_action_dispatch (reserve_action_dispatch two_grants "b" 7).1 "b" 8).1

reachable-WithinBudget_example : WithinBudget used_up × WellKeyed used_up.grants
reachable-WithinBudget_example = reachable-WithinBudget used_up (
    next
      (next (next (next here (create top_grant none tt)) (create sub_grant none tt))
        (reserve "b" 7))
      (reserve "b" 8))

-- The third action of the chain is refused, since the ancestor's cap is two.
exhausted : (reserve_action_dispatch used_up "b" 9).0 ≡ ok false
unfolding create_grant get put reserve_action_dispatch get_chain contains consume_slots
    all_have_capacity has_capacity consumed
exhausted = refl

abbrev cut_off : DelegationStore
cut_off = (revoke two_grants "a" "user" none 9).1

cut_off-Valid : Valid cut_off
cut_off-Valid = StoreStep-Valid (revoked "a" "user" none 9) two-Valid

cut_off-IsRevoked : IsRevoked cut_off "a"
unfolding create_grant get put revoke
cut_off-IsRevoked = (
  record (fresh_state "a") {
    status = DelegationStatus.revoked;
    revoked_at = some 9;
    revoked_by_principal_id = some "user";
    state_version = 2;
  },
  refl,
  refl,
)

cut_off_chain :
    get_chain (reserve_action_dispatch cut_off "b" 10).1.grants "b" default_max_depth
    ≡ ok (top_grant ∷ sub_grant ∷ [])
unfolding create_grant get put revoke reserve_action_dispatch get_chain contains consume_slots
    all_have_capacity has_capacity
cut_off_chain = refl

sub_below_top : contains (ids (top_grant ∷ sub_grant ∷ [])) "a" ≡ true
unfolding contains
sub_below_top = refl

revocation_cascades_example :
    (reserve_action_dispatch (reserve_action_dispatch cut_off "b" 10).1 "b" 11).0 ≢ ok true
revocation_cascades_example =
    revocation_cascades cut_off (reserve_action_dispatch cut_off "b" 10).1 "a" "b" 11
      (top_grant ∷ sub_grant ∷ []) cut_off-Valid cut_off-IsRevoked
      (next here (metered (reserve "b" 10))) cut_off_chain sub_below_top

live-Permits :
    Permits
      (compute_live_effective_authority sub_grant (top_grant ∷ []) contract)
      "web.search"
      (some "r1")
      TargetEnvironment.development
      DataClassification.public_
unfolding compute_live_effective_authority root_authority narrow_through narrow_by intersection
    intersect_resource_scopes contains from_intent is_allowed is_tool_allowed is_resource_allowed
    is_environment_allowed is_classification_allowed
live-Permits = record {
  tools = refl;
  resources = refl;
  environments = refl;
  classifications = refl;
}

live_authority_sound_example :
    Permits
      (root_authority contract)
      "web.search"
      (some "r1")
      TargetEnvironment.development
      DataClassification.public_
    × All
        (λ g.
          Permits g.authority_envelope "web.search"
            (some "r1")
            TargetEnvironment.development
            DataClassification.public_)
        (top_grant ∷ [])
    × Permits sub_grant.authority_envelope "web.search"
        (some "r1")
        TargetEnvironment.development
        DataClassification.public_
live_authority_sound_example =
    live_authority_sound sub_grant (top_grant ∷ []) contract "web.search" (some "r1")
      TargetEnvironment.development DataClassification.public_ live-Permits

scope_is_subset :
    is_resource_scope_subset AuthorityScopeMode.allowlist
      ("r1" ∷ [])
      (allowlist_scope ("r1" ∷ "r2" ∷ []))
    ≡ true
unfolding is_resource_scope_subset issubset contains
scope_is_subset = refl

r1_allowed : is_allowed (allowlist_scope ("r1" ∷ [])) (some "r1") ≡ true
unfolding is_allowed contains
r1_allowed = refl

effective_status_iff_example :
    (compute_effective_status sub_grant
        (fresh_state "b")
        (top_grant ∷ [])
        (fresh_state "a" ∷ [])
        contract
        7
      ≡ EffectiveDelegationStatus.active)
    ↔ (IsRootLive 7 contract
        × AllLive 7 (top_grant ∷ []) (fresh_state "a" ∷ [])
        × IsLive 7 sub_grant (fresh_state "b"))
effective_status_iff_example =
    effective_status_iff sub_grant (fresh_state "b") (top_grant ∷ []) (fresh_state "a" ∷ [])
      contract 7

read_with_states :
    get_chain_with_states two_grants "b" default_max_depth
    ≡ ok (((top_grant ∷ []) ++ sub_grant ∷ []), ((fresh_state "a" ∷ []) ++ fresh_state "b" ∷ []))
unfolding create_grant get put get_chain_with_states get_chain contains
read_with_states = refl

status_active :
    compute_effective_status sub_grant
      (fresh_state "b")
      (top_grant ∷ [])
      (fresh_state "a" ∷ [])
      contract
      7
    ≡ EffectiveDelegationStatus.active
unfolding compute_effective_status ancestors_verdict target_verdict
status_active = refl

active_status_reserves_example : (reserve_action_dispatch two_grants "b" 8).0 ≡ ok true
active_status_reserves_example =
    active_status_reserves two_grants "b" 7 8 contract (top_grant ∷ []) sub_grant
      (fresh_state "a" ∷ []) (fresh_state "b") two-Valid read_with_states status_active
