-- ===== src/Delegation/Chain.antt =====
-- backend/app/delegation/store.py: the walk from a grant up to its root, and what the store raises.
pub mod Lineage
use cage_agent_security.Prelude.{
  ℕ, zero, suc, ◌+◌, String, Option, none, some, List, [], ◌∷◌, ◌++◌, reverse,
}
use cage_agent_security.Prelude.Tests.{if◌then◌else◌, ltb}
use cage_agent_security.Prelude.Eq.{contains, string_eq}
use cage_agent_security.Prelude.Lists.{length}
use cage_agent_security.Prelude.Dict.{Dict, get}
use cage_agent_security.Delegation.Models.{DelegationGrant}

-- What the methods raise. `out_of_fuel` is the model's own.
pub data StoreError : Type 0 where
  already_exists cycle_detected depth_exceeded key_error : String → StoreError
  out_of_fuel : StoreError

pub data Result {ℓ} (A : Type ℓ) : Type ℓ where
  ok : A → Result A
  err : StoreError → Result A

-- The `while` loop of `get_chain`, on fuel: `chain` is newest last.
pub chain_loop :
    ℕ
    → Dict String DelegationGrant
    → ℕ
    → Option String
    → List String
    → List DelegationGrant
    → Result (List DelegationGrant)
chain_loop fuel grants max_depth none visited chain = ok chain
chain_loop zero grants max_depth (some id) visited chain = err out_of_fuel
chain_loop (suc fuel) grants max_depth (some id) visited chain =
    if contains visited id then err (cycle_detected id) else elim (get grants id) [
      | none ↦ ok chain
      | some grant ↦
          let chain' = chain ++ grant ∷ [] in
          let rest =
            chain_loop fuel grants max_depth grant.parent_delegation_id (id ∷ visited) chain' in
          if ltb max_depth (length chain') then err (depth_exceeded id) else rest
    ]

reversed : Result (List DelegationGrant) → Result (List DelegationGrant)
reversed (ok chain) = ok (reverse chain)
reversed (err e) = err e

-- Each round but the last adds a grant, and a chain longer than `max_depth` raises.
unfoldable pub get_chain : Dict String DelegationGrant → String → ℕ → Result (List DelegationGrant)
unfolding chain_loop reversed
get_chain grants id max_depth =
    reversed (chain_loop (max_depth + 2) grants max_depth (some id) [] [])

abbrev pub default_max_depth : ℕ
default_max_depth = 25
