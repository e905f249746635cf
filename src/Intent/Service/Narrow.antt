-- ===== src/Intent/Service/Narrow.antt =====
-- `narrow_intent` of backend/app/intent/service.py on a stored contract.
use cage_agent_security.Prelude.{
  ℕ, ◌≤◌, ◌≡◌, ◌≢◌, ◌⊎◌, refl, inl, inr, true, String, Option, none, some, List, [], arith,
}
use cage_agent_security.Prelude.Tests.{Bool-cases}
use cage_agent_security.Prelude.Dict.{get}
use cage_agent_security.Prelude.Eq.{string_eq}
use cage_agent_security.Authority.{from_intent, is_allowed}
use cage_agent_security.Intent.{IntentContract, IntentContractNarrow, is_active}
use cage_agent_security.Intent.Result.{Result, ok, err}
use cage_agent_security.Intent.Narrowing.{narrow_contract, narrow_resources}
use cage_agent_security.Intent.Narrowing.Sound.{
  IsNarrower, narrow_contract-IsNarrower, narrow_contract-Passed, resources_lem,
}
use cage_agent_security.Intent.Service.{IntentService, set_intent, narrow_intent, write_back}

write_back_cases :
    (s : IntentService) (id : String) (c : IntentContract) (n : IntentContractNarrow) (now : ℕ)
    (r : Result IntentContract)
    → c.tool_calls_count ≤ c.maximum_tool_calls
    → narrow_contract c n now ≡ r
    → ((c' : IntentContract) × ((write_back s id r).0 ≡ ok c')
        × IsNarrower c c'
        × ((write_back s id r).1 ≡ set_intent s id c'))
      ⊎ ((write_back s id r).1 ≡ s)
unfolding narrow_intent
write_back_cases s id c n now (ok c') u e =
    inl (c', refl, narrow_contract-IsNarrower c n now u e, refl)
write_back_cases s id c n now (err x) u e = inr refl

-- A narrowing of a stored contract that is within its quota either returns a contract that is
-- narrower in its tools, denials, environments, classifications, approvals, quota, delegation and
-- deadline, with its binding and its usage kept, and stores that contract and nothing else; or the
-- service is as before.
pub narrow_intent_narrows :
    (s : IntentService) (id : String) (c : IntentContract) (n : IntentContractNarrow) (now : ℕ)
    → get s.intents id ≡ some c
    → c.tool_calls_count ≤ c.maximum_tool_calls
    → ((c' : IntentContract) × ((narrow_intent s id n now).0 ≡ ok c')
        × IsNarrower c c'
        × ((narrow_intent s id n now).1 ≡ set_intent s id c'))
      ⊎ ((narrow_intent s id n now).1 ≡ s)
unfolding narrow_intent
narrow_intent_narrows s id c n now e u = elim (Bool-cases (is_active c now)) [
  | inl live ↦
      rw (e, narrow_intent, live) (write_back_cases s id c n now (narrow_contract c n now) u refl)
  | inr dead ↦ rw (e, narrow_intent, dead) (inr refl)
]

-- A narrowing that does not ask for an empty list of resources lets the contract reach no resource
-- that it could not reach before.
pub narrow_keeps_resources :
    (c : IntentContract) (n : IntentContractNarrow) (now : ℕ) (c' : IntentContract)
    (target : Option String)
    → n.allowed_resources ≢ some []
    → narrow_contract c n now ≡ ok c'
    → is_allowed (from_intent c'.allowed_resources) target ≡ true
    → is_allowed (from_intent c.allowed_resources) target ≡ true
narrow_keeps_resources c n now c' target ne h =
    resources_lem c.allowed_resources n.allowed_resources ne
      (narrow_contract-Passed c n now h).resources target

empty_resources :
    (current : List String) (new : Option (List String)) {r : List String}
    → new ≡ some []
    → narrow_resources current new ≡ ok r
    → r ≡ []
unfolding narrow_resources
empty_resources current none e h = cc
empty_resources current (some new) e h = ground arith

-- A narrowing that asks for an empty list of resources, where it comes through, leaves a contract
-- whose list of allowed resources constrains nothing: the scope that is derived from it allows every
-- resource, whatever was in the list before. What the contract says of denied resources is apart from
-- that scope.
pub narrow_to_empty_widens :
    (c : IntentContract) (n : IntentContractNarrow) (now : ℕ) (c' : IntentContract)
    (target : Option String)
    → n.allowed_resources ≡ some []
    → narrow_contract c n now ≡ ok c'
    → is_allowed (from_intent c'.allowed_resources) target ≡ true
unfolding from_intent is_allowed
narrow_to_empty_widens c n now c' target e h =
    rw
      (empty_resources c.allowed_resources n.allowed_resources e
        (narrow_contract-Passed c n now h).resources)
      refl
