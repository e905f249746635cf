-- ===== src/Intent/Narrowing/Sound.antt =====
-- Narrowing in backend/app/intent/service.py against what a contract authorizes.
use cage_agent_security.Prelude.{
  ℕ, ◌≤◌, ◌≡◌, ◌≢◌, refl, Bool, true, String, Option, none, some, List, [], ◌∷◌, arith,
}
use cage_agent_security.Prelude.Eq.{HasEq, contains, string_eq, contains_of_issubset}
use cage_agent_security.Enums.Same.{target_environment_eq, data_classification_eq}
use cage_agent_security.Authority.{from_intent, is_allowed}
use cage_agent_security.Intent.{IntentContract, IntentContractNarrow, deadline_passed}
use cage_agent_security.Intent.Result.{ok}
use cage_agent_security.Intent.Narrowing.{
  narrow_tools, narrow_subset, narrow_superset, narrow_resources, narrow_approval, narrow_quota,
  narrow_delegation, narrow_depth, narrow_deadline, narrow_contract,
}

-- Every element of the first list is one of the second.
abbrev pub Subset : {A : Type 0} ⦃e : HasEq A⦄ → List A → List A → Type 0
Subset {A} xs ys = (a : A) → contains xs a ≡ true → contains ys a ≡ true

tools_lem :
    (current : List String) (new : Option (List String)) {r : List String}
    → narrow_tools current new ≡ ok r
    → Subset r current
unfolding narrow_tools
tools_lem current none h a k = ground arith
tools_lem current (some new) h a k = ground (arith, contains_of_issubset new current a)

subset_lem :
    {A : Type 0} ⦃e : HasEq A⦄ (field : String) (current : List A) (new : Option (List A))
    {r : List A}
    → narrow_subset field current new ≡ ok r
    → Subset r current
unfolding narrow_subset
subset_lem field current none h a k = ground arith
subset_lem field current (some new) h a k = ground (arith, contains_of_issubset new current a)

superset_lem :
    (field : String) (current : List String) (new : Option (List String)) {r : List String}
    → narrow_superset field current new ≡ ok r
    → Subset current r
unfolding narrow_superset
superset_lem field current none h a k = ground arith
superset_lem field current (some new) h a k = ground (arith, contains_of_issubset current new a)

approval_lem :
    (current allowed : List String) (new : Option (List String)) {r : List String}
    → narrow_approval current allowed new ≡ ok r
    → Subset current r
unfolding narrow_approval
approval_lem current allowed none h a k = ground arith
approval_lem current allowed (some new) h a k = ground (arith, contains_of_issubset current new a)

-- A request that is not the empty list.
pub resources_lem :
    (current : List String) (new : Option (List String)) {r : List String}
    → new ≢ some []
    → narrow_resources current new ≡ ok r
    → (target : Option String) → is_allowed (from_intent r) target ≡ true
    → is_allowed (from_intent current) target ≡ true
unfolding narrow_resources from_intent is_allowed
resources_lem current none ne h target k = ground arith
resources_lem current (some []) ne h target k = absurd (ne refl)
resources_lem [] (some (x ∷ new)) ne h target k = refl
resources_lem (y ∷ current) (some (x ∷ new)) ne h none k = refl
resources_lem (y ∷ current) (some (x ∷ new)) ne h (some r) k = ground (
  arith,
  contains_of_issubset (x ∷ new) (y ∷ current) r,
  contains_of_issubset (x ∷ new) (y ∷ current) "*",
)

pub quota_lem :
    (current used : ℕ) (new : Option ℕ) {r : ℕ}
    → used ≤ current
    → narrow_quota current used new ≡ ok r
    → (used ≤ r) × (r ≤ current)
unfolding narrow_quota
quota_lem current used none u h = ground arith
quota_lem current used (some new) u h = ground arith

delegation_lem :
    (current : Bool) (new : Option Bool) {r : Bool}
    → narrow_delegation current new ≡ ok r
    → r ≡ true
    → current ≡ true
unfolding narrow_delegation
delegation_lem current none h k = ground arith
delegation_lem current (some new) h k = ground arith

depth_lem : (current : ℕ) (new : Option ℕ) {r : ℕ} → narrow_depth current new ≡ ok r → r ≤ current
unfolding narrow_depth
depth_lem current none h = ground arith
depth_lem current (some new) h = ground arith

pub deadline_lem :
    (current new : Option ℕ) (is_set : Bool) {r : Option ℕ} (t : ℕ)
    → narrow_deadline current new is_set ≡ ok r
    → deadline_passed current t ≡ true
    → deadline_passed r t ≡ true
unfolding narrow_deadline
deadline_lem none none is_set t h k = ground arith
deadline_lem none (some new) is_set t h k = ground arith
deadline_lem (some c) none is_set t h k = ground arith
deadline_lem (some c) (some new) is_set t h k = ground arith

-- The second contract authorizes no more than the first, in each of the fields that bound it.
pub record IsNarrower (before after : IntentContract) : Type 0 where
  pub tools : Subset after.allowed_tools before.allowed_tools
  pub denied : Subset before.denied_tools after.denied_tools
  pub denied_res : Subset before.denied_resources after.denied_resources
  pub environments : Subset after.allowed_environments before.allowed_environments
  pub classifications :
      Subset after.allowed_data_classifications before.allowed_data_classifications
  pub approval : Subset before.requires_approval after.requires_approval
  pub quota : after.maximum_tool_calls ≤ before.maximum_tool_calls
  pub room : after.tool_calls_count ≤ after.maximum_tool_calls
  pub delegation : after.delegation_allowed ≡ true → before.delegation_allowed ≡ true
  pub depth : after.maximum_delegation_depth ≤ before.maximum_delegation_depth
  pub deadline :
      (t : ℕ)
      → deadline_passed before.expires_at t ≡ true
      → deadline_passed after.expires_at t ≡ true
  pub binding :
      (after.agent_id ≡ before.agent_id)
      × (after.session_id ≡ before.session_id)
      × (after.status ≡ before.status)
      × (after.tool_calls_count ≡ before.tool_calls_count)

-- A request that comes through has passed every check, and the checks' values are the new fields.
pub record Passed (c : IntentContract) (n : IntentContractNarrow) (now : ℕ) (c' : IntentContract)
    : Type 0 where
  pub tools : narrow_tools c.allowed_tools n.allowed_tools ≡ ok c'.allowed_tools
  pub denied : narrow_superset "denied_tools" c.denied_tools n.denied_tools ≡ ok c'.denied_tools
  pub resources : narrow_resources c.allowed_resources n.allowed_resources ≡ ok c'.allowed_resources
  pub denied_res :
      narrow_superset "denied_resources" c.denied_resources n.denied_resources
      ≡ ok c'.denied_resources
  pub envs :
      narrow_subset "allowed_environments" c.allowed_environments n.allowed_environments
      ≡ ok c'.allowed_environments
  pub classes :
      narrow_subset "allowed_data_classifications" c.allowed_data_classifications
        n.allowed_data_classifications
      ≡ ok c'.allowed_data_classifications
  pub approval :
      narrow_approval c.requires_approval c'.allowed_tools n.requires_approval
      ≡ ok c'.requires_approval
  pub quota :
      narrow_quota c.maximum_tool_calls c.tool_calls_count n.maximum_tool_calls
      ≡ ok c'.maximum_tool_calls
  pub delegation :
      narrow_delegation c.delegation_allowed n.delegation_allowed ≡ ok c'.delegation_allowed
  pub depth :
      narrow_depth c.maximum_delegation_depth n.maximum_delegation_depth
      ≡ ok c'.maximum_delegation_depth
  pub deadline : narrow_deadline c.expires_at n.expires_at n.expires_at_set ≡ ok c'.expires_at
  pub binding :
      (c'.agent_id ≡ c.agent_id)
      × (c'.session_id ≡ c.session_id)
      × (c'.intent_id ≡ c.intent_id)
      × (c'.status ≡ c.status)
      × (c'.tool_calls_count ≡ c.tool_calls_count)

pub narrow_contract-Passed :
    (c : IntentContract) (n : IntentContractNarrow) (now : ℕ) {c' : IntentContract}
    → narrow_contract c n now ≡ ok c'
    → Passed c n now c'
unfolding narrow_contract
narrow_contract-Passed c n now h = ground arith

pub narrow_contract-IsNarrower :
    (c : IntentContract) (n : IntentContractNarrow) (now : ℕ) {c' : IntentContract}
    → c.tool_calls_count ≤ c.maximum_tool_calls
    → narrow_contract c n now ≡ ok c'
    → IsNarrower c c'
narrow_contract-IsNarrower c n now u h =
    let p = narrow_contract-Passed c n now h in
    let (_, _, _, _, count) = p.binding in
    let q = quota_lem c.maximum_tool_calls c.tool_calls_count n.maximum_tool_calls u p.quota in
    record {
      tools = tools_lem c.allowed_tools n.allowed_tools p.tools;
      denied = superset_lem "denied_tools" c.denied_tools n.denied_tools p.denied;
      denied_res =
          superset_lem "denied_resources" c.denied_resources n.denied_resources p.denied_res;
      environments =
          subset_lem "allowed_environments" c.allowed_environments n.allowed_environments p.envs;
      classifications =
          subset_lem "allowed_data_classifications" c.allowed_data_classifications
            n.allowed_data_classifications p.classes;
      approval = approval_lem c.requires_approval _ n.requires_approval p.approval;
      quota = q.1;
      room = rw count q.0;
      delegation = delegation_lem c.delegation_allowed n.delegation_allowed p.delegation;
      depth = depth_lem c.maximum_delegation_depth n.maximum_delegation_depth p.depth;
      deadline = λ t. deadline_lem c.expires_at n.expires_at n.expires_at_set t p.deadline;
      binding = (p.binding.0, p.binding.1, p.binding.3, count);
    }
