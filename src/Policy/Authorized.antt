-- ===== src/Policy/Authorized.antt =====
-- backend/app/policies/intent_rules.py: what an Intent Contract authorizes, told apart from the order
-- of the checks.
pub mod Exact
use text.Mathlib.TextEquality.{eq_iff}
use cage_agent_security.Prelude.{
  ℕ, ◌<◌, ◌≡◌, ◌≢◌, ◌↔◌, ◌⊎◌, refl, sym, ap, ◌∙◌, inl, inr, Bool, true, false, not, ◌||◌, ◌&&◌,
  String, Option, none, some, List, [], ◌∷◌, arith,
}
use cage_agent_security.Prelude.Tests.{leb, if◌then◌else◌, Bool-cases}
use cage_agent_security.Prelude.Lists.{any, is_empty}
use cage_agent_security.Prelude.Eq.{
  ◌==◌, contains, difference, contains-difference, ==-refl, string_eq,
}
use cage_agent_security.Enums.{ActionType, DataClassification, IntentStatus, PolicyDecision}
use cage_agent_security.Enums.Same.{
  action_type_eq, data_classification_eq, target_environment_eq, policy_decision_eq,
  intent_status_eq,
}
use cage_agent_security.Action.{AgentAction}
use cage_agent_security.Intent.{IntentContract, is_active, deadline_passed}
use cage_agent_security.Registry.{ToolRegistry, lookup_tool, get_effective_classifications}
use cage_agent_security.Policy.Contexts.{PolicyDelegationContext}
use cage_agent_security.Policy.Rule.{SecurityDecision, MatchedRule}
use cage_agent_security.Policy.Severity.{denies, denies-append, denies-when}
use cage_agent_security.Policy.ScopeRules.{scope_rules, names_one_of, misses}
use cage_agent_security.Policy.IntentRules.{
  is_valid_delegated, contract_rules, evaluate_intent, or_intent_allow,
}
use cage_agent_security.Policy.Evaluator.{Evaluation, evaluate}
use cage_agent_security.Policy.Safety.{not_denied-Quiet}

-- The tool, the environment, the resource, the data and the number of calls are in the contract.
pub record InScope (registry : ToolRegistry) (action : AgentAction) (contract : IntentContract)
    : Type 0 where
  pub quota : contract.tool_calls_count < contract.maximum_tool_calls
  pub tool : contains contract.allowed_tools action.tool_name ≡ true
  pub not_forbidden : contains contract.denied_tools action.tool_name ≡ false
  pub environment : contains contract.allowed_environments action.target_environment ≡ true
  pub resource_not_forbidden :
      (r : String) → action.target_resource ≡ some r → contains contract.denied_resources r ≡ false
  pub resource :
      contract.allowed_resources ≢ []
      → (lookup_tool registry action.tool_name).resource_scoped ≡ true
      → (r : String) × (action.target_resource ≡ some r)
        × ((r ≢ "") × (contains contract.allowed_resources r ≡ true))
  pub classifications :
      (c : DataClassification)
      → contains
          (get_effective_classifications registry action.tool_name action.data_classifications)
          c
        ≡ true
      → contains contract.allowed_data_classifications c ≡ true

-- For an action of type DELEGATION, which the client sets, `is_valid_delegated` holds and the scope is
-- not looked at.
pub record Authorized (registry : ToolRegistry) (action : AgentAction) (contract : IntentContract)
    (d : Option PolicyDelegationContext) (now : ℕ) : Type 0 where
  pub active : is_active contract now ≡ true
  pub session : contract.session_id ≡ action.session_id
  pub agent : (contract.agent_id ≡ action.agent_id) ⊎ (is_valid_delegated action d ≡ true)
  pub scope : action.action_type ≢ ActionType.delegation → InScope registry action contract

unauthorized : ToolRegistry → AgentAction → IntentContract → List DataClassification
unauthorized registry action contract =
    difference (get_effective_classifications registry action.tool_name action.data_classifications)
      contract.allowed_data_classifications

scope-denies :
    (registry : ToolRegistry) (action : AgentAction) (contract : IntentContract)
    → denies (scope_rules registry action contract) ≡ (
        contains contract.denied_tools action.tool_name
        || (not (contains contract.allowed_tools action.tool_name)
            || (not (contains contract.allowed_environments action.target_environment)
                || (names_one_of action.target_resource contract.denied_resources
                    || ((not (is_empty contract.allowed_resources)
                          && ((lookup_tool registry action.tool_name).resource_scoped
                              && misses action.target_resource contract.allowed_resources))
                        || not (is_empty (unauthorized registry action contract)))))))
unfolding scope_rules unauthorized
scope-denies registry action contract = simp (denies-append, denies-when) (ground arith)

empty_of_contains :
    (xs ys : List DataClassification)
    → ((c : DataClassification) → contains xs c ≡ true → contains ys c ≡ true)
    → is_empty (difference xs ys) ≡ true
unfolding contains difference
empty_of_contains [] ys h = refl
empty_of_contains (x ∷ xs) ys h =
    let rest = empty_of_contains xs ys (λ c k. h c (ground arith)) in ground (arith, h x, ==-refl x)

contains_of_empty :
    (xs ys : List DataClassification) (c : DataClassification)
    → is_empty (difference xs ys) ≡ true
    → contains xs c ≡ true
    → contains ys c ≡ true
unfolding contains
contains_of_empty xs ys c h k = ground (arith, contains-difference xs ys c)

or_allow-denies : (rules : List MatchedRule) → denies (or_intent_allow rules) ≡ denies rules
unfolding contract_rules denies any
or_allow-denies [] = refl
or_allow-denies (r ∷ rs) = refl

resource_lem :
    (target : Option String) (allowed : List String)
    → misses target allowed ≡ false
    → (r : String) × (target ≡ some r) × ((r ≢ "") × (contains allowed r ≡ true))
resource_lem none allowed h = absurd (ground arith)
resource_lem (some r) allowed h = (r, refl, (ground (arith, eq_iff r ""), ground arith))

pub scope_rules-InScope :
    (registry : ToolRegistry) (action : AgentAction) (contract : IntentContract)
    → leb contract.maximum_tool_calls contract.tool_calls_count ≡ false
    → denies (scope_rules registry action contract) ≡ false
    → InScope registry action contract
unfolding unauthorized
scope_rules-InScope registry action contract room h =
    let all = sym (scope-denies registry action contract) ∙ h in
    record {
      quota = ground arith;
      tool = ground arith;
      not_forbidden = ground arith;
      environment = ground arith;
      resource_not_forbidden = λ r e. ground arith;
      resource = λ ne scoped.
          resource_lem action.target_resource contract.allowed_resources (ground arith);
      classifications = λ c k.
          contains_of_empty
            (get_effective_classifications registry action.tool_name action.data_classifications)
            contract.allowed_data_classifications c (ground arith) k;
    }

names_lem :
    (target : Option String) (denied : List String)
    → ((r : String) → target ≡ some r → contains denied r ≡ false)
    → names_one_of target denied ≡ false
names_lem none denied h = refl
names_lem (some r) denied h = h r refl

scoped_lem :
    (target : Option String) (allowed : List String) (scoped : Bool)
    → (allowed ≢ []
        → scoped ≡ true
        → (r : String) × (target ≡ some r) × ((r ≢ "") × (contains allowed r ≡ true)))
    → (not (is_empty allowed) && (scoped && misses target allowed)) ≡ false
scoped_lem target [] scoped h = refl
scoped_lem target (x ∷ xs) false h = refl
scoped_lem target (x ∷ xs) true h =
    let (r, e, rest) = h (λ bad. absurd (ground arith)) refl in
    rw e (ground (arith, rest.0, rest.1, eq_iff r ""))

pub quiet_of_InScope :
    (registry : ToolRegistry) (action : AgentAction) (contract : IntentContract)
    → InScope registry action contract
    → (leb contract.maximum_tool_calls contract.tool_calls_count ≡ false)
      × (denies (scope_rules registry action contract) ≡ false)
unfolding unauthorized
quiet_of_InScope registry action contract s =
    let fine =
      empty_of_contains
        (get_effective_classifications registry action.tool_name action.data_classifications)
        contract.allowed_data_classifications s.classifications in
    (
      ground (arith, s.quota),
      scope-denies registry action contract
          ∙ ground (
            arith,
            s.tool,
            s.not_forbidden,
            s.environment,
            names_lem action.target_resource contract.denied_resources s.resource_not_forbidden,
            scoped_lem action.target_resource contract.allowed_resources
                (lookup_tool registry action.tool_name).resource_scoped s.resource,
          ),
    )

-- The tests of the code up to the quota, each of which must fail.
abbrev pub stopped : AgentAction → IntentContract → Option PolicyDelegationContext → ℕ → Bool
stopped action contract d now =
    contract.status == IntentStatus.revoked
    || ((contract.status == IntentStatus.expired || deadline_passed contract.expires_at now)
        || (contract.status == IntentStatus.completed
            || ((not (is_valid_delegated action d) && not (contract.agent_id == action.agent_id))
                || not (contract.session_id == action.session_id))))

pub contract-denies :
    (registry : ToolRegistry) (action : AgentAction) (contract : IntentContract)
    (d : Option PolicyDelegationContext) (now : ℕ)
    → denies (contract_rules registry action contract d now) ≡ (
        stopped action contract d now
        || (not (action.action_type == ActionType.delegation)
            && (leb contract.maximum_tool_calls contract.tool_calls_count
                || denies (scope_rules registry action contract))))
unfolding contract_rules denies any
contract-denies registry action contract d now =
    ground (arith, or_allow-denies (scope_rules registry action contract))
