-- ===== src/Policy/Approval.antt =====
-- backend/app/policies: an action that needs a human is never simply allowed.
use cage_agent_security.Prelude.{
  ℕ, ◌≡◌, ◌≢◌, refl, sym, ap, ◌∙◌, inl, inr, Bool, true, false, ◌||◌, ◌&&◌, Option, none, some,
  List, [], ◌∷◌, ◌++◌, arith,
}
use cage_agent_security.Prelude.Tests.{leb, ltb, Bool-cases}
use cage_agent_security.Prelude.Lists.{any, any-append}
use cage_agent_security.Prelude.Eq.{contains, string_eq}
use cage_agent_security.Enums.{ActionType, PolicyDecision, TargetEnvironment, severity_rank}
use cage_agent_security.Enums.Same.{action_type_eq, intent_status_eq, target_environment_eq}
use cage_agent_security.Action.{AgentAction}
use cage_agent_security.Intent.{IntentContract}
use cage_agent_security.Registry.{ToolRegistry, lookup_tool}
use cage_agent_security.Policy.Contexts.{PolicyDelegationContext}
use cage_agent_security.Policy.Rule.{MatchedRule, SecurityDecision, when, most_severe}
use cage_agent_security.Policy.Severity.{rank}
use cage_agent_security.Policy.ScopeRules.{scope_rules}
use cage_agent_security.Policy.IntentRules.{evaluate_intent, contract_rules, or_intent_allow}
use cage_agent_security.Policy.RuntimeRules.{runtime_rules, is_destructive}
use cage_agent_security.Policy.Evaluator.{
  Evaluation, evaluate, matched_rules, rules_before, rules_after, with_baseline, resolve, around,
  decided,
}

-- Some rule asks for a human or for more.
unfoldable pub restrictive : List MatchedRule → Bool
restrictive rules = any (λ r. leb 3 (rank r)) rules

restrictive-append :
    (xs ys : List MatchedRule) → restrictive (xs ++ ys) ≡ (restrictive xs || restrictive ys)
unfolding restrictive
restrictive-append xs ys = any-append (λ r. leb 3 (rank r)) xs ys

restrictive-when :
    (b : Bool) (r : MatchedRule) → restrictive (when b r) ≡ (b && leb 3 (severity_rank r.decision))
unfolding restrictive any
restrictive-when b r = ground arith

most_severe-restrictive :
    (best : MatchedRule) (rs : List MatchedRule)
    → leb 3 (rank (most_severe best rs)) ≡ restrictive (best ∷ rs)
unfolding most_severe restrictive any
most_severe-restrictive best [] = ground arith
most_severe-restrictive best (r ∷ rs) = elim (Bool-cases (ltb (rank best) (rank r))) [
  | inl lt ↦ rw (most_severe, lt) (ground (arith, most_severe-restrictive r rs))
  | inr ge ↦ rw (most_severe, ge) (ground (arith, most_severe-restrictive best rs))
]

baseline-restrictive :
    (action : AgentAction) (contract : Option IntentContract) (rules : List MatchedRule)
    → restrictive rules ≡ true
    → leb 3 (severity_rank (with_baseline action contract rules).decision) ≡ true
unfolding with_baseline resolve restrictive any
baseline-restrictive action contract [] h = absurd (ground arith)
baseline-restrictive action contract (r ∷ rs) h = most_severe-restrictive r rs ∙ h

around-restrictive :
    (action : AgentAction) (contract : Option IntentContract) (before after : List MatchedRule)
    (o : Option (List MatchedRule)) (d : SecurityDecision)
    → restrictive before ≡ true
    → decided action contract (around before o after) ≡ some d
    → leb 3 (severity_rank d.decision) ≡ true
around-restrictive action contract before after none d h e = absurd (ground arith)
around-restrictive action contract before after (some rules) d h e =
    let is : with_baseline action contract (before ++ (rules ++ after)) ≡ d = ground arith in
    ap (λ x. leb 3 (severity_rank x.decision)) (sym is)
    ∙ baseline-restrictive action contract (before ++ (rules ++ after))
        (restrictive-append before (rules ++ after) ∙ ap (λ x. x || restrictive (rules ++ after)) h)

not_simply_allowed :
    (p : PolicyDecision)
    → leb 3 (severity_rank p) ≡ true
    → (p ≢ PolicyDecision.allow) × (p ≢ PolicyDecision.allow_with_limits)
unfolding severity_rank
not_simply_allowed p h = (ground arith, ground arith)

-- What asks for a human: the contract lists the tool, or the action is destructive in production.
pub data NeedsHuman (registry : ToolRegistry) (action : AgentAction)
    (contract : Option IntentContract) : Type 0 where
  listed :
      (c : IntentContract)
      → contract ≡ some c
      → contains c.requires_approval action.tool_name ≡ true
      → action.action_type ≢ ActionType.delegation
      → NeedsHuman registry action contract
  destructive_in_production :
      action.target_environment ≡ TargetEnvironment.production
      → is_destructive (lookup_tool registry action.tool_name) action ≡ true
      → NeedsHuman registry action contract

scope-restrictive :
    (registry : ToolRegistry) (action : AgentAction) (c : IntentContract)
    → contains c.requires_approval action.tool_name ≡ true
    → restrictive (scope_rules registry action c) ≡ true
unfolding scope_rules severity_rank
scope-restrictive registry action c h = simp (restrictive-append, restrictive-when) (ground arith)

or_allow-restrictive :
    (rules : List MatchedRule)
    → restrictive rules ≡ true
    → restrictive (or_intent_allow rules) ≡ true
unfolding contract_rules restrictive any
or_allow-restrictive [] h = absurd (ground arith)
or_allow-restrictive (r ∷ rs) h = h

contract-restrictive :
    (registry : ToolRegistry) (action : AgentAction) (c : IntentContract)
    (d : Option PolicyDelegationContext) (now : ℕ)
    → contains c.requires_approval action.tool_name ≡ true
    → action.action_type ≢ ActionType.delegation
    → restrictive (contract_rules registry action c d now) ≡ true
unfolding contract_rules restrictive any severity_rank
contract-restrictive registry action c d now h ne =
    let found =
      or_allow-restrictive (scope_rules registry action c)
        (scope-restrictive registry action c h) in
    ground arith

intent-restrictive :
    (registry : ToolRegistry) (action : AgentAction) (c : IntentContract) (required mismatch : Bool)
    (d : Option PolicyDelegationContext) (now : ℕ)
    → contains c.requires_approval action.tool_name ≡ true
    → action.action_type ≢ ActionType.delegation
    → restrictive (evaluate_intent registry action (some c) required mismatch d now) ≡ true
unfolding evaluate_intent restrictive any severity_rank
intent-restrictive registry action c required true d now h ne = refl
intent-restrictive registry action c required false d now h ne =
    contract-restrictive registry action c d now h ne

runtime-restrictive :
    (registry : ToolRegistry) (action : AgentAction)
    → action.target_environment ≡ TargetEnvironment.production
    → is_destructive (lookup_tool registry action.tool_name) action ≡ true
    → restrictive (runtime_rules registry action) ≡ true
unfolding runtime_rules severity_rank
runtime-restrictive registry action p h = simp (restrictive-append, restrictive-when) (ground arith)

before-restrictive :
    (registry : ToolRegistry) (action : AgentAction) (contract : Option IntentContract)
    (e : Evaluation) (now : ℕ)
    → NeedsHuman registry action contract
    → restrictive (rules_before registry action contract e now) ≡ true
unfolding rules_before
before-restrictive registry action contract e now (listed c is h ne) =
    let found =
      intent-restrictive registry action c e.require_intent e.intent_mismatch e.delegation_context
        now h ne in
    rw is (simp restrictive-append (ground arith))
before-restrictive registry action contract e now (destructive_in_production p h) =
    let found = runtime-restrictive registry action p h in simp restrictive-append (ground arith)

-- An action that needs a human, since the contract lists its tool for approval and its type is not
-- DELEGATION, or since it is destructive in production, is never decided ALLOW nor
-- ALLOW_WITH_LIMITS, whatever other rules match.
pub approval_not_skipped :
    (registry : ToolRegistry) (action : AgentAction) (contract : Option IntentContract)
    (e : Evaluation) (now : ℕ) (d : SecurityDecision)
    → evaluate registry action contract e now ≡ some d
    → NeedsHuman registry action contract
    → (d.decision ≢ PolicyDecision.allow) × (d.decision ≢ PolicyDecision.allow_with_limits)
unfolding evaluate matched_rules
approval_not_skipped registry action contract e now d h needs = not_simply_allowed d.decision (
    around-restrictive action contract (rules_before registry action contract e now) (rules_after e)
      _ d (before-restrictive registry action contract e now needs) h)
