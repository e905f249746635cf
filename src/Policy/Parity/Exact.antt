-- ===== src/Policy/Parity/Exact.antt =====
-- backend/app/policies/parity.py: when the comparison says MATCH.
use text.Mathlib.TextEquality.{eq_iff}
use cage_agent_security.Prelude.{
  ◌∙◌, ◌≡◌, ◌↔◌, refl, inl, inr, true, false, not, ◌&&◌, String, Option, none, some, List, [], ◌∷◌,
  arith,
}
use cage_agent_security.Prelude.Tests.{Bool-cases, &&-left, &&-right}
use cage_agent_security.Prelude.Eq.{
  HasEq, ◌==◌, string_eq, contains, issubset, contains_of_issubset, issubset_of_contains,
}
use cage_agent_security.Prelude.Sorted.{to_set}
use cage_agent_security.Enums.{OpaStatus, PolicyDecision, PolicyParityStatus}
use cage_agent_security.Enums.Same.{opa_status_eq, policy_decision_eq}
use cage_agent_security.Policy.Parity.{
  OpaEvaluationResult, is_infrastructure, domain_rules, decisions_match, same_set,
  compare_policy_parity,
}

contains-to_set :
    {A : Type 0} ⦃e : HasEq A⦄ (xs : List A) (a : A) → contains (to_set xs) a ≡ contains xs a
unfolding contains to_set
contains-to_set [] a = refl
contains-to_set ⦃e⦄ (x ∷ xs) a =
    ground (arith, contains-to_set xs a, contains-to_set xs x, e.equals_iff x a)

contains-domain :
    (rules : List String) (r : String)
    → contains (domain_rules rules) r ≡ (contains rules r && not (is_infrastructure r))
unfolding contains domain_rules
contains-domain [] r = refl
contains-domain (x ∷ rules) r = ground (arith, contains-domain rules r, eq_iff x r)

-- The two lists name the same rules, infrastructure aside.
abbrev pub SameDomainRules : List String → List String → Type 0
SameDomainRules us vs = (r : String) → is_infrastructure r ≡ false → contains us r ≡ contains vs r

same_set_iff :
    (us vs : List String)
    → (same_set (to_set (domain_rules us)) (to_set (domain_rules vs)) ≡ true)
      ↔ SameDomainRules us vs
same_set_iff us vs =
    let s = to_set (domain_rules us) in
    let t = to_set (domain_rules vs) in
    let in_s : (r : String) → contains s r ≡ (contains us r && not (is_infrastructure r)) =
      λ r. contains-to_set (domain_rules us) r ∙ contains-domain us r in
    let in_t : (r : String) → contains t r ≡ (contains vs r && not (is_infrastructure r)) =
      λ r. contains-to_set (domain_rules vs) r ∙ contains-domain vs r in
    (
      λ h r ordinary.
          let there = contains_of_issubset s t r (&&-left (issubset s t) (issubset t s) h) in
          let back = contains_of_issubset t s r (&&-right (issubset s t) (issubset t s) h) in
          ground (arith, in_s r, in_t r),
      λ h.
          let st = issubset_of_contains s t (λ r k. ground (arith, in_s r, in_t r, h r)) in
          let ts = issubset_of_contains t s (λ r k. ground (arith, in_s r, in_t r, h r)) in
          ground arith,
    )

decisions_match_iff :
    (p o : Option PolicyDecision)
    → (decisions_match p o ≡ true) ↔ ((d : PolicyDecision) × (p ≡ some d) × (o ≡ some d))
decisions_match_iff none o = (λ h. absurd (ground arith), λ (d, e, k). absurd (ground arith))
decisions_match_iff (some p) none = (λ h. absurd (ground arith), λ (d, e, k). absurd (ground arith))
decisions_match_iff (some p) (some o) = (λ h. (p, refl, ground arith), λ (d, e, k). ground arith)

-- The comparison says MATCH exactly when OPA answered, the two decisions are there and equal, and
-- the engines name the same rules, leaving aside the rules that stand for the infrastructure.
pub parity_match_iff :
    (p o : Option PolicyDecision) (us vs : List String) (result : OpaEvaluationResult)
    → ((compare_policy_parity p o us vs result).status ≡ PolicyParityStatus.match_) ↔ (
        (result.status ≡ OpaStatus.success)
        × (((d : PolicyDecision) × (p ≡ some d) × (o ≡ some d)) × SameDomainRules us vs))
unfolding compare_policy_parity
parity_match_iff p o us vs result = elim (Bool-cases (result.status == OpaStatus.success)) [
  | inr failed ↦ (λ h. absurd (ground arith), λ (e, rest). absurd (ground arith))
  | inl answered ↦
      let sets = same_set_iff us vs in
      let decisions = decisions_match_iff p o in
      (
        λ h. (ground arith, (decisions.0 (ground arith), sets.0 (ground arith))),
        λ (e, (k, m)). let a = decisions.1 k in let b = sets.1 m in ground arith,
      )
]
