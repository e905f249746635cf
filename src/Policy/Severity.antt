-- ===== src/Policy/Severity.antt =====
-- `max(matched_rules, key=severity_rank)` of backend/app/policies/rules.py and resolver.py: which rule
-- it takes, and when it denies.
use mathlib.Core.Path.{subst}
use cage_agent_security.Prelude.{
  ap, inl, inr, ℕ, ◌≤◌, ◌<◌, ◌≡◌, refl, Bool, ◌||◌, ◌&&◌, List, [], ◌∷◌, ◌++◌, arith,
}
use cage_agent_security.Prelude.Tests.{ltb, Bool-cases}
use cage_agent_security.Prelude.Lists.{All, any, any-append}
use cage_agent_security.Prelude.Eq.{◌==◌}
use cage_agent_security.Enums.{PolicyDecision, severity_rank}
use cage_agent_security.Enums.Same.{policy_decision_eq}
use cage_agent_security.Policy.Rule.{MatchedRule, when, most_severe}

abbrev pub rank : MatchedRule → ℕ
rank r = severity_rank r.decision

-- `chosen` is the first of the rules with the highest rank.
pub record IsFirstMost (chosen : MatchedRule) (rules : List MatchedRule) : Type 0 where
  pub before : List MatchedRule
  pub after : List MatchedRule
  pub split : rules ≡ before ++ chosen ∷ after
  pub below : All (λ r. rank r < rank chosen) before
  pub bounded : All (λ r. rank r ≤ rank chosen) after

best-le : (best : MatchedRule) (rs : List MatchedRule) → rank best ≤ rank (most_severe best rs)
unfolding most_severe
best-le best [] = ground arith
best-le best (r ∷ rs) = elim (Bool-cases (ltb (rank best) (rank r))) [
  | inl lt ↦ rw (most_severe, lt) (ground (arith, best-le r rs))
  | inr ge ↦ rw (most_severe, ge) (best-le best rs)
]

-- A rule that is not more severe than the best so far, put in after it.
insert_second :
    (best r chosen : MatchedRule) (rs before after : List MatchedRule)
    → rank r ≤ rank best
    → best ∷ rs ≡ before ++ chosen ∷ after
    → All (λ x. rank x < rank chosen) before
    → All (λ x. rank x ≤ rank chosen) after
    → IsFirstMost chosen (best ∷ r ∷ rs)
insert_second best r chosen rs [] after le e below bounded = record {
  before = [];
  after = r ∷ rs;
  split = ground arith;
  below = tt;
  bounded =
      let here : best ≡ chosen = ground arith in
      let rest : after ≡ rs = ground arith in
      (ground arith, subst (All (λ x. rank x ≤ rank chosen)) rest bounded);
}
insert_second best r chosen rs (b ∷ before) after le e below bounded = record {
  before = b ∷ r ∷ before;
  after = after;
  split = ground arith;
  below = let here : best ≡ b = ground arith in (below.0, (ground (arith, below.0), below.1));
  bounded = bounded;
}

-- Resolution takes the first of the rules that no other exceeds in severity: every rule before it
-- is less severe, and no rule after it is more severe.
pub most_severe_is_first :
    (best : MatchedRule) (rs : List MatchedRule) → IsFirstMost (most_severe best rs) (best ∷ rs)
unfolding most_severe
most_severe_is_first best [] = record {
  before = [];
  after = [];
  split = refl;
  below = tt;
  bounded = tt;
}
most_severe_is_first best (r ∷ rs) = elim (Bool-cases (ltb (rank best) (rank r))) [
  | inl lt ↦
      let m = most_severe_is_first r rs in
      rw (most_severe, lt)
        (record {
          before = best ∷ m.before;
          after = m.after;
          split = ap (λ x. best ∷ x) m.split;
          below = (ground (arith, best-le r rs), m.below);
          bounded = m.bounded;
        })
  | inr ge ↦
      let m = most_severe_is_first best rs in
      rw (most_severe, ge)
        (insert_second best r (most_severe best rs) rs m.before m.after (ground arith) m.split
          m.below m.bounded)
]

-- Some rule denies.
unfoldable pub denies : List MatchedRule → Bool
denies rules = any (λ r. r.decision == PolicyDecision.deny) rules

pub denies-append : (xs ys : List MatchedRule) → denies (xs ++ ys) ≡ (denies xs || denies ys)
unfolding denies
denies-append xs ys = any-append (λ r. r.decision == PolicyDecision.deny) xs ys

pub denies-when :
    (b : Bool) (r : MatchedRule) → denies (when b r) ≡ (b && r.decision == PolicyDecision.deny)
unfolding denies any
denies-when b r = ground arith

deny_highest : (r : MatchedRule) → rank r ≤ 6
unfolding severity_rank
deny_highest r = ground arith

-- The rule that is taken denies exactly when some rule does.
pub most_severe-denies :
    (best : MatchedRule) (rs : List MatchedRule)
    → ((most_severe best rs).decision == PolicyDecision.deny) ≡ denies (best ∷ rs)
unfolding most_severe denies any severity_rank
most_severe-denies best [] = ground arith
most_severe-denies best (r ∷ rs) = elim (Bool-cases (ltb (rank best) (rank r))) [
  | inl lt ↦ rw (most_severe, lt) (ground (arith, most_severe-denies r rs, deny_highest r))
  | inr ge ↦ rw (most_severe, ge) (ground (arith, most_severe-denies best rs, deny_highest best))
]
