-- ===== src/Policy/Safety/FailClosed.antt =====
-- backend/app/policies/rules.py: an analysis that did not finish denies, and when `evaluate` raises.
use cage_agent_security.Prelude.{
  ℕ, ◌≡◌, ◌≢◌, ◌↔◌, refl, inl, inr, Bool, true, false, ◌||◌, Option, none, some, List, arith,
}
use cage_agent_security.Prelude.Tests.{Bool-cases}
use cage_agent_security.Prelude.Eq.{◌==◌}
use cage_agent_security.Enums.{
  PolicyDecision, GraphAnalysisStatus, ProvenanceAnalysisStatus, TrajectoryStatus,
}
use cage_agent_security.Enums.Same.{
  policy_decision_eq, graph_analysis_status_eq, provenance_analysis_status_eq, trajectory_status_eq,
}
use cage_agent_security.Action.{AgentAction}
use cage_agent_security.Intent.{IntentContract}
use cage_agent_security.Registry.{ToolRegistry, ToolSpec, lookup_tool}
use cage_agent_security.Policy.Contexts.{
  PolicyGraphContext, PolicyProvenanceContext, PolicyTrajectoryContext,
}
use cage_agent_security.Policy.Rule.{MatchedRule, SecurityDecision}
use cage_agent_security.Policy.Severity.{denies}
use cage_agent_security.Policy.RuntimeRules.{graph_rules}
use cage_agent_security.Policy.DataRules.{
  provenance_failed, egress_rules, provenance_rules, when_both, both_lists, untrusted_rule,
  unknown_rule,
}
use cage_agent_security.Policy.TrajectoryRules.{trajectory_rules}
use cage_agent_security.Policy.Evaluator.{
  Evaluation, evaluate, matched_rules, bound_privileged, if_provenance, decided, around,
}
use cage_agent_security.Policy.Denials.{graph-denies, egress-denies, trajectory-denies}
use cage_agent_security.Policy.Safety.{not_denied-Quiet}

-- A context that is given, of an analysis that did not succeed or a trajectory that was stopped.
pub data Unverified (e : Evaluation) : Type 0 where
  graph :
      (g : PolicyGraphContext)
      → e.graph_context ≡ some g
      → g.analysis_status ≢ GraphAnalysisStatus.success
      → Unverified e
  provenance_status :
      (p : PolicyProvenanceContext)
      → e.provenance_context ≡ some p
      → p.analysis_status ≢ ProvenanceAnalysisStatus.success
      → Unverified e
  provenance_incomplete :
      (p : PolicyProvenanceContext)
      → e.provenance_context ≡ some p
      → p.analysis_complete ≡ false
      → Unverified e
  trajectory_incomplete :
      (t : PolicyTrajectoryContext)
      → e.trajectory_context ≡ some t
      → t.analysis_complete ≡ false
      → Unverified e
  trajectory_quarantined :
      (t : PolicyTrajectoryContext)
      → e.trajectory_context ≡ some t
      → t.trajectory_status ≡ TrajectoryStatus.quarantined
      → Unverified e
  trajectory_aborted :
      (t : PolicyTrajectoryContext)
      → e.trajectory_context ≡ some t
      → t.trajectory_status ≡ TrajectoryStatus.aborted
      → Unverified e

module _ (registry : ToolRegistry) (action : AgentAction) (contract : Option IntentContract)
    (e : Evaluation) (now : ℕ) (d : SecurityDecision) where
  permitted_verified :
      evaluate registry action contract e now ≡ some d
      → d.decision ≢ PolicyDecision.deny
      → Unverified e
      → ⊥
  unfolding provenance_failed
  permitted_verified h ne (graph g given bad) =
      let q = not_denied-Quiet registry action contract e now d h ne in
      let quiet : denies (graph_rules (lookup_tool registry action.tool_name) action g) ≡ false =
        ground (arith, q.graph) in
      ground (arith, graph-denies (lookup_tool registry action.tool_name) action g)
  permitted_verified h ne (provenance_status p given bad) =
      let q = not_denied-Quiet registry action contract e now d h ne in
      let quiet : denies (egress_rules (lookup_tool registry action.tool_name) p) ≡ false =
        ground (arith, q.data_flow) in
      ground (arith, egress-denies (lookup_tool registry action.tool_name) p)
  permitted_verified h ne (provenance_incomplete p given bad) =
      let q = not_denied-Quiet registry action contract e now d h ne in
      let quiet : denies (egress_rules (lookup_tool registry action.tool_name) p) ≡ false =
        ground (arith, q.data_flow) in
      ground (arith, egress-denies (lookup_tool registry action.tool_name) p)
  permitted_verified h ne (trajectory_incomplete t given bad) =
      let q = not_denied-Quiet registry action contract e now d h ne in
      let quiet : denies (trajectory_rules t) ≡ false = ground (arith, q.trajectory) in
      ground (arith, trajectory-denies t)
  permitted_verified h ne (trajectory_quarantined t given bad) =
      let q = not_denied-Quiet registry action contract e now d h ne in
      let quiet : denies (trajectory_rules t) ≡ false = ground (arith, q.trajectory) in
      ground (arith, trajectory-denies t)
  permitted_verified h ne (trajectory_aborted t given bad) =
      let q = not_denied-Quiet registry action contract e now d h ne in
      let quiet : denies (trajectory_rules t) ≡ false = ground (arith, q.trajectory) in
      ground (arith, trajectory-denies t)

  -- If a graph analysis that is given did not succeed, or a provenance analysis did not succeed or
  -- is not complete, or a trajectory analysis is not complete, or the trajectory is quarantined or
  -- aborted, then the decision is DENY, whatever the action, the contract and the rest are.
  pub evaluate-Unverified :
      evaluate registry action contract e now ≡ some d
      → Unverified e
      → d.decision ≡ PolicyDecision.deny
  evaluate-Unverified h bad = elim (Bool-cases (d.decision == PolicyDecision.deny)) [
    | inl is ↦ ground arith
    | inr other ↦ absurd (permitted_verified h (ground arith) bad)
  ]

-- A provenance context with untrusted or unknown inputs and no graph context.
abbrev pub ReadsUnbound : Evaluation → Type 0
ReadsUnbound e =
    (e.graph_context ≡ none)
    × ((p : PolicyProvenanceContext) × (e.provenance_context ≡ some p)
        × ((p.contains_untrusted_input || p.contains_unknown_input) ≡ true))

both_lists-none :
    (us : List MatchedRule) (a b : Bool) (r s : MatchedRule)
    → both_lists (some us) (both_lists (when_both a none r) (when_both b none s)) ≡ none
    → (a || b) ≡ true
both_lists-none us false false r s h = absurd (ground arith)
both_lists-none us true b r s h = refl
both_lists-none us false true r s h = refl

none-both_lists :
    (us : List MatchedRule) (a b : Bool) (r s : MatchedRule)
    → (a || b) ≡ true
    → both_lists (some us) (both_lists (when_both a none r) (when_both b none s)) ≡ none
none-both_lists us false false r s h = absurd (ground arith)
none-both_lists us true b r s h = refl
none-both_lists us false true r s h = refl

both_lists-ne-none :
    (us : List MatchedRule) (a b c : Bool) (r s : MatchedRule)
    → both_lists (some us) (both_lists (when_both a (some c) r) (when_both b (some c) s)) ≢ none
both_lists-ne-none us false false c r s h = absurd (ground arith)
both_lists-ne-none us false true c r s h = absurd (ground arith)
both_lists-ne-none us true false c r s h = absurd (ground arith)
both_lists-ne-none us true true c r s h = absurd (ground arith)

decided-none :
    (action : AgentAction) (contract : Option IntentContract) (before after : List MatchedRule)
    (o : Option (List MatchedRule))
    → decided action contract (around before o after) ≡ none
    → o ≡ none
decided-none action contract before after none h = refl
decided-none action contract before after (some rules) h = absurd (ground arith)

raises_lem :
    (action : AgentAction) (spec : ToolSpec) (g : Option PolicyGraphContext)
    (c : Option PolicyProvenanceContext)
    → (if_provenance spec c (bound_privileged spec action g) ≡ none) ↔ (
        (g ≡ none)
        × ((p : PolicyProvenanceContext) × (c ≡ some p)
            × ((p.contains_untrusted_input || p.contains_unknown_input) ≡ true)))
unfolding bound_privileged provenance_rules
raises_lem action spec none none =
    (λ h. absurd (ground arith), λ (h, (p, e, k)). absurd (ground arith))
raises_lem action spec none (some p) = (
  λ h. (
    refl,
    (
      p,
      refl,
      both_lists-none _ p.contains_untrusted_input p.contains_unknown_input untrusted_rule
          unknown_rule h,
    ),
  ),
  λ (h, (p', e, k)).
      let is : p.contains_untrusted_input || p.contains_unknown_input ≡ true = ground arith in
      none-both_lists _ p.contains_untrusted_input p.contains_unknown_input untrusted_rule
        unknown_rule is,
)
raises_lem action spec (some g) none =
    (λ h. absurd (ground arith), λ (h, rest). absurd (ground arith))
raises_lem action spec (some g) (some p) = (
  λ h. absurd (
      both_lists-ne-none _ p.contains_untrusted_input p.contains_unknown_input _ untrusted_rule
        unknown_rule h),
  λ (h, rest). absurd (ground arith),
)

-- The evaluation raises, in the model as `none`, exactly when a provenance context reports untrusted
-- or unknown inputs and no graph context is given: the rules on provenance read a local variable
-- that only the rules on the graph bind.
pub evaluate_raises_iff :
    (registry : ToolRegistry) (action : AgentAction) (contract : Option IntentContract)
    (e : Evaluation) (now : ℕ)
    → (evaluate registry action contract e now ≡ none) ↔ ReadsUnbound e
unfolding evaluate matched_rules
evaluate_raises_iff registry action contract e now = (
  λ h.
      (raises_lem action (lookup_tool registry action.tool_name) e.graph_context
          e.provenance_context).0
        (decided-none action contract _ _ _ h),
  λ h.
      rw
        (
          (raises_lem action (lookup_tool registry action.tool_name) e.graph_context
                e.provenance_context).1
              h,
          evaluate,
        )
        refl,
)
