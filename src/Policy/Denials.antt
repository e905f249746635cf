-- ===== src/Policy/Denials.antt =====
-- backend/app/policies/rules.py: when each group of rules denies, and when `evaluate` does.
use cage_agent_security.Prelude.{
  ℕ, ◌≡◌, refl, sym, ap, ◌∙◌, inl, inr, Bool, true, false, not, ◌||◌, ◌&&◌, Option, none, some,
  List, [], ◌∷◌, ◌++◌, arith,
}
use cage_agent_security.Prelude.Tests.{Bool-cases}
use cage_agent_security.Prelude.Lists.{any}
use cage_agent_security.Prelude.Eq.{◌==◌, string_eq}
use cage_agent_security.Enums.{PolicyDecision, GraphAnalysisStatus, TrajectoryStatus}
use cage_agent_security.Enums.Same.{
  policy_decision_eq, graph_analysis_status_eq, trajectory_status_eq,
}
use cage_agent_security.Action.{AgentAction}
use cage_agent_security.Intent.{IntentContract}
use cage_agent_security.Registry.{ToolRegistry, ToolSpec, lookup_tool}
use cage_agent_security.Policy.Contexts.{
  PolicyGraphContext, PolicyProvenanceContext, PolicyTrajectoryContext,
}
use cage_agent_security.Policy.Rule.{MatchedRule, SecurityDecision, most_severe}
use cage_agent_security.Policy.Severity.{denies, denies-append, denies-when, most_severe-denies}
use cage_agent_security.Policy.RuntimeRules.{
  runtime_rules, graph_rules, graph_status_rules, has_sensitive_data, has_sensitive_ancestor,
}
use cage_agent_security.Policy.DataRules.{
  provenance_rules, egress_rules, provenance_failed, when_both, both_lists,
}
use cage_agent_security.Policy.TrajectoryRules.{trajectory_rules, flagship_rules, stopped_rule}
use cage_agent_security.Policy.Evaluator.{
  Evaluation, evaluate, matched_rules, rules_before, rules_after, with_baseline, resolve, around,
  decided, if_provenance,
}

ruleset denials = (denies-append, denies-when)

-- Rule B is the only runtime rule that denies.
pub runtime-denies :
    (registry : ToolRegistry) (action : AgentAction)
    → denies (runtime_rules registry action) ≡ (
        has_sensitive_data registry action && (lookup_tool registry action.tool_name).external_sink)
unfolding runtime_rules
runtime-denies registry action = simp denials (ground arith)

graph_status-denies :
    (status : GraphAnalysisStatus)
    → denies (graph_status_rules status) ≡ not (status == GraphAnalysisStatus.success)
unfolding graph_status_rules denies any
graph_status-denies status = ground arith

pub graph-denies :
    (spec : ToolSpec) (action : AgentAction) (graph : PolicyGraphContext)
    → denies (graph_rules spec action graph) ≡ (
        not (graph.analysis_status == GraphAnalysisStatus.success)
        || (graph.analysis_complete && (spec.external_sink && has_sensitive_ancestor graph)))
unfolding graph_rules
graph-denies spec action graph = simp (denials, graph_status-denies) (ground arith)

pub egress-denies :
    (spec : ToolSpec) (p : PolicyProvenanceContext)
    → denies (egress_rules spec p) ≡ (
        provenance_failed p
        || (spec.external_sink
            && ((spec.requires_tracked_inputs
                  && (p.payload_binding_required && not p.payload_binding_satisfied))
                || (p.contains_credential_input || p.contains_sensitive_input))))
unfolding egress_rules
egress-denies spec p = simp denials (ground arith)

stopped_deny :
    (t : PolicyTrajectoryContext) → (stopped_rule t.analysis_status).decision ≡ PolicyDecision.deny
unfolding stopped_rule
stopped_deny t = ground arith

pub trajectory-denies :
    (t : PolicyTrajectoryContext)
    → denies (trajectory_rules t) ≡ (
        t.trajectory_status == TrajectoryStatus.quarantined
        || (t.trajectory_status == TrajectoryStatus.aborted
            || (not t.analysis_complete
                || (t.untrusted_path_to_sensitive_egress
                    || ((t.unauthorized_authority_expansion_attempted
                          && t.untrusted_path_to_current_action)
                        || t.sensitive_hop_laundering_detected)))))
unfolding trajectory_rules flagship_rules
trajectory-denies t = elim (Bool-cases t.analysis_complete) [
  | inl done ↦ rw done (simp denials (ground arith))
  | inr stopped ↦ rw stopped (simp denials (ground (arith, stopped_deny t)))
]

guarded-denies :
    (contains : Bool) (privileged : Option Bool) (r : MatchedRule) (rules : List MatchedRule)
    → r.decision ≡ PolicyDecision.require_approval
    → when_both contains privileged r ≡ some rules
    → denies rules ≡ false
unfolding denies any
guarded-denies false privileged r rules h e = ground arith
guarded-denies true none r rules h e = absurd (ground arith)
guarded-denies true (some b) r rules h e = ground arith

both_lists-denies :
    (xs ys : Option (List MatchedRule)) (rules : List MatchedRule) (p q : Bool)
    → ((us : List MatchedRule) → xs ≡ some us → denies us ≡ p)
    → ((vs : List MatchedRule) → ys ≡ some vs → denies vs ≡ q)
    → both_lists xs ys ≡ some rules
    → denies rules ≡ (p || q)
both_lists-denies none ys rules p q f g e = absurd (ground arith)
both_lists-denies (some us) none rules p q f g e = absurd (ground arith)
both_lists-denies (some us) (some vs) rules p q f g e =
    ground (arith, f us refl, g vs refl, denies-append us vs)

or_false : (b : Bool) → (b || false) ≡ b
or_false b = ground arith

provenance-denies :
    (spec : ToolSpec) (p : PolicyProvenanceContext) (privileged : Option Bool)
    (rules : List MatchedRule)
    → provenance_rules spec p privileged ≡ some rules
    → denies rules ≡ denies (egress_rules spec p)
unfolding provenance_rules
provenance-denies spec p privileged rules e =
    both_lists-denies (some (egress_rules spec p)) _ rules (denies (egress_rules spec p)) false
      (λ us h. ground (arith, h))
      (λ vs h.
        both_lists-denies _ _ vs false false
          (λ us k. guarded-denies p.contains_untrusted_input privileged _ us refl k)
          (λ ws k. guarded-denies p.contains_unknown_input privileged _ ws refl k) h)
      e
    ∙ or_false (denies (egress_rules spec p))

-- The denials of the rules on provenance, if the context is given.
abbrev pub egress : ToolSpec → Option PolicyProvenanceContext → List MatchedRule
egress spec none = []
egress spec (some p) = egress_rules spec p

given-denies :
    (spec : ToolSpec) (context : Option PolicyProvenanceContext) (privileged : Option Bool)
    (rules : List MatchedRule)
    → if_provenance spec context privileged ≡ some rules
    → denies rules ≡ denies (egress spec context)
unfolding denies any
given-denies spec none privileged rules e = ground arith
given-denies spec (some p) privileged rules e = provenance-denies spec p privileged rules e

baseline-denies :
    (action : AgentAction) (contract : Option IntentContract) (rules : List MatchedRule)
    → ((with_baseline action contract rules).decision == PolicyDecision.deny) ≡ denies rules
unfolding with_baseline resolve most_severe denies any
baseline-denies action contract [] = refl
baseline-denies action contract (r ∷ rs) = most_severe-denies r rs

module _ (registry : ToolRegistry) (action : AgentAction) (contract : Option IntentContract)
    (e : Evaluation) (now : ℕ) where
  -- Every list of rules that the code collects.
  abbrev pub collected : List MatchedRule
  collected =
      let spec = lookup_tool registry action.tool_name in
      rules_before registry action contract e now
      ++ (egress spec e.provenance_context ++ rules_after e)

  around-denies :
      (o : Option (List MatchedRule)) (d : SecurityDecision) (q : Bool)
      → ((rules : List MatchedRule) → o ≡ some rules → denies rules ≡ q)
      → decided action contract
          (around (rules_before registry action contract e now) o (rules_after e))
        ≡ some d
      → (d.decision == PolicyDecision.deny)
        ≡ (denies (rules_before registry action contract e now) || (q || denies (rules_after e)))
  around-denies none d q f h = absurd (ground arith)
  around-denies (some rules) d q f h =
      let before = rules_before registry action contract e now in
      let is : with_baseline action contract (before ++ (rules ++ rules_after e)) ≡ d =
        ground arith in
      ap (λ x. x.decision == PolicyDecision.deny) (sym is)
      ∙ baseline-denies action contract (before ++ (rules ++ rules_after e))
      ∙ denies-append before (rules ++ rules_after e)
      ∙ ap (λ x. denies before || x)
          (denies-append rules (rules_after e)
            ∙ ap (λ x. x || denies (rules_after e)) (f rules refl))

  -- A decision denies exactly when a rule of one of the groups does.
  pub evaluate-denies :
      (d : SecurityDecision)
      → evaluate registry action contract e now ≡ some d
      → (d.decision == PolicyDecision.deny) ≡ denies collected
  unfolding evaluate matched_rules
  evaluate-denies d h =
      let spec = lookup_tool registry action.tool_name in
      around-denies (if_provenance spec e.provenance_context _) d
        (denies (egress spec e.provenance_context))
        (λ rules k. given-denies spec e.provenance_context _ rules k) h
      ∙ sym (simp denies-append refl)
