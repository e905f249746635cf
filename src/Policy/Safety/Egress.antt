-- ===== src/Policy/Safety/Egress.antt =====
-- backend/app/policies/rules.py: what may leave through a tool that is an external sink.
use cage_agent_security.Prelude.{
  ℕ, ◌≡◌, ◌≢◌, refl, ap, true, false, String, Option, some, List, arith,
}
use cage_agent_security.Prelude.Lists.{any}
use cage_agent_security.Prelude.Eq.{HasEq, contains, string_eq}
use cage_agent_security.Enums.{DataClassification, PolicyDecision}
use cage_agent_security.Enums.Same.{
  data_classification_eq, policy_decision_eq, graph_analysis_status_eq,
  provenance_analysis_status_eq, trajectory_status_eq,
}
use cage_agent_security.Action.{AgentAction}
use cage_agent_security.Intent.{IntentContract}
use cage_agent_security.Registry.{ToolRegistry, lookup_tool, get_effective_classifications}
use cage_agent_security.Policy.Contexts.{
  PolicyGraphContext, PolicyProvenanceContext, PolicyTrajectoryContext,
}
use cage_agent_security.Policy.Rule.{SecurityDecision}
use cage_agent_security.Policy.Severity.{denies}
use cage_agent_security.Policy.RuntimeRules.{
  sensitive_classifications, sensitive_ancestor_classes, has_sensitive_data, has_sensitive_ancestor,
  graph_rules,
}
use cage_agent_security.Policy.DataRules.{egress_rules}
use cage_agent_security.Policy.TrajectoryRules.{trajectory_rules}
use cage_agent_security.Policy.Evaluator.{Evaluation, evaluate}
use cage_agent_security.Policy.Denials.{
  runtime-denies, graph-denies, egress-denies, trajectory-denies,
}
use cage_agent_security.Policy.Safety.{any_of_contains, not_denied-Quiet}

-- Nothing secret goes out: not by the classifications of the action and its tool, not by its causal
-- ancestors, not by the artifacts it consumes, and not along its trajectory.
pub record CleanEgress (registry : ToolRegistry) (action : AgentAction) (e : Evaluation)
    : Type 0 where
  pub declared :
      (c : DataClassification)
      → contains
          (get_effective_classifications registry action.tool_name action.data_classifications)
          c
        ≡ true
      → (c ≢ DataClassification.secret) × (c ≢ DataClassification.credential)
  pub ancestors :
      (graph : PolicyGraphContext) (c : String)
      → e.graph_context ≡ some graph
      → graph.analysis_complete ≡ true
      → contains graph.ancestor_data_classifications c ≡ true
      → (c ≢ "SECRET")
        × ((c ≢ "CREDENTIAL") × ((c ≢ "PII") × ((c ≢ "RESTRICTED") × (c ≢ "CONFIDENTIAL"))))
  pub inputs :
      (p : PolicyProvenanceContext)
      → e.provenance_context ≡ some p
      → (p.contains_credential_input ≡ false) × (p.contains_sensitive_input ≡ false)
  pub payload :
      (p : PolicyProvenanceContext)
      → e.provenance_context ≡ some p
      → (lookup_tool registry action.tool_name).requires_tracked_inputs ≡ true
      → p.payload_binding_required ≡ true
      → p.payload_binding_satisfied ≡ true
  pub path :
      (t : PolicyTrajectoryContext)
      → e.trajectory_context ≡ some t
      → (t.untrusted_path_to_sensitive_egress ≡ false)
        × (t.sensitive_hop_laundering_detected ≡ false)

none_barred :
    {A : Type 0} ⦃e : HasEq A⦄ (banned xs : List A) (c b : A)
    → any (λ x. contains banned x) xs ≡ false
    → contains xs c ≡ true
    → contains banned b ≡ true
    → c ≢ b
none_barred banned xs c b h k bad is =
    let found = any_of_contains (λ x. contains banned x) xs c k in
    let same = ap (contains banned) is in ground arith

declared_lem :
    (registry : ToolRegistry) (action : AgentAction) (c : DataClassification)
    → has_sensitive_data registry action ≡ false
    → contains
        (get_effective_classifications registry action.tool_name action.data_classifications)
        c
      ≡ true
    → (c ≢ DataClassification.secret) × (c ≢ DataClassification.credential)
unfolding has_sensitive_data contains
declared_lem registry action c h k =
    let eff = get_effective_classifications registry action.tool_name action.data_classifications in
    (
      none_barred sensitive_classifications eff c DataClassification.secret h k refl,
      none_barred sensitive_classifications eff c DataClassification.credential h k refl,
    )

ancestors_lem :
    (graph : PolicyGraphContext) (c : String)
    → has_sensitive_ancestor graph ≡ false
    → contains graph.ancestor_data_classifications c ≡ true
    → (c ≢ "SECRET")
      × ((c ≢ "CREDENTIAL") × ((c ≢ "PII") × ((c ≢ "RESTRICTED") × (c ≢ "CONFIDENTIAL"))))
unfolding has_sensitive_ancestor contains
ancestors_lem graph c h k =
    let barred : (b : String) → contains sensitive_ancestor_classes b ≡ true → c ≢ b = λ b bad.
      none_barred sensitive_ancestor_classes graph.ancestor_data_classifications c b h k bad in
    (
      barred "SECRET" refl,
      (
        barred "CREDENTIAL" refl,
        (barred "PII" refl, (barred "RESTRICTED" refl, barred "CONFIDENTIAL" refl)),
      ),
    )

-- An action on a tool that is an external sink, whose decision is not DENY, sends out nothing
-- secret: no effective classification is SECRET or CREDENTIAL, no ancestor of a complete causal
-- analysis is sensitive, no consumed artifact is sensitive or a credential, a payload binding that
-- the tool requires is satisfied, and a complete trajectory analysis found no sensitive egress and
-- no laundering. The rest of what `evaluate` is given is arbitrary.
pub egress_is_clean :
    (registry : ToolRegistry) (action : AgentAction) (contract : Option IntentContract)
    (e : Evaluation) (now : ℕ) (d : SecurityDecision)
    → evaluate registry action contract e now ≡ some d
    → d.decision ≢ PolicyDecision.deny
    → (lookup_tool registry action.tool_name).external_sink ≡ true
    → CleanEgress registry action e
egress_is_clean registry action contract e now d h ne sink =
    let q = not_denied-Quiet registry action contract e now d h ne in
    let spec = lookup_tool registry action.tool_name in
    record {
      declared = λ c k.
          declared_lem registry action c (ground (arith, q.runtime, runtime-denies registry action))
            k;
      ancestors = λ graph c given complete k.
          let g : denies (graph_rules spec action graph) ≡ false = ground (arith, q.graph) in
          ancestors_lem graph c (ground (arith, graph-denies spec action graph)) k;
      inputs = λ p given.
          let g : denies (egress_rules spec p) ≡ false = ground (arith, q.data_flow) in
          ground (arith, egress-denies spec p);
      payload = λ p given tracked required.
          let g : denies (egress_rules spec p) ≡ false = ground (arith, q.data_flow) in
          ground (arith, egress-denies spec p);
      path = λ t given.
          let g : denies (trajectory_rules t) ≡ false = ground (arith, q.trajectory) in
          ground (arith, trajectory-denies t);
    }
