-- ===== src/Policy/Engine/Backends.antt =====
-- backend/app/policies/engine.py: what the three backends share.
use mathlib.Core.Path.{subst}
use cage_agent_security.Prelude.{
  ℕ, ◌≡◌, ◌≢◌, ◌↔◌, refl, sym, ap, ◌∙◌, inl, inr, false, List, [], ◌∷◌, Option, none, some, arith,
}
use cage_agent_security.Prelude.Tests.{Bool-cases, Option-cases}
use cage_agent_security.Prelude.Eq.{◌==◌}
use cage_agent_security.Enums.{OpaStatus, PolicyBackend, PolicyDecision}
use cage_agent_security.Enums.Same.{opa_status_eq, policy_decision_eq}
use cage_agent_security.Action.{AgentAction}
use cage_agent_security.Intent.{IntentContract}
use cage_agent_security.Policy.Rule.{MatchedRule, SecurityDecision}
use cage_agent_security.Policy.Resolver.{resolve_decision_outcome}
use cage_agent_security.Policy.Severity.{denies, most_severe-denies}
use cage_agent_security.Policy.Evaluator.{evaluate}
use cage_agent_security.Policy.Input.{CagePolicyInput}
use cage_agent_security.Policy.Parity.{OpaEvaluationResult}
use cage_agent_security.Policy.Safety.FailClosed.{evaluate_raises_iff}
use cage_agent_security.Policy.Engine.{
  PolicyEngine, Verdict, evaluation_of, engine_evaluate, evaluate_python, evaluate_opa,
  evaluate_shadow, by_backend, with_decision, shadow_verdict,
}

some_inj : {d d' : SecurityDecision} → some d ≡ some d' → d ≡ d'
some_inj h = cc h

outcome_iff :
    (findings : List MatchedRule)
    → ((resolve_decision_outcome findings none).decision ≢ PolicyDecision.deny)
      ↔ ((findings ≢ []) × (denies findings ≡ false))
unfolding resolve_decision_outcome
outcome_iff [] = (λ ne. absurd (ne refl), λ (ne, quiet). absurd (ne refl))
outcome_iff (r ∷ rs) = ground (arith, most_severe-denies r rs)

module _ (engine : PolicyEngine) (opa : CagePolicyInput → OpaEvaluationResult)
    (input : CagePolicyInput) (action : AgentAction) (contract : Option IntentContract)
    (now : ℕ) where
  python_decides :
      (d : SecurityDecision) × (evaluate engine.tool_registry action contract
          (evaluation_of input)
          now
        ≡ some d)
  unfolding evaluation_of
  python_decides =
      elim (Option-cases
        (evaluate engine.tool_registry action contract (evaluation_of input) now)) [
          | inr found ↦ found
          | inl e ↦
              let (bad, rest) =
                (evaluate_raises_iff engine.tool_registry action contract (evaluation_of input)
                    now).0
                  e in
              absurd (ground arith)
        ]

  -- The Python evaluator decides something other than DENY.
  abbrev pub EvaluatorPermits : Type 0
  EvaluatorPermits =
      (d : SecurityDecision) × (evaluate engine.tool_registry action contract (evaluation_of input)
          now
        ≡ some d)
      × (d.decision ≢ PolicyDecision.deny)

  -- OPA answered with success and with findings, of which none is a DENY.
  abbrev pub OpaPermits : Type 0
  OpaPermits =
      ((opa input).status ≡ OpaStatus.success)
      × ((opa input).findings ≢ [])
      × (denies (opa input).findings ≡ false)

  -- What must permit an action on a backend. SHADOW asks OPA only for an answer.
  abbrev pub Permitted : PolicyBackend → Type 0
  Permitted PolicyBackend.python = EvaluatorPermits
  Permitted PolicyBackend.opa = OpaPermits
  Permitted PolicyBackend.shadow = ((opa input).status ≡ OpaStatus.success) × EvaluatorPermits

  evaluator_iff :
      (d : SecurityDecision)
      → evaluate engine.tool_registry action contract (evaluation_of input) now ≡ some d
      → (d.decision ≢ PolicyDecision.deny) ↔ EvaluatorPermits
  evaluator_iff d e = (
    λ ne. (d, e, ne),
    λ (d', e', ne). subst (λ x. x.decision ≢ PolicyDecision.deny) (some_inj (sym e' ∙ e)) ne,
  )

  opa_iff :
      ((evaluate_opa engine opa input action contract).0.decision ≢ PolicyDecision.deny)
      ↔ OpaPermits
  unfolding evaluate_opa
  opa_iff = elim (Bool-cases ((opa input).status == OpaStatus.success)) [
    | inr failed ↦
        rw (failed, evaluate_opa)
          (λ ne. absurd (ne refl), λ (ok, answered, quiet). absurd (ground (arith, failed, ok)))
    | inl fine ↦
        let by_findings = outcome_iff (opa input).findings in
        rw (fine, evaluate_opa)
          (
            λ ne.
                let (answered, quiet) = by_findings.0 ne in (ground (arith, fine), answered, quiet),
            λ (ok, answered, quiet). by_findings.1 (answered, quiet),
          )
  ]

  shadow_iff :
      (d : SecurityDecision)
      → evaluate engine.tool_registry action contract (evaluation_of input) now ≡ some d
      → ((shadow_verdict engine opa action contract (opa input) d).0.decision ≢ PolicyDecision.deny)
        ↔ Permitted PolicyBackend.shadow
  unfolding evaluate_shadow
  shadow_iff d e = elim (Bool-cases ((opa input).status == OpaStatus.success)) [
    | inr failed ↦
        rw (failed, shadow_verdict)
          (λ ne. absurd (ne refl), λ (ok, rest). absurd (ground (arith, failed, ok)))
    | inl fine ↦
        rw (fine, shadow_verdict)
          (
            λ ne. (ground (arith, fine), (evaluator_iff d e).0 ne),
            λ (ok, rest). (evaluator_iff d e).1 rest,
          )
  ]

  permits_on :
      (b : PolicyBackend)
      → (v : Verdict) × (by_backend engine opa b input action contract now ≡ some v)
        × ((v.0.decision ≢ PolicyDecision.deny) ↔ Permitted b)
  unfolding engine_evaluate evaluate_python evaluate_shadow
  permits_on PolicyBackend.python =
      let (d, e) = python_decides in (_, ap (with_decision engine opa _) e, evaluator_iff d e)
  permits_on PolicyBackend.opa = (_, refl, opa_iff)
  permits_on PolicyBackend.shadow =
      let (d, e) = python_decides in
      (
        _,
        ap (with_decision engine opa (shadow_verdict engine opa action contract (opa input))) e,
        shadow_iff d e,
      )

  -- The engine returns a verdict for every input, and it is not DENY exactly if: on PYTHON, the
  -- evaluator decides something else than DENY; on OPA, the service answers with success and with at
  -- least one finding, none of them a DENY; on SHADOW, the service answers with success, whatever it
  -- finds, and the evaluator decides something else than DENY.
  pub engine_permits_iff :
      (v : Verdict) × (engine_evaluate engine opa input action contract now ≡ some v)
      × ((v.0.decision ≢ PolicyDecision.deny) ↔ Permitted engine.backend)
  unfolding engine_evaluate
  engine_permits_iff = permits_on engine.backend

  -- On the SHADOW backend, if OPA answered with success, the verdict has the decision, the reason,
  -- the rules, the risk and the approval flag of the Python evaluator on the same input, whatever
  -- OPA found.
  pub shadow_keeps_python :
      (v : Verdict) (d : SecurityDecision)
      → engine.backend ≡ PolicyBackend.shadow
      → (opa input).status ≡ OpaStatus.success
      → evaluate engine.tool_registry action contract (evaluation_of input) now ≡ some d
      → engine_evaluate engine opa input action contract now ≡ some v
      → (v.0.decision ≡ d.decision)
        × ((v.0.reason ≡ d.reason)
            × ((v.0.matched_rules ≡ d.matched_rules)
                × ((v.0.risk_score ≡ d.risk_score)
                    × (v.0.requires_human_approval ≡ d.requires_human_approval))))
  unfolding engine_evaluate evaluate_shadow
  shadow_keeps_python v d shadow fine e h =
      let at : by_backend engine opa PolicyBackend.shadow input action contract now ≡ some v =
        ap (λ b. by_backend engine opa b input action contract now) (sym shadow) ∙ h in
      let is : some (shadow_verdict engine opa action contract (opa input) d) ≡ some v =
        ap (with_decision engine opa (shadow_verdict engine opa action contract (opa input)))
          (sym e)
        ∙ at in
      ground arith
