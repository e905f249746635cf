-- ===== src/Policy/OpaClient/Exact.antt =====
-- backend/app/policies/opa_client.py: which replies the client accepts.
use mathlib.Core.Path.{subst}
use cage_agent_security.Prelude.{
  ap, ◌≡◌, ◌≢◌, ◌↔◌, refl, inl, inr, Option, none, some, List, [], ◌∷◌, arith,
}
use cage_agent_security.Prelude.Tests.{Bool-cases, Option-cases}
use cage_agent_security.Prelude.Eq.{◌==◌, string_eq, nat_eq}
use cage_agent_security.Enums.{OpaStatus}
use cage_agent_security.Policy.Rule.{MatchedRule}
use cage_agent_security.Policy.Parity.{OpaEvaluationResult}
use cage_agent_security.Policy.OpaClient.{
  Json, null, scalar, array, object, Items, nothing, item, Fields, Reply, timed_out, not_connected,
  broken, response, field_of, validate_all, opa_evaluate, read_body, read_result, read_findings,
  parsed,
}

-- Each raw finding validates, to the finding in the same place.
pub data Validated (validate : Json → Option MatchedRule) : Items → List MatchedRule → Type 0 where
  none_left : Validated validate nothing []
  one_more :
      {raw : Json} {items : Items} {finding : MatchedRule} {findings : List MatchedRule}
      → validate raw ≡ some finding
      → Validated validate items findings
      → Validated validate (item raw items) (finding ∷ findings)

-- A response with status 200 whose body has a list of findings that validate, and not an empty one.
pub record Accepted (validate : Json → Option MatchedRule) (reply : Reply)
    (findings : List MatchedRule) : Type 0 where
  pub body : Fields
  pub result : Fields
  pub raw : Items
  pub received : reply ≡ response 200 (some (object body))
  pub has_result : field_of body "result" ≡ some (object result)
  pub has_findings : field_of result "findings" ≡ some (array raw)
  pub valid : Validated validate raw findings
  pub some_finding : findings ≢ []

-- The result that carries the findings.
abbrev pub success : List MatchedRule → OpaEvaluationResult
success findings = record { status = OpaStatus.success; findings = findings; error_reason = none }

module _ (validate : Json → Option MatchedRule) where
  validated :
      (items : Items) (findings : List MatchedRule)
      → validate_all validate items ≡ some findings
      → Validated validate items findings
  unfolding validate_all
  validated nothing findings h =
      let is : [] ≡ findings = ground arith in subst (Validated validate nothing) is none_left
  validated (item raw items) findings h = elim (Option-cases (validate raw)) [
    | inl e ↦ absurd (ground arith)
    | inr (f, e) ↦ elim (Option-cases (validate_all validate items)) [
      | inl e' ↦ absurd (ground arith)
      | inr (fs, e') ↦
          let is : f ∷ fs ≡ findings = ground arith in
          subst (Validated validate (item raw items)) is (one_more e (validated items fs e'))
    ]
  ]

  validate_all_lem :
      {items : Items} {findings : List MatchedRule}
      → Validated validate items findings
      → validate_all validate items ≡ some findings
  unfolding validate_all
  validate_all_lem none_left = refl
  validate_all_lem (one_more e v) = let rest = validate_all_lem v in ground arith

  validate_all-ne-nil :
      (raw : Json) (items : Items) (findings : List MatchedRule)
      → validate_all validate (item raw items) ≡ some findings
      → findings ≢ []
  unfolding validate_all
  validate_all-ne-nil raw items findings h = ground arith

  parsed_lem :
      (o : Option (List MatchedRule)) (findings : List MatchedRule)
      → parsed validate o ≡ success findings
      → o ≡ some findings
  unfolding opa_evaluate
  parsed_lem none findings h = absurd (ground arith)
  parsed_lem (some fs) findings h = ground arith

  findings_lem :
      (found : Option Json) (findings : List MatchedRule)
      → read_findings validate found ≡ success findings
      → (raw : Items) × (found ≡ some (array raw))
        × (Validated validate raw findings × (findings ≢ []))
  unfolding opa_evaluate
  findings_lem none findings h = absurd (ground arith)
  findings_lem (some (array (item raw items))) findings h =
      let e = parsed_lem (validate_all validate (item raw items)) findings h in
      (
        item raw items,
        refl,
        (validated (item raw items) findings e, validate_all-ne-nil raw items findings e),
      )
  findings_lem (some (array nothing)) findings h = absurd (ground arith)
  findings_lem (some null) findings h = absurd (ground arith)
  findings_lem (some (scalar s)) findings h = absurd (ground arith)
  findings_lem (some (object fields)) findings h = absurd (ground arith)

  result_lem :
      (found : Option Json) (findings : List MatchedRule)
      → read_result validate found ≡ success findings
      → (fields : Fields) × (found ≡ some (object fields))
        × (read_findings validate (field_of fields "findings") ≡ success findings)
  unfolding opa_evaluate
  result_lem none findings h = absurd (ground arith)
  result_lem (some (object fields)) findings h = (fields, refl, h)
  result_lem (some null) findings h = absurd (ground arith)
  result_lem (some (scalar s)) findings h = absurd (ground arith)
  result_lem (some (array items)) findings h = absurd (ground arith)

  body_lem :
      (found : Option Json) (findings : List MatchedRule)
      → read_body validate found ≡ success findings
      → (fields : Fields) × (found ≡ some (object fields))
        × (read_result validate (field_of fields "result") ≡ success findings)
  unfolding opa_evaluate
  body_lem none findings h = absurd (ground arith)
  body_lem (some (object fields)) findings h = (fields, refl, h)
  body_lem (some null) findings h = absurd (ground arith)
  body_lem (some (scalar s)) findings h = absurd (ground arith)
  body_lem (some (array items)) findings h = absurd (ground arith)

  accepted :
      (reply : Reply) (findings : List MatchedRule)
      → opa_evaluate validate reply ≡ success findings
      → Accepted validate reply findings
  unfolding opa_evaluate
  accepted timed_out findings h = absurd (ground arith)
  accepted not_connected findings h = absurd (ground arith)
  accepted broken findings h = absurd (ground arith)
  accepted (response status found) findings h = elim (Bool-cases (status == 200)) [
    | inr other ↦ absurd (ground arith)
    | inl is ↦
        let (body, e, k) = body_lem found findings (ground arith) in
        let (result, e', k') = result_lem (field_of body "result") findings k in
        let (raw, e'', rest) = findings_lem (field_of result "findings") findings k' in
        record {
          body = body;
          result = result;
          raw = raw;
          received = ground arith;
          has_result = e';
          has_findings = e'';
          valid = rest.0;
          some_finding = rest.1;
        }
  ]

  read_valid :
      {raw : Items} {findings : List MatchedRule}
      → Validated validate raw findings
      → findings ≢ []
      → read_findings validate (some (array raw)) ≡ success findings
  unfolding opa_evaluate
  read_valid none_left ne = absurd (ne refl)
  read_valid (one_more e v) ne = ap (parsed validate) (validate_all_lem (one_more e v))

  -- The client reports success with a list of findings exactly if the response has status 200 and a
  -- body with a result with a list of findings, each of which validates, in the same order, and the
  -- list is not empty.
  pub opa_success_iff :
      (reply : Reply) (findings : List MatchedRule)
      → (opa_evaluate validate reply ≡ success findings) ↔ Accepted validate reply findings
  unfolding opa_evaluate
  opa_success_iff reply findings = (
    λ h. accepted reply findings h,
    λ a.
        rw (a.received, opa_evaluate, a.has_result, a.has_findings)
          (read_valid a.valid a.some_finding),
  )
