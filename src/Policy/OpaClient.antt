-- ===== src/Policy/OpaClient.antt =====
-- backend/app/policies/opa_client.py: how the client reads what OPA answers. The transport (httpx), the
-- decoding of JSON and the validation of one finding (pydantic) are outside: what the request comes
-- to is an argument, and `validate` a parameter.
pub mod Exact
use cage_agent_security.Prelude.{
  ℕ, ◌+◌, Bool, true, false, not, String, Option, none, some, List, [], ◌∷◌,
}
use cage_agent_security.Prelude.Tests.{if◌then◌else◌}
use cage_agent_security.Prelude.Eq.{◌==◌, string_eq, nat_eq}
use cage_agent_security.Enums.{OpaStatus}
use cage_agent_security.Policy.Rule.{MatchedRule}
use cage_agent_security.Policy.Parity.{OpaEvaluationResult}

-- A decoded document, as far as the client looks into it.
mutual
  pub data Json : Type 0 where
    null : Json
    scalar : String → Json
    array : Items → Json
    object : Fields → Json

  pub data Items : Type 0 where
    nothing : Items
    item : Json → Items → Items

  pub data Fields : Type 0 where
    bare : Fields
    field : String → Json → Fields → Fields

-- What `client.post` comes to. The body is none where decoding it raises.
pub data Reply : Type 0 where
  timed_out not_connected broken : Reply
  response : ℕ → Option Json → Reply

-- `d.get(key)`, where JSON's null and a missing key are both Python's None.
unfoldable pub field_of : Fields → String → Option Json
field_of bare key = none
field_of (field name null fields) key = if name == key then none else field_of fields key
field_of (field name value fields) key = if name == key then some value else field_of fields key

abbrev failed : OpaStatus → String → OpaEvaluationResult
failed status reason = record { status = status; findings = []; error_reason = some reason }

-- `.get` of a value that is no object raises, which ends in the last `except`.
abbrev pub transport_error : OpaEvaluationResult
transport_error = failed OpaStatus.evaluation_error "Unexpected transport error"

module _ (validate : Json → Option MatchedRule) where
  -- The loop over the raw findings, which stops at the first that is not valid.
  unfoldable pub validate_all : Items → Option (List MatchedRule)
  validate_all nothing = some []
  validate_all (item raw items) =
      let rest = validate_all items in
      elim (validate raw) [
        | none ↦ none
        | some finding ↦ elim rest [ none ↦ none | some findings ↦ some (finding ∷ findings) ]
      ]

  pub parsed : Option (List MatchedRule) → OpaEvaluationResult
  parsed none = failed OpaStatus.invalid_response "OPA finding failed schema validation"
  parsed (some findings) = record {
    status = OpaStatus.success;
    findings = findings;
    error_reason = none;
  }

  abbrev empty_list : OpaEvaluationResult
  empty_list =
      failed OpaStatus.invalid_response
        "OPA returned empty findings list. Valid evaluations must emit at least one baseline finding."

  pub read_findings : Option Json → OpaEvaluationResult
  unfolding parsed
  read_findings none = failed OpaStatus.invalid_response "OPA response missing 'findings' array."
  read_findings (some (array (item raw items))) = parsed (validate_all (item raw items))
  read_findings (some (array nothing)) = empty_list
  read_findings (some null) = empty_list
  read_findings (some (scalar s)) = empty_list
  read_findings (some (object fields)) = empty_list

  pub read_result : Option Json → OpaEvaluationResult
  unfolding read_findings
  read_result none = failed OpaStatus.invalid_response "OPA response missing 'result' wrapper."
  read_result (some (object fields)) = read_findings (field_of fields "findings")
  read_result (some null) = transport_error
  read_result (some (scalar s)) = transport_error
  read_result (some (array items)) = transport_error

  pub read_body : Option Json → OpaEvaluationResult
  unfolding read_result
  read_body none = failed OpaStatus.invalid_response "OPA returned malformed JSON"
  read_body (some (object fields)) = read_result (field_of fields "result")
  read_body (some null) = transport_error
  read_body (some (scalar s)) = transport_error
  read_body (some (array items)) = transport_error

  -- `OpaClient.evaluate`, from what the request came to. The reasons leave out what they quote.
  unfoldable pub opa_evaluate : Reply → OpaEvaluationResult
  unfolding read_body
  opa_evaluate timed_out = failed OpaStatus.timeout "OPA request timed out"
  opa_evaluate not_connected = failed OpaStatus.unavailable "OPA connection refused"
  opa_evaluate broken = transport_error
  opa_evaluate (response status body) =
      if not (status == 200)
      then failed OpaStatus.evaluation_error "OPA returned HTTP status"
      else read_body body
