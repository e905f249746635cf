-- ===== src/Tests/Opa.antt =====
-- backend/app/policies/opa_client.py at a concrete reply.
use cage_agent_security.Prelude.{◌≡◌, ◌↔◌, refl, none, some, Option, [], ◌∷◌}
use cage_agent_security.Prelude.Eq.{string_eq}
use cage_agent_security.Enums.{OpaStatus, PolicyDecision}
use cage_agent_security.Policy.Rule.{MatchedRule, rule}
use cage_agent_security.Policy.OpaClient.{
  Json, null, scalar, array, object, nothing, item, bare, field, Reply, response, field_of,
  validate_all, opa_evaluate,
}
use cage_agent_security.Policy.OpaClient.Exact.{Accepted, success, opa_success_iff}

abbrev a_rule : MatchedRule
a_rule = rule "RULE_A" PolicyDecision.deny "a" 50

abbrev scalars : Json → Option MatchedRule
scalars (scalar s) = some a_rule
scalars null = none
scalars (array items) = none
scalars (object fields) = none

abbrev reply_with : Json → Reply
reply_with findings =
    response 200 (some (object (field "result" (object (field "findings" findings bare)) bare)))

reply_accepted :
    opa_evaluate scalars (reply_with (array (item (scalar "x") nothing))) ≡ success (a_rule ∷ [])
unfolding opa_evaluate field_of validate_all
reply_accepted = refl

no_finding_fails :
    (opa_evaluate scalars (reply_with (array nothing))).status ≡ OpaStatus.invalid_response
unfolding opa_evaluate field_of
no_finding_fails = refl

opa_success_iff_example :
    (opa_evaluate scalars (reply_with (array (item (scalar "x") nothing))) ≡ success (a_rule ∷ []))
    ↔ Accepted scalars (reply_with (array (item (scalar "x") nothing))) (a_rule ∷ [])
opa_success_iff_example =
    opa_success_iff scalars (reply_with (array (item (scalar "x") nothing))) (a_rule ∷ [])
