-- ===== src/Services/DelegationService/Revalidation/Verdicts.antt =====
-- backend/app/delegation/service.py: how the checks of `resolve_delegation_approval` end.
use cage_agent_security.Prelude.{Bool, true, false, String, Option, none, some, List, [], ◌∷◌}
use cage_agent_security.Prelude.Tests.{if◌then◌else◌}
use cage_agent_security.Prelude.Eq.{◌==◌, string_eq}
use cage_agent_security.Enums.Same.{
  delegation_status_eq, trajectory_status_eq, target_environment_eq, data_classification_eq,
}
use cage_agent_security.Intent.{IntentContract}
use cage_agent_security.Delegation.Models.{DelegationGrant}
use cage_agent_security.Policy.Rule.{Part}

-- A refusal's status, rule and reason.
pub record Refusal : Type 0 where
  pub status : String
  pub rule : String
  pub reason : List Part

abbrev pub stale : String → Refusal
stale reason = record {
  status = "STALE_AUTHORITY";
  rule = "RULE_DELEGATION_APPROVAL_STALE_AUTHORITY";
  reason = Part.text reason ∷ [];
}

-- The reason names a grant or a value between two texts.
abbrev pub stale_at : String → Part → String → Refusal
stale_at before value after = record {
  status = "STALE_AUTHORITY";
  rule = "RULE_DELEGATION_APPROVAL_STALE_AUTHORITY";
  reason = Part.text before ∷ value ∷ Part.text after ∷ [];
}

-- Whether a return comes after `del self._pending_approvals[request_id]`.
pub data Checkpoint : Type 0 where
  del keep : Checkpoint

-- How the checks end: at the first that fails, or with the contract and the parent to issue from.
pub data Verdict : Type 0 where
  refused : Checkpoint → Refusal → Verdict
  approved : IntentContract → Option DelegationGrant → Verdict

-- `if not holds: del ...; return ...`, or without the `del`.
unfoldable pub require : Bool → Checkpoint → Refusal → Verdict → Verdict
require holds checkpoint refusal rest = if holds then rest else refused checkpoint refusal

-- `a == b`, where one is `None` if it is not given.
abbrev pub same_option : Option String → Option String → Bool
same_option none none = true
same_option none (some b) = false
same_option (some a) none = false
same_option (some a) (some b) = a == b
