-- ===== src/Intent/Narrowing.antt =====
-- backend/app/intent/service.py: the checks of `narrow_intent`, one for each field, in the order of
-- the source. A check returns the value that the field has afterwards.
pub mod Sound
use cage_agent_security.Prelude.{
  ℕ, Bool, true, false, not, ◌&&◌, String, Option, none, some, List, [], ◌∷◌,
}
use cage_agent_security.Prelude.Lists.{is_empty}
use cage_agent_security.Prelude.Tests.{leb, ltb, is_some, if◌then◌else◌}
use cage_agent_security.Prelude.Eq.{HasEq, issubset, string_eq}
use cage_agent_security.Enums.Same.{target_environment_eq, data_classification_eq}
use cage_agent_security.Intent.{IntentContract, IntentContractNarrow}
use cage_agent_security.Intent.Result.{Result, ok, err, ◌>>=◌, ◌>>◌, forbid}

unfoldable pub narrow_tools : List String → Option (List String) → Result (List String)
narrow_tools current none = ok current
narrow_tools current (some new) = do
  forbid (is_empty new) "allowed_tools"
  forbid (not (issubset new current)) "allowed_tools"
  ok new

-- A field that may only lose elements.
unfoldable pub narrow_subset :
    {A : Type 0} ⦃e : HasEq A⦄ → String → List A → Option (List A) → Result (List A)
narrow_subset field current none = ok current
narrow_subset field current (some new) = do forbid (not (issubset new current)) field; ok new

-- A field that may only gain elements.
unfoldable pub narrow_superset : String → List String → Option (List String) → Result (List String)
narrow_superset field current none = ok current
narrow_superset field current (some new) = do forbid (not (issubset current new)) field; ok new

-- An empty current list is no constraint, so any list narrows it.
unfoldable pub narrow_resources : List String → Option (List String) → Result (List String)
narrow_resources current none = ok current
narrow_resources current (some new) = do
  forbid (not (is_empty current) && not (issubset new current)) "allowed_resources"
  ok new

unfoldable pub narrow_approval :
    List String → List String → Option (List String) → Result (List String)
narrow_approval current effective_allowed none = ok current
narrow_approval current effective_allowed (some new) = do
  forbid (not (issubset current new)) "requires_approval"
  forbid (not (issubset new effective_allowed)) "requires_approval"
  ok new

unfoldable pub narrow_quota : ℕ → ℕ → Option ℕ → Result ℕ
narrow_quota current used none = ok current
narrow_quota current used (some new) = do
  forbid (ltb current new) "maximum_tool_calls"
  forbid (ltb new used) "maximum_tool_calls"
  ok new

unfoldable pub narrow_delegation : Bool → Option Bool → Result Bool
narrow_delegation current none = ok current
narrow_delegation current (some new) = do forbid (not current && new) "delegation_allowed"; ok new

unfoldable pub narrow_depth : ℕ → Option ℕ → Result ℕ
narrow_depth current none = ok current
narrow_depth current (some new) = do forbid (ltb current new) "maximum_delegation_depth"; ok new

-- `current is not None and new > current`
abbrev extends : Option ℕ → ℕ → Bool
extends none new = false
extends (some current) new = ltb current new

unfoldable pub narrow_deadline : Option ℕ → Option ℕ → Bool → Result (Option ℕ)
narrow_deadline current (some new) is_set = do
  forbid (extends current new) "expires_at"
  ok (some new)
narrow_deadline current none is_set = do forbid (is_set && is_some current) "expires_at"; ok current

unfoldable pub narrow_contract : IntentContract → IntentContractNarrow → ℕ → Result IntentContract
narrow_contract current narrow now = do
  tools ← narrow_tools current.allowed_tools narrow.allowed_tools
  denied ← narrow_superset "denied_tools" current.denied_tools narrow.denied_tools
  resources ← narrow_resources current.allowed_resources narrow.allowed_resources
  denied_res ← narrow_superset "denied_resources" current.denied_resources narrow.denied_resources
  envs ←
      narrow_subset "allowed_environments" current.allowed_environments narrow.allowed_environments
  classes ←
      narrow_subset "allowed_data_classifications" current.allowed_data_classifications
        narrow.allowed_data_classifications
  approval ← narrow_approval current.requires_approval tools narrow.requires_approval
  quota ← narrow_quota current.maximum_tool_calls current.tool_calls_count narrow.maximum_tool_calls
  delegation ← narrow_delegation current.delegation_allowed narrow.delegation_allowed
  depth ← narrow_depth current.maximum_delegation_depth narrow.maximum_delegation_depth
  deadline ← narrow_deadline current.expires_at narrow.expires_at narrow.expires_at_set
  ok (record current {
    allowed_tools = tools;
    denied_tools = denied;
    allowed_resources = resources;
    denied_resources = denied_res;
    allowed_environments = envs;
    allowed_data_classifications = classes;
    requires_approval = approval;
    maximum_tool_calls = quota;
    delegation_allowed = delegation;
    maximum_delegation_depth = depth;
    expires_at = deadline;
    updated_at = now;
  })
