-- ===== src/Authority.antt =====
-- backend/app/trajectory/models.py: resource scopes and authority envelopes. A frozenset is a list
-- that is read only through its membership test.
pub mod Laws
use cage_agent_security.Prelude.{
  Bool, true, false, String, Option, none, some, List, [], ◌∷◌, ◌++◌, ◌||◌, not,
}
use cage_agent_security.Prelude.Tests.{if◌then◌else◌}
use cage_agent_security.Prelude.Lists.{any}
use cage_agent_security.Prelude.Eq.{◌==◌, contains, string_eq}
use cage_agent_security.Enums.{
  AuthorityScopeMode, AuthorityViolationType, DataClassification, TargetEnvironment,
}
use cage_agent_security.Enums.Same.{target_environment_eq, data_classification_eq}

pub record ResourceAuthorityScope : Type 0 where
  pub mode : AuthorityScopeMode
  pub allowed_resources : List String

abbrev pub unconstrained_scope : ResourceAuthorityScope
unconstrained_scope = record { mode = AuthorityScopeMode.unconstrained; allowed_resources = [] }

abbrev pub allowlist_scope : List String → ResourceAuthorityScope
allowlist_scope rs = record { mode = AuthorityScopeMode.allowlist; allowed_resources = rs }

-- An empty list of an Intent Contract means no constraint.
unfoldable pub from_intent : List String → ResourceAuthorityScope
from_intent [] = unconstrained_scope
from_intent (r ∷ rs) = allowlist_scope (r ∷ rs)

in_allowlist : List String → Option String → Bool
in_allowlist rs none = true
in_allowlist rs (some r) = contains rs r || contains rs "*"

mode_allows : AuthorityScopeMode → List String → Option String → Bool
mode_allows AuthorityScopeMode.unconstrained rs target = true
mode_allows AuthorityScopeMode.allowlist rs target = in_allowlist rs target

unfoldable pub is_allowed : ResourceAuthorityScope → Option String → Bool
unfolding in_allowlist mode_allows
is_allowed scope target = mode_allows scope.mode scope.allowed_resources target

pub record AuthorityEnvelope : Type 0 where
  pub allowed_tools : List String
  pub resource_scope : ResourceAuthorityScope
  pub allowed_environments : List TargetEnvironment
  pub allowed_data_classifications : List DataClassification
  pub explanation : List String

module _ (envelope : AuthorityEnvelope) where
  unfoldable pub is_tool_allowed : String → Bool
  is_tool_allowed tool = contains envelope.allowed_tools tool

  unfoldable pub is_resource_allowed : Option String → Bool
  is_resource_allowed target = is_allowed envelope.resource_scope target

  unfoldable pub is_environment_allowed : TargetEnvironment → Bool
  is_environment_allowed env = contains envelope.allowed_environments env

  unfoldable pub is_classification_allowed : DataClassification → Bool
  is_classification_allowed c = contains envelope.allowed_data_classifications c

  -- The list with one entry if the test fails, and empty otherwise.
  abbrev pub violation_unless : Bool → AuthorityViolationType → List AuthorityViolationType
  violation_unless holds v = if holds then [] else v ∷ []

  -- The loop stops at the first classification that is not allowed.
  unfoldable pub compute_violations :
      String
      → Option String
      → TargetEnvironment
      → List DataClassification
      → List AuthorityViolationType
  compute_violations tool target env classes =
      violation_unless (is_tool_allowed tool) AuthorityViolationType.tool
      ++ (violation_unless (is_resource_allowed target) AuthorityViolationType.resource
          ++ (violation_unless (is_environment_allowed env) AuthorityViolationType.environment
              ++ violation_unless (not (any (λ c. not (is_classification_allowed c)) classes))
                  AuthorityViolationType.data_classification))
