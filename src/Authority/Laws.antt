-- ===== src/Authority/Laws.antt =====
-- backend/app/trajectory/models.py: when an envelope has nothing to object.
use cage_agent_security.Prelude.{
  ◌≡◌, ◌↔◌, refl, ap, inl, inr, Bool, true, false, not, String, Option, List, [], ◌∷◌, arith,
}
use cage_agent_security.Prelude.Tests.{Bool-cases}
use cage_agent_security.Prelude.Lists.{any}
use cage_agent_security.Prelude.Eq.{◌==◌, contains, ==-refl}
use cage_agent_security.Enums.{DataClassification, TargetEnvironment}
use cage_agent_security.Enums.Same.{data_classification_eq}
use cage_agent_security.Authority.{
  AuthorityEnvelope, is_tool_allowed, is_resource_allowed, is_environment_allowed,
  is_classification_allowed, compute_violations,
}

none_refused :
    (p : DataClassification → Bool) (classes : List DataClassification)
    → ((c : DataClassification) → contains classes c ≡ true → p c ≡ true)
    → any (λ c. not (p c)) classes ≡ false
unfolding any contains
none_refused p [] h = refl
none_refused p (x ∷ xs) h =
    ground (arith, h x, ==-refl x, none_refused p xs (λ c k. h c (ground arith)))

refused_none :
    (p : DataClassification → Bool) (classes : List DataClassification) (c : DataClassification)
    → any (λ c. not (p c)) classes ≡ false
    → contains classes c ≡ true
    → p c ≡ true
unfolding any contains
refused_none p [] c h k = absurd (ground arith)
refused_none p (x ∷ xs) c h k = elim (Bool-cases (x == c)) [
  | inl eq ↦
      let is : x ≡ c = (data_classification_eq.equals_iff x c).0 eq in ground (arith, ap p is)
  | inr ne ↦ ground (arith, refused_none p xs c)
]

-- What an envelope allows in full.
pub record Covers (envelope : AuthorityEnvelope) (tool : String) (target : Option String)
    (env : TargetEnvironment) (classes : List DataClassification) : Type 0 where
  pub tool_allowed : is_tool_allowed envelope tool ≡ true
  pub resource_allowed : is_resource_allowed envelope target ≡ true
  pub environment_allowed : is_environment_allowed envelope env ≡ true
  pub classes_allowed :
      (c : DataClassification)
      → contains classes c ≡ true
      → is_classification_allowed envelope c ≡ true

-- An action has no violations exactly when the envelope allows its tool, its resource, its
-- environment and each of its classifications.
pub compute_violations_iff :
    (envelope : AuthorityEnvelope) (tool : String) (target : Option String)
    (env : TargetEnvironment) (classes : List DataClassification)
    → (compute_violations envelope tool target env classes ≡ [])
      ↔ Covers envelope tool target env classes
unfolding compute_violations
compute_violations_iff envelope tool target env classes = (
  λ h. record {
    tool_allowed = ground arith;
    resource_allowed = ground arith;
    environment_allowed = ground arith;
    classes_allowed =
        λ c k. refused_none (is_classification_allowed envelope) classes c (ground arith) k;
  },
  λ a.
      let quiet = none_refused (is_classification_allowed envelope) classes a.classes_allowed in
      ground (arith, a.tool_allowed, a.resource_allowed, a.environment_allowed),
)
