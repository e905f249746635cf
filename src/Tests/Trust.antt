-- ===== src/Tests/Trust.antt =====
-- backend/app/schemas/enums.py at concrete scores.
use cage_agent_security.Prelude.{◌≡◌, refl, false, none, some}
use cage_agent_security.Prelude.Eq.{string_eq}
use cage_agent_security.Enums.{ProvenanceTrust}
use cage_agent_security.Enums.Trust.{
  normalize_to_provenance_trust, normalize-trusted_human_iff, HumanOrigin,
}

verified_human : normalize_to_provenance_trust "VERIFIED_HUMAN" none false ≡ ProvenanceTrust.unknown
unfolding normalize_to_provenance_trust
verified_human = refl

normalize-trusted_human_iff_example : HumanOrigin "VERIFIED_HUMAN" (some "FILE") false
normalize-trusted_human_iff_example =
    normalize-trusted_human_iff "VERIFIED_HUMAN" (some "FILE") false
