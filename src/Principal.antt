-- ===== src/Principal.antt =====
-- backend/app/identity/principal.py: the authenticated caller. A UUID is its canonical string,
-- as everywhere in this development, so `str(uuid)` is the identity.
use cage_agent_security.Prelude.{Bool, String}

pub data PrincipalAuthenticationSource : Type 0 where
  hosting_runtime test_fixture internal_gateway dev_simulated : PrincipalAuthenticationSource

pub record AgentPrincipal : Type 0 where
  pub agent_id : String
  pub session_id : String
  pub authentication_source : PrincipalAuthenticationSource
  pub is_control_plane : Bool
