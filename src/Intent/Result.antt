-- ===== src/Intent/Result.antt =====
-- What the methods of backend/app/intent/service.py raise.
use cage_agent_security.Prelude.{◌≡◌, refl, Bool, true, false, String}

-- `authority_expansion` names the field that a request would have widened.
pub data IntentError : Type 0 where
  active_intent_collision intent_not_found inactive_intent authority_expansion :
      String → IntentError

-- A method raises, or it returns a value.
pub data Result (V : Type 0) : Type 0 where
  err : (raised : IntentError) → Result V
  ok : (value : V) → Result V

-- The statements after a call run only if the call did not raise.
infixl 5 ◌>>=◌ ◌>>◌
abbrev pub ◌>>=◌ : {V W : Type 0} (call : Result V) (statements : V → Result W) → Result W
err raised >>= statements = err raised
ok value >>= statements = statements value

abbrev pub ◌>>◌ : {W : Type 0} (check : Result (Unit {0})) (statements : Result W) → Result W
err raised >> statements = err raised
ok value >> statements = statements

-- `if failed: raise AuthorityExpansionError(...)`
abbrev pub forbid : Bool → String → Result (Unit {0})
forbid false field = ok tt
forbid true field = err (authority_expansion field)

-- A sequence that came through, split after its first call.
pub >>=-eq-ok :
    {V W : Type 0} (call : Result V) (statements : V → Result W) {last : W}
    → (call >>= statements) ≡ ok last
    → (value : V) × (call ≡ ok value) × (statements value ≡ ok last)
>>=-eq-ok (err raised) statements through = cc
>>=-eq-ok (ok value) statements through = (value, refl, through)

pub forbid-eq-ok : (b : Bool) (field : String) (u : Unit {0}) → forbid b field ≡ ok u → b ≡ false
forbid-eq-ok false field u h = refl
forbid-eq-ok true field u h = cc
