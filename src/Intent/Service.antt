-- ===== src/Intent/Service.antt =====
-- backend/app/intent/service.py. The lock makes each method one step; `now` is what the clock reads,
-- and `intent_id` the fresh `uuid4()`.
pub mod Narrow
pub mod Lifecycle
pub mod Sessions
use cage_agent_security.Prelude.{
  ℕ, ◌+◌, Bool, true, false, not, ◌&&◌, String, Option, none, some, List, [], ◌∷◌,
}
use cage_agent_security.Prelude.Tests.{if◌then◌else◌, leb}
use cage_agent_security.Prelude.Eq.{◌==◌, string_eq}
use cage_agent_security.Prelude.Dict.{Dict, get, put}
use cage_agent_security.Enums.{IntentStatus}
use cage_agent_security.Enums.Same.{intent_status_eq}
use cage_agent_security.Intent.{
  IntentContract, IntentContractCreate, IntentContractNarrow, deadline_passed, is_active,
  from_create,
}
use cage_agent_security.Intent.Result.{
  Result, ok, err, IntentError, active_intent_collision, intent_not_found, inactive_intent,
}
use cage_agent_security.Intent.Narrowing.{narrow_contract}

pub record IntentService : Type 0 where
  pub intents : Dict String IntentContract
  pub session_to_intent : Dict String String

abbrev pub empty_service : IntentService
empty_service = record { intents = []; session_to_intent = [] }

unfoldable pub clear : IntentService → IntentService
clear s = empty_service

-- The contract that the session is bound to, if both lookups find it.
unfoldable pub bound_contract : IntentService → String → Option IntentContract
bound_contract s session_id = elim (get s.session_to_intent session_id) [
  | none ↦ none
  | some id ↦ get s.intents id
]

collides : Option IntentContract → ℕ → Bool
collides none now = false
collides (some existing) now = is_active existing now

store_new : IntentService → IntentContract → IntentService
store_new s contract = record {
  intents = put s.intents contract.intent_id contract;
  session_to_intent = put s.session_to_intent contract.session_id contract.intent_id;
}

unfoldable pub create_intent :
    IntentService → IntentContractCreate → String → ℕ → Result IntentContract × IntentService
unfolding collides store_new
create_intent s req intent_id now =
    if collides (bound_contract s req.session_id) now
    then (err (active_intent_collision req.session_id), s)
    else let contract = from_create req intent_id now in (ok contract, store_new s contract)

-- The dynamic expiration check.
unfoldable pub refreshed : IntentContract → ℕ → IntentContract
refreshed contract now =
    if contract.status == IntentStatus.active && deadline_passed contract.expires_at now
    then record contract { status = IntentStatus.expired; updated_at = now }
    else contract

-- `self._intents[intent_id] = contract`
abbrev pub set_intent : IntentService → String → IntentContract → IntentService
set_intent s id contract = record s { intents = put s.intents id contract }

-- A contract that has not expired is not written back, but it would be written over itself.
unfoldable pub get_intent : IntentService → String → ℕ → Option IntentContract × IntentService
get_intent s intent_id now = elim (get s.intents intent_id) [
  | none ↦ (none, s)
  | some contract ↦
      if contract.status == IntentStatus.active && deadline_passed contract.expires_at now
      then (some (refreshed contract now), set_intent s intent_id (refreshed contract now))
      else (some contract, s)
]

unfoldable pub get_intent_for_session :
    IntentService → String → ℕ → Option IntentContract × IntentService
get_intent_for_session s session_id now = elim (get s.session_to_intent session_id) [
  | none ↦ (none, s)
  | some intent_id ↦ get_intent s intent_id now
]

if_active : ℕ → Option IntentContract → Option IntentContract
if_active now none = none
if_active now (some contract) = if is_active contract now then some contract else none

-- The clock is read once more after the lookup, at `later`.
unfoldable pub get_active_intent_for_session :
    IntentService → String → ℕ → ℕ → Option IntentContract × IntentService
unfolding if_active
get_active_intent_for_session s session_id now later =
    let (found, s') = get_intent_for_session s session_id now in (if_active later found, s')

unfoldable pub revoke_intent :
    IntentService → String → String → ℕ → Result IntentContract × IntentService
revoke_intent s intent_id reason now = elim (get s.intents intent_id) [
  | none ↦ (err (intent_not_found intent_id), s)
  | some contract ↦
      let updated = record contract {
        status = IntentStatus.revoked;
        revoked_reason = some reason;
        updated_at = now;
      } in
      (ok updated, set_intent s intent_id updated)
]

write_back : IntentService → String → Result IntentContract → Result IntentContract × IntentService
write_back s intent_id (err e) = (err e, s)
write_back s intent_id (ok updated) = (ok updated, set_intent s intent_id updated)

unfoldable pub narrow_intent :
    IntentService → String → IntentContractNarrow → ℕ → Result IntentContract × IntentService
unfolding write_back
narrow_intent s intent_id narrow now = elim (get s.intents intent_id) [
  | none ↦ (err (intent_not_found intent_id), s)
  | some current ↦
      if not (is_active current now)
      then (err (inactive_intent intent_id), s)
      else write_back s intent_id (narrow_contract current narrow now)
]

unfoldable pub reserve_tool_execution : IntentService → String → ℕ → Bool × IntentService
reserve_tool_execution s intent_id now = elim (get s.intents intent_id) [
  | none ↦ (false, s)
  | some contract ↦
      if not (is_active contract now)
      then (false, s)
      else if leb contract.maximum_tool_calls contract.tool_calls_count
      then (false, s)
      else (
        true,
        set_intent s intent_id (record contract {
          tool_calls_count = contract.tool_calls_count + 1;
          updated_at = now;
        }),
      )
]
