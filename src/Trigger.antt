-- ===== src/Trigger.antt =====
-- Triggers (crates/twerk-core/src/trigger/types.rs, id/trigger_id.rs).
pub mod Registry
use Prim.Native.Char.{Char, code}
use Prim.Native.String.{len}
use twerk.Prelude.{
  ℕ, String, Bool, true, false, ◌&&◌, ◌||◌, Option, none, some, ltb, ◌==◌, str_eq, if◌then◌else◌,
}
use twerk.Id.{IdError, empty, too_short, too_long, invalid_characters, all_chars}

pub data TriggerState : Type 0 where
  active paused disabled error : TriggerState

pub data TriggerVariant : Type 0 where
  cron webhook polling : TriggerVariant

pub record Trigger : Type 0 where
  pub id : String
  pub state : TriggerState
  pub variant : TriggerVariant

-- `job_id_generation_failed` holds the error; the source keeps the text that it displays as.
pub data TriggerError : Type 0 where
  not_found already_exists : String → TriggerError
  invalid_cron_expression invalid_interval invalid_timezone : String → TriggerError
  invalid_state_transition : TriggerState → TriggerState → TriggerError
  trigger_in_error_state trigger_disabled : String → TriggerError
  trigger_not_active : TriggerState → TriggerError
  invalid_configuration : String → TriggerError
  payload_too_large : ℕ → TriggerError
  unsupported_content_type authentication_failed : String → TriggerError
  polling_http_error polling_expression_error : String → TriggerError
  max_consecutive_failures : ℕ → TriggerError
  job_creation_failed job_publish_failed : String → TriggerError
  datastore_unavailable broker_unavailable : String → TriggerError
  concurrency_limit_reached : TriggerError
  job_id_generation_failed : IdError → TriggerError

-- The derived equalities.
abbrev pub same_state : TriggerState → TriggerState → Bool
same_state active active = true
same_state paused paused = true
same_state disabled disabled = true
same_state error error = true
same_state _ _ = false

abbrev pub is_polling : TriggerVariant → Bool
is_polling polling = true
is_polling _ = false

-- `TriggerId::new`; `none` is `Ok`. `is_alphanumeric` is `char::is_alphanumeric`.
unfoldable pub new_id : (is_alphanumeric : Char → Bool) → String → Option IdError
unfolding all_chars
new_id is_alphanumeric value =
    if str_eq value ""
    then some empty
    else if ltb (len value) 3
    then some (too_short (len value))
    else if ltb 64 (len value)
    then some (too_long (len value))
    else if all_chars (λ c. is_alphanumeric c || code c == b'-' || code c == b'_') value
    then none
    else some invalid_characters

-- `Display`.
unfoldable pub to_string : TriggerState → String
to_string active = "Active"
to_string paused = "Paused"
to_string disabled = "Disabled"
to_string error = "Error"

-- `match_state_variant_for_fromstr`, after `to_uppercase` of the standard library.
unfoldable pub match_state_variant_for_fromstr :
    (to_uppercase : String → String) → String → Option TriggerState
match_state_variant_for_fromstr to_uppercase s =
    let u = to_uppercase s in
    if str_eq u "ACTIVE"
    then some active
    else if str_eq u "PAUSED"
    then some paused
    else if str_eq u "DISABLED"
    then some disabled
    else if str_eq u "ERROR"
    then some error
    else none

-- `match_state_variant_for_serde`.
unfoldable pub match_state_variant_for_serde : String → Option TriggerState
match_state_variant_for_serde s =
    if str_eq s "ACTIVE" || str_eq s "Active"
    then some active
    else if str_eq s "PAUSED" || str_eq s "Paused"
    then some paused
    else if str_eq s "DISABLED" || str_eq s "Disabled"
    then some disabled
    else if str_eq s "ERROR" || str_eq s "Error"
    then some error
    else none
