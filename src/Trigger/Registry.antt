-- ===== src/Trigger/Registry.antt =====
-- The in-memory registry of triggers (crates/twerk-core/src/trigger/in_memory.rs). An operation that
-- fails has written nothing, so only what it returns is its result; `fire` counts before it fails.
pub mod Lifecycle
pub mod Firing
use twerk.Prelude.{
  ℕ, String, Bool, true, false, ◌&&◌, ◌||◌, Option, none, some, List, keep, ◌+◌, ◌%◌, not, is_some,
  if◌then◌else◌,
}
use twerk.Map.{Map, get, insert, remove, values}
use twerk.Id.{IdError, validate_job_id}
use twerk.Outcome.{Outcome, ok, err, ◌>>=◌, ◌>>◌, refuse_if}
use twerk.Trigger.{
  TriggerState, active, paused, disabled, error, TriggerVariant, Trigger, TriggerError, not_found,
  already_exists, invalid_state_transition, trigger_in_error_state, trigger_disabled,
  trigger_not_active, invalid_configuration, datastore_unavailable, broker_unavailable,
  concurrency_limit_reached, job_id_generation_failed, same_state, is_polling,
}

-- The semaphore is not here: whether it has a permit is an argument of `fire`.
pub record InMemoryTriggerRegistry : Type 0 where
  pub triggers : Map Trigger
  pub fire_count : ℕ
  pub broker_available : Bool
  pub datastore_available : Bool

abbrev pub Result : Type 0 → Type 0
Result A = Outcome TriggerError A

abbrev pub new : InMemoryTriggerRegistry
new = record {
  triggers = List.[];
  fire_count = 0;
  broker_available = true;
  datastore_available = true;
}

abbrev pub set_broker_available : Bool → InMemoryTriggerRegistry → InMemoryTriggerRegistry
set_broker_available available r = record r { broker_available = available }

abbrev pub set_datastore_available : Bool → InMemoryTriggerRegistry → InMemoryTriggerRegistry
set_datastore_available available r = record r { datastore_available = available }

abbrev pub check_datastore_available : InMemoryTriggerRegistry → Result (Unit {0})
check_datastore_available r =
    refuse_if (not r.datastore_available) (datastore_unavailable "connection refused") (ok tt)

abbrev pub check_broker_available : InMemoryTriggerRegistry → Result (Unit {0})
check_broker_available r =
    refuse_if (not r.broker_available) (broker_unavailable "connection refused") (ok tt)

-- `try_acquire` with its error.
abbrev pub acquire_concurrency_permit : Bool → Result (Unit {0})
acquire_concurrency_permit free = refuse_if (not free) concurrency_limit_reached (ok tt)

abbrev pub found_or_missing : String → Option Trigger → Result Trigger
found_or_missing id none = err (not_found id)
found_or_missing id (some t) = ok t

abbrev pub get_trigger : String → InMemoryTriggerRegistry → Result Trigger
get_trigger id r = found_or_missing id (get r.triggers id)

abbrev pub check_fires : String → TriggerState → Result (Unit {0})
check_fires id active = ok tt
check_fires id paused = err (trigger_not_active paused)
check_fires id disabled = err (trigger_disabled id)
check_fires id error = err (trigger_in_error_state id)

abbrev pub validate_trigger_for_fire : Trigger → Result (Unit {0})
validate_trigger_for_fire t = check_fires t.id t.state

abbrev pub check_starts : TriggerState → Result (Unit {0})
check_starts active = ok tt
check_starts paused = ok tt
check_starts disabled = err (invalid_configuration "new triggers cannot start in Disabled state")
check_starts error = err (invalid_configuration "new triggers cannot start in Error state")

abbrev pub validate_trigger_for_registration : Trigger → Result (Unit {0})
validate_trigger_for_registration t = check_starts t.state

-- `matches!((from, variant), (Active | Error, Polling))`.
abbrev pub may_fail : TriggerState → TriggerVariant → Bool
may_fail from variant = (same_state from active || same_state from error) && is_polling variant

unfoldable pub is_valid_transition : TriggerState → TriggerState → TriggerVariant → Bool
is_valid_transition from to variant =
    if same_state from to
    then true
    else if same_state to error
    then may_fail from variant
    else if same_state from error
    then same_state to active && is_polling variant
    else true

unfoldable pub apply_state_transition : Trigger → TriggerState → Result Trigger
unfolding is_valid_transition
apply_state_transition t new_state =
    if not (is_valid_transition t.state new_state t.variant)
    then err (invalid_state_transition t.state new_state)
    else ok (record t { state = new_state })

abbrev pub put : String → Trigger → InMemoryTriggerRegistry → InMemoryTriggerRegistry
put id t r = record r { triggers = insert r.triggers id t }

unfoldable pub register : Trigger → InMemoryTriggerRegistry → Result InMemoryTriggerRegistry
register t r =
    check_datastore_available r
    >> refuse_if (is_some (get r.triggers t.id)) (already_exists t.id) (ok tt)
    >> validate_trigger_for_registration t
    >> ok (put t.id t r)

unfoldable pub unregister : String → InMemoryTriggerRegistry → Result InMemoryTriggerRegistry
unregister id r =
    check_datastore_available r
    >> refuse_if (not (is_some (get r.triggers id))) (not_found id)
        (ok (record r { triggers = remove r.triggers id }))

unfoldable pub set_state :
    String → TriggerState → InMemoryTriggerRegistry → Result InMemoryTriggerRegistry
unfolding apply_state_transition
set_state id new_state r = check_datastore_available r >> get_trigger id r >>= λ t.
    apply_state_transition t new_state >>= λ u. ok (put id u r)

-- `get` of the trait.
abbrev pub lookup : String → InMemoryTriggerRegistry → Result (Option Trigger)
lookup id r = check_datastore_available r >> ok (get r.triggers id)

abbrev pub list : InMemoryTriggerRegistry → Result (List Trigger)
list r = check_datastore_available r >> ok (values r.triggers)

abbrev pub list_by_state : TriggerState → InMemoryTriggerRegistry → Result (List Trigger)
list_by_state target_state r =
    check_datastore_available r
    >> ok (keep (λ t. same_state t.state target_state) (values r.triggers))

-- `AtomicUsize::fetch_add`, which wraps.
abbrev pub count_fire : InMemoryTriggerRegistry → InMemoryTriggerRegistry
count_fire r = record r { fire_count = (r.fire_count + 1) % 18446744073709551616 }

-- `JobId::new` of the new identifier.
abbrev pub job_id_of : String → Option IdError → Result String
job_id_of uuid none = ok uuid
job_id_of uuid (some e) = err (job_id_generation_failed e)

abbrev pub new_job_id : (is_uuid : String → Bool) → String → Result String
new_job_id is_uuid uuid = job_id_of uuid (validate_job_id is_uuid uuid)

-- What is checked before the counter is moved, and what is done after it.
unfoldable pub may_begin : Bool → InMemoryTriggerRegistry → Result (Unit {0})
may_begin free r =
    check_datastore_available r >> check_broker_available r >> acquire_concurrency_permit free

unfoldable pub fire_counted :
    (is_uuid : String → Bool) → String → String → InMemoryTriggerRegistry → Result String
fire_counted is_uuid uuid trigger_id r =
    get_trigger trigger_id r >>= λ t. validate_trigger_for_fire t >> new_job_id is_uuid uuid

abbrev pub after :
    (is_uuid : String → Bool)
    → String
    → String
    → InMemoryTriggerRegistry
    → Result (Unit {0})
    → Result String × InMemoryTriggerRegistry
after is_uuid uuid trigger_id r (err failure) = (err failure, r)
after is_uuid uuid trigger_id r (ok done) =
    (fire_counted is_uuid uuid trigger_id (count_fire r), count_fire r)

-- `uuid` is the text of `Uuid::new_v4()`, `is_uuid` is `Uuid::parse_str(_).is_ok()`.
unfoldable pub fire :
    (is_uuid : String → Bool) (uuid : String) (free : Bool) (trigger_id : String)
    → InMemoryTriggerRegistry
    → Result String × InMemoryTriggerRegistry
unfolding may_begin fire_counted
fire is_uuid uuid free trigger_id r = after is_uuid uuid trigger_id r (may_begin free r)
