-- ===== src/Tests/Triggers.antt =====
-- The theorems on triggers and wildcard patterns, applied to concrete values.
use twerk.Prelude.{String, true, false, ◌≡◌, refl, ◌↔◌}
use twerk.Map.{get, insert}
use twerk.Id.{validate_job_id}
use twerk.Outcome.{ok, ◌>>=◌}
use twerk.Trigger.{Trigger, active, error, polling}
use twerk.Trigger.Registry.{InMemoryTriggerRegistry, new, put, register, set_state, fire}
use twerk.Trigger.Registry.Firing.{MayFire, fire_iff}
use twerk.Trigger.Registry.Lifecycle.{
  Kept, Step-Kept, registered, state_set, IsSound, fresh, next, Reach-IsSound,
}
use twerk.Wildcard.{chars, wildcard_match}
use twerk.Wildcard.Cells.{Glob}
use twerk.Wildcard.Exact.{wildcard_match_iff}

abbrev poll : Trigger
poll = record { id = "poll-1"; state = active; variant = polling }

abbrev failed_poll : Trigger
failed_poll = record { id = "poll-1"; state = error; variant = polling }

abbrev new_job : String
new_job = "00000000-0000-0000-0000-000000000000"

abbrev one_trigger : InMemoryTriggerRegistry
one_trigger = put "poll-1" poll new

abbrev one_failed : InMemoryTriggerRegistry
one_failed = put "poll-1" failed_poll one_trigger

registers : register poll new ≡ ok one_trigger
unfolding register get insert ◌>>=◌
registers = refl

fails_once : set_state "poll-1" error one_trigger ≡ ok one_failed
unfolding set_state get insert ◌>>=◌
fails_once = refl

Step-Kept_example : Kept one_failed "poll-1" poll
unfolding get insert
Step-Kept_example =
    Step-Kept one_trigger one_failed "poll-1" poll (state_set "poll-1" error fails_once) refl

Reach-IsSound_example : IsSound one_failed
Reach-IsSound_example =
    Reach-IsSound one_failed
      (next (next fresh (registered poll registers)) (state_set "poll-1" error fails_once))

fire_iff_example :
    ((fire (λ s. true) new_job true "poll-1" one_trigger).0 ≡ ok new_job)
    ↔ (MayFire (λ s. true) new_job true "poll-1" one_trigger × (new_job ≡ new_job))
fire_iff_example = fire_iff (λ s. true) new_job true "poll-1" new_job one_trigger

fires : (fire (λ s. true) new_job true "poll-1" one_trigger).0 ≡ ok new_job
unfolding fire ◌>>=◌ get insert validate_job_id
fires = refl

no_second_star : wildcard_match "jobs.*.done" "jobs.7.failed" ≡ false
unfolding wildcard_match
no_second_star = refl

wildcard_match_iff_example :
    (wildcard_match "jobs.*.done" "jobs.7.done" ≡ true)
    ↔ Glob (chars "jobs.*.done") (chars "jobs.7.done")
wildcard_match_iff_example = wildcard_match_iff "jobs.*.done" "jobs.7.done"
