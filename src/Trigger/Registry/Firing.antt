-- ===== src/Trigger/Registry/Firing.antt =====
-- When a trigger fires.
use twerk.Prelude.{
  String, Bool, true, false, ◌≡◌, refl, ◌↔◌, ◌∙◌, ap, sym, Option, none, some, arith,
}
use twerk.Map.{get}
use twerk.Id.{IdError, validate_job_id}
use twerk.Outcome.{ok, ◌>>=◌}
use twerk.Trigger.{Trigger, TriggerState, active, paused, disabled, error}
use twerk.Trigger.Registry.{
  InMemoryTriggerRegistry, fire, may_begin, fire_counted, count_fire, check_fires, found_or_missing,
  new_job_id, job_id_of,
}

-- What a trigger needs to fire: the two services, a permit, the trigger itself, stored and active,
-- and an identifier that is a job's.
pub record MayFire (is_uuid : String → Bool) (uuid : String) (free : Bool) (trigger_id : String)
    (r : InMemoryTriggerRegistry) : Type 0 where
  pub datastore : r.datastore_available ≡ true
  pub broker : r.broker_available ≡ true
  pub permit : free ≡ true
  pub stored : (t : Trigger) × (get r.triggers trigger_id ≡ some t) × (t.state ≡ active)
  pub valid : validate_job_id is_uuid uuid ≡ none

module _ (is_uuid : String → Bool) (uuid : String) (trigger_id : String)
    (r : InMemoryTriggerRegistry) where
  -- The trigger that is stored is active, and the identifier is a job's.
  abbrev Ready : Type 0
  Ready =
      ((t : Trigger) × (get r.triggers trigger_id ≡ some t) × (t.state ≡ active))
      × (validate_job_id is_uuid uuid ≡ none)

  identified :
      (o : Option IdError) (t : Trigger) (s : TriggerState) {job : String}
      → get r.triggers trigger_id ≡ some t
      → t.state ≡ s
      → validate_job_id is_uuid uuid ≡ o
      → (check_fires t.id s >>= λ done. job_id_of uuid o) ≡ ok job
      → Ready × (job ≡ uuid)
  unfolding ◌>>=◌
  identified none t active e p v q = (((t, e, p), v), cc)
  identified (some x) t active e p v q = absurd (cc)
  identified o t paused e p v q = absurd (cc)
  identified o t disabled e p v q = absurd (cc)
  identified o t error e p v q = absurd (cc)

  fires_counted :
      (o : Option Trigger) {job : String}
      → get r.triggers trigger_id ≡ o
      → (found_or_missing trigger_id o >>= λ t.
          check_fires t.id t.state >>= λ done. new_job_id is_uuid uuid)
        ≡ ok job
      → Ready × (job ≡ uuid)
  unfolding ◌>>=◌
  fires_counted none e h = absurd (cc)
  fires_counted (some t) e h = identified (validate_job_id is_uuid uuid) t t.state e refl refl h

  ready_fires : Ready → fire_counted is_uuid uuid trigger_id r ≡ ok uuid
  unfolding fire_counted ◌>>=◌
  ready_fires ((t, e, p), v) = rw e (rw p (rw v refl))

  fires :
      (d b p : Bool) {free : Bool} {job : String}
      → r.datastore_available ≡ d
      → r.broker_available ≡ b
      → free ≡ p
      → (fire is_uuid uuid free trigger_id r).0 ≡ ok job
      → MayFire is_uuid uuid free trigger_id r × (job ≡ uuid)
  unfolding fire may_begin fire_counted ◌>>=◌
  fires true true true {free} {job} d b p h =
      let ((stored, valid), same) = fires_counted (get r.triggers trigger_id) refl counted in
      (record { datastore = d; broker = b; permit = p; stored = stored; valid = valid }, same)
    where
      counted :
          (found_or_missing trigger_id (get r.triggers trigger_id) >>= λ t.
          check_fires t.id t.state >>= λ done. new_job_id is_uuid uuid)
          ≡ ok job
      counted = ground arith
  fires false _ _ d b p h = absurd (ground arith)
  fires true false _ d b p h = absurd (ground arith)
  fires true true false d b p h = absurd (ground arith)

-- A trigger fires and gives the job `job` exactly where the datastore and the broker are available, a
-- permit is free, the trigger is stored and active, and the new identifier, which `job` is, is
-- accepted as a job's.
pub fire_iff :
    (is_uuid : String → Bool) (uuid : String) (free : Bool) (trigger_id job : String)
    (r : InMemoryTriggerRegistry)
    → ((fire is_uuid uuid free trigger_id r).0 ≡ ok job)
      ↔ (MayFire is_uuid uuid free trigger_id r × (job ≡ uuid))
unfolding fire may_begin ◌>>=◌
fire_iff is_uuid uuid free trigger_id job r = (
  fires is_uuid uuid trigger_id r r.datastore_available r.broker_available free refl refl refl,
  λ (may, same). rw may.datastore (
      rw may.broker (
        rw may.permit (
          ready_fires is_uuid uuid trigger_id (count_fire r) (may.stored, may.valid)
          ∙ ap ok (sym same)))),
)
