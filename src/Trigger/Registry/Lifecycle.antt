-- ===== src/Trigger/Registry/Lifecycle.antt =====
-- The life of a trigger in the registry.
use twerk.Prelude.{
  String, Bool, Bool-cases, unwrap_or, subst, ap, ◌∙◌, true, ◌≡◌, ◌≢◌, refl, sym, ◌⊎◌, inl, inr,
  Option, none, some, arith, str_eq, eq_iff,
}
use twerk.Map.{get, get-insert_cases, remove, get-insert, get-remove}
use twerk.Outcome.{ok, ◌>>=◌}
use twerk.Trigger.{
  Trigger, TriggerState, active, paused, disabled, error, TriggerVariant, cron, webhook, polling,
}
use twerk.Trigger.Registry.{
  InMemoryTriggerRegistry, new, register, unregister, set_state, fire, set_broker_available,
  set_datastore_available, is_valid_transition, apply_state_transition, may_begin, put,
  found_or_missing,
}

abbrev pub Runs : TriggerState → Type 0
Runs s = s ≢ error

-- How the state of a trigger may change: only polling triggers fail, only an active one does, and
-- only becoming active leads out of the failure.
pub data Moves : TriggerVariant → TriggerState → TriggerState → Type 0 where
  stays : {v : TriggerVariant} {s : TriggerState} → Moves v s s
  changes : {v : TriggerVariant} {s t : TriggerState} → Runs s → Runs t → Moves v s t
  fails : Moves polling active error
  resumes : Moves polling error active

valid-Moves :
    (s t : TriggerState) (v : TriggerVariant) → is_valid_transition s t v ≡ true → Moves v s t
unfolding is_valid_transition
valid-Moves active active v h = stays
valid-Moves paused paused v h = stays
valid-Moves disabled disabled v h = stays
valid-Moves error error v h = stays
valid-Moves active error polling h = fails
valid-Moves active error cron h = absurd (cc)
valid-Moves active error webhook h = absurd (cc)
valid-Moves error active polling h = resumes
valid-Moves error active cron h = absurd (cc)
valid-Moves error active webhook h = absurd (cc)
valid-Moves paused error v h = absurd (cc)
valid-Moves disabled error v h = absurd (cc)
valid-Moves error paused v h = absurd (cc)
valid-Moves error disabled v h = absurd (cc)
valid-Moves active paused v h = changes (λ e. absurd (cc)) (λ e. absurd (cc))
valid-Moves active disabled v h = changes (λ e. absurd (cc)) (λ e. absurd (cc))
valid-Moves paused active v h = changes (λ e. absurd (cc)) (λ e. absurd (cc))
valid-Moves paused disabled v h = changes (λ e. absurd (cc)) (λ e. absurd (cc))
valid-Moves disabled active v h = changes (λ e. absurd (cc)) (λ e. absurd (cc))
valid-Moves disabled paused v h = changes (λ e. absurd (cc)) (λ e. absurd (cc))

-- One operation on the registry.
pub data Step (r : InMemoryTriggerRegistry) : InMemoryTriggerRegistry → Type 0 where
  registered : (t : Trigger) {r' : InMemoryTriggerRegistry} → register t r ≡ ok r' → Step r r'
  unregistered : (id : String) {r' : InMemoryTriggerRegistry} → unregister id r ≡ ok r' → Step r r'
  state_set :
      (id : String) (s : TriggerState) {r' : InMemoryTriggerRegistry}
      → set_state id s r ≡ ok r'
      → Step r r'
  fired :
      (is_uuid : String → Bool) (uuid : String) (free : Bool) (trigger_id : String)
      → Step r (fire is_uuid uuid free trigger_id r).1
  broker_changed : (available : Bool) → Step r (set_broker_available available r)
  datastore_changed : (available : Bool) → Step r (set_datastore_available available r)

-- A trigger and what it may become.
pub record Continues (t u : Trigger) : Type 0 where
  pub id : u.id ≡ t.id
  pub variant : u.variant ≡ t.variant
  pub state : Moves t.variant t.state u.state

-- What a step leaves of a stored trigger: nothing, or the trigger of that identifier and kind.
abbrev pub Kept : InMemoryTriggerRegistry → String → Trigger → Type 0
Kept r id t =
    (get r.triggers id ≡ none) ⊎ ((u : Trigger) × (get r.triggers id ≡ some u) × Continues t u)

same-Kept :
    (r : InMemoryTriggerRegistry) (id : String) (t : Trigger)
    → get r.triggers id ≡ some t
    → Kept r id t
same-Kept r id t h = inr (t, h, record { id = refl; variant = refl; state = stays })

-- What the operations that return have done.
register_inv :
    (t : Trigger) (r : InMemoryTriggerRegistry) {r' : InMemoryTriggerRegistry}
    → register t r ≡ ok r'
    → (r' ≡ put t.id t r) × (get r.triggers t.id ≡ none) × Runs t.state
unfolding register ◌>>=◌
register_inv t r h = (ground arith, ground arith, λ e. absurd (ground arith))

unregister_inv :
    (id : String) (r : InMemoryTriggerRegistry) {r' : InMemoryTriggerRegistry}
    → unregister id r ≡ ok r'
    → r'.triggers ≡ remove r.triggers id
unfolding unregister ◌>>=◌
unregister_inv id r h = ground arith

set_state_inv :
    (id : String) (s : TriggerState) (r : InMemoryTriggerRegistry) {r' : InMemoryTriggerRegistry}
    → set_state id s r ≡ ok r'
    → (t : Trigger) × (get r.triggers id ≡ some t)
      × (r' ≡ put id (record t { state = s }) r)
      × (is_valid_transition t.state s t.variant ≡ true)
unfolding set_state apply_state_transition ◌>>=◌
set_state_inv id s r {r'} h = go (get r.triggers id) refl (ground arith)
  where
    go :
        (o : Option Trigger)
        → get r.triggers id ≡ o
        → (found_or_missing id o >>= λ t. apply_state_transition t s >>= λ u. ok (put id u r))
          ≡ ok r'
        → (t : Trigger) × (get r.triggers id ≡ some t)
          × (r' ≡ put id (record t { state = s }) r)
          × (is_valid_transition t.state s t.variant ≡ true)
    go none e p = absurd (cc)
    go (some t) e p = (t, e, ground arith, ground arith)

fire_keeps :
    (is_uuid : String → Bool) (uuid : String) (free : Bool) (trigger_id : String)
    (r : InMemoryTriggerRegistry)
    → (fire is_uuid uuid free trigger_id r).1.triggers ≡ r.triggers
unfolding fire may_begin ◌>>=◌
fire_keeps is_uuid uuid free trigger_id r = ground arith

put-Kept :
    (r : InMemoryTriggerRegistry) (k id : String) (t u : Trigger)
    → get r.triggers id ≡ some t
    → (k ≡ id → Continues t u)
    → Kept (put k u r) id t
put-Kept r k id t u h moved = elim (Bool-cases (str_eq k id)) [
  | inl e ↦ inr (u, ground (arith, get-insert r.triggers k id u), moved ((eq_iff k id).0 e))
  | inr e ↦ same-Kept (put k u r) id t (ground (arith, get-insert r.triggers k id u))
]

-- A step leaves every stored trigger stored under its identifier and with its kind, or removes it; a
-- state that it changes goes from a state other than `Error` to another, from `Active` to `Error`
-- for a polling trigger, or from `Error` to `Active` for a polling trigger.
pub Step-Kept :
    (r r' : InMemoryTriggerRegistry) (id : String) (t : Trigger)
    → Step r r'
    → get r.triggers id ≡ some t
    → Kept r' id t
Step-Kept r r' id t (registered u done) h =
    let (written, absent, _) = register_inv u r done in
    subst (λ x. Kept x id t) (sym written)
      (put-Kept r u.id id t u h (λ e. absurd (ground (arith, absent, ap (get r.triggers) e))))
Step-Kept r r' id t (unregistered k done) h = elim (Bool-cases (str_eq k id)) [
  | inl e ↦ inl (ground (arith, get-remove r.triggers k id, unregister_inv k r done))
  | inr e ↦ same-Kept r' id t (ground (arith, get-remove r.triggers k id, unregister_inv k r done))
]
Step-Kept r r' id t (state_set k s done) h =
    let (v, stored, written, valid) = set_state_inv k s r done in
    subst (λ x. Kept x id t) (sym written)
      (put-Kept r k id t (record v { state = s }) h
        (λ e.
          let same = ap (λ o. unwrap_or o t) (sym stored ∙ (ap (get r.triggers) e ∙ h)) in
          record {
            id = ap (λ x. x.id) same;
            variant = ap (λ x. x.variant) same;
            state =
                subst (λ x. Moves x.variant x.state s) same (valid-Moves v.state s v.variant valid);
          }))
Step-Kept r r' id t (fired is_uuid uuid free trigger_id) h =
    same-Kept r' id t (rw (fire_keeps is_uuid uuid free trigger_id r) h)
Step-Kept r r' id t (broker_changed available) h = same-Kept r' id t h
Step-Kept r r' id t (datastore_changed available) h = same-Kept r' id t h

-- Triggers are stored under their own identifiers, and only polling triggers are in the state of
-- failure.
pub record IsSound (r : InMemoryTriggerRegistry) : Type 0 where
  pub named : (id : String) (t : Trigger) → get r.triggers id ≡ some t → t.id ≡ id
  pub failed :
      (id : String) (t : Trigger)
      → get r.triggers id ≡ some t
      → t.state ≡ error
      → t.variant ≡ polling

same-IsSound :
    (r r' : InMemoryTriggerRegistry)
    → ((id : String) (t : Trigger) → get r'.triggers id ≡ some t → get r.triggers id ≡ some t)
    → IsSound r
    → IsSound r'
same-IsSound r r' from sound = record {
  named = λ id t h. sound.named id t (from id t h);
  failed = λ id t h. sound.failed id t (from id t h);
}

put-IsSound :
    (r : InMemoryTriggerRegistry) (id : String) (u : Trigger)
    → u.id ≡ id
    → (u.state ≡ error → u.variant ≡ polling)
    → IsSound r
    → IsSound (put id u r)
put-IsSound r id u name failing sound = record {
  named = λ k t h. elim (get-insert_cases r.triggers id k u h) [
    | inl (e, p) ↦ sym (ap (λ x. x.id) p) ∙ (name ∙ e)
    | inr old ↦ sound.named k t old
  ];
  failed = λ k t h e. elim (get-insert_cases r.triggers id k u h) [
    | inl (_, p) ↦ subst (λ x. x.state ≡ error → x.variant ≡ polling) p failing e
    | inr old ↦ sound.failed k t old e
  ];
}

into_error :
    (v : TriggerVariant) (s t : TriggerState)
    → Moves v s t
    → (s ≡ error → v ≡ polling)
    → t ≡ error
    → v ≡ polling
into_error v s _ stays old e = old e
into_error v s t (changes _ runs) old e = absurd (runs e)
into_error _ _ _ fails old e = refl
into_error _ _ _ resumes old e = refl

Step-IsSound : (r r' : InMemoryTriggerRegistry) → Step r r' → IsSound r → IsSound r'
Step-IsSound r r' (registered u done) sound =
    let (written, _, runs) = register_inv u r done in
    subst IsSound (sym written) (put-IsSound r u.id u refl (λ e. absurd (runs e)) sound)
Step-IsSound r r' (unregistered k done) sound =
    same-IsSound r r'
      (λ id t h. ground (arith, get-remove r.triggers k id, unregister_inv k r done)) sound
Step-IsSound r r' (state_set k s done) sound =
    let (v, stored, written, valid) = set_state_inv k s r done in
    subst IsSound (sym written) (
      put-IsSound r k (record v { state = s }) (sound.named k v stored)
        (into_error v.variant v.state s (valid-Moves v.state s v.variant valid)
          (sound.failed k v stored))
        sound)
Step-IsSound r r' (fired is_uuid uuid free trigger_id) sound =
    same-IsSound r r' (λ id t h. rw (sym (fire_keeps is_uuid uuid free trigger_id r)) h) sound
Step-IsSound r r' (broker_changed available) sound = same-IsSound r r' (λ id t h. h) sound
Step-IsSound r r' (datastore_changed available) sound = same-IsSound r r' (λ id t h. h) sound

-- The registries that operations lead to from an empty one.
pub data Reach : InMemoryTriggerRegistry → Type 0 where
  fresh : Reach new
  next : {r r' : InMemoryTriggerRegistry} → Reach r → Step r r' → Reach r'

-- In every registry that operations lead to from an empty one, each trigger is stored under its own
-- identifier, and a trigger in the state `Error` is a polling trigger.
pub Reach-IsSound : (r : InMemoryTriggerRegistry) → Reach r → IsSound r
unfolding get
Reach-IsSound _ fresh = record { named = λ id t h. absurd (cc); failed = λ id t h. absurd (cc) }
Reach-IsSound r (next reached step) = Step-IsSound _ r step (Reach-IsSound _ reached)
