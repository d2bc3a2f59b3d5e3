-- ===== src/Asl/Dispatch/Formed.antt =====
-- What the constructors of the states accept, and that they return what they were given.
use twerk.Prelude.{
  ℕ, String, ◌≡◌, refl, ap, ◌≢◌, ◌↔◌, ◌⊎◌, inl, inr, ◌≤◌, ◌<◌, Bool, true, false, not, Option, none,
  some, List, [], ◌∷◌, is_empty, arith, ltb, leb, eq_iff, F64, is_finite, is_percentage,
}
use twerk.Map.{Map}
use twerk.Outcome.{Outcome, ok, err, refuse_if, map_ok, map_err, ◌>>=◌}
use twerk.Asl.Transition.{Transition}
use twerk.Asl.States.{
  ChoiceState, new_choice, SwitchState, new_switch, TaskState, new_task, has_empty_key,
  at_least_one, heartbeat_within, TaskStateError,
}
use twerk.Asl.Machine.{
  StateMachine, task, choice, switch, parallel, map, Machines, no_machines, more, new_parallel,
  MapFields, new_map, validate_tolerance, states, start_at, validate, Errors,
}
use twerk.Asl.Machine.Valid.{AreValid, validate_iff}
use twerk.Asl.Dispatch.{
  task_arm, build_task_arm, build_choice_arm, build_switch_arm, build_parallel_arm, parallel_arm,
  build_map_arm, map_arm, into_option, from_option, validate_machine,
}

-- A construction that returns `x` where `W` holds, and fails where it does not.
abbrev pub Rebuilds {ℓ} : {E : Type 0} {A : Type ℓ} → Outcome E A → A → Type 0 → Type ℓ
Rebuilds {E = E} r x W = ((r ≡ ok x) × W) ⊎ ((e : E) × (r ≡ err e) × ¬ W)

module _ {E A : Type 0} where
  pub Rebuilds-refuse :
      (b : Bool) (e : E) (rest : Outcome E A) (x : A) {V W : Type 0}
      → (b ≡ false) ↔ V
      → Rebuilds rest x W
      → Rebuilds (refuse_if b e rest) x (V × W)
  Rebuilds-refuse true e rest x v r = inr (e, refl, λ (p, w). absurd (cc (v.1 p)))
  Rebuilds-refuse false e rest x v (inl (p, w)) = inl (p, (v.0 refl, w))
  Rebuilds-refuse false e rest x v (inr (f, p, n)) = inr (f, p, λ (q, w). n w)

  pub Rebuilds-map_ok :
      {B : Type 0} (f : A → B) (r : Outcome E A) (x : A) {W : Type 0}
      → Rebuilds r x W
      → Rebuilds (map_ok f r) (f x) W
  Rebuilds-map_ok f r x (inl (p, w)) = inl (ap (map_ok f) p, w)
  Rebuilds-map_ok f r x (inr (e, p, n)) = inr (e, ap (map_ok f) p, n)

  pub Rebuilds-map_err :
      {F : Type 0} (f : E → F) (r : Outcome E A) (x : A) {W : Type 0}
      → Rebuilds r x W
      → Rebuilds (map_err f r) x W
  Rebuilds-map_err f r x (inl (p, w)) = inl (ap (map_err f) p, w)
  Rebuilds-map_err f r x (inr (e, p, n)) = inr (f e, ap (map_err f) p, n)

  -- One after the other.
  pub Rebuilds-bind :
      {B : Type 0} (r : Outcome E A) (f : A → Outcome E B) (x : A) (y : B) {V W : Type 0}
      → Rebuilds r x V
      → Rebuilds (f x) y W
      → Rebuilds (r >>= f) y (V × W)
  unfolding ◌>>=◌
  Rebuilds-bind r f x y (inl (p, v)) (inl (q, w)) = inl (rw p q, (v, w))
  Rebuilds-bind r f x y (inl (p, v)) (inr (e, q, n)) = inr (e, rw p q, λ (a, b). n b)
  Rebuilds-bind r f x y (inr (e, p, n)) s = inr (e, rw p refl, λ (a, b). n a)

  pub Rebuilds_iff :
      (r : Outcome E A) (x y : A) {W : Type 0} → Rebuilds r x W → (r ≡ ok y) ↔ ((y ≡ x) × W)
  Rebuilds_iff r x y (inl (p, w)) = (λ q. (cc, w), λ (q, v). rw (p, q) refl)
  Rebuilds_iff r x y (inr (e, p, n)) = (λ q. absurd (cc), λ (q, w). absurd (n w))

-- No environment variable has an empty name.
abbrev pub Named : Map String → Type 0
Named [] = Unit
Named ((k, v) ∷ m) = (k ≢ "") × Named m

abbrev pub AtLeastOne : Option ℕ → Type 0
AtLeastOne none = Unit
AtLeastOne (some n) = 1 ≤ n

-- A heartbeat comes before the timeout, where there are both.
abbrev pub Within : Option ℕ → Option ℕ → Type 0
Within (some timeout) (some heartbeat) = heartbeat < timeout
Within _ _ = Unit

abbrev pub TaskFormed : TaskState → Type 0
TaskFormed t =
    Named t.env
    × (AtLeastOne t.timeout × (AtLeastOne t.heartbeat × (Within t.timeout t.heartbeat × Unit)))

abbrev pub NonEmpty : {A : Type 0} → List A → Type 0
NonEmpty [] = ⊥
NonEmpty (x ∷ xs) = Unit

abbrev pub SomeMachines : Machines → Type 0
SomeMachines no_machines = ⊥
SomeMachines (more m ms) = Unit

-- A tolerance is a percentage.
abbrev pub Tolerable : Option F64 → Type 0
Tolerable none = Unit
Tolerable (some p) = (is_finite p ≡ true) × (is_percentage p ≡ true)

NonEmpty-iff : {A : Type 0} (xs : List A) → (is_empty xs ≡ false) ↔ NonEmpty xs
NonEmpty-iff [] = (λ h. absurd (cc), λ h. absurd h)
NonEmpty-iff (x ∷ xs) = (λ h. tt, λ h. refl)

Named_iff : (m : Map String) → (has_empty_key m ≡ false) ↔ Named m
unfolding has_empty_key
Named_iff [] = (λ h. tt, λ h. refl)
Named_iff ((k, v) ∷ m) = ground (arith, eq_iff k "", Named_iff m)

trivial : {E A : Type 0} (x : A) → Rebuilds {E = E} (ok x) x Unit
trivial x = inl (refl, tt)

at_least_one-Rebuilds :
    (o : Option ℕ) (e : ℕ → TaskStateError) (rest : Outcome TaskStateError TaskState)
    (x : TaskState) {W : Type 0}
    → Rebuilds rest x W
    → Rebuilds (at_least_one o e rest) x (AtLeastOne o × W)
at_least_one-Rebuilds none e rest x (inl (p, w)) = inl (p, (tt, w))
at_least_one-Rebuilds none e rest x (inr (f, p, n)) = inr (f, p, λ (u, w). n w)
at_least_one-Rebuilds (some n) e rest x r =
    Rebuilds-refuse (ltb n 1) (e n) rest x (λ h. ground (arith, h), λ h. ground (arith, h)) r

heartbeat_within-Rebuilds :
    (t h : Option ℕ) (rest : Outcome TaskStateError TaskState) (x : TaskState) {W : Type 0}
    → Rebuilds rest x W
    → Rebuilds (heartbeat_within t h rest) x (Within t h × W)
heartbeat_within-Rebuilds (some t) (some h) rest x r =
    Rebuilds-refuse (leb t h) _ rest x (λ e. ground (arith, e), λ e. ground (arith, e)) r
heartbeat_within-Rebuilds (some t) none rest x (inl (p, w)) = inl (p, (tt, w))
heartbeat_within-Rebuilds (some t) none rest x (inr (f, p, n)) = inr (f, p, λ (u, w). n w)
heartbeat_within-Rebuilds none h rest x (inl (p, w)) = inl (p, (tt, w))
heartbeat_within-Rebuilds none h rest x (inr (f, p, n)) = inr (f, p, λ (u, w). n w)

new_task-Rebuilds : (t : TaskState) → Rebuilds (new_task t) t (TaskFormed t)
unfolding new_task
new_task-Rebuilds t = Rebuilds-refuse (has_empty_key t.env) _ _ t (Named_iff t.env) (
    at_least_one-Rebuilds t.timeout _ _ t (
      at_least_one-Rebuilds t.heartbeat _ _ t
        (heartbeat_within-Rebuilds t.timeout t.heartbeat _ t (trivial t))))

pub task_arm-Rebuilds :
    (t : TaskState) → Rebuilds (build_task_arm (task_arm t)) (task t) (TaskFormed t)
unfolding build_task_arm
task_arm-Rebuilds t =
    Rebuilds-map_err _ _ (task t) (Rebuilds-map_ok task (new_task t) t (new_task-Rebuilds t))

drop_unit :
    {E A : Type 0} (r : Outcome E A) (x : A) {V : Type 0} → Rebuilds r x (V × Unit) → Rebuilds r x V
drop_unit r x (inl (p, v)) = inl (p, v.0)
drop_unit r x (inr (e, p, n)) = inr (e, p, λ v. n (v, tt))

pub choice_arm-Rebuilds :
    (c : ChoiceState) → Rebuilds (build_choice_arm c) (choice c) (NonEmpty c.choices)
unfolding build_choice_arm new_choice
choice_arm-Rebuilds c = drop_unit _ (choice c) (
    Rebuilds-map_err _ _ (choice c) (
      Rebuilds-map_ok choice _ c
        (Rebuilds-refuse (is_empty c.choices) _ _ c (NonEmpty-iff c.choices) (trivial c))))

pub switch_arm-Rebuilds :
    (s : SwitchState) → Rebuilds (build_switch_arm s) (switch s) (NonEmpty s.cases)
unfolding new_switch
switch_arm-Rebuilds s = drop_unit _ (switch s) (
    Rebuilds-map_err _ _ (switch s) (
      Rebuilds-map_ok switch _ s
        (Rebuilds-refuse (is_empty s.cases) _ _ s (NonEmpty-iff s.cases) (trivial s))))

fail_fast-round : (f : Option Bool) → into_option (from_option f) ≡ f
fail_fast-round none = refl
fail_fast-round (some true) = refl
fail_fast-round (some false) = refl

pub parallel_arm-Rebuilds :
    (branches : Machines) (t : Transition) (f : Option Bool)
    → Rebuilds
        (build_parallel_arm (parallel_arm t f branches))
        (parallel branches t f)
        (SomeMachines branches)
unfolding build_parallel_arm new_parallel
parallel_arm-Rebuilds no_machines t f = inr (_, refl, λ h. h)
parallel_arm-Rebuilds (more m ms) t f =
    inl (ap (λ g. ok (parallel (more m ms) t g)) (fail_fast-round f), tt)

not_iff : (b : Bool) → (not b ≡ false) ↔ (b ≡ true)
not_iff true = (λ h. refl, λ h. refl)
not_iff false = (λ h. absurd (cc), λ h. absurd (cc))

tolerance-Rebuilds : (o : Option F64) → Rebuilds (validate_tolerance o) tt (Tolerable o)
unfolding validate_tolerance
tolerance-Rebuilds none = inl (refl, tt)
tolerance-Rebuilds (some p) = Rebuilds-refuse (not (is_finite p)) _ _ tt (not_iff (is_finite p)) (
    drop_unit _ tt
      (Rebuilds-refuse (not (is_percentage p)) _ _ tt (not_iff (is_percentage p)) (trivial tt)))

pub map_arm-Rebuilds :
    (f : MapFields) (m : StateMachine)
    → Rebuilds (build_map_arm (map_arm f m)) (map f m) (Tolerable f.tolerated_failure_percentage)
unfolding build_map_arm new_map
map_arm-Rebuilds f m = Rebuilds-map_err _ _ (map f m) (
    drop_unit _ (map f m) (
      Rebuilds-bind (validate_tolerance f.tolerated_failure_percentage) _ tt (map f m)
        (tolerance-Rebuilds f.tolerated_failure_percentage) (trivial (map f m))))

validated : (m : StateMachine) → Rebuilds (validate m) tt (AreValid (states m) (start_at m))
validated m = go (validate m) (validate_iff m)
  where
    go : {W : Type 0} (o : Outcome Errors (Unit {0})) → (o ≡ ok tt) ↔ W → Rebuilds o tt W
    go (ok u) w = inl (refl, w.0 refl)
    go (err e) w = inr (e, refl, λ v. absurd (cc (w.1 v)))

pub validate_machine-Rebuilds :
    (m : StateMachine) → Rebuilds (validate_machine m) m (AreValid (states m) (start_at m))
unfolding validate_machine
validate_machine-Rebuilds m =
    Rebuilds-map_err _ _ m (Rebuilds-map_ok (λ done. m) (validate m) tt (validated m))
