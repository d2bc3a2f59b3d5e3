-- ===== src/Asl/Machine.antt =====
-- State machines (crates/twerk-core/src/asl/state.rs, parallel.rs, map.rs, machine.rs): the states,
-- the machines that they hold, and the validation of a machine.
pub mod Valid
use twerk.Prelude.{
  ℕ, String, Bool, true, false, not, ◌&&◌, ◌||◌, Option, none, some, List, [], ◌∷◌, ◌++◌,
  if◌then◌else◌, is_some, is_empty, F64, is_finite, is_percentage,
}
use twerk.Map.{Map, get}
use twerk.Outcome.{Outcome, ok, err, refuse_if, ◌>>=◌, ◌>>◌}
use twerk.Asl.Transition.{Transition, next, end}
use twerk.Asl.Recovery.{Retrier, Catcher}
use twerk.Asl.Wait.{WaitState}
use twerk.Asl.States.{ChoiceState, ChoiceRule, SwitchState, PassState, FailState, TaskState}

-- The fields of `State` beside its kind.
pub record StateFields : Type 0 where
  pub comment : Option String
  pub input_path : Option String
  pub output_path : Option String
  pub assign : Option (Map String)

-- The fields of `MapState` beside its machine.
pub record MapFields : Type 0 where
  pub items_path : String
  pub max_concurrency : Option ℕ
  pub transition : Transition
  pub retry : List Retrier
  pub catch : List Catcher
  pub tolerated_failure_percentage : Option F64

-- `States` is the ordered map of the named states, `Machines` a vector of machines.
mutual
  pub data StateMachine : Type 0 where
    machine :
        (comment : Option String) (start_at : String) → States → (timeout : Option ℕ) → StateMachine

  pub data States : Type 0 where
    no_states : States
    named : String → State → States → States

  pub data State : Type 0 where
    state : StateFields → StateKind → State

  pub data StateKind : Type 0 where
    task : TaskState → StateKind
    pass : PassState → StateKind
    choice : ChoiceState → StateKind
    switch : SwitchState → StateKind
    wait : WaitState → StateKind
    succeed : StateKind
    fail : FailState → StateKind
    parallel : (branches : Machines) → Transition → (fail_fast : Option Bool) → StateKind
    map : MapFields → (item_processor : StateMachine) → StateKind

  pub data Machines : Type 0 where
    no_machines : Machines
    more : StateMachine → Machines → Machines

abbrev pub is_terminal : StateKind → Bool
is_terminal succeed = true
is_terminal (fail f) = true
is_terminal _ = false

abbrev pub transition : StateKind → Option Transition
transition (task t) = some t.transition
transition (pass p) = some p.transition
transition (wait w) = some w.transition
transition (parallel branches t fail_fast) = some t
transition (map f m) = some f.transition
transition (choice c) = none
transition (switch s) = none
transition succeed = none
transition (fail f) = none

abbrev pub kind : State → StateKind
kind (state f k) = k

abbrev pub start_at : StateMachine → String
start_at (machine comment start ss timeout) = start

-- The entries of the map, in order.
unfoldable pub entries : States → Map State
entries no_states = []
entries (named name s rest) = (name, s) ∷ entries rest

unfoldable pub states : StateMachine → Map State
unfolding entries
states (machine comment start ss timeout) = entries ss

-- `contains_key`.
abbrev pub contains_key : Map State → String → Bool
contains_key m name = is_some (get m name)

pub data ParallelStateError : Type 0 where
  empty_branches : ParallelStateError

-- `ParallelState::new`.
unfoldable pub new_parallel :
    Machines → Transition → Option Bool → Outcome ParallelStateError StateKind
new_parallel no_machines t fail_fast = err empty_branches
new_parallel (more m ms) t fail_fast = ok (parallel (more m ms) t fail_fast)

pub data MapStateError : Type 0 where
  invalid_tolerated_failure_percentage : F64 → MapStateError
  non_finite_tolerated_failure_percentage : MapStateError

unfoldable pub validate_tolerance : Option F64 → Outcome MapStateError (Unit {0})
validate_tolerance none = ok tt
validate_tolerance (some p) =
    refuse_if (not (is_finite p)) non_finite_tolerated_failure_percentage
      (refuse_if (not (is_percentage p)) (invalid_tolerated_failure_percentage p) (ok tt))

-- `MapState::new`.
unfoldable pub new_map : MapFields → StateMachine → Outcome MapStateError StateKind
unfolding validate_tolerance ◌>>=◌
new_map f m = do validate_tolerance f.tolerated_failure_percentage; ok (map f m)

pub data StateMachineError : Type 0 where
  empty_states no_terminal_state : StateMachineError
  start_at_not_found : (start_at : String) → StateMachineError
  transition_target_not_found choice_target_not_found default_target_not_found :
      (from target : String) → StateMachineError

abbrev pub Errors : Type 0
Errors = List StateMachineError

-- An error that is pushed where the target is no state of the machine.
abbrev pub unless_state : Map State → String → StateMachineError → Errors
unless_state m target e = if contains_key m target then [] else e ∷ []

unfoldable pub check_start_at : Map State → String → Errors
check_start_at m start = unless_state m start (start_at_not_found start)

abbrev pub check_transition : Map State → String → Option Transition → Errors
check_transition m name (some (next target)) =
    unless_state m target (transition_target_not_found name target)
check_transition m name _ = []

-- The loop of `check_transitions` over the entries, with the whole map beside it.
unfoldable pub check_transitions : Map State → Map State → Errors
check_transitions m [] = []
check_transitions m ((name, s) ∷ rest) =
    check_transition m name (transition (kind s)) ++ check_transitions m rest

unfoldable pub check_rules : Map State → String → List ChoiceRule → Errors
check_rules m name [] = []
check_rules m name (rule ∷ rules) =
    unless_state m rule.next (choice_target_not_found name rule.next) ++ check_rules m name rules

abbrev pub check_default : Map State → String → Option String → Errors
check_default m name none = []
check_default m name (some target) = unless_state m target (default_target_not_found name target)

unfoldable pub check_choice : Map State → String → StateKind → Errors
unfolding check_rules
check_choice m name (choice c) = check_rules m name c.choices ++ check_default m name c.default
check_choice m name _ = []

unfoldable pub check_choice_targets : Map State → Map State → Errors
unfolding check_choice
check_choice_targets m [] = []
check_choice_targets m ((name, s) ∷ rest) =
    check_choice m name (kind s) ++ check_choice_targets m rest

abbrev pub is_end_transition : Option Transition → Bool
is_end_transition (some end) = true
is_end_transition _ = false

abbrev pub ends : StateKind → Bool
ends k = is_terminal k || is_end_transition (transition k)

unfoldable pub has_terminal : Map State → Bool
has_terminal [] = false
has_terminal ((name, s) ∷ rest) = ends (kind s) || has_terminal rest

-- `Ok(())` where there are no errors.
abbrev pub errors_found : Errors → Outcome Errors (Unit {0})
errors_found [] = ok tt
errors_found (e ∷ es) = err (e ∷ es)

unfoldable pub validate_states : Map State → String → Outcome Errors (Unit {0})
unfolding check_start_at check_transitions check_choice_targets has_terminal
validate_states [] start = err (empty_states ∷ [])
validate_states (e ∷ es) start =
    let m = e ∷ es in
    errors_found (
      check_start_at m start
      ++ (check_transitions m m
          ++ (check_choice_targets m m ++ (if has_terminal m then [] else no_terminal_state ∷ []))))

unfoldable pub validate : StateMachine → Outcome Errors (Unit {0})
unfolding states validate_states
validate m = validate_states (states m) (start_at m)
