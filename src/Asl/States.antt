-- ===== src/Asl/States.antt =====
-- The states that hold no machine (crates/twerk-core/src/asl/choice.rs, switch.rs, pass.rs,
-- terminal.rs, task_state.rs). A constructor of the program that validates takes the arguments as
-- the record that it returns.
use twerk.Prelude.{
  ℕ, String, Bool, false, ◌||◌, Option, none, some, List, [], ◌∷◌, ltb, leb, str_eq, is_empty,
}
use twerk.Map.{Map}
use twerk.Outcome.{Outcome, ok, refuse_if}
use twerk.Vm.{Op}
use twerk.Asl.Transition.{Transition}
use twerk.Asl.Recovery.{Retrier, Catcher}

pub record ChoiceRule : Type 0 where
  pub condition : String
  pub next : String
  pub assign : Option (Map String)

pub data ChoiceStateError : Type 0 where
  empty_choices : ChoiceStateError

pub record ChoiceState : Type 0 where
  pub choices : List ChoiceRule
  pub default : Option String

-- `ChoiceState::new`.
unfoldable pub new_choice : ChoiceState → Outcome ChoiceStateError ChoiceState
new_choice c = refuse_if (is_empty c.choices) empty_choices (ok c)

pub record SwitchCase : Type 0 where
  pub ops : List Op
  pub target : String

pub data SwitchStateError : Type 0 where
  empty_cases : SwitchStateError

pub record SwitchState : Type 0 where
  pub cases : List SwitchCase
  pub default : Option String

-- `SwitchState::new`.
unfoldable pub new_switch : SwitchState → Outcome SwitchStateError SwitchState
new_switch s = refuse_if (is_empty s.cases) empty_cases (ok s)

-- `result` is the JSON text of the value.
pub record PassState : Type 0 where
  pub result : Option String
  pub transition : Transition

pub record FailState : Type 0 where
  pub error : Option String
  pub cause : Option String

pub data TaskStateError : Type 0 where
  timeout_too_small heartbeat_too_small : ℕ → TaskStateError
  heartbeat_exceeds_timeout : (heartbeat timeout : ℕ) → TaskStateError
  empty_env_key : TaskStateError

pub record TaskState : Type 0 where
  pub image : String
  pub run : String
  pub env : Map String
  pub var : Option String
  pub timeout : Option ℕ
  pub heartbeat : Option ℕ
  pub retry : List Retrier
  pub catch : List Catcher
  pub transition : Transition

-- `env.keys().any(String::is_empty)`.
unfoldable pub has_empty_key : Map String → Bool
has_empty_key [] = false
has_empty_key ((k, v) ∷ m) = str_eq k "" || has_empty_key m

-- `if let Some(n)` with `n < 1`.
abbrev pub at_least_one :
    Option ℕ
    → (ℕ → TaskStateError)
    → Outcome TaskStateError TaskState
    → Outcome TaskStateError TaskState
at_least_one none e rest = rest
at_least_one (some n) e rest = refuse_if (ltb n 1) (e n) rest

abbrev pub heartbeat_within :
    Option ℕ → Option ℕ → Outcome TaskStateError TaskState → Outcome TaskStateError TaskState
heartbeat_within (some t) (some h) rest = refuse_if (leb t h) (heartbeat_exceeds_timeout h t) rest
heartbeat_within _ _ rest = rest

-- `TaskState::new`.
unfoldable pub new_task : TaskState → Outcome TaskStateError TaskState
unfolding has_empty_key
new_task t = refuse_if (has_empty_key t.env) empty_env_key (
    at_least_one t.timeout timeout_too_small (
      at_least_one t.heartbeat heartbeat_too_small (heartbeat_within t.timeout t.heartbeat (ok t))))
