-- ===== src/Asl/Dispatch.antt =====
-- The dispatch that builds a machine again from its parts (crates/twerk-core/src/eval/
-- state_dispatch.rs, state_dispatch/arms.rs, metadata.rs). The context of values is only passed on,
-- and no arm reads it: it is left out.
pub mod Formed
pub mod Identity
use twerk.Prelude.{ℕ, String, Bool, true, false, Option, none, some, List, [], ◌∷◌, F64}
use twerk.Map.{Map}
use twerk.Outcome.{Outcome, ok, err, map_ok, map_err, ◌>>=◌}
use twerk.Asl.Transition.{Transition}
use twerk.Asl.Recovery.{Retrier, Catcher}
use twerk.Asl.Wait.{WaitState}
use twerk.Asl.States.{
  ChoiceStateError, ChoiceState, new_choice, SwitchStateError, SwitchState, new_switch, PassState,
  FailState, TaskStateError, TaskState, new_task,
}
use twerk.Asl.Machine.{
  StateFields, MapFields, StateMachine, machine, States, no_states, named, State, state, StateKind,
  task, pass, choice, switch, wait, succeed, fail, parallel, map, Machines, no_machines, more,
  ParallelStateError, new_parallel, MapStateError, new_map, Errors, validate,
}

pub data StateEvalError : Type 0 where
  task_state : TaskStateError → StateEvalError
  choice_state : ChoiceStateError → StateEvalError
  parallel_state : ParallelStateError → StateEvalError
  map_state : MapStateError → StateEvalError
  switch_state : SwitchStateError → StateEvalError
  state_machine : Errors → StateEvalError

abbrev Eval : Type 0 → Type 0
Eval A = Outcome StateEvalError A

pub record TaskArmTiming : Type 0 where
  pub timeout : Option ℕ
  pub heartbeat : Option ℕ

pub record TaskArmRecovery : Type 0 where
  pub retry : List Retrier
  pub catch : List Catcher

pub record TaskArmSpec : Type 0 where
  pub image : String
  pub run : String
  pub env : Map String
  pub var : Option String
  pub timing : TaskArmTiming
  pub recovery : TaskArmRecovery
  pub transition : Transition

abbrev pub task_arm : TaskState → TaskArmSpec
task_arm t = record {
  image = t.image;
  run = t.run;
  env = t.env;
  var = t.var;
  timing = record { timeout = t.timeout; heartbeat = t.heartbeat };
  recovery = record { retry = t.retry; catch = t.catch };
  transition = t.transition;
}

unfoldable pub build_task_arm : TaskArmSpec → Eval StateKind
build_task_arm s = map_err task_state (
    map_ok task (
      new_task (record {
        image = s.image;
        run = s.run;
        env = s.env;
        var = s.var;
        timeout = s.timing.timeout;
        heartbeat = s.timing.heartbeat;
        retry = s.recovery.retry;
        catch = s.recovery.catch;
        transition = s.transition;
      })))

unfoldable pub build_choice_arm : ChoiceState → Eval StateKind
build_choice_arm c = map_err choice_state (map_ok choice (new_choice c))

abbrev pub build_switch_arm : SwitchState → Eval StateKind
build_switch_arm s = map_err switch_state (map_ok switch (new_switch s))

pub data ParallelArmFailFast : Type 0 where
  runtime_default stop_on_first_failure wait_for_all_branches : ParallelArmFailFast

abbrev pub into_option : ParallelArmFailFast → Option Bool
into_option runtime_default = none
into_option stop_on_first_failure = some true
into_option wait_for_all_branches = some false

-- `From<Option<bool>>`.
abbrev pub from_option : Option Bool → ParallelArmFailFast
from_option (some true) = stop_on_first_failure
from_option (some false) = wait_for_all_branches
from_option none = runtime_default

pub record ParallelArmSpec : Type 0 where
  pub branches : Machines
  pub transition : Transition
  pub fail_fast : ParallelArmFailFast

unfoldable pub build_parallel_arm : ParallelArmSpec → Eval StateKind
build_parallel_arm s =
    map_err parallel_state (new_parallel s.branches s.transition (into_option s.fail_fast))

abbrev pub parallel_arm : Transition → Option Bool → Machines → ParallelArmSpec
parallel_arm t fail_fast branches = record {
  branches = branches;
  transition = t;
  fail_fast = from_option fail_fast;
}

pub record MapArmExecution : Type 0 where
  pub max_concurrency : Option ℕ
  pub transition : Transition
  pub retry : List Retrier
  pub catch : List Catcher
  pub tolerance : Option F64

pub record MapArmSpec : Type 0 where
  pub items_path : String
  pub item_processor : StateMachine
  pub execution : MapArmExecution

abbrev pub map_arm : MapFields → StateMachine → MapArmSpec
map_arm f m = record {
  items_path = f.items_path;
  item_processor = m;
  execution = record {
    max_concurrency = f.max_concurrency;
    transition = f.transition;
    retry = f.retry;
    catch = f.catch;
    tolerance = f.tolerated_failure_percentage;
  };
}

unfoldable pub build_map_arm : MapArmSpec → Eval StateKind
build_map_arm s =
    let x = s.execution in
    let f : MapFields = record {
      items_path = s.items_path;
      max_concurrency = x.max_concurrency;
      transition = x.transition;
      retry = x.retry;
      catch = x.catch;
      tolerated_failure_percentage = x.tolerance;
    } in
    map_err map_state (new_map f s.item_processor)

-- `State::new`.
abbrev new_state : StateKind → State
new_state k =
    state (record { comment = none; input_path = none; output_path = none; assign = none }) k

-- `if let Some(value)`: the builder is called, and otherwise the object stays as it is.
abbrev attach : {A : Type 0} → Option A → Option A → Option A
attach old none = old
attach old (some value) = some value

abbrev attach_fields : StateFields → StateFields → StateFields
attach_fields new original = record {
  comment = attach new.comment original.comment;
  input_path = attach new.input_path original.input_path;
  output_path = attach new.output_path original.output_path;
  assign = attach new.assign original.assign;
}

unfoldable pub attach_state_metadata : State → StateFields → State
attach_state_metadata (state f k) original = state (attach_fields f original) k

abbrev new_machine : String → States → StateMachine
new_machine start ss = machine none start ss none

unfoldable pub attach_machine_metadata : StateMachine → Option String → Option ℕ → StateMachine
attach_machine_metadata (machine c start ss t) comment timeout =
    machine (attach c comment) start ss (attach t timeout)

unfoldable pub validate_machine : StateMachine → Eval StateMachine
validate_machine m = map_err state_machine (map_ok (λ done. m) (validate m))

-- The names of a machine are distinct, so that collecting the pairs gives each its own entry.
mutual
  unfolding ◌>>=◌ build_task_arm build_choice_arm build_parallel_arm build_map_arm
      attach_state_metadata attach_machine_metadata validate_machine

  pub evaluate_state : State → Eval State
  evaluate_state (state f k) =
      map_ok (λ s. attach_state_metadata s f) (map_ok new_state (evaluate_state_kind k))

  pub evaluate_states : States → Eval States
  evaluate_states no_states = ok no_states
  evaluate_states (named name s rest) = do
    s' ← evaluate_state s
    rest' ← evaluate_states rest
    ok (named name s' rest')

  pub evaluate_state_machine : StateMachine → Eval StateMachine
  evaluate_state_machine (machine comment start ss timeout) = do
    ss' ← evaluate_states ss
    validate_machine (attach_machine_metadata (new_machine start ss') comment timeout)

  pub evaluate_branches : Machines → Eval Machines
  evaluate_branches no_machines = ok no_machines
  evaluate_branches (more m ms) = do
    m' ← evaluate_state_machine m
    ms' ← evaluate_branches ms
    ok (more m' ms')

  pub evaluate_state_kind : StateKind → Eval StateKind
  evaluate_state_kind (task t) = build_task_arm (task_arm t)
  evaluate_state_kind (pass p) = ok (pass p)
  evaluate_state_kind (choice c) = build_choice_arm c
  evaluate_state_kind (switch s) = build_switch_arm s
  evaluate_state_kind (wait w) = ok (wait w)
  evaluate_state_kind succeed = ok succeed
  evaluate_state_kind (fail f) = ok (fail f)
  evaluate_state_kind (parallel branches t fail_fast) = do
    branches' ← evaluate_branches branches
    build_parallel_arm (parallel_arm t fail_fast branches')
  evaluate_state_kind (map f m) = do m' ← evaluate_state_machine m; build_map_arm (map_arm f m')
