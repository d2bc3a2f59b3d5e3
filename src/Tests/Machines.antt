-- ===== src/Tests/Machines.antt =====
-- The theorems on state machines and on the expression machine, applied to concrete values.
use twerk.Prelude.{
  ◌≢◌, String, true, ◌≡◌, refl, ◌↔◌, none, some, List, [], ◌∷◌, Has, All, arith, pos, negsuc,
  checked_add,
}
use twerk.Map.{get, insert}
use twerk.Outcome.{ok, err}
use twerk.Asl.Transition.{next, end}
use twerk.Asl.Machine.{
  StateMachine, machine, no_states, named, State, state, StateFields, pass, choice, switch, succeed,
  parallel, more, no_machines, states, start_at, validate, no_terminal_state,
  transition_target_not_found,
}
use twerk.Asl.Machine.Valid.{AreValid, validate_iff}
use twerk.Asl.Graph.{reachable_set, contains, names}
use twerk.Asl.Graph.Reachable.{Reach, reachable_set_iff}
use twerk.Asl.Cycles.Walk.{IsCycle, Walk}
use twerk.Asl.Report.{ValidationReport, analyze}
use twerk.Asl.Report.Exact.{IsSwitch, Reached, analyze_iff}
use twerk.Asl.Dispatch.{evaluate_state_machine}
use twerk.Asl.Dispatch.Identity.{MachineFormed, evaluate_iff}
use twerk.Ir.Value.{SlotValue, number, bool, Result, add, gt}
use twerk.Ir.Vm.{Program, load_const, jump, eval}
use twerk.Ir.Vm.Returns.{eval_returns}
use twerk.Ir.Tree.{Tree, slot, constant, combine, plus, greater, postfix, needs, value_of}
use twerk.Ir.Tree.Postfix.{eval-postfix}

abbrev plain : StateFields
plain = record { comment = none; input_path = none; output_path = none; assign = none }

abbrev to : String → State
to target = state plain (pass (record { result = none; transition = next target }))

-- Two states that lead to one another, a choice out of them, a switch and a state that is not
-- reached.
abbrev loop : StateMachine
loop =
    machine none "a"
      (named "a" (to "b") (
        named "b"
          (state plain (
            choice (record {
              choices = record { condition = "c"; next = "a"; assign = none } ∷ [];
              default = some "d";
            })))
          (named "d"
            (state plain
              (switch (record { cases = record { ops = []; target = "e" } ∷ []; default = none })))
            (named "e" (state plain succeed) no_states))))
      none

abbrev inner : StateMachine
inner =
    machine (some "outer") "p"
      (named "p" (state plain (parallel (more loop no_machines) end none)) no_states) (some 60)

loop_report :
    analyze loop
    ≡ some (record { unreachable = "e" ∷ []; cycles = ("a" ∷ "b" ∷ []) ∷ []; dead_ends = "d" ∷ [] })
unfolding analyze get insert
loop_report = refl

dangling :
    validate (machine none "a" (named "a" (to "z") no_states) none)
    ≡ err (transition_target_not_found "a" "z" ∷ no_terminal_state ∷ [])
unfolding validate get
dangling = refl

validate_iff_example : (validate loop ≡ ok tt) ↔ AreValid (states loop) (start_at loop)
validate_iff_example = validate_iff loop

reachable_set_iff_example :
    (reached : List String) × (reachable_set loop ≡ some reached)
    × ((a : String) → (contains reached a ≡ true) ↔ Reach (states loop) (start_at loop) a)
reachable_set_iff_example = reachable_set_iff loop

analyze_iff_example :
    (r : ValidationReport) × (analyze loop ≡ some r)
    × ((a : String) → Has a r.unreachable ↔ (Has a (names (states loop)) × ¬ Reached loop a))
    × ((a : String) → Has a r.dead_ends ↔ (IsSwitch (states loop) a × Reached loop a))
    × All (IsCycle (states loop)) r.cycles
    × ((a : String) (path : List String)
        → Reached loop a
        → Walk (states loop) a path a
        → r.cycles ≢ [])
analyze_iff_example = analyze_iff loop

evaluate_iff_example :
    (evaluate_state_machine inner ≡ ok inner) ↔ ((inner ≡ inner) × MachineFormed inner)
evaluate_iff_example = evaluate_iff inner inner

-- slot(0) + 2 > slot(1).
abbrev sum_exceeds : Tree
sum_exceeds = combine greater (combine plus (slot 0) (constant 0)) (slot 1)

abbrev program : Program
unfolding postfix
program = record {
  ops = postfix sum_exceeds;
  constants = number (pos 2) ∷ [];
  slots = number (pos 5) ∷ number (negsuc 3) ∷ [];
}

-- A jump lands one operation past its target.
abbrev jumping : Program
jumping = record {
  ops = jump 1 ∷ load_const 0 ∷ load_const 1 ∷ [];
  constants = number (pos 7) ∷ number (pos 8) ∷ [];
  slots = [];
}

program-value : eval program ≡ some (ok (bool true))
unfolding eval program add checked_add gt
program-value = refl

jumping-value : eval jumping ≡ some (ok (number (pos 8)))
unfolding eval
jumping-value = refl

eval_returns_example : (r : Result SlotValue) × (eval jumping ≡ some r)
eval_returns_example = eval_returns jumping

eval-postfix_example : eval program ≡ some (value_of program sum_exceeds)
unfolding program needs
eval-postfix_example = eval-postfix program sum_exceeds refl (omega arith)
