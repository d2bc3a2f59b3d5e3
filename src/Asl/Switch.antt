-- ===== src/Asl/Switch.antt =====
-- The evaluation of a switch state (crates/twerk-core/src/asl/switch.rs).
pub mod First
use twerk.Prelude.{Bool, true, false, String, Option, none, some, List, [], ◌∷◌}
use twerk.Outcome.{ok, err}
use twerk.Vm.{SlotValue, bool, VmError, overflow_panic, Floats, Result, execute}
use twerk.Asl.States.{SwitchCase, SwitchState}

-- `matches!(result, Ok(SlotValue::Bool(true)))`; `none` is a panic of the machine.
abbrev pub is_match : Result SlotValue → Option Bool
is_match (ok (bool true)) = some true
is_match (err overflow_panic) = none
is_match _ = some false

module _ (fl : Floats) (slots : List SlotValue) where
  -- `SwitchCase::evaluate`.
  unfoldable pub evaluate_case : SwitchCase → Option Bool
  unfolding execute
  evaluate_case c = is_match (execute fl c.ops slots)

  abbrev pub choose : Option Bool → String → Option (Option String) → Option (Option String)
  choose none target rest = none
  choose (some true) target rest = some (some target)
  choose (some false) target rest = rest

  -- The loop of `SwitchState::evaluate`.
  unfoldable pub evaluate_cases : List SwitchCase → Option String → Option (Option String)
  unfolding evaluate_case
  evaluate_cases [] default = some default
  evaluate_cases (c ∷ cases) default =
      let rest = evaluate_cases cases default in choose (evaluate_case c) c.target rest

  unfoldable pub evaluate : SwitchState → Option (Option String)
  unfolding evaluate_cases
  evaluate s = evaluate_cases s.cases s.default
