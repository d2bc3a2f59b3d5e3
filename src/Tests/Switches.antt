-- ===== src/Tests/Switches.antt =====
-- The theorems on switches and their machine, applied to concrete values.
use twerk.Prelude.{false, ◌≡◌, refl, none, some, [], ◌∷◌, pos, negsuc, negative, magnitude, finite}
use twerk.Outcome.{err}
use twerk.Vm
use twerk.Vm.{Floats, execute, overflow_panic, int}
use twerk.Asl.States.{SwitchState}
use twerk.Asl.Switch.{evaluate}
use twerk.Asl.Switch.First.{Chosen, evaluate-first}

-- Whole numbers are exact; nothing else is asked of these.
abbrev floats : Floats
floats = record {
  of_int = λ z. finite (negative z) (magnitude z) (pos 0);
  parse = λ s. none;
  one = finite false 1 (pos 0);
  zero_float = finite false 0 (pos 0);
  plus = λ x y. x;
  minus = λ x y. x;
  times = λ x y. x;
  over = λ x y. x;
  rest = λ x y. x;
  less = λ x y. false;
  less_equal = λ x y. false;
  equal = λ x y. false;
}

-- slot(0) < 3, then slot(0) = 7.
abbrev two_cases : SwitchState
two_cases = record {
  cases =
      record { ops = Vm.load_slot 0 ∷ Vm.load_const (int (pos 3)) ∷ Vm.lt ∷ []; target = "small" }
      ∷ record { ops = Vm.load_slot 0 ∷ Vm.load_const (int (pos 7)) ∷ Vm.eq ∷ []; target = "seven" }
      ∷ [];
  default = some "other";
}

chosen : evaluate floats (int (pos 7) ∷ []) two_cases ≡ some (some "seven")
unfolding evaluate
chosen = refl

evaluate-first_example :
    Chosen floats
      (int (pos 7) ∷ [])
      two_cases.cases
      two_cases.default
      (evaluate floats (int (pos 7) ∷ []) two_cases)
evaluate-first_example = evaluate-first floats (int (pos 7) ∷ []) two_cases

-- The smallest `i64`, divided by -1.
smallest-divided :
    execute floats
      (Vm.load_const (int (negsuc 9223372036854775807))
        ∷ Vm.load_const (int (negsuc 0))
        ∷ Vm.div
        ∷ [])
      []
    ≡ err overflow_panic
unfolding execute
smallest-divided = refl
