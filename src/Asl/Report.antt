-- ===== src/Asl/Report.antt =====
-- The analysis of a machine: what its start does not reach, the cycles, and the states that neither
-- end nor go on (crates/twerk-core/src/asl/validation.rs).
pub mod Exact
use twerk.Prelude.{
  String, Bool, true, false, not, ◌&&◌, Option, none, some, List, [], ◌∷◌, if◌then◌else◌, is_some,
  is_empty,
}
use twerk.Map.{Map}
use twerk.Asl.Machine.{
  StateMachine, State, StateKind, choice, is_terminal, transition, kind, states,
}
use twerk.Asl.Graph.{contains, unreachable_states, reachable_set}
use twerk.Asl.Cycles.{detect_cycles}

abbrev pub is_choice : StateKind → Bool
is_choice (choice c) = true
is_choice _ = false

unfoldable pub is_dead_end : List String → String → State → Bool
is_dead_end reachable name s =
    contains reachable name
    && not (is_terminal (kind s))
    && not (is_some (transition (kind s)))
    && not (is_choice (kind s))

unfoldable pub find_dead_ends : Map State → List String → List String
unfolding is_dead_end
find_dead_ends [] reachable = []
find_dead_ends ((name, s) ∷ rest) reachable =
    let others = find_dead_ends rest reachable in
    if is_dead_end reachable name s then name ∷ others else others

pub record ValidationReport : Type 0 where
  pub unreachable : List String
  pub cycles : List (List String)
  pub dead_ends : List String

unfoldable pub is_clean : ValidationReport → Bool
is_clean r = is_empty r.unreachable && is_empty r.cycles && is_empty r.dead_ends

abbrev pub report_with :
    List String → List String → Option (List (List String)) → Option ValidationReport
report_with unreachable dead none = none
report_with unreachable dead (some cycles) =
    some (record { unreachable = unreachable; cycles = cycles; dead_ends = dead })

unfoldable pub report_on : Map State → Option (List String) → Option ValidationReport
unfolding unreachable_states detect_cycles find_dead_ends
report_on m none = none
report_on m (some reachable) =
    report_with (unreachable_states m reachable) (find_dead_ends m reachable)
      (detect_cycles m reachable)

unfoldable pub analyze : StateMachine → Option ValidationReport
unfolding report_on states reachable_set
analyze m = report_on (states m) (reachable_set m)
