-- ===== src/Asl/Graph.antt =====
-- The graph of a machine and the states that its start reaches, breadth first
-- (crates/twerk-core/src/asl/validation.rs). A set is the list of what was inserted.
pub mod Edges
pub mod Search
pub mod Reachable
use twerk.Prelude.{
  ℕ, zero, suc, String, Bool, true, false, not, ◌&&◌, ◌||◌, Option, none, some, List, [], ◌∷◌, ◌++◌,
  if◌then◌else◌, str_eq, is_some, is_empty, length, keep,
}
use twerk.Map.{Map, get, insert}
use twerk.Asl.Transition.{Transition, next, end}
use twerk.Asl.States.{ChoiceRule, ChoiceState}
use twerk.Asl.Machine.{
  StateMachine, State, StateKind, choice, is_terminal, transition, kind, states, start_at,
  contains_key,
}

abbrev optional : Option String → List String
optional none = []
optional (some name) = name ∷ []

abbrev next_of : Option Transition → List String
next_of (some (next target)) = target ∷ []
next_of _ = []

unfoldable pub rule_targets : List ChoiceRule → List String
rule_targets [] = []
rule_targets (rule ∷ rules) = rule.next ∷ rule_targets rules

unfoldable pub choice_targets : StateKind → List String
unfolding rule_targets
choice_targets (choice c) = rule_targets c.choices ++ optional c.default
choice_targets _ = []

unfoldable pub outgoing_targets : StateKind → List String
unfolding choice_targets
outgoing_targets k = next_of (transition k) ++ choice_targets k

unfoldable pub targets_of : Option State → List String
unfolding outgoing_targets
targets_of none = []
targets_of (some s) = outgoing_targets (kind s)

-- The targets of the state of a name, none where there is no such state.
unfoldable pub successors : Map State → String → List String
unfolding targets_of
successors m name = targets_of (get m name)

-- `HashSet::contains`.
abbrev pub contains : List String → String → Bool
contains [] a = false
contains (x ∷ xs) a = str_eq x a || contains xs a

pub record Frontier : Type 0 where
  pub visited : List String
  pub queue : List String

abbrev pub frontier : List String → List String → Frontier
frontier visited queue = record { visited = visited; queue = queue }

-- `if visited.insert(target) { queue.push_back(target) }`, and the loop over the targets.
unfoldable pub offer : String → Frontier → Frontier
offer target f =
    if contains f.visited target
    then f
    else record { visited = f.visited ++ target ∷ []; queue = f.queue ++ target ∷ [] }

unfoldable pub scan : List String → Frontier → Frontier
unfolding offer
scan [] f = f
scan (target ∷ targets) f = scan targets (offer target f)

-- The loop over the queue; `none` where the fuel runs out.
unfoldable pub bfs : Map State → ℕ → List String → List String → Option (List String)
unfolding successors scan
bfs m fuel visited [] = some visited
bfs m zero visited (current ∷ queue) = none
bfs m (suc fuel) visited (current ∷ queue) =
    let f = scan (successors m current) (frontier visited queue) in bfs m fuel f.visited f.queue

-- Every target is visited once, so one round for each of them and one for the start are enough.
unfoldable pub all_targets : Map State → List String
unfolding outgoing_targets
all_targets [] = []
all_targets ((name, s) ∷ rest) = outgoing_targets (kind s) ++ all_targets rest

unfoldable pub reachable_set : StateMachine → Option (List String)
unfolding states bfs all_targets
reachable_set m =
    bfs (states m) (suc (length (all_targets (states m)))) (start_at m ∷ []) (start_at m ∷ [])

abbrev pub names : Map State → List String
names [] = []
names ((name, s) ∷ rest) = name ∷ names rest

-- The names of the states that are not in the set.
unfoldable pub unreachable_states : Map State → List String → List String
unreachable_states m reachable = keep (λ name. not (contains reachable name)) (names m)
