-- ===== src/Asl/Machine/Valid.antt =====
-- A machine is valid exactly when its references lead to states and some state ends it.
use twerk.Prelude.{
  String, ◌≡◌, refl, ◌↔◌, ◌⊎◌, true, Option, none, some, List, [], ◌∷◌, ◌++◌, if◌then◌else◌, All,
  is_some, arith,
}
use twerk.Map.{Map, get}
use twerk.Outcome.{ok}
use twerk.Asl.Transition.{Transition, next, end}
use twerk.Asl.States.{ChoiceRule}
use twerk.Asl.Machine.{
  State, StateKind, StateMachine, choice, transition, kind, states, start_at, StateMachineError,
  Errors, unless_state, check_start_at, check_transition, check_transitions, check_rules,
  check_default, check_choice, check_choice_targets, has_terminal, errors_found, validate_states,
  validate, is_terminal, is_end_transition, no_terminal_state, task, pass, switch, wait, succeed,
  fail, parallel, map,
}

-- A reference that leads to a state of the machine.
abbrev pub IsState : Map State → String → Type 0
IsState m name = (s : State) × (get m name ≡ some s)

abbrev TransitionLeads : Map State → Option Transition → Type 0
TransitionLeads m (some (next target)) = IsState m target
TransitionLeads m _ = Unit

abbrev DefaultLeads : Map State → Option String → Type 0
DefaultLeads m none = Unit
DefaultLeads m (some target) = IsState m target

abbrev ChoicesLead : Map State → StateKind → Type 0
ChoicesLead m (choice c) = All (λ r. IsState m r.next) c.choices × DefaultLeads m c.default
ChoicesLead m _ = Unit

-- A state that ends the run: `Succeed`, `Fail`, or one with `end: true`.
abbrev Ends : StateKind → Type 0
Ends k = (is_terminal k ≡ true) ⊎ (transition k ≡ some end)

abbrev SomeEnds : Map State → Type 0
SomeEnds [] = ⊥
SomeEnds ((name, s) ∷ rest) = Ends (kind s) ⊎ SomeEnds rest

-- The documented conditions on the states and the start of a machine.
abbrev pub AreValid : Map State → String → Type 0
AreValid m start =
    IsState m start
    × (All (λ (name, s). TransitionLeads m (transition (kind s))) m
        × (All (λ (name, s). ChoicesLead m (kind s)) m × SomeEnds m))

append_iff :
    {A P Q : Type 0} (xs ys : List A) → (xs ≡ []) ↔ P → (ys ≡ []) ↔ Q → (xs ++ ys ≡ []) ↔ (P × Q)
append_iff [] ys p q = (λ h. (p.0 refl, q.0 h), λ (a, b). q.1 b)
append_iff (x ∷ xs) ys p q = (λ h. absurd (cc), λ (a, b). absurd (cc (p.1 a)))

unless_state_iff :
    (m : Map State) (target : String) (e : StateMachineError)
    → (unless_state m target e ≡ []) ↔ IsState m target
unless_state_iff m target e = go (get m target)
  where
    go :
        (found : Option State)
        → ((if is_some found then List.[] else e ∷ []) ≡ []) ↔ ((s : State) × (found ≡ some s))
    go none = (λ h. absurd (cc), λ (s, h). absurd (cc))
    go (some s) = (λ h. (s, refl), λ h. refl)

check_transition_iff :
    (m : Map State) (name : String) (t : Option Transition)
    → (check_transition m name t ≡ []) ↔ TransitionLeads m t
check_transition_iff m name (some (next target)) = unless_state_iff m target _
check_transition_iff m name (some end) = (λ h. tt, λ h. refl)
check_transition_iff m name none = (λ h. tt, λ h. refl)

check_transitions_iff :
    (m l : Map State)
    → (check_transitions m l ≡ []) ↔ All (λ (name, s). TransitionLeads m (transition (kind s))) l
unfolding check_transitions
check_transitions_iff m [] = (λ h. tt, λ h. refl)
check_transitions_iff m ((name, s) ∷ rest) =
    append_iff (check_transition m name (transition (kind s))) (check_transitions m rest)
      (check_transition_iff m name (transition (kind s))) (check_transitions_iff m rest)

check_rules_iff :
    (m : Map State) (name : String) (rules : List ChoiceRule)
    → (check_rules m name rules ≡ []) ↔ All (λ r. IsState m r.next) rules
unfolding check_rules
check_rules_iff m name [] = (λ h. tt, λ h. refl)
check_rules_iff m name (rule ∷ rules) =
    append_iff (unless_state m rule.next _) (check_rules m name rules)
      (unless_state_iff m rule.next _) (check_rules_iff m name rules)

check_default_iff :
    (m : Map State) (name : String) (target : Option String)
    → (check_default m name target ≡ []) ↔ DefaultLeads m target
check_default_iff m name none = (λ h. tt, λ h. refl)
check_default_iff m name (some target) = unless_state_iff m target _

check_choice_iff :
    (m : Map State) (name : String) (k : StateKind) → (check_choice m name k ≡ []) ↔ ChoicesLead m k
unfolding check_choice
check_choice_iff m name (choice c) =
    append_iff (check_rules m name c.choices) (check_default m name c.default)
      (check_rules_iff m name c.choices) (check_default_iff m name c.default)
check_choice_iff m name (task t) = (λ h. tt, λ h. refl)
check_choice_iff m name (pass p) = (λ h. tt, λ h. refl)
check_choice_iff m name (switch s) = (λ h. tt, λ h. refl)
check_choice_iff m name (wait w) = (λ h. tt, λ h. refl)
check_choice_iff m name succeed = (λ h. tt, λ h. refl)
check_choice_iff m name (fail f) = (λ h. tt, λ h. refl)
check_choice_iff m name (parallel branches t fail_fast) = (λ h. tt, λ h. refl)
check_choice_iff m name (map f p) = (λ h. tt, λ h. refl)

check_choice_targets_iff :
    (m l : Map State)
    → (check_choice_targets m l ≡ []) ↔ All (λ (name, s). ChoicesLead m (kind s)) l
unfolding check_choice_targets
check_choice_targets_iff m [] = (λ h. tt, λ h. refl)
check_choice_targets_iff m ((name, s) ∷ rest) =
    append_iff (check_choice m name (kind s)) (check_choice_targets m rest)
      (check_choice_iff m name (kind s)) (check_choice_targets_iff m rest)

is_end_transition_iff : (t : Option Transition) → (is_end_transition t ≡ true) ↔ (t ≡ some end)
is_end_transition_iff none = (λ h. absurd (cc), λ h. absurd (cc))
is_end_transition_iff (some end) = (λ h. refl, λ h. refl)
is_end_transition_iff (some (next target)) = (λ h. absurd (cc), λ h. absurd (cc))

has_terminal_iff : (l : Map State) → (has_terminal l ≡ true) ↔ SomeEnds l
unfolding has_terminal
has_terminal_iff [] = (λ h. absurd (cc), λ h. absurd h)
has_terminal_iff ((name, s) ∷ rest) =
    ground (arith, is_end_transition_iff (transition (kind s)), has_terminal_iff rest)

no_terminal_iff :
    (l : Map State)
    → ((if has_terminal l then List.[] else no_terminal_state ∷ []) ≡ []) ↔ SomeEnds l
no_terminal_iff l = ground (arith, has_terminal_iff l)

errors_found_iff : (es : Errors) → (errors_found es ≡ ok tt) ↔ (es ≡ [])
errors_found_iff [] = (λ h. refl, λ h. refl)
errors_found_iff (e ∷ es) = (λ h. absurd (cc), λ h. absurd (cc))

check_start_at_iff :
    (m : Map State) (start : String) → (check_start_at m start ≡ []) ↔ IsState m start
unfolding check_start_at
check_start_at_iff m start = unless_state_iff m start _

validate_states_iff :
    (m : Map State) (start : String) → (validate_states m start ≡ ok tt) ↔ AreValid m start
unfolding validate_states get
validate_states_iff [] start = (λ h. absurd (cc), λ h. absurd h.1.1.1)
validate_states_iff (e ∷ es) start =
    let m = e ∷ es in
    let last = if has_terminal m then List.[] else no_terminal_state ∷ [] in
    let rules =
      append_iff (check_choice_targets m m) last (check_choice_targets_iff m m)
        (no_terminal_iff m) in
    let targets =
      append_iff (check_transitions m m) (check_choice_targets m m ++ last)
        (check_transitions_iff m m) rules in
    let all = append_iff (check_start_at m start) _ (check_start_at_iff m start) targets in
    let found = errors_found_iff _ in (λ h. all.0 (found.0 h), λ h. found.1 (all.1 h))

-- A machine passes the validation exactly when its start is one of its states, the target of every
-- transition is one, the targets and the default of every choice are, and some state is terminal
-- or has `end: true`.
pub validate_iff : (m : StateMachine) → (validate m ≡ ok tt) ↔ AreValid (states m) (start_at m)
unfolding validate
validate_iff m = validate_states_iff (states m) (start_at m)
