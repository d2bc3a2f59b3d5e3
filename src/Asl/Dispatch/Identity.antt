-- ===== src/Asl/Dispatch/Identity.antt =====
-- The dispatch of a machine gives the machine back exactly where all of it is well formed.
use twerk.Prelude.{ℕ, String, ◌≡◌, refl, sym, subst, ◌↔◌, inl, Option, none, some}
use twerk.Outcome.{ok}
use twerk.Asl.Machine.{
  StateFields, StateMachine, machine, States, no_states, named, State, state, StateKind, task, pass,
  choice, switch, wait, succeed, fail, parallel, map, Machines, no_machines, more, states, entries,
}
use twerk.Asl.Machine.Valid.{AreValid}
use twerk.Asl.Dispatch.{
  attach_state_metadata, attach_machine_metadata, validate_machine, new_state, new_machine,
  evaluate_state, evaluate_states, evaluate_state_machine, evaluate_branches, evaluate_state_kind,
  attach,
}
use twerk.Asl.Dispatch.Formed.{
  Rebuilds, Rebuilds-map_ok, Rebuilds-bind, Rebuilds_iff, TaskFormed, NonEmpty, SomeMachines,
  Tolerable, task_arm-Rebuilds, choice_arm-Rebuilds, switch_arm-Rebuilds, parallel_arm-Rebuilds,
  map_arm-Rebuilds, validate_machine-Rebuilds,
}

-- Every state meets the conditions of its constructor, and every machine, the machines of parallel
-- and map states too, is valid.
mutual
  pub StateFormed : State → Type 0
  StateFormed (state f k) = KindFormed k

  pub StatesFormed : States → Type 0
  StatesFormed no_states = Unit
  StatesFormed (named name s rest) = StateFormed s × (StatesFormed rest × Unit)

  pub MachineFormed : StateMachine → Type 0
  MachineFormed (machine comment start ss timeout) = StatesFormed ss × AreValid (entries ss) start

  pub BranchesFormed : Machines → Type 0
  BranchesFormed no_machines = Unit
  BranchesFormed (more m ms) = MachineFormed m × (BranchesFormed ms × Unit)

  pub KindFormed : StateKind → Type 0
  KindFormed (task t) = TaskFormed t
  KindFormed (pass p) = Unit
  KindFormed (choice c) = NonEmpty c.choices
  KindFormed (switch s) = NonEmpty s.cases
  KindFormed (wait w) = Unit
  KindFormed succeed = Unit
  KindFormed (fail f) = Unit
  KindFormed (parallel branches t fail_fast) = BranchesFormed branches × SomeMachines branches
  KindFormed (map f m) = MachineFormed m × Tolerable f.tolerated_failure_percentage

attach-none : {A : Type 0} (o : Option A) → attach none o ≡ o
attach-none none = refl
attach-none (some a) = refl

-- What is attached to a fresh state are the fields of the original.
attach_new : (f : StateFields) (k : StateKind) → attach_state_metadata (new_state k) f ≡ state f k
unfolding attach_state_metadata
attach_new f k = λ i.
    state
      (record {
        comment = attach-none f.comment i;
        input_path = attach-none f.input_path i;
        output_path = attach-none f.output_path i;
        assign = attach-none f.assign i;
      })
      k

attach_fresh :
    (comment : Option String) (start : String) (ss : States) (timeout : Option ℕ)
    → machine comment start ss timeout
      ≡ attach_machine_metadata (new_machine start ss) comment timeout
unfolding attach_machine_metadata
attach_fresh comment start ss timeout =
    sym (λ i. machine (attach-none comment i) start ss (attach-none timeout i))

mutual
  unfolding evaluate_state evaluate_states evaluate_state_machine evaluate_branches
      evaluate_state_kind StateFormed StatesFormed MachineFormed BranchesFormed KindFormed states

  state-Rebuilds : (s : State) → Rebuilds (evaluate_state s) s (StateFormed s)
  state-Rebuilds (state f k) =
      subst (λ s. Rebuilds (evaluate_state (state f k)) s (KindFormed k)) (attach_new f k)
        (Rebuilds-map_ok _ _ (new_state k)
          (Rebuilds-map_ok new_state (evaluate_state_kind k) k (kind-Rebuilds k)))

  states-Rebuilds : (ss : States) → Rebuilds (evaluate_states ss) ss (StatesFormed ss)
  states-Rebuilds no_states = inl (refl, tt)
  states-Rebuilds (named name s rest) =
      Rebuilds-bind (evaluate_state s) _ s (named name s rest) (state-Rebuilds s) (
        Rebuilds-bind (evaluate_states rest) _ rest (named name s rest) (states-Rebuilds rest)
          (inl (refl, tt)))

  machine-Rebuilds : (m : StateMachine) → Rebuilds (evaluate_state_machine m) m (MachineFormed m)
  machine-Rebuilds (machine comment start ss timeout) =
      Rebuilds-bind (evaluate_states ss) _ ss (machine comment start ss timeout)
        (states-Rebuilds ss)
        (subst
          (λ r.
            Rebuilds (validate_machine r) (machine comment start ss timeout)
              (AreValid (entries ss) start))
          (attach_fresh comment start ss timeout)
          (validate_machine-Rebuilds (machine comment start ss timeout)))

  branches-Rebuilds : (ms : Machines) → Rebuilds (evaluate_branches ms) ms (BranchesFormed ms)
  branches-Rebuilds no_machines = inl (refl, tt)
  branches-Rebuilds (more m ms) =
      Rebuilds-bind (evaluate_state_machine m) _ m (more m ms) (machine-Rebuilds m) (
        Rebuilds-bind (evaluate_branches ms) _ ms (more m ms) (branches-Rebuilds ms)
          (inl (refl, tt)))

  kind-Rebuilds : (k : StateKind) → Rebuilds (evaluate_state_kind k) k (KindFormed k)
  kind-Rebuilds (task t) = task_arm-Rebuilds t
  kind-Rebuilds (pass p) = inl (refl, tt)
  kind-Rebuilds (choice c) = choice_arm-Rebuilds c
  kind-Rebuilds (switch s) = switch_arm-Rebuilds s
  kind-Rebuilds (wait w) = inl (refl, tt)
  kind-Rebuilds succeed = inl (refl, tt)
  kind-Rebuilds (fail f) = inl (refl, tt)
  kind-Rebuilds (parallel branches t f) =
      Rebuilds-bind (evaluate_branches branches) _ branches (parallel branches t f)
        (branches-Rebuilds branches) (parallel_arm-Rebuilds branches t f)
  kind-Rebuilds (map f m) =
      Rebuilds-bind (evaluate_state_machine m) _ m (map f m) (machine-Rebuilds m)
        (map_arm-Rebuilds f m)

-- The dispatch of a machine returns exactly where every state of it meets the conditions of its
-- constructor and the machine is valid, and so for the machines inside it; it returns the machine
-- unchanged.
pub evaluate_iff :
    (m m' : StateMachine) → (evaluate_state_machine m ≡ ok m') ↔ ((m' ≡ m) × MachineFormed m)
evaluate_iff m m' = Rebuilds_iff (evaluate_state_machine m) m m' (machine-Rebuilds m)
