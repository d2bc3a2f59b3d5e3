-- ===== src/Asl/Report/Exact.antt =====
-- What the report of the analysis says of a machine.
use twerk.Prelude.{
  str_eq, eq_iff, ◌≢◌, keep, String, ◌≡◌, refl, sym, subst, ◌↔◌, ◌⊎◌, inl, inr, true, false, not,
  ◌&&◌, some, List, [], ◌∷◌, Has, Has-keep, keep_sound, All, arith, Bool-cases, is_some,
}
use twerk.Map.{Map, get}
use twerk.Asl.States.{SwitchState}
use twerk.Asl.Machine.{
  contains_key, StateMachine, State, StateKind, states, start_at, kind, is_terminal, transition,
  task, pass, choice, switch, wait, succeed, fail, parallel, map,
}
use twerk.Asl.Graph.{contains, names, unreachable_states}
use twerk.Asl.Graph.Reachable
use twerk.Asl.Graph.Reachable.{Reach, reachable_set_iff}
use twerk.Asl.Cycles.Walk.{IsCycle, Walk, start-is_state}
use twerk.Asl.Cycles.Sound.{detect_cycles-IsCycle}
use twerk.Asl.Report.{ValidationReport, is_choice, is_dead_end, find_dead_ends, report_on, analyze}

-- A switch state of this name.
abbrev pub IsSwitch : Map State → String → Type 0
IsSwitch [] a = ⊥
IsSwitch ((name, s) ∷ rest) a =
    ((name ≡ a) × ((sw : SwitchState) × (kind s ≡ switch sw))) ⊎ IsSwitch rest a

neither_iff :
    (k : StateKind)
    → (not (is_terminal k) && not (is_some (transition k)) && not (is_choice k) ≡ true)
      ↔ ((sw : SwitchState) × (k ≡ switch sw))
neither_iff (switch sw) = (λ h. (sw, refl), λ h. refl)
neither_iff (task t) = (λ h. absurd (cc), λ (sw, h). absurd (cc))
neither_iff (pass p) = (λ h. absurd (cc), λ (sw, h). absurd (cc))
neither_iff (choice c) = (λ h. absurd (cc), λ (sw, h). absurd (cc))
neither_iff (wait w) = (λ h. absurd (cc), λ (sw, h). absurd (cc))
neither_iff succeed = (λ h. absurd (cc), λ (sw, h). absurd (cc))
neither_iff (fail f) = (λ h. absurd (cc), λ (sw, h). absurd (cc))
neither_iff (parallel b t f) = (λ h. absurd (cc), λ (sw, h). absurd (cc))
neither_iff (map f p) = (λ h. absurd (cc), λ (sw, h). absurd (cc))

is_dead_end_iff :
    (reachable : List String) (name : String) (s : State)
    → (is_dead_end reachable name s ≡ true)
      ↔ ((contains reachable name ≡ true) × ((sw : SwitchState) × (kind s ≡ switch sw)))
unfolding is_dead_end
is_dead_end_iff reachable name s = elim (Bool-cases (contains reachable name)) [
  | inl e ↦ rw e (λ h. (refl, (neither_iff (kind s)).0 h), λ h. (neither_iff (kind s)).1 h.1)
  | inr e ↦ rw e (λ h. absurd (cc), λ h. absurd (cc h.0))
]

find_dead_ends_iff :
    (l : Map State) (reachable : List String) (a : String)
    → Has a (find_dead_ends l reachable) ↔ (IsSwitch l a × (contains reachable a ≡ true))
unfolding find_dead_ends
find_dead_ends_iff [] reachable a = (λ h. absurd h, λ h. absurd h.0)
find_dead_ends_iff ((name, s) ∷ rest) reachable a =
    let others = find_dead_ends_iff rest reachable a in
    let this = is_dead_end_iff reachable name s in
    elim (Bool-cases (is_dead_end reachable name s)) [
      | inl e ↦
          let (reached, is) = this.0 e in
          rw e (
            λ h. elim h [
              | inl p ↦ (inl (p, is), subst (λ n. contains reachable n ≡ true) p reached)
              | inr i ↦ (inr (others.0 i).0, (others.0 i).1)
            ],
            λ (h, c). elim h [ inl (p, sw) ↦ inl p | inr i ↦ inr (others.1 (i, c)) ],
          )
      | inr e ↦ rw e (
        λ h. (inr (others.0 h).0, (others.0 h).1),
        λ (h, c). elim h [
          | inl (p, sw) ↦
              absurd (cc (this.1 (subst (λ n. contains reachable n ≡ true) (sym p) c, sw)))
          | inr i ↦ others.1 (i, c)
        ],
      )
    ]

unreachable_iff :
    (m : Map State) (reachable : List String) (a : String)
    → Has a (unreachable_states m reachable) ↔ (Has a (names m) × (contains reachable a ≡ false))
unfolding unreachable_states
unreachable_iff m reachable a =
    let test = λ (name : String). not (contains reachable name) in
    (
      λ h. let (i, e) = keep_sound test a (names m) h in (i, ground (arith, e)),
      λ (i, e). Has-keep test a (names m) i (rw e),
    )

-- A machine's graph, as it is walked from the start.
abbrev pub Reached : StateMachine → String → Type 0
Reached m = Reach (states m) (start_at m)

names-Has : (m : Map State) (a : String) → contains_key m a ≡ true → Has a (names m)
unfolding get
names-Has [] a h = absurd (cc)
names-Has ((name, s) ∷ rest) a h = elim (Bool-cases (str_eq name a)) [
  | inl e ↦ inl ((eq_iff name a).0 e)
  | inr e ↦ inr (names-Has rest a (rw e at h))
]

-- The states that are searched for cycles: those that are reached.
searched-Has :
    (m : StateMachine) (reached : List String)
    → ((a : String) → (contains reached a ≡ true) ↔ Reached m a)
    → (a : String) → Reached m a
    → contains_key (states m) a ≡ true
    → Has a (keep (contains reached) (names (states m)))
searched-Has m reached iff a walk key =
    Has-keep (contains reached) a (names (states m)) (names-Has (states m) a key) ((iff a).1 walk)

-- The analysis of a machine returns a report. It lists as unreachable exactly the names of states
-- to which no edges lead from the start, and as dead ends exactly the names of the switch states
-- that are reached from it; each of its cycles is a closed walk along edges, and it has one where
-- a name that is reached from the start lies on a closed walk.
pub analyze_iff :
    (m : StateMachine)
    → (r : ValidationReport) × (analyze m ≡ some r)
      × ((a : String) → Has a r.unreachable ↔ (Has a (names (states m)) × ¬ Reached m a))
      × ((a : String) → Has a r.dead_ends ↔ (IsSwitch (states m) a × Reached m a))
      × All (IsCycle (states m)) r.cycles
      × ((a : String) (path : List String) → Reached m a → Walk (states m) a path a → r.cycles ≢ [])
unfolding analyze report_on
analyze_iff m =
    let ss = states m in
    let (reached, found, iff) = reachable_set_iff m in
    let searched = searched-Has m reached iff in
    let (cycles, done, are, none_missed) = detect_cycles-IsCycle ss reached (λ u v i edge key.
      let (named_u, is_reached) = keep_sound (contains reached) u (names ss) i in
      searched v (Reachable.step ((iff u).0 is_reached) edge) key) in
    (
      _,
      rw (found, done) refl,
      λ a. (
        λ h. let (i, e) = (unreachable_iff ss reached a).0 h in (i, λ walk. cc ((iff a).1 walk)),
        λ (i, no_walk). (unreachable_iff ss reached a).1 (
          i,
          elim (Bool-cases (contains reached a)) [
            | inl e ↦ absurd (no_walk ((iff a).0 e))
            | inr e ↦ e
          ],
        ),
      ),
      λ a. (
        λ h. let (i, e) = (find_dead_ends_iff ss reached a).0 h in (i, (iff a).0 e),
        λ (i, walk). (find_dead_ends_iff ss reached a).1 (i, (iff a).1 walk),
      ),
      are,
      λ a path reach walk.
          none_missed a path (searched a reach (start-is_state ss a path a walk)) walk,
    )
