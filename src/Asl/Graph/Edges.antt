-- ===== src/Asl/Graph/Edges.antt =====
-- Where a state may go, by its kind; the code collects exactly these targets.
use twerk.Prelude.{
  String, ◌≡◌, refl, sym, subst, ◌↔◌, ◌⊎◌, inl, inr, Option, none, some, List, [], ◌∷◌, ◌++◌, Has,
}
use twerk.Map.{Map, get}
use twerk.Asl.Transition.{Transition, next, end}
use twerk.Asl.States.{ChoiceRule}
use twerk.Asl.Machine.{
  State, StateKind, kind, transition, task, pass, choice, switch, wait, succeed, fail, parallel,
  map,
}
use twerk.Asl.Graph.{
  optional, next_of, rule_targets, choice_targets, outgoing_targets, targets_of, successors,
}

abbrev pub SomeRule : List ChoiceRule → String → Type 0
SomeRule [] v = ⊥
SomeRule (rule ∷ rules) v = (rule.next ≡ v) ⊎ SomeRule rules v

-- A choice goes where a rule or its default says, another state where its transition says.
abbrev pub Target : StateKind → String → Type 0
Target (choice c) v = SomeRule c.choices v ⊎ (c.default ≡ some v)
Target k v = transition k ≡ some (next v)

-- From the state of one name to another name.
abbrev pub Edge : Map State → String → String → Type 0
Edge m u v = (s : State) × (get m u ≡ some s) × Target (kind s) v

rules_iff : (rules : List ChoiceRule) (v : String) → Has v (rule_targets rules) ↔ SomeRule rules v
unfolding rule_targets
rules_iff [] v = (λ h. h, λ h. h)
rules_iff (rule ∷ rules) v =
    let rest = rules_iff rules v in
    (
      λ h. elim h [ inl e ↦ inl e | inr i ↦ inr (rest.0 i) ],
      λ h. elim h [ inl e ↦ inl e | inr i ↦ inr (rest.1 i) ],
    )

optional_iff : (o : Option String) (v : String) → Has v (optional o) ↔ (o ≡ some v)
optional_iff none v = (λ h. absurd h, λ h. absurd (cc))
optional_iff (some w) v = (λ h. elim h [ inl e ↦ cc | inr i ↦ absurd i ], λ h. inl (cc))

next_iff : (t : Option Transition) (v : String) → Has v (next_of t ++ []) ↔ (t ≡ some (next v))
next_iff none v = (λ h. absurd h, λ h. absurd (cc))
next_iff (some end) v = (λ h. absurd h, λ h. absurd (cc))
next_iff (some (next w)) v = (λ h. elim h [ inl e ↦ cc | inr i ↦ absurd i ], λ h. inl (cc))

Has-append_iff : (v : String) (xs ys : List String) → Has v (xs ++ ys) ↔ (Has v xs ⊎ Has v ys)
Has-append_iff v [] ys = (inr, λ h. elim h [ inl i ↦ absurd i | inr i ↦ i ])
Has-append_iff v (x ∷ xs) ys =
    let rest = Has-append_iff v xs ys in
    (
      λ h. elim h [
        | inl e ↦ inl (inl e)
        | inr i ↦ elim (rest.0 i) [ inl j ↦ inl (inr j) | inr j ↦ inr j ]
      ],
      λ h. elim h [
        | inl (inl e) ↦ inl e
        | inl (inr i) ↦ inr (rest.1 (inl i))
        | inr i ↦ inr (rest.1 (inr i))
      ],
    )

targets_iff : (k : StateKind) (v : String) → Has v (outgoing_targets k) ↔ Target k v
unfolding outgoing_targets choice_targets
targets_iff (choice c) v =
    let both = Has-append_iff v (rule_targets c.choices) (optional c.default) in
    let rules = rules_iff c.choices v in
    let default = optional_iff c.default v in
    (
      λ h. elim (both.0 h) [ inl i ↦ inl (rules.0 i) | inr i ↦ inr (default.0 i) ],
      λ h. both.1 (elim h [ inl i ↦ inl (rules.1 i) | inr i ↦ inr (default.1 i) ]),
    )
targets_iff (task t) v = next_iff (some t.transition) v
targets_iff (pass p) v = next_iff (some p.transition) v
targets_iff (wait w) v = next_iff (some w.transition) v
targets_iff (parallel b t f) v = next_iff (some t) v
targets_iff (map f p) v = next_iff (some f.transition) v
targets_iff (switch s) v = next_iff none v
targets_iff succeed v = next_iff none v
targets_iff (fail f) v = next_iff none v

-- The successors that the code computes are the ends of the edges.
pub successors_iff : (m : Map State) (u v : String) → Has v (successors m u) ↔ Edge m u v
unfolding successors targets_of
successors_iff m u v = go (get m u)
  where
    go :
        (o : Option State) → Has v (targets_of o) ↔ ((s : State) × (o ≡ some s) × Target (kind s) v)
    go none = (λ h. absurd h, λ (s, e, t). absurd (cc))
    go (some s) = (
      λ h. (s, refl, (targets_iff (kind s) v).0 h),
      λ (s', e, t).
          let same : s ≡ s' = cc e in
          (targets_iff (kind s) v).1 (subst (λ x. Target (kind x) v) (sym same) t),
    )
