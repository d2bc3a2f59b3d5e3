-- ===== src/Ir/Vm/Returns.antt =====
-- The loop of the machine ends: no operation moves the program counter back.
use twerk.Prelude.{
  ℕ, zero, suc, ◌+◌, ◌≤◌, ◌≡◌, refl, ◌⊎◌, inl, inr, Bool, Option, some, [], ◌∷◌, arith, get_elem?,
  get_elem?-some_lt, length, Bool-cases, Option-cases,
}
use twerk.Outcome.{ok, err, ◌>>=◌}
use twerk.Ir.Value.{SlotValue, Result, ExprError}
use twerk.Ir.Vm.{
  Op, load_slot, load_const, load_accessor, eq_op, gt_op, lt_op, gte_op, lte_op, and_op, or_op,
  not_op, add_op, sub_op, mul_op, div_op, mod_op, contains_op, starts_with_op, ends_with_op,
  length_op, exists, jump_true, jump_false, jump, Stack, Program, pop, jump_to, stay, jump_if,
  execute_op, after, round, run, eval, result_of,
}

-- A result whose program counter is not below this one.
abbrev pub NotBack : ℕ → Result (ℕ × Stack) → Type 0
NotBack pc (ok (pc', s)) = pc ≤ pc'
NotBack pc (err failure) = Unit

module _ (p : Program) where
  stay-NotBack : (pc : ℕ) (r : Result Stack) → NotBack pc (stay p pc r)
  stay-NotBack pc (ok s) = omega arith
  stay-NotBack pc (err failure) = tt

  jump_to-NotBack : (offset pc : ℕ) (s : Stack) → NotBack pc (jump_to p offset pc s)
  unfolding jump_to
  jump_to-NotBack offset pc s = ground arith

  jump_if-NotBack :
      (test : SlotValue → Bool) (offset pc : ℕ) (s : Stack)
      → NotBack pc (jump_if p test offset pc s)
  unfolding jump_if pop ◌>>=◌
  jump_if-NotBack test offset pc [] = tt
  jump_if-NotBack test offset pc (cond ∷ s) = elim (Bool-cases (test cond)) [
    | inl e ↦ rw e (jump_to-NotBack offset pc s)
    | inr e ↦ rw e (omega arith)
  ]

  execute_op-NotBack : (op : Op) (pc : ℕ) (s : Stack) → NotBack pc (execute_op p op pc s)
  unfolding execute_op
  execute_op-NotBack (jump_true offset) pc s = jump_if-NotBack _ offset pc s
  execute_op-NotBack (jump_false offset) pc s = jump_if-NotBack _ offset pc s
  execute_op-NotBack (jump offset) pc s = jump_to-NotBack offset pc s
  execute_op-NotBack (load_slot i) pc s = stay-NotBack pc _
  execute_op-NotBack (load_const i) pc s = stay-NotBack pc _
  execute_op-NotBack (load_accessor i) pc s = stay-NotBack pc _
  execute_op-NotBack eq_op pc s = stay-NotBack pc _
  execute_op-NotBack gt_op pc s = stay-NotBack pc _
  execute_op-NotBack lt_op pc s = stay-NotBack pc _
  execute_op-NotBack gte_op pc s = stay-NotBack pc _
  execute_op-NotBack lte_op pc s = stay-NotBack pc _
  execute_op-NotBack and_op pc s = stay-NotBack pc _
  execute_op-NotBack or_op pc s = stay-NotBack pc _
  execute_op-NotBack not_op pc s = stay-NotBack pc _
  execute_op-NotBack add_op pc s = stay-NotBack pc _
  execute_op-NotBack sub_op pc s = stay-NotBack pc _
  execute_op-NotBack mul_op pc s = stay-NotBack pc _
  execute_op-NotBack div_op pc s = stay-NotBack pc _
  execute_op-NotBack mod_op pc s = stay-NotBack pc _
  execute_op-NotBack contains_op pc s = stay-NotBack pc _
  execute_op-NotBack starts_with_op pc s = stay-NotBack pc _
  execute_op-NotBack ends_with_op pc s = stay-NotBack pc _
  execute_op-NotBack length_op pc s = stay-NotBack pc _
  execute_op-NotBack (exists i) pc s = stay-NotBack pc _

  -- A result with a stack on which the invariant holds.
  abbrev pub Kept : (Stack → Type 0) → Result (ℕ × Stack) → Type 0
  Kept I (ok (pc, s)) = I s
  Kept I (err failure) = Unit

  -- A run that returned: the top of a stack on which the invariant holds, or an error.
  abbrev pub Ended : (Stack → Type 0) → Option (Result SlotValue) → Type 0
  Ended I o =
      ((s : Stack) × (o ≡ some (result_of p s)) × I s)
      ⊎ ((failure : ExprError) × (o ≡ some (err failure)))

  after-Ended :
      (I : Stack → Type 0) (pc : ℕ) (r : Result (ℕ × Stack))
      (continue : ℕ → Stack → Option (Result SlotValue))
      → NotBack pc r
      → Kept I r
      → ((pc' : ℕ) (s : Stack) → pc ≤ pc' → I s → Ended I (continue (suc pc') s))
      → Ended I (after p r continue)
  after-Ended I pc (ok (pc', s)) continue b k next = next pc' s b k
  after-Ended I pc (err failure) continue b k next = inr (failure, refl)

  -- An invariant that every operation keeps holds at the end, and with fuel for the operations that
  -- are left the run ends.
  pub run-Ended :
      (I : Stack → Type 0)
      → ((op : Op) (pc : ℕ) (s : Stack) → I s → Kept I (execute_op p op pc s))
      → (fuel pc : ℕ) (s : Stack) → I s
      → length p.ops ≤ pc + fuel
      → Ended I (run p fuel pc s)
  unfolding run round
  run-Ended I keep zero pc s i h = elim (Option-cases (get_elem? p.ops pc)) [
    | inl e ↦ inl (s, rw e refl, i)
    | inr (op, e) ↦ absurd (omega (arith, get_elem?-some_lt p.ops pc e))
  ]
  run-Ended I keep (suc fuel) pc s i h = elim (Option-cases (get_elem? p.ops pc)) [
    | inl e ↦ inl (s, rw e refl, i)
    | inr (op, e) ↦ rw e (
        after-Ended I pc (execute_op p op pc s) (run p fuel) (execute_op-NotBack op pc s)
          (keep op pc s i) (λ pc' s' b k. run-Ended I keep fuel (suc pc') s' k (omega arith)))
  ]

  -- The evaluation of an expression returns, a value or an error: its jumps only go forward.
  pub eval_returns : (r : Result SlotValue) × (eval p ≡ some r)
  unfolding eval
  eval_returns =
      elim (run-Ended (λ s. Unit) (λ op pc s i. any (execute_op p op pc s)) (length p.ops) 0 [] tt
        (omega arith)) [ inl (s, e, i) ↦ (_, e) | inr (failure, e) ↦ (_, e) ]
    where
      any : (r : Result (ℕ × Stack)) → Kept (λ s. Unit) r
      any (ok (pc, s)) = tt
      any (err failure) = tt
