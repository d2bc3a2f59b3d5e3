-- ===== src/Ir/Vm.antt =====
-- The machine of the expressions (crates/twerk-core/src/ir/expr_vm.rs). The first `depth` entries of
-- the evaluation stack are a list, the top first; the others hold nothing.
pub mod Returns
use twerk.Prelude.{
  ℕ, zero, suc, ◌+◌, ◌%◌, String, Bool, true, false, not, ◌&&◌, ◌||◌, Option, none, some, List, [],
  ◌∷◌, leb, get_elem?, if◌then◌else◌, length as count,
}
use twerk.Outcome.{Outcome, ok, err, refuse_if, map_ok, ◌>>=◌}
use twerk.Ir.Value.{
  SlotValue, null, bool, number, ExprError, stack_overflow, stack_underflow, slot_out_of_bounds,
  const_out_of_bounds, accessor_out_of_bounds, invalid_jump, Result, same, lt, gt, lte, gte,
  is_truthy, add, sub, mul, div, modulo, contains, begins_with, ends_with, length,
}

pub data Op : Type 0 where
  load_slot load_const load_accessor : ℕ → Op
  eq_op gt_op lt_op gte_op lte_op and_op or_op not_op : Op
  add_op sub_op mul_op div_op mod_op : Op
  contains_op starts_with_op ends_with_op length_op : Op
  exists : ℕ → Op
  jump_true jump_false jump : ℕ → Op

abbrev pub Stack : Type 0
Stack = List SlotValue

-- `EXPR_STACK_MAX`.
abbrev pub stack_max : ℕ
stack_max = 64

unfoldable pub push : SlotValue → Stack → Result Stack
push v s = refuse_if (leb stack_max (count s)) (stack_overflow (count s) stack_max) (ok (v ∷ s))

unfoldable pub pop : Stack → Result (SlotValue × Stack)
pop [] = err (stack_underflow 1)
pop (v ∷ s) = ok (v, s)

-- The top and the value below it.
unfoldable pub pop2 : Stack → Result (SlotValue × SlotValue × Stack)
unfolding pop ◌>>=◌
pop2 s = do (a, s₁) ← pop s; (b, s₂) ← pop s₁; ok (a, b, s₂)

abbrev pub on_bool :
    (SlotValue → SlotValue → Result Bool) → SlotValue → SlotValue → Result SlotValue
on_bool test a b = map_ok bool (test a b)

-- A binary operation on the value below the top and the top.
unfoldable pub binary : (SlotValue → SlotValue → Result SlotValue) → Stack → Result Stack
unfolding pop2 push ◌>>=◌
binary operate s = do (top, below, s') ← pop2 s; v ← operate below top; push v s'

unfoldable pub unary : (SlotValue → SlotValue) → Stack → Result Stack
unfolding pop push ◌>>=◌
unary operate s = do (top, s') ← pop s; push (operate top) s'

abbrev pub eq_values : SlotValue → SlotValue → Result Bool
eq_values a b = ok (same a b)

abbrev pub and_values : SlotValue → SlotValue → Result Bool
and_values a b = ok (is_truthy b && is_truthy a)

abbrev pub or_values : SlotValue → SlotValue → Result Bool
or_values a b = ok (is_truthy b || is_truthy a)

abbrev pub not_value : SlotValue → SlotValue
not_value a = bool (not (is_truthy a))

abbrev pub length_value : SlotValue → SlotValue
length_value a = number (length a)

-- The value at an index, or the error that an index outside gives.
abbrev pub at_index : Option SlotValue → ExprError → Result SlotValue
at_index none failure = err failure
at_index (some v) failure = ok v

abbrev pub present : Option SlotValue → SlotValue
present none = bool false
present (some null) = bool false
present (some v) = bool true

-- `CompiledExpr`, with the constants of the machine and the slots of the frame. `max_stack` is not
-- read.
pub record Program : Type 0 where
  pub ops : List Op
  pub constants : List SlotValue
  pub slots : List SlotValue

module _ (p : Program) where
  -- The last clause is for the operations that load nothing; it is not called.
  -- The bound in the error is `frame.slots.len() as u16`.
  unfoldable pub load : Op → Result SlotValue
  load (load_slot i) = at_index (get_elem? p.slots i) (slot_out_of_bounds i (count p.slots % 65536))
  load (load_const i) = at_index (get_elem? p.constants i) (const_out_of_bounds i)
  load (load_accessor i) = at_index (get_elem? p.slots i) (accessor_out_of_bounds i)
  load (exists i) = ok (present (get_elem? p.slots i))
  load _ = ok null

  -- A jump writes the program counter; the loop adds one after it.
  unfoldable pub jump_to : ℕ → ℕ → Stack → Result (ℕ × Stack)
  jump_to offset pc s =
      refuse_if (leb (count p.ops) (pc + offset)) (invalid_jump offset) (ok (pc + offset, s))

  abbrev pub stay : ℕ → Result Stack → Result (ℕ × Stack)
  stay pc r = map_ok (λ s. (pc, s)) r

  -- A conditional jump after its condition.
  unfoldable pub jump_if : (SlotValue → Bool) → ℕ → ℕ → Stack → Result (ℕ × Stack)
  unfolding pop jump_to ◌>>=◌
  jump_if test offset pc s = do
    (cond, s') ← pop s
    if test cond then jump_to offset pc s' else ok (pc, s')

  unfoldable pub load_push : Op → Stack → Result Stack
  unfolding load push ◌>>=◌
  load_push op s = do v ← load op; push v s

  unfoldable pub execute_op : Op → ℕ → Stack → Result (ℕ × Stack)
  unfolding load_push jump_to jump_if binary unary
  execute_op (load_slot i) pc s = stay pc (load_push (load_slot i) s)
  execute_op (load_const i) pc s = stay pc (load_push (load_const i) s)
  execute_op (load_accessor i) pc s = stay pc (load_push (load_accessor i) s)
  execute_op eq_op pc s = stay pc (binary (on_bool eq_values) s)
  execute_op gt_op pc s = stay pc (binary (on_bool gt) s)
  execute_op lt_op pc s = stay pc (binary (on_bool lt) s)
  execute_op gte_op pc s = stay pc (binary (on_bool gte) s)
  execute_op lte_op pc s = stay pc (binary (on_bool lte) s)
  execute_op and_op pc s = stay pc (binary (on_bool and_values) s)
  execute_op or_op pc s = stay pc (binary (on_bool or_values) s)
  execute_op not_op pc s = stay pc (unary not_value s)
  execute_op add_op pc s = stay pc (binary add s)
  execute_op sub_op pc s = stay pc (binary sub s)
  execute_op mul_op pc s = stay pc (binary mul s)
  execute_op div_op pc s = stay pc (binary div s)
  execute_op mod_op pc s = stay pc (binary modulo s)
  execute_op contains_op pc s = stay pc (binary (on_bool contains) s)
  execute_op starts_with_op pc s = stay pc (binary (on_bool begins_with) s)
  execute_op ends_with_op pc s = stay pc (binary (on_bool ends_with) s)
  execute_op length_op pc s = stay pc (unary length_value s)
  execute_op (exists i) pc s = stay pc (load_push (exists i) s)
  execute_op (jump_true offset) pc s = jump_if is_truthy offset pc s
  execute_op (jump_false offset) pc s = jump_if (λ v. not (is_truthy v)) offset pc s
  execute_op (jump offset) pc s = jump_to offset pc s

  -- The top of the stack.
  unfoldable pub result_of : Stack → Result SlotValue
  unfolding pop
  result_of s = map_ok (λ (v, rest). v) (pop s)

  -- What the loop does after an operation: `pc += 1`, or the error.
  abbrev pub after :
      Result (ℕ × Stack) → (ℕ → Stack → Option (Result SlotValue)) → Option (Result SlotValue)
  after (ok (pc, s)) continue = continue (suc pc) s
  after (err failure) continue = some (err failure)

  unfoldable pub round :
      Option Op → ℕ → Stack → (ℕ → Stack → Option (Result SlotValue)) → Option (Result SlotValue)
  unfolding execute_op result_of
  round none pc s continue = some (result_of s)
  round (some op) pc s continue = after (execute_op op pc s) continue

  -- The loop; `none` where the fuel runs out.
  unfoldable pub run : ℕ → ℕ → Stack → Option (Result SlotValue)
  unfolding round
  run zero pc s = round (get_elem? p.ops pc) pc s (λ pc' s'. none)
  run (suc fuel) pc s = round (get_elem? p.ops pc) pc s (run fuel)

  -- The program counter grows in every round, so that there are at most as many as operations.
  unfoldable pub eval : Option (Result SlotValue)
  unfolding run
  eval = run (count p.ops) 0 []
