-- ===== src/Ir/Tree.antt =====
-- Expression trees, their postfix code and their values: what the machine is meant to compute.
pub mod Straight
pub mod Postfix
use twerk.Prelude.{ℕ, suc, Bool, true, false, List, [], ◌∷◌, ◌++◌, leb, if◌then◌else◌}
use twerk.Outcome.{Outcome, ok, err, ◌>>=◌}
use twerk.Ir.Value.{
  SlotValue, Result, lt, gt, lte, gte, add, sub, mul, div, modulo, contains, begins_with, ends_with,
}
use twerk.Ir.Vm.{
  Op, load_slot, load_const, load_accessor, eq_op, gt_op, lt_op, gte_op, lte_op, and_op, or_op,
  not_op, add_op, sub_op, mul_op, div_op, mod_op, contains_op, starts_with_op, ends_with_op,
  length_op, exists, Program, on_bool, eq_values, and_values, or_values, not_value, length_value,
  load,
}

pub data Unary : Type 0 where
  negation length : Unary

pub data Binary : Type 0 where
  equal greater less greater_equal less_equal conjunction disjunction : Binary
  plus minus times over mod_by : Binary
  contained prefix suffix : Binary

-- An expression as a tree.
pub data Tree : Type 0 where
  slot constant accessor is_there : ℕ → Tree
  apply : Unary → Tree → Tree
  combine : Binary → Tree → Tree → Tree

abbrev pub unary_op : Unary → Op
unary_op negation = not_op
unary_op length = length_op

abbrev pub unary_value : Unary → SlotValue → SlotValue
unary_value negation = not_value
unary_value length = length_value

abbrev pub binary_op : Binary → Op
binary_op equal = eq_op
binary_op greater = gt_op
binary_op less = lt_op
binary_op greater_equal = gte_op
binary_op less_equal = lte_op
binary_op conjunction = and_op
binary_op disjunction = or_op
binary_op plus = add_op
binary_op minus = sub_op
binary_op times = mul_op
binary_op over = div_op
binary_op mod_by = mod_op
binary_op contained = contains_op
binary_op prefix = starts_with_op
binary_op suffix = ends_with_op

-- The operation on the left and the right operand.
abbrev pub binary_value : Binary → SlotValue → SlotValue → Result SlotValue
binary_value equal = on_bool eq_values
binary_value greater = on_bool gt
binary_value less = on_bool lt
binary_value greater_equal = on_bool gte
binary_value less_equal = on_bool lte
binary_value conjunction = on_bool and_values
binary_value disjunction = on_bool or_values
binary_value plus = add
binary_value minus = sub
binary_value times = mul
binary_value over = div
binary_value mod_by = modulo
binary_value contained = on_bool contains
binary_value prefix = on_bool begins_with
binary_value suffix = on_bool ends_with

-- The operands first, the left one before the right one.
unfoldable pub postfix : Tree → List Op
postfix (slot i) = load_slot i ∷ []
postfix (constant i) = load_const i ∷ []
postfix (accessor i) = load_accessor i ∷ []
postfix (is_there i) = exists i ∷ []
postfix (apply o t) = postfix t ++ unary_op o ∷ []
postfix (combine o l r) = postfix l ++ (postfix r ++ binary_op o ∷ [])

abbrev pub larger : ℕ → ℕ → ℕ
larger a b = if leb a b then b else a

-- The stack entries that the code of a tree takes.
unfoldable pub needs : Tree → ℕ
needs (apply o t) = needs t
needs (combine o l r) = larger (needs l) (suc (needs r))
needs _ = 1

module _ (p : Program) where
  -- The value of a tree, or the error of the first operation that fails, from left to right.
  pub value_of : Tree → Result SlotValue
  unfolding ◌>>=◌ load
  value_of (slot i) = load p (load_slot i)
  value_of (constant i) = load p (load_const i)
  value_of (accessor i) = load p (load_accessor i)
  value_of (is_there i) = load p (exists i)
  value_of (apply o t) = do v ← value_of t; ok (unary_value o v)
  value_of (combine o l r) = do a ← value_of l; b ← value_of r; binary_value o a b
