-- ===== src/Ir/Value.antt =====
-- Values, and the operations on them (crates/twerk-core/src/ir/slot.rs, expression.rs, and the value
-- operations of expr_vm.rs).
use Prim.Native.String.{len, compare, ◌++◌ as str_append}
use twerk.Prelude.{
  ℕ, suc, String, Bool, true, false, not, ◌&&◌, ◌||◌, Option, none, some, is_some, ℤ, pos, is_zero,
  int_eq, int_lt, checked_add, checked_sub, checked_mul, checked_div, checked_rem, as_i64, str_eq,
  is_lt, is_le, starts_with, find?,
}
use twerk.Outcome.{Outcome, ok, err, refuse_if}

-- `ListRef` and `ObjectRef` hold a vector of values and a vector of named values.
mutual
  pub data SlotValue : Type 0 where
    null : SlotValue
    bool : Bool → SlotValue
    number : ℤ → SlotValue
    text : String → SlotValue
    list : Values → SlotValue
    object : Fields → SlotValue

  pub data Values : Type 0 where
    no_values : Values
    value : SlotValue → Values → Values

  pub data Fields : Type 0 where
    no_fields : Fields
    field : String → SlotValue → Fields → Fields

pub data ExprError : Type 0 where
  stack_overflow : (depth max : ℕ) → ExprError
  stack_underflow : (needed : ℕ) → ExprError
  slot_not_initialized : (slot : ℕ) → ExprError
  slot_out_of_bounds : (slot max : ℕ) → ExprError
  const_out_of_bounds accessor_out_of_bounds : (index : ℕ) → ExprError
  division_by_zero : ExprError
  type_mismatch : (expected actual : String) → ExprError
  invalid_jump : (offset : ℕ) → ExprError
  expression_too_complex : (instruction_count : ℕ) → ExprError
  null_value : ExprError

-- `ExprResult`.
abbrev pub Result : Type 0 → Type 0
Result A = Outcome ExprError A

-- The derived equality.
mutual
  pub same : SlotValue → SlotValue → Bool
  same null null = true
  same (bool true) (bool b) = b
  same (bool false) (bool b) = not b
  same (number a) (number b) = int_eq a b
  same (text s) (text t) = str_eq s t
  same (list xs) (list ys) = same_values xs ys
  same (object xs) (object ys) = same_fields xs ys
  same _ _ = false

  pub same_values : Values → Values → Bool
  same_values no_values no_values = true
  same_values (value x xs) (value y ys) = same x y && same_values xs ys
  same_values _ _ = false

  pub same_fields : Fields → Fields → Bool
  same_fields no_fields no_fields = true
  same_fields (field j x xs) (field k y ys) = str_eq j k && (same x y && same_fields xs ys)
  same_fields _ _ = false

-- `gt` and `lt` test the one order, `gte` and `lte` its negation.
unfoldable pub lt : SlotValue → SlotValue → Result Bool
lt (number a) (number b) = ok (int_lt a b)
lt (text s) (text t) = ok (is_lt (compare s t))
lt _ _ = err (type_mismatch "number or text" "other")

unfoldable pub gt : SlotValue → SlotValue → Result Bool
gt (number a) (number b) = ok (int_lt b a)
gt (text s) (text t) = ok (is_lt (compare t s))
gt _ _ = err (type_mismatch "number or text" "other")

unfoldable pub lte : SlotValue → SlotValue → Result Bool
lte (number a) (number b) = ok (not (int_lt b a))
lte (text s) (text t) = ok (is_le (compare s t))
lte _ _ = err (type_mismatch "number or text" "other")

unfoldable pub gte : SlotValue → SlotValue → Result Bool
gte (number a) (number b) = ok (not (int_lt a b))
gte (text s) (text t) = ok (is_le (compare t s))
gte _ _ = err (type_mismatch "number or text" "other")

abbrev has_values : Values → Bool
has_values no_values = false
has_values (value x xs) = true

abbrev has_fields : Fields → Bool
has_fields no_fields = false
has_fields (field k x xs) = true

-- It never fails.
unfoldable pub is_truthy : SlotValue → Bool
is_truthy null = false
is_truthy (bool b) = b
is_truthy (number n) = not (is_zero n)
is_truthy (text s) = not (str_eq s "")
is_truthy (list xs) = has_values xs
is_truthy (object xs) = has_fields xs

-- `ok_or` of a checked operation.
abbrev number_or_overflow : Option ℤ → Result SlotValue
number_or_overflow none = err (type_mismatch "number" "overflow")
number_or_overflow (some n) = ok (number n)

unfoldable pub add : SlotValue → SlotValue → Result SlotValue
add (number a) (number b) = number_or_overflow (checked_add a b)
add (text s) (text t) = ok (text (str_append s t))
add _ _ = err (type_mismatch "number or text" "other")

unfoldable pub sub : SlotValue → SlotValue → Result SlotValue
sub (number a) (number b) = number_or_overflow (checked_sub a b)
sub _ _ = err (type_mismatch "number" "other")

unfoldable pub mul : SlotValue → SlotValue → Result SlotValue
mul (number a) (number b) = number_or_overflow (checked_mul a b)
mul _ _ = err (type_mismatch "number" "other")

unfoldable pub div : SlotValue → SlotValue → Result SlotValue
div (number a) (number b) =
    refuse_if (is_zero b) division_by_zero (number_or_overflow (checked_div a b))
div _ _ = err (type_mismatch "number" "other")

unfoldable pub modulo : SlotValue → SlotValue → Result SlotValue
modulo (number a) (number b) =
    refuse_if (is_zero b) division_by_zero (number_or_overflow (checked_rem a b))
modulo _ _ = err (type_mismatch "number" "other")

unfoldable pub has_value : Values → SlotValue → Bool
unfolding same
has_value no_values needle = false
has_value (value x xs) needle = same x needle || has_value xs needle

abbrev text_contains : String → SlotValue → Result Bool
text_contains s (text needle) = ok (is_some (find? s needle))
text_contains s _ = err (type_mismatch "text" "other")

unfoldable pub contains : SlotValue → SlotValue → Result Bool
unfolding has_value
contains (text s) needle = text_contains s needle
contains (list xs) needle = ok (has_value xs needle)
contains _ needle = err (type_mismatch "text or list" "other")

unfoldable pub begins_with : SlotValue → SlotValue → Result Bool
begins_with (text s) (text prefix) = ok (starts_with s prefix)
begins_with _ _ = err (type_mismatch "text" "other")

-- `str::ends_with`: some tail of the text is the suffix.
abbrev has_suffix : String → String → Bool
has_suffix String.[] suffix = str_eq "" suffix
has_suffix (String.◌∷◌ c s) suffix = str_eq (String.◌∷◌ c s) suffix || has_suffix s suffix

unfoldable pub ends_with : SlotValue → SlotValue → Result Bool
ends_with (text s) (text suffix) = ok (has_suffix s suffix)
ends_with _ _ = err (type_mismatch "text" "other")

unfoldable pub count_values : Values → ℕ
count_values no_values = 0
count_values (value x xs) = suc (count_values xs)

unfoldable pub count_fields : Fields → ℕ
count_fields no_fields = 0
count_fields (field k x xs) = suc (count_fields xs)

-- It never fails.
unfoldable pub length : SlotValue → ℤ
unfolding count_values count_fields
length null = pos 0
length (bool b) = pos 1
length (number n) = pos 1
length (text s) = as_i64 (len s)
length (list xs) = as_i64 (count_values xs)
length (object xs) = as_i64 (count_fields xs)
