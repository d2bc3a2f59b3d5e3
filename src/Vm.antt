-- ===== src/Vm.antt =====
-- The stack machine of the switch states (crates/twerk-core/src/eval/vm.rs). The arithmetic of `f64`
-- and the reading of a number from a text are the parameter `Floats`.
use twerk.Prelude.{
  ℕ, String, Bool, true, false, not, ◌&&◌, ◌||◌, Option, none, some, List, [], ◌∷◌, leb, length,
  get_elem?, ℤ, pos, negsuc, is_zero, int_eq, int_lt, ◌+ℤ◌, negate, product, quotient, remainder,
  negative, fits, i64_bound, F64, str_eq, if◌then◌else◌, ◌-◌,
}
use twerk.Outcome.{Outcome, ok, err, refuse_if, ◌>>=◌}

pub data SlotValue : Type 0 where
  null : SlotValue
  bool : Bool → SlotValue
  int : ℤ → SlotValue
  float : F64 → SlotValue
  string : String → SlotValue

pub data Op : Type 0 where
  load_slot : ℕ → Op
  load_const : SlotValue → Op
  add sub mul div mod_op : Op
  eq ne lt le gt ge and or not_op : Op

-- `overflow_panic` is no error of the program: the division of `i64::MIN` by -1 ends the thread.
pub data VmError : Type 0 where
  stack_overflow division_by_zero overflow_panic : VmError
  stack_underflow : (needed available : ℕ) → VmError
  invalid_binary_op : (op : String) → (a b : SlotValue) → VmError
  invalid_unary_op : (op : String) → SlotValue → VmError
  slot_out_of_bounds : (index len : ℕ) → VmError
  type_error : (expected actual : String) → VmError

-- The operations of `f64` that the machine uses; `less`, `less_equal` and `equal` are those of IEEE.
pub record Floats : Type 0 where
  pub of_int : ℤ → F64
  pub parse : String → Option F64
  pub one : F64
  pub zero_float : F64
  pub plus : F64 → F64 → F64
  pub minus : F64 → F64 → F64
  pub times : F64 → F64 → F64
  pub over : F64 → F64 → F64
  pub rest : F64 → F64 → F64
  pub less : F64 → F64 → Bool
  pub less_equal : F64 → F64 → Bool
  pub equal : F64 → F64 → Bool

abbrev pub Result : Type 0 → Type 0
Result A = Outcome VmError A

abbrev pub Stack : Type 0
Stack = List SlotValue

unfoldable pub push : SlotValue → Stack → Result Stack
push v s = refuse_if (leb 64 (length s)) stack_overflow (ok (v ∷ s))

unfoldable pub pop : Stack → Result (SlotValue × Stack)
pop [] = err (stack_underflow 1 0)
pop (v ∷ s) = ok (v, s)

abbrev pub as_int : SlotValue → Option ℤ
as_int (int i) = some i
as_int _ = none

-- `saturating_add`, `saturating_sub` and `saturating_mul`, from the exact result.
unfoldable pub saturate : ℤ → ℤ
saturate z =
    if fits z then z else if negative z then negsuc (i64_bound - 1) else pos (i64_bound - 1)

abbrev saturating : (ℤ → ℤ → ℤ) → ℤ → ℤ → Result SlotValue
unfolding saturate
saturating f a b = ok (int (saturate (f a b)))

-- `a / b` and `a % b`.
unfoldable pub divide : (ℤ → ℤ → ℤ) → ℤ → ℤ → Result SlotValue
divide f a b =
    refuse_if (is_zero b) division_by_zero
      (refuse_if (not (fits (quotient a b))) overflow_panic (ok (int (f a b))))

module _ (fl : Floats) where
  abbrev pub as_float : SlotValue → Option F64
  as_float (float f) = some f
  as_float (int i) = some (fl.of_int i)
  as_float (bool true) = some fl.one
  as_float (bool false) = some fl.zero_float
  as_float (string s) = fl.parse s
  as_float null = none

  -- Every value has one.
  abbrev pub as_bool : SlotValue → Bool
  as_bool (bool b) = b
  as_bool (int i) = not (is_zero i)
  as_bool (float f) = not (fl.equal f fl.zero_float)
  as_bool (string s) = not (str_eq s "")
  as_bool null = false

  -- The derived equality.
  unfoldable pub same : SlotValue → SlotValue → Bool
  same null null = true
  same (bool true) (bool b) = b
  same (bool false) (bool b) = not b
  same (int a) (int b) = int_eq a b
  same (float a) (float b) = fl.equal a b
  same (string a) (string b) = str_eq a b
  same _ _ = false

  abbrev or_invalid : VmError → Option F64 → Result F64
  or_invalid failure none = err failure
  or_invalid failure (some x) = ok x

  -- The arm where one of the operands is no integer.
  unfoldable pub on_floats :
      String → (F64 → F64 → Result SlotValue) → SlotValue → SlotValue → Result SlotValue
  unfolding ◌>>=◌
  on_floats name f a b = do
    x ← or_invalid (invalid_binary_op name a b) (as_float a)
    y ← or_invalid (invalid_binary_op name a b) (as_float b)
    f x y

  abbrev pub both :
      Option ℤ → Option ℤ → (ℤ → ℤ → Result SlotValue) → Result SlotValue → Result SlotValue
  both (some a) (some b) ints floats = ints a b
  both _ _ ints floats = floats

  unfoldable pub numeric :
      String
      → (ℤ → ℤ → Result SlotValue)
      → (F64 → F64 → Result SlotValue)
      → SlotValue
      → SlotValue
      → Result SlotValue
  unfolding on_floats
  numeric name ints floats a b = both (as_int a) (as_int b) ints (on_floats name floats a b)

  abbrev pub computed : (F64 → F64 → F64) → F64 → F64 → Result SlotValue
  computed f x y = ok (float (f x y))

  abbrev pub divided : (F64 → F64 → F64) → F64 → F64 → Result SlotValue
  divided f x y = refuse_if (fl.equal y fl.zero_float) division_by_zero (ok (float (f x y)))

  abbrev tested : {A : Type 0} → (A → A → Bool) → A → A → Result SlotValue
  tested f x y = ok (bool (f x y))

  -- `b` was popped first: it is the right operand.
  unfoldable pub binary : (SlotValue → SlotValue → Result SlotValue) → Stack → Result Stack
  unfolding pop push ◌>>=◌
  binary f s = do (b, s₁) ← pop s; (a, s₂) ← pop s₁; v ← f a b; push v s₂

  -- The last clause is for the operations that are not binary; it is not called.
  unfoldable pub operate : Op → SlotValue → SlotValue → Result SlotValue
  unfolding numeric saturating divide same
  operate add = numeric "Add" (saturating (λ a b. a +ℤ b)) (computed fl.plus)
  operate sub = numeric "Sub" (saturating (λ a b. a +ℤ negate b)) (computed fl.minus)
  operate mul = numeric "Mul" (saturating product) (computed fl.times)
  operate div = numeric "Div" (divide quotient) (divided fl.over)
  operate mod_op = numeric "Mod" (divide remainder) (divided fl.rest)
  operate eq = λ a b. ok (bool (same a b))
  operate ne = λ a b. ok (bool (not (same a b)))
  operate lt = numeric "Lt" (tested int_lt) (tested fl.less)
  operate le = numeric "Le" (tested (λ a b. not (int_lt b a))) (tested fl.less_equal)
  operate gt = numeric "Gt" (tested (λ a b. int_lt b a)) (tested (λ x y. fl.less y x))
  operate ge = numeric "Ge" (tested (λ a b. not (int_lt a b))) (tested (λ x y. fl.less_equal y x))
  operate and = λ a b. ok (bool (as_bool a && as_bool b))
  operate or = λ a b. ok (bool (as_bool a || as_bool b))
  operate _ = λ a b. ok null

  abbrev pub slot_or : Option SlotValue → ℕ → ℕ → Result SlotValue
  slot_or none index len = err (slot_out_of_bounds index len)
  slot_or (some v) index len = ok v

  unfoldable pub execute_op : List SlotValue → Op → Stack → Result Stack
  unfolding binary operate push pop ◌>>=◌
  execute_op slots (load_slot i) s = do v ← slot_or (get_elem? slots i) i (length slots); push v s
  execute_op slots (load_const v) s = push v s
  execute_op slots not_op s = do (a, s') ← pop s; push (bool (not (as_bool a))) s'
  execute_op slots op s = binary (operate op) s

  unfoldable pub execute_all : List SlotValue → List Op → Stack → Result Stack
  unfolding execute_op ◌>>=◌
  execute_all slots [] s = ok s
  execute_all slots (op ∷ ops) s = do s' ← execute_op slots op s; execute_all slots ops s'

  unfoldable pub execute : List Op → List SlotValue → Result SlotValue
  unfolding execute_all pop ◌>>=◌
  execute ops slots = do s ← execute_all slots ops []; (v, rest) ← pop s; ok v
