-- ===== src/Asl/Types.antt =====
-- The validated texts and numbers of the state-machine language (crates/twerk-core/src/asl/types.rs).
-- A text of one of these types is its text: the only way to make one is `new`, which is also how it
-- is read. `String::len` counts bytes of UTF-8. `is_whitespace` is `char::is_whitespace`.
use Prim.Native.Char.{Char, code}
use Prim.Native.String.{len}
use text.Mathlib.Text.{starts_with}
use twerk.Prelude.{
  ℕ, String, Bool, not, ◌&&◌, ◌||◌, ltb, leb, ◌==◌, str_eq, F64, is_finite, at_most_zero,
}
use twerk.Outcome.{Outcome, ok, err, refuse_if}
use twerk.Id.{all_chars}

abbrev is_empty : String → Bool
is_empty s = str_eq s ""

pub data StateNameError : Type 0 where
  empty : StateNameError
  too_long : ℕ → StateNameError

module _ (is_whitespace : Char → Bool) where
  -- `StateName::new`: `trim` leaves nothing exactly of a text of white space.
  unfoldable pub state_name : String → Outcome StateNameError String
  unfolding all_chars
  state_name s =
      refuse_if (is_empty s || all_chars is_whitespace s) StateNameError.empty
        (refuse_if (ltb 256 (len s)) (StateNameError.too_long (len s)) (ok s))

pub data ExpressionError : Type 0 where
  empty : ExpressionError

-- `Expression::new`.
unfoldable pub expression : String → Outcome ExpressionError String
expression s = refuse_if (is_empty s) ExpressionError.empty (ok s)

pub data JsonPathError : Type 0 where
  empty : JsonPathError
  missing_dollar_prefix : String → JsonPathError

-- `JsonPath::new`.
unfoldable pub json_path : String → Outcome JsonPathError String
json_path s =
    refuse_if (is_empty s) JsonPathError.empty
      (refuse_if (not (starts_with s "$")) (missing_dollar_prefix s) (ok s))

pub data VariableNameError : Type 0 where
  empty : VariableNameError
  too_long : ℕ → VariableNameError
  invalid_start invalid_character : Char → VariableNameError

abbrev in_range : ℕ → ℕ → Char → Bool
in_range lo hi c = leb lo (code c) && leb (code c) hi

-- `is_ascii_alphabetic() || '_'` and `is_ascii_alphanumeric() || '_'`.
abbrev pub starts_variable : Char → Bool
starts_variable c = in_range b'a' b'z' c || in_range b'A' b'Z' c || code c == b'_'

abbrev pub continues_variable : Char → Bool
continues_variable c = starts_variable c || in_range b'0' b'9' c

-- The loop over the characters after the first.
unfoldable pub check_characters : String → String → Outcome VariableNameError String
check_characters String.[] s = ok s
check_characters (String.◌∷◌ c rest) s =
    refuse_if (not (continues_variable c)) (invalid_character c) (check_characters rest s)

unfoldable pub check_variable : String → String → Outcome VariableNameError String
unfolding check_characters
check_variable String.[] s = err VariableNameError.empty
check_variable (String.◌∷◌ first rest) s =
    refuse_if (not (starts_variable first)) (invalid_start first) (check_characters rest s)

-- `VariableName::new`.
unfoldable pub variable_name : String → Outcome VariableNameError String
unfolding check_variable
variable_name s =
    refuse_if (is_empty s) VariableNameError.empty
      (refuse_if (ltb 128 (len s)) (VariableNameError.too_long (len s)) (check_variable s s))

pub data ImageRefError : Type 0 where
  empty contains_whitespace : ImageRefError

module _ (is_whitespace : Char → Bool) where
  -- `ImageRef::new`.
  unfoldable pub image_ref : String → Outcome ImageRefError String
  unfolding all_chars
  image_ref s =
      refuse_if (is_empty s) ImageRefError.empty
        (refuse_if (not (all_chars (λ c. not (is_whitespace c)) s)) contains_whitespace (ok s))

pub data ShellScriptError : Type 0 where
  empty : ShellScriptError

-- `ShellScript::new`.
unfoldable pub shell_script : String → Outcome ShellScriptError String
shell_script s = refuse_if (is_empty s) ShellScriptError.empty (ok s)

pub data BackoffRateError : Type 0 where
  not_positive not_finite : F64 → BackoffRateError

-- `BackoffRate::new`.
unfoldable pub backoff_rate : F64 → Outcome BackoffRateError F64
backoff_rate rate =
    refuse_if (not (is_finite rate)) (not_finite rate)
      (refuse_if (at_most_zero rate) (not_positive rate) (ok rate))
