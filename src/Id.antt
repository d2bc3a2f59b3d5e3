-- ===== src/Id.antt =====
-- Identifiers (crates/twerk-core/src/id/common.rs, id/job_id.rs). A validated identifier is its
-- text: `From<String>` makes one without a check, so nothing more holds of the type.
use Prim.Native.Char.{Char, code}
use Prim.Native.String.{len}
use twerk.Prelude.{
  ℕ, String, Bool, true, false, ◌&&◌, ◌||◌, Option, none, some, ltb, ◌==◌, str_eq, if◌then◌else◌,
}

pub data IdError : Type 0 where
  empty : IdError
  too_short too_long : ℕ → IdError
  invalid_characters invalid_job_id_format : IdError

abbrev pub max_id_length : ℕ
max_id_length = 1000

-- `chars().all(p)` and `bytes().all(p)`, which agree on what the callers ask.
unfoldable pub all_chars : (Char → Bool) → String → Bool
all_chars p String.[] = true
all_chars p (String.◌∷◌ c s) = p c && all_chars p s

-- `is_alphanumeric` is `char::is_alphanumeric` of the standard library, over all of Unicode.
-- `none` is `Ok(())`.
unfoldable pub validate_id : (is_alphanumeric : Char → Bool) → String → Option IdError
unfolding all_chars
validate_id is_alphanumeric value =
    if str_eq value ""
    then some empty
    else if ltb max_id_length (len value)
    then some (too_long (len value))
    else if all_chars (λ c. is_alphanumeric c || code c == b'-' || code c == b'_') value
    then none
    else some invalid_characters

-- Membership in `SHORT_JOB_ID_ALPHABET`.
unfoldable pub in_alphabet : String → Char → Bool
in_alphabet String.[] c = false
in_alphabet (String.◌∷◌ a s) c = code a == code c || in_alphabet s c

abbrev pub short_job_id_alphabet : String
short_job_id_alphabet = "23456789ABCDEFGHJKLMNPQRSTUVWXYZabcdefghijkmnopqrstuvwxyz"

unfoldable pub is_valid_short_job_id : String → Bool
unfolding all_chars in_alphabet
is_valid_short_job_id id = len id == 22 && all_chars (in_alphabet short_job_id_alphabet) id

-- `is_uuid` is `uuid::Uuid::parse_str(_).is_ok()`.
unfoldable pub validate_job_id : (is_uuid : String → Bool) → String → Option IdError
unfolding is_valid_short_job_id
validate_job_id is_uuid id =
    if str_eq id ""
    then some empty
    else if ltb max_id_length (len id)
    then some (too_long (len id))
    else if (len id == 36 && is_uuid id) || is_valid_short_job_id id
    then none
    else some invalid_job_id_format
