-- ===== src/Asl/ErrorCode.antt =====
-- The error codes that retriers and catchers match (crates/twerk-core/src/asl/error_code.rs).
-- `to_lowercase` is `to_ascii_lowercase`.
use twerk.Prelude.{String, Bool, true, false, ◌||◌, str_eq, if◌then◌else◌}

pub data ErrorCode : Type 0 where
  all timeout task_failed permissions result_path_match_failure : ErrorCode
  parameter_path_failure branch_failed no_choice_matched : ErrorCode
  intrinsic_failure heartbeat_timeout : ErrorCode
  custom : String → ErrorCode

-- `Display::fmt`.
abbrev pub to_string : ErrorCode → String
to_string all = "all"
to_string timeout = "timeout"
to_string task_failed = "taskfailed"
to_string permissions = "permissions"
to_string result_path_match_failure = "resultpathmatchfailure"
to_string parameter_path_failure = "parameterpathfailure"
to_string branch_failed = "branchfailed"
to_string no_choice_matched = "nochoicematched"
to_string intrinsic_failure = "intrinsicfailure"
to_string heartbeat_timeout = "heartbeattimeout"
to_string (custom s) = s

-- The match of `ErrorCode::parse`, on the text in lower case.
unfoldable pub known_or : String → ErrorCode → ErrorCode
known_or lower other =
    if str_eq lower "all"
    then all
    else if str_eq lower "timeout"
    then timeout
    else if str_eq lower "taskfailed"
    then task_failed
    else if str_eq lower "permissions"
    then permissions
    else if str_eq lower "resultpathmatchfailure"
    then result_path_match_failure
    else if str_eq lower "parameterpathfailure"
    then parameter_path_failure
    else if str_eq lower "branchfailed"
    then branch_failed
    else if str_eq lower "nochoicematched"
    then no_choice_matched
    else if str_eq lower "intrinsicfailure"
    then intrinsic_failure
    else if str_eq lower "heartbeattimeout"
    then heartbeat_timeout
    else other

unfoldable pub parse : (to_lowercase : String → String) → String → ErrorCode
unfolding known_or
parse to_lowercase s = known_or (to_lowercase s) (custom s)

-- The derived equality.
abbrev same : ErrorCode → ErrorCode → Bool
same all all = true
same timeout timeout = true
same task_failed task_failed = true
same permissions permissions = true
same result_path_match_failure result_path_match_failure = true
same parameter_path_failure parameter_path_failure = true
same branch_failed branch_failed = true
same no_choice_matched no_choice_matched = true
same intrinsic_failure intrinsic_failure = true
same heartbeat_timeout heartbeat_timeout = true
same (custom s) (custom t) = str_eq s t
same _ _ = false

unfoldable pub matches : ErrorCode → ErrorCode → Bool
matches code other = same code all || same code other
