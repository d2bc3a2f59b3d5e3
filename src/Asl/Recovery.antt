-- ===== src/Asl/Recovery.antt =====
-- Retry and catch policies (crates/twerk-core/src/asl/retrier.rs, catcher.rs).
use twerk.Prelude.{ℕ, String, ltb, leb, Option, none, some, List, is_empty, F64}
use twerk.Map.{Map}
use twerk.Outcome.{Outcome, ok, refuse_if}
use twerk.Asl.ErrorCode.{ErrorCode}

pub data JitterStrategy : Type 0 where
  full no_jitter : JitterStrategy

pub data RetrierError : Type 0 where
  empty_error_equals : RetrierError
  interval_too_small max_attempts_too_small : ℕ → RetrierError
  max_delay_not_greater_than_interval : (max_delay interval : ℕ) → RetrierError

pub record Retrier : Type 0 where
  pub error_equals : List ErrorCode
  pub interval_seconds : ℕ
  pub max_attempts : ℕ
  pub backoff_rate : F64
  pub max_delay_seconds : Option ℕ
  pub jitter_strategy : JitterStrategy

-- The test of an optional delay.
unfoldable pub check_delay :
    Option ℕ → ℕ → Outcome RetrierError Retrier → Outcome RetrierError Retrier
check_delay none interval rest = rest
check_delay (some d) interval rest =
    refuse_if (leb d interval) (max_delay_not_greater_than_interval d interval) rest

-- `Retrier::new`, on the arguments as a record.
unfoldable pub new_retrier : Retrier → Outcome RetrierError Retrier
unfolding check_delay
new_retrier r = refuse_if (is_empty r.error_equals) empty_error_equals (
    refuse_if (ltb r.interval_seconds 1) (interval_too_small r.interval_seconds) (
      refuse_if (ltb r.max_attempts 1) (max_attempts_too_small r.max_attempts)
        (check_delay r.max_delay_seconds r.interval_seconds (ok r))))

pub data CatcherError : Type 0 where
  no_error_equals : CatcherError

pub record Catcher : Type 0 where
  pub error_equals : List ErrorCode
  pub next : String
  pub result_path : Option String
  pub assign : Option (Map String)

-- `Catcher::new`, on the arguments as a record.
unfoldable pub new_catcher : Catcher → Outcome CatcherError Catcher
new_catcher c = refuse_if (is_empty c.error_equals) no_error_equals (ok c)
