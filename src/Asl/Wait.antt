-- ===== src/Asl/Wait.antt =====
-- Wait states (crates/twerk-core/src/asl/wait.rs).
use twerk.Prelude.{
  ℕ, String, Bool, Option, none, some, List, [], ◌∷◌, ◌++◌, ltb, is_some, str_eq, if◌then◌else◌,
  length,
}
use twerk.Outcome.{Outcome, ok, err, refuse_if, map_ok, map_err}
use twerk.Asl.Types.{JsonPathError, json_path}
use twerk.Asl.Transition.{Transition}

pub data WaitDurationError : Type 0 where
  no_field_specified empty_timestamp : WaitDurationError
  multiple_fields_specified : (fields : List String) → WaitDurationError
  invalid_json_path : JsonPathError → WaitDurationError

pub data WaitDuration : Type 0 where
  seconds : ℕ → WaitDuration
  timestamp seconds_path timestamp_path : String → WaitDuration

-- `WaitDurationHelper`.
pub record DurationFields : Type 0 where
  pub seconds_field : Option ℕ
  pub timestamp_field : Option String
  pub seconds_path_field : Option String
  pub timestamp_path_field : Option String

abbrev named : Bool → String → List String
named present name = if present then name ∷ [] else []

-- The names of the fields that are there.
unfoldable pub fields_of : DurationFields → List String
fields_of h =
    named (is_some h.seconds_field) "seconds"
    ++ (named (is_some h.timestamp_field) "timestamp"
        ++ (named (is_some h.seconds_path_field) "seconds_path"
            ++ named (is_some h.timestamp_path_field) "timestamp_path"))

abbrev path_duration : (String → WaitDuration) → String → Outcome WaitDurationError WaitDuration
path_duration make p = map_ok make (map_err invalid_json_path (json_path p))

-- The first of the fields that is there.
unfoldable pub first_of :
    Option ℕ
    → Option String
    → Option String
    → Option String
    → Outcome WaitDurationError WaitDuration
first_of (some n) t sp tp = ok (seconds n)
first_of none (some t) sp tp = refuse_if (str_eq t "") empty_timestamp (ok (timestamp t))
first_of none none (some p) tp = path_duration seconds_path p
first_of none none none (some p) = path_duration timestamp_path p
first_of none none none none = err no_field_specified

unfoldable pub into_wait_duration : DurationFields → Outcome WaitDurationError WaitDuration
unfolding fields_of first_of
into_wait_duration h =
    refuse_if (ltb 1 (length (fields_of h))) (multiple_fields_specified (fields_of h))
      (first_of h.seconds_field h.timestamp_field h.seconds_path_field h.timestamp_path_field)

-- The duration field that is written.
abbrev pub serialize : WaitDuration → DurationFields
serialize (seconds n) = record {
  seconds_field = some n;
  timestamp_field = none;
  seconds_path_field = none;
  timestamp_path_field = none;
}
serialize (timestamp t) = record {
  seconds_field = none;
  timestamp_field = some t;
  seconds_path_field = none;
  timestamp_path_field = none;
}
serialize (seconds_path p) = record {
  seconds_field = none;
  timestamp_field = none;
  seconds_path_field = some p;
  timestamp_path_field = none;
}
serialize (timestamp_path p) = record {
  seconds_field = none;
  timestamp_field = none;
  seconds_path_field = none;
  timestamp_path_field = some p;
}

pub record WaitState : Type 0 where
  pub duration : WaitDuration
  pub transition : Transition
