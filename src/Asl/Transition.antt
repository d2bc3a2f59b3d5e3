-- ===== src/Asl/Transition.antt =====
-- What follows a state (crates/twerk-core/src/asl/transition.rs). The map of the deserialiser is what
-- the two fields hold after it was read; a field that comes twice is refused before that.
use Prim.Native.Char.{Char}
use twerk.Prelude.{String, Bool, true, false, Option, none, some}
use twerk.Outcome.{Outcome, ok, err, map_ok, map_err}
use twerk.Asl.Types.{StateNameError, state_name}

pub data TransitionError : Type 0 where
  both_next_and_end neither_next_nor_end end_must_be_true : TransitionError
  invalid_state_name : StateNameError → TransitionError

pub data Transition : Type 0 where
  next : String → Transition
  end : Transition

abbrev pub is_next : Transition → Bool
is_next (next name) = true
is_next end = false

abbrev pub is_end : Transition → Bool
is_end (next name) = false
is_end end = true

abbrev pub target_state : Transition → Option String
target_state (next name) = some name
target_state end = none

-- `Serialize`: the `next` and the `end` field that are written.
abbrev pub serialize : Transition → Option String × Option Bool
serialize (next name) = (some name, none)
serialize end = (none, some true)

-- The end of `visit_map`, the match on the two fields.
abbrev pub deserialize :
    (is_whitespace : Char → Bool) → Option String → Option Bool → Outcome TransitionError Transition
deserialize w (some name) (some b) = err both_next_and_end
deserialize w none none = err neither_next_nor_end
deserialize w (some name) none = map_ok next (map_err invalid_state_name (state_name w name))
deserialize w none (some true) = ok end
deserialize w none (some false) = err end_must_be_true
