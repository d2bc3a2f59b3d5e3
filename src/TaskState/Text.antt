-- ===== src/TaskState/Text.antt =====
-- The text of a task state and its reader (crates/twerk-core/src/task.rs, `Display`, `FromStr`).
use twerk.Prelude.{String, ◌≡◌, ◌↔◌, some, arith, eq_iff}
use twerk.TaskState.{
  TaskState, created, pending, scheduled, running, cancelled, stopped, completed, failed, skipped,
  to_string, from_str,
}

module _ (to_uppercase : String → String) where
  from_str_sound :
      (text : String) (s : TaskState)
      → from_str to_uppercase text ≡ some s
      → to_uppercase text ≡ to_string s
  unfolding from_str to_string
  from_str_sound text s h =
      let u = to_uppercase text in
      ground (
        arith,
        eq_iff u "CREATED",
        eq_iff u "PENDING",
        eq_iff u "SCHEDULED",
        eq_iff u "RUNNING",
        eq_iff u "CANCELLED",
        eq_iff u "STOPPED",
        eq_iff u "COMPLETED",
        eq_iff u "FAILED",
        eq_iff u "SKIPPED",
      )

  from_str_complete :
      (text : String) (s : TaskState)
      → to_uppercase text ≡ to_string s
      → from_str to_uppercase text ≡ some s
  unfolding from_str to_string
  from_str_complete text created h = rw h
  from_str_complete text pending h = rw h
  from_str_complete text scheduled h = rw h
  from_str_complete text running h = rw h
  from_str_complete text cancelled h = rw h
  from_str_complete text stopped h = rw h
  from_str_complete text completed h = rw h
  from_str_complete text failed h = rw h
  from_str_complete text skipped h = rw h

  -- Whatever `to_uppercase` does, a text is read as a state exactly when its upper-case form is the
  -- text that the state is displayed as.
  from_str_iff :
      (text : String) (s : TaskState)
      → (from_str to_uppercase text ≡ some s) ↔ (to_uppercase text ≡ to_string s)
  from_str_iff text s = (from_str_sound text s, from_str_complete text s)
