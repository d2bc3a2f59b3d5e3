-- ===== src/Tests/Crons.antt =====
-- The theorem on paused scheduled jobs, applied to concrete values, and the trigger of one.
use twerk.Prelude.{◌≡◌, ◌≢◌, refl, none, some, [], ◌∷◌}
use twerk.Map.{get, insert, remove}
use twerk.Job.{ScheduledJob, active, paused}
use twerk.World.{World, ok, ◌>>=◌}
use twerk.Coordinator.Schedule.{
  handle_scheduled_job, handle_active, handle_paused, add_cron, remove_cron,
}
use twerk.Coordinator.Schedule.Paused.{IsIdle, pause-after_active}
use twerk.Tests.Samples.{environment, no_store, world_of}

abbrev nightly : ScheduledJob
nightly = record {
  id = some "s1";
  name = some "nightly";
  description = none;
  cron = some "0 0 * * *";
  state = active;
  inputs = none;
  tasks = some [];
  created_by = none;
  defaults = none;
  auto_delete = none;
  webhooks = none;
  permissions = none;
  created_at = none;
  tags = none;
  secrets = none;
  output = none;
}

abbrev stopped : ScheduledJob
stopped = record nightly { state = paused }

abbrev calm : World
calm = world_of no_store

abbrev once : World
once = record calm { uuids = 1; crons = ("s1", "entry") ∷ []; cron_entries = ("entry", "s1") ∷ [] }

abbrev again : World
again = record calm { uuids = 1 }

activates : handle_scheduled_job environment nightly calm ≡ (ok tt, once)
unfolding handle_scheduled_job handle_active add_cron insert ◌>>=◌
activates = refl

pauses : handle_scheduled_job environment stopped once ≡ (ok tt, again)
unfolding handle_scheduled_job handle_paused remove_cron get remove ◌>>=◌
pauses = refl

calm-IsIdle : IsIdle "s1" calm
unfolding get
calm-IsIdle entry h = absurd (cc)

pause-after_active_example : get again.cron_entries "entry" ≢ some "s1"
pause-after_active_example =
    pause-after_active environment nightly stopped calm once again refl refl refl calm-IsIdle
      activates pauses "entry"
