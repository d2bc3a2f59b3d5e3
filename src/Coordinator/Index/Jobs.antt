-- ===== src/Coordinator/Index/Jobs.antt =====
-- The job handlers, the heartbeat and the dispatch keep the job index well formed.
use twerk.Prelude.{
  ℕ, String, Bool, true, false, Option, none, some, List, [], ◌∷◌, inl, inr, Bool-cases,
}
use twerk.Map.{Map, get}
use twerk.JobState.{JobState}
use twerk.Task.{Task, SubJobTask}
use twerk.Job.{Job, ScheduledJob, ScheduledJobState, active, paused}
use twerk.Node.{Node}
use twerk.World.{Result, ok, err, scheduled_job_not_found, World, Env}
use twerk.World.Keeps.{Keeps-pure, Keeps-bind, Keeps-ok_or, Keeps-ignore_error}
use twerk.Datastore.{update_node}
use twerk.Datastore.Indexed.{IsIndexed}
use twerk.Datastore.Keeps.{Keeps-update_node, Keeps-create_node}
use twerk.Coordinator.Index.Schedulers.{IndexKept, rules, Keeps-fire_job_webhooks}
use twerk.Coordinator.Index.Tasks.{
  Keeps-handle_pending_task, Keeps-handle_redelivered, Keeps-handle_started, Keeps-handle_log_part,
  Keeps-handle_task_completed, Keeps-handle_error, Keeps-handle_task_progress,
}
use twerk.Coordinator.Handlers.Cancellation.{
  cancel_parent_job, cancel_subjob, tell_node, cancel_affinity, cancel_task_affinity, cancel_task,
  cancel_tasks, cancel_active_tasks,
}
use twerk.Coordinator.Handlers.Job.{
  build_pending_job_task, start_job, restart_job, publish_completed, complete_job,
  mark_job_as_running, publish_failed_parent, publish_failed_event, fail_job, cancel_parent,
  handle_cancel, job_event_by_state, handle_job_event,
}
use twerk.Coordinator.Handlers.Health.{
  take_heartbeat, stamp, after_update, update_or_create, beat, handle_heartbeat,
}
use twerk.Coordinator.Schedule.{
  get_scheduled_job_by_id, get_active_scheduled_jobs, set_cron, take_cron, added, add_cron,
  remove_cron, new_uuid, by_state, handle_active, handle_paused, handle_scheduled_job, activate_all,
  new_scheduler, triggers, trigger_scheduled_job, cron_due,
}
use twerk.Coordinator.Dispatch.{
  Delivery, pending, completed, failed, started, redelivery, progress, job_event, heartbeat,
  log_part, scheduled, handler_of, deliver, job_id_for, created_at_for, store_job, submit_job,
}

module _ (env : Env) where
  Keeps-cancel_parent_job : (id : String) → IndexKept (cancel_parent_job env id)
  unfolding cancel_parent_job
  Keeps-cancel_parent_job id = search rules depth 16

  Keeps-cancel_subjob : (sj : SubJobTask) → IndexKept (cancel_subjob env sj)
  unfolding cancel_subjob
  Keeps-cancel_subjob sj = search rules depth 16

  Keeps-tell_node : (o : Option String) (t : Task) → IndexKept (tell_node env o t)
  unfolding tell_node
  Keeps-tell_node none t = search rules
  Keeps-tell_node (some id) t = search rules depth 16

  Keeps-cancel_affinity : (o : Option SubJobTask) (t : Task) → IndexKept (cancel_affinity env o t)
  unfolding cancel_affinity
  Keeps-cancel_affinity (some sj) t = Keeps-cancel_subjob sj
  Keeps-cancel_affinity none t = Keeps-tell_node t.node_id t

  Keeps-cancel_task_affinity : (t : Task) → IndexKept (cancel_task_affinity env t)
  unfolding cancel_task_affinity
  Keeps-cancel_task_affinity t = Keeps-cancel_affinity t.subjob t

  Keeps-cancel_task : (t : Task) → IndexKept (cancel_task env t)
  unfolding cancel_task
  Keeps-cancel_task t = search (rules, Keeps-cancel_task_affinity) depth 16

  Keeps-cancel_tasks : (ts : List Task) → IndexKept (cancel_tasks env ts)
  unfolding cancel_tasks
  Keeps-cancel_tasks [] = Keeps-pure tt
  Keeps-cancel_tasks (t ∷ ts) = Keeps-bind _ _ (Keeps-cancel_task t) (λ _. Keeps-cancel_tasks ts)

  Keeps-cancel_active_tasks : (id : String) → IndexKept (cancel_active_tasks env id)
  unfolding cancel_active_tasks
  Keeps-cancel_active_tasks id = search (rules, Keeps-cancel_tasks) depth 16

  Keeps-build_pending_job_task :
      (t : Task) (ctx : Map env.Value) (id : String) (position at : ℕ)
      → IndexKept (build_pending_job_task env t ctx id position at)
  unfolding build_pending_job_task
  Keeps-build_pending_job_task t ctx id position at = search rules depth 16

  Keeps-start_job : (j : Job) → IndexKept (start_job env j)
  unfolding start_job
  Keeps-start_job j =
      search
        (rules, Keeps-build_pending_job_task, Keeps-fire_job_webhooks, Keeps-handle_pending_task)
        depth 20

  Keeps-restart_job : (j : Job) → IndexKept (restart_job env j)
  unfolding restart_job
  Keeps-restart_job j = search (rules, Keeps-build_pending_job_task) depth 20

  Keeps-publish_completed :
      (o : Option String) (at : ℕ) (j : Job) → IndexKept (publish_completed env o at j)
  unfolding publish_completed
  Keeps-publish_completed none at j = search rules
  Keeps-publish_completed (some id) at j = search rules depth 16

  Keeps-complete_job : (j : Job) → IndexKept (complete_job env j)
  unfolding complete_job
  Keeps-complete_job j = search (rules, Keeps-fire_job_webhooks, Keeps-publish_completed) depth 20

  Keeps-mark_job_as_running : (j : Job) → IndexKept (mark_job_as_running env j)
  unfolding mark_job_as_running
  Keeps-mark_job_as_running j = search rules depth 16

  Keeps-publish_failed_parent :
      (o : Option String) (j : Job) → IndexKept (publish_failed_parent env o j)
  unfolding publish_failed_parent
  Keeps-publish_failed_parent none j = search rules
  Keeps-publish_failed_parent (some id) j = search rules depth 16

  Keeps-publish_failed_event : (s : JobState) (j : Job) → IndexKept (publish_failed_event env s j)
  unfolding publish_failed_event
  Keeps-publish_failed_event JobState.failed j = search rules
  Keeps-publish_failed_event _ j = search rules

  Keeps-fail_job : (j : Job) → IndexKept (fail_job env j)
  unfolding fail_job
  Keeps-fail_job j =
      search
        (rules, Keeps-publish_failed_parent, Keeps-publish_failed_event, Keeps-cancel_active_tasks)
        depth 20

  Keeps-cancel_parent : (o : Option String) → IndexKept (cancel_parent env o)
  unfolding cancel_parent
  Keeps-cancel_parent none = search rules
  Keeps-cancel_parent (some id) = Keeps-cancel_parent_job id

  Keeps-handle_cancel : (j : Job) → IndexKept (handle_cancel env j)
  unfolding handle_cancel
  Keeps-handle_cancel j = search (rules, Keeps-cancel_parent, Keeps-cancel_active_tasks) depth 20

  Keeps-job_event_by_state : (s : JobState) (j : Job) → IndexKept (job_event_by_state env s j)
  unfolding job_event_by_state
  Keeps-job_event_by_state JobState.pending j = Keeps-start_job j
  Keeps-job_event_by_state JobState.completed j = Keeps-complete_job j
  Keeps-job_event_by_state JobState.restart j = Keeps-restart_job j
  Keeps-job_event_by_state JobState.cancelled j = Keeps-handle_cancel j
  Keeps-job_event_by_state JobState.failed j = Keeps-fail_job j
  Keeps-job_event_by_state JobState.running j = Keeps-mark_job_as_running j
  Keeps-job_event_by_state JobState.scheduled j = Keeps-pure tt

  Keeps-handle_job_event : (j : Job) → IndexKept (handle_job_event env j)
  unfolding handle_job_event
  Keeps-handle_job_event j = Keeps-job_event_by_state j.state j

  Keeps-stamp : (o : Option ℕ) (n : Node) → IndexKept (stamp env o n)
  unfolding stamp
  Keeps-stamp (some at) n = search rules
  Keeps-stamp none n = search rules depth 16

  Keeps-after_update : (r : Result (Unit {0})) (n : Node) → IndexKept (after_update env r n)
  unfolding after_update
  Keeps-after_update (ok u) n = Keeps-pure u
  Keeps-after_update (err e) n = search (rules)

  Keeps-beat : (o : Option String) (n : Node) → IndexKept (beat env o n)
  unfolding beat update_or_create
  Keeps-beat none n = Keeps-create_node n
  Keeps-beat (some id) n = record {
    at = λ w h.
        let modify = λ (u : Node). ok (take_heartbeat n u, tt) in
        (Keeps-after_update (update_node env id modify w).0 n).at (update_node env id modify w).1
          ((Keeps-update_node env id modify).at w h);
  }

  Keeps-handle_heartbeat : (n : Node) → IndexKept (handle_heartbeat env n)
  unfolding handle_heartbeat
  Keeps-handle_heartbeat n = search (rules, Keeps-stamp, Keeps-beat) depth 16

  Keeps-set_cron : (id entry : String) → IndexKept (set_cron id entry)
  Keeps-set_cron id entry = record { at = λ w h. h }

  Keeps-take_cron : (id : String) → IndexKept (take_cron id)
  Keeps-take_cron id = record { at = λ w h. h }

  Keeps-added : (id : String) (o : Option String) → IndexKept (added env id o)
  Keeps-added id none = record { at = λ w h. h }
  Keeps-added id (some entry) = record { at = λ w h. h }

  Keeps-add_cron : (id : String) → IndexKept (add_cron env id)
  unfolding add_cron
  Keeps-add_cron id = record { at = λ w h. (Keeps-added id (env.add_cron w.uuids)).at w h }

  Keeps-remove_cron : (entry : String) → IndexKept (remove_cron env entry)
  unfolding remove_cron
  Keeps-remove_cron entry = record {
    at = λ w h. elim (Bool-cases (env.removes_cron entry)) [ inl e ↦ rw e h | inr e ↦ rw e h ];
  }

  Keeps-new_uuid : IndexKept (new_uuid env)
  unfolding new_uuid
  Keeps-new_uuid = record { at = λ w h. h }

  Keeps-get_scheduled_job_by_id : (id : String) → IndexKept (get_scheduled_job_by_id id)
  unfolding get_scheduled_job_by_id
  Keeps-get_scheduled_job_by_id id = record {
    at = λ w h.
        (Keeps-ok_or {P = IsIndexed} scheduled_job_not_found (get w.store.scheduled_jobs id)).at w
          h;
  }

  ruleset cron_rules = (
    rules, Keeps-set_cron, Keeps-take_cron, Keeps-add_cron, Keeps-remove_cron, Keeps-new_uuid,
    Keeps-get_scheduled_job_by_id,
  )

  Keeps-handle_active : (sj : ScheduledJob) → IndexKept (handle_active env sj)
  unfolding handle_active
  Keeps-handle_active sj = search cron_rules depth 16

  Keeps-handle_paused : (sj : ScheduledJob) → IndexKept (handle_paused env sj)
  unfolding handle_paused
  Keeps-handle_paused sj = search cron_rules depth 16

  Keeps-by_state : (s : ScheduledJobState) (sj : ScheduledJob) → IndexKept (by_state env s sj)
  Keeps-by_state active sj = Keeps-handle_active sj
  Keeps-by_state paused sj = Keeps-handle_paused sj

  Keeps-handle_scheduled_job : (sj : ScheduledJob) → IndexKept (handle_scheduled_job env sj)
  unfolding handle_scheduled_job
  Keeps-handle_scheduled_job sj = Keeps-by_state sj.state sj

  Keeps-trigger_scheduled_job : (id : String) → IndexKept (trigger_scheduled_job env id)
  unfolding trigger_scheduled_job
  Keeps-trigger_scheduled_job id = search cron_rules depth 24

  Keeps-triggers : (o : Option String) → IndexKept (triggers env o)
  Keeps-triggers none = Keeps-pure tt
  Keeps-triggers (some id) = Keeps-ignore_error _ (Keeps-trigger_scheduled_job id)

  Keeps-cron_due : (entry : String) → IndexKept (cron_due env entry)
  unfolding cron_due
  Keeps-cron_due entry = record { at = λ w h. (Keeps-triggers (get w.cron_entries entry)).at w h }

  Keeps-activate_all : (sjs : List ScheduledJob) → IndexKept (activate_all env sjs)
  unfolding activate_all
  Keeps-activate_all [] = Keeps-pure tt
  Keeps-activate_all (sj ∷ sjs) =
      Keeps-bind _ _ (Keeps-handle_active sj) (λ _. Keeps-activate_all sjs)

  Keeps-new_scheduler : IndexKept (new_scheduler env)
  unfolding new_scheduler get_active_scheduled_jobs
  Keeps-new_scheduler = search (rules, Keeps-activate_all) depth 12

  Keeps-job_id_for : (o : Option String) → IndexKept (job_id_for env o)
  unfolding job_id_for
  Keeps-job_id_for none = search rules depth 12
  Keeps-job_id_for (some id) = search rules

  Keeps-created_at_for : (o : Option ℕ) → IndexKept (created_at_for env o)
  unfolding created_at_for
  Keeps-created_at_for none = search rules
  Keeps-created_at_for (some at) = search rules

  Keeps-submit_job : (j : Job) → IndexKept (submit_job env j)
  unfolding submit_job store_job
  Keeps-submit_job j = search (rules, Keeps-job_id_for, Keeps-created_at_for) depth 24

  Keeps-handler_of : (fuel : ℕ) (d : Delivery) → IndexKept (handler_of env fuel d)
  unfolding handler_of
  Keeps-handler_of fuel (pending t) = Keeps-handle_pending_task env t
  Keeps-handler_of fuel (completed t) = Keeps-handle_task_completed env t
  Keeps-handler_of fuel (failed t) = Keeps-handle_error env fuel t
  Keeps-handler_of fuel (started t) = Keeps-handle_started env t
  Keeps-handler_of fuel (redelivery t) = Keeps-handle_redelivered env t
  Keeps-handler_of fuel (progress t) = Keeps-handle_task_progress env fuel t
  Keeps-handler_of fuel (job_event j) = Keeps-handle_job_event j
  Keeps-handler_of fuel (heartbeat n) = Keeps-handle_heartbeat n
  Keeps-handler_of fuel (log_part p) = Keeps-handle_log_part env p
  Keeps-handler_of fuel (scheduled none) = search rules
  Keeps-handler_of fuel (scheduled (some sj)) = Keeps-handle_scheduled_job sj

  Keeps-deliver :
      (stopped : Bool) (fuel : ℕ) (d : Delivery) → IndexKept (deliver env stopped fuel d)
  unfolding deliver
  Keeps-deliver true fuel d = Keeps-pure tt
  Keeps-deliver false fuel d = Keeps-handler_of fuel d

  -- The worlds that the coordinator can bring about from one: each step is one delivery, whatever
  -- was delivered, the submission of a job, the start of the scheduler of jobs or an entry of the cron
  -- library that is due, whether it returned or failed.
  pub data Reach (w : World) : World → Type 0 where
    here : Reach w w
    next :
        {v : World} (stopped : Bool) (fuel : ℕ) (d : Delivery)
        → Reach w v
        → Reach w (deliver env stopped fuel d v).1
    submitted : {v : World} (j : Job) → Reach w v → Reach w (submit_job env j v).1
    scheduler_started : {v : World} → Reach w v → Reach w (new_scheduler env v).1
    due : {v : World} (entry : String) → Reach w v → Reach w (cron_due env entry v).1

  -- In every world that the coordinator can bring about from one with a well-formed job index, by
  -- any deliveries, submissions of jobs, starts of the scheduler of jobs and cron entries that are
  -- due, in any order, the job index is well formed: each task is stored under its own
  -- identifier and listed under its job, and what the index lists is stored.
  pub Reach-IsIndexed : {w v : World} → IsIndexed w.store → Reach w v → IsIndexed v.store
  Reach-IsIndexed h here = h
  Reach-IsIndexed h (next {v = v} stopped fuel d r) =
      (Keeps-deliver stopped fuel d).at v (Reach-IsIndexed h r)
  Reach-IsIndexed h (submitted {v = v} j r) = (Keeps-submit_job j).at v (Reach-IsIndexed h r)
  Reach-IsIndexed h (scheduler_started {v = v} r) = Keeps-new_scheduler.at v (Reach-IsIndexed h r)
  Reach-IsIndexed h (due {v = v} entry r) = (Keeps-cron_due entry).at v (Reach-IsIndexed h r)
