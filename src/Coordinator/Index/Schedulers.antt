-- ===== src/Coordinator/Index/Schedulers.antt =====
-- The schedulers, the notifications and `skip_task` keep the job index well formed.
use twerk.Prelude.{ℕ, String, Option, none, some, List, [], ◌∷◌}
use twerk.Map.{Map}
use twerk.Task.{Task}
use twerk.Task.Nested.{TaskDef}
use twerk.Job.{Job}
use twerk.World.{Result, ok, err, Env, M, publish, tasks}
use twerk.World.Keeps.{Keeps, Keeps-pure, Keeps-bind, Keeps-publish, keeps_rules}
use twerk.Datastore.Indexed.{IsIndexed}
use twerk.Datastore.Keeps.{datastore_rules}
use twerk.Coordinator.Index.Closures.{closures}
use twerk.Coordinator.Util.{skip_task, queue_pending}
use twerk.Coordinator.Webhook.{fire_task_webhooks, fire_job_webhooks}
use twerk.Coordinator.Scheduler.{schedule_task}
use twerk.Coordinator.Scheduler.Shared.{
  scheduler_ids, mark_task_running, new_subtask, collect_all, rollback_one, rollback_failed_publish,
  after_publish, publish_or_rollback, create_and_publish_subtasks,
}
use twerk.Coordinator.Scheduler.Regular.{schedule_regular_task}
use twerk.Coordinator.Scheduler.Parallel.{
  build_parallel_subtask, build_parallel_subtasks, schedule_parallel_task,
}
use twerk.Coordinator.Scheduler.Each.{build_subtask, mark_each_task_running, schedule_each_task}
use twerk.Coordinator.Scheduler.SubJob.{schedule_subjob_task}

abbrev pub IndexKept : {A : Type 0} → M A → Type 0
IndexKept m = Keeps IsIndexed m

pub ruleset rules = (keeps_rules, datastore_rules, closures)

Keeps-scheduler_ids : (t : Task) (name : String) → IndexKept (scheduler_ids t name)
unfolding scheduler_ids
Keeps-scheduler_ids t name = search rules depth 12

Keeps-collect_all :
    {A B : Type 0} (f : A → M B) (xs : List A)
    → ((a : A) → IndexKept (f a))
    → IndexKept (collect_all f xs)
unfolding collect_all
Keeps-collect_all f [] k = Keeps-pure []
Keeps-collect_all f (x ∷ xs) k =
    Keeps-bind (f x) _ (k x)
      λ y. Keeps-bind (collect_all f xs) _ (Keeps-collect_all f xs k) (λ ys. Keeps-pure (y ∷ ys))

pub Keeps-fire_job_webhooks : (j : Job) (e : String) → IndexKept (fire_job_webhooks j e)
unfolding fire_job_webhooks
Keeps-fire_job_webhooks j e = record { at = λ w h. h }

pub Keeps-fire_task_webhooks : (t : Task) (e : String) → IndexKept (fire_task_webhooks t e)
unfolding fire_task_webhooks
Keeps-fire_task_webhooks t e =
    Keeps-bind _ _ (search keeps_rules)
      λ id. Keeps-bind _ _ (search datastore_rules) (λ j. record { at = λ w h. h })

module _ (env : Env) where
  pub Keeps-skip_task : (t : Task) → IndexKept (skip_task env t)
  unfolding skip_task
  Keeps-skip_task t = search rules depth 12

  Keeps-mark_task_running : (id : String) (at : ℕ) → IndexKept (mark_task_running env id at)
  unfolding mark_task_running
  Keeps-mark_task_running id at = search rules depth 12

  Keeps-new_subtask :
      (job_id parent_id : String) (at : ℕ) (t : Task)
      → IndexKept (new_subtask env job_id parent_id at t)
  unfolding new_subtask
  Keeps-new_subtask job_id parent_id at t = search rules depth 12

  Keeps-rollback_one : (m : String) (o : Option String) → IndexKept (rollback_one env m o)
  unfolding rollback_one
  Keeps-rollback_one m none = search rules depth 12
  Keeps-rollback_one m (some id) = search rules depth 12

  Keeps-rollback : (ts : List Task) (m : String) → IndexKept (rollback_failed_publish env ts m)
  unfolding rollback_failed_publish
  Keeps-rollback [] m = Keeps-pure tt
  Keeps-rollback (t ∷ ts) m = Keeps-bind _ _ (Keeps-rollback_one m t.id) (λ _. Keeps-rollback ts m)

  Keeps-after_publish :
      (r : Result (Unit {0})) (ts : List Task) → IndexKept (after_publish env r ts)
  unfolding after_publish
  Keeps-after_publish (ok u) ts = Keeps-pure u
  Keeps-after_publish (err e) ts = search (rules, Keeps-rollback)

  Keeps-publish_or_rollback : (ts : List Task) → IndexKept (publish_or_rollback env ts)
  unfolding publish_or_rollback
  Keeps-publish_or_rollback ts = record {
    at = λ w h.
        let (r, w') = publish env (tasks queue_pending ts) w in
        (Keeps-after_publish r ts).at w'
          ((Keeps-publish {P = IsIndexed} env (tasks queue_pending ts)).at w h);
  }

  Keeps-create_and_publish : (ts : List Task) → IndexKept (create_and_publish_subtasks env ts)
  unfolding create_and_publish_subtasks
  Keeps-create_and_publish [] = Keeps-pure tt
  Keeps-create_and_publish (t ∷ ts) =
      Keeps-bind _ _ (search datastore_rules) (λ _. Keeps-publish_or_rollback (t ∷ ts))

  Keeps-schedule_regular_task : (t : Task) → IndexKept (schedule_regular_task env t)
  unfolding schedule_regular_task
  Keeps-schedule_regular_task t = search rules depth 12

  Keeps-build_parallel_subtask :
      (ctx : Map env.Value) (job_id task_id : String) (at : ℕ) (d : TaskDef)
      → IndexKept (build_parallel_subtask env ctx job_id task_id at d)
  unfolding build_parallel_subtask
  Keeps-build_parallel_subtask ctx job_id task_id at d = search (rules, Keeps-new_subtask) depth 12

  Keeps-build_parallel_subtasks :
      (ctx : Map env.Value) (job_id task_id : String) (at : ℕ) (ds : List TaskDef)
      → IndexKept (build_parallel_subtasks env ctx job_id task_id at ds)
  unfolding build_parallel_subtasks
  Keeps-build_parallel_subtasks ctx job_id task_id at ds =
      Keeps-collect_all _ ds (Keeps-build_parallel_subtask ctx job_id task_id at)

  Keeps-schedule_parallel_task : (t : Task) → IndexKept (schedule_parallel_task env t)
  unfolding schedule_parallel_task
  Keeps-schedule_parallel_task t =
      search
        (
          rules, Keeps-scheduler_ids, Keeps-mark_task_running, Keeps-build_parallel_subtasks,
          Keeps-create_and_publish,
        )
        depth 20

  Keeps-build_subtask :
      (t : Task) (ctx : Map env.Value) (job_id task_id : String) (at : ℕ) (x : ℕ × env.Value)
      → IndexKept (build_subtask env t ctx job_id task_id at x)
  unfolding build_subtask
  Keeps-build_subtask t ctx job_id task_id at (ix, item) =
      search (rules, Keeps-new_subtask) depth 12

  Keeps-mark_each_task_running :
      (id : String) (size at : ℕ) → IndexKept (mark_each_task_running env id size at)
  unfolding mark_each_task_running
  Keeps-mark_each_task_running id size at = search rules depth 12

  Keeps-schedule_each_task : (t : Task) → IndexKept (schedule_each_task env t)
  unfolding schedule_each_task
  Keeps-schedule_each_task t =
      search
        (
          rules, Keeps-scheduler_ids, Keeps-mark_each_task_running, Keeps-collect_all,
          Keeps-build_subtask, Keeps-create_and_publish,
        )
        depth 24

  Keeps-schedule_subjob_task : (t : Task) → IndexKept (schedule_subjob_task env t)
  unfolding schedule_subjob_task
  Keeps-schedule_subjob_task t = search rules depth 24

  pub Keeps-schedule_task : (t : Task) → IndexKept (schedule_task env t)
  unfolding schedule_task
  Keeps-schedule_task t = search (
    rules, Keeps-schedule_parallel_task, Keeps-schedule_each_task, Keeps-schedule_subjob_task,
    Keeps-schedule_regular_task,
  )
