-- ===== src/Datastore/Queries.antt =====
-- What the queries over a job's tasks return, in a datastore with a well-formed index.
use twerk.Prelude.{
  String, subst, ◌≡◌, refl, sym, ap, ◌∙◌, Option, none, some, inl, inr, List, [], ◌∷◌, arith, Has,
  Has-keep, unwrap_or,
}
use twerk.Map.{Map, get, values, str_eq_refl}
use twerk.Id.{IdError}
use twerk.Task.{Task}
use twerk.World.{Datastore, Env}
use twerk.Datastore.{prepend, lookup_all, find_tasks, tasks_of_job, names}
use twerk.Datastore.Indexed.{IsIndexed}

module _ {V : Type 0} where
  pub Has-values : (m : Map V) (k : String) (v : V) → get m k ≡ some v → Has v (values m)
  unfolding get values
  Has-values [] k v e = cc
  Has-values ((j, w) ∷ m) k v e = ground (arith, Has-values m k v)

Has-prepend : (o : Option Task) (t : Task) (ts : List Task) → Has t ts → Has t (prepend o ts)
Has-prepend none t ts h = h
Has-prepend (some u) t ts h = inr h

Has-lookup_all :
    (m : Map Task) (ids : List String) (id : String) (t : Task)
    → Has id ids
    → get m id ≡ some t
    → Has t (lookup_all m ids)
unfolding lookup_all
Has-lookup_all m [] id t h e = absurd h
Has-lookup_all m (i ∷ ids) id t (inl p) e =
    subst (λ o. Has t (prepend o (lookup_all m ids))) (sym (ap (get m) p ∙ e)) (inl refl)
Has-lookup_all m (i ∷ ids) id t (inr h) e =
    Has-prepend (get m i) t (lookup_all m ids) (Has-lookup_all m ids id t h e)

find_tasks_complete :
    (d : Datastore) (job_id id : String) (t : Task) (v : Option IdError) (o : Option (List String))
    → Has id (unwrap_or o [])
    → get d.tasks id ≡ some t
    → t.job_id ≡ some job_id
    → Has t (find_tasks d job_id v o)
unfolding find_tasks
find_tasks_complete d job_id id t none (some ids) h e q = Has-lookup_all d.tasks ids id t h e
find_tasks_complete d job_id id t none none h e q = absurd h
find_tasks_complete d job_id id t (some x) o h e q =
    Has-keep (λ u. names u.job_id job_id) t (values d.tasks) (Has-values d.tasks id t e)
      (rw q (str_eq_refl job_id))

-- Every stored task of a job is among the tasks that the datastore finds for it.
pub tasks_of_job_complete :
    (env : Env) (job_id : String) (d : Datastore) (id : String) (t : Task)
    → IsIndexed d
    → get d.tasks id ≡ some t
    → t.job_id ≡ some job_id
    → Has t (tasks_of_job env job_id d)
unfolding tasks_of_job
tasks_of_job_complete env job_id d id t h e q =
    find_tasks_complete d job_id id t _ _ (h.found id job_id t e q) e q
