-- ===== src/Datastore/Indexed.antt =====
-- The well-formedness of the datastore's job index
-- (crates/twerk-infrastructure/src/datastore/inmemory.rs, `tasks_by_job`).
use twerk.Prelude.{
  String, ◌≡◌, sym, ◌∙◌, ap, Option, none, some, ◌⊎◌, inl, inr, List, [], ◌∷◌, ◌++◌, str_eq, eq_iff,
  Bool-cases, if◌then◌else◌, unwrap_or, Has, Has-append_left, Has-append_last, Has-append_cases,
}
use twerk.Map.{
  get-insert_cases, get-insert-some, Map, get, get-insert, get-insert_self, str_eq_refl,
}
use twerk.Task.{Task}
use twerk.World.{Datastore}
use twerk.Datastore.{push, index, add_task, put_task}

-- The identifiers that the index has for a job.
abbrev pub indexed : Map (List String) → String → List String
indexed m job_id = unwrap_or (get m job_id) []

-- Every task is stored under its own identifier and listed by the index under its job, and what the
-- index lists is stored.
pub record IsIndexed (d : Datastore) : Type 0 where
  pub named : (id : String) (t : Task) → get d.tasks id ≡ some t → t.id ≡ some id
  pub found :
      (id job_id : String) (t : Task)
      → get d.tasks id ≡ some t
      → t.job_id ≡ some job_id
      → Has id (indexed d.tasks_by_job job_id)
  pub listed :
      (id job_id : String)
      → Has id (indexed d.tasks_by_job job_id)
      → (t : Task) × (get d.tasks id ≡ some t)

-- The identifier and the job of a task: what the index is built from.
pub record SameKey (t u : Task) : Type 0 where
  pub id : t.id ≡ u.id
  pub job_id : t.job_id ≡ u.job_id

indexed-push :
    (m : Map (List String)) (k j b : String)
    → indexed (push m k b) j ≡ (if str_eq k j then indexed m k ++ b ∷ [] else indexed m j)
unfolding push
indexed-push m k j b = elim (Bool-cases (str_eq k j)) [
  | inl e ↦ rw get-insert (rw e)
  | inr e ↦ rw get-insert (rw e)
]

-- What `push` adds to a job's list.
Has-push_old :
    (m : Map (List String)) (k j a b : String)
    → Has a (indexed m j)
    → Has a (indexed (push m k b) j)
Has-push_old m k j a b h = rw (indexed-push m k j b) elim (Bool-cases (str_eq k j)) [
  | inl e ↦ rw (e, (eq_iff k j).0 e) (Has-append_left a (indexed m j) (b ∷ []) h)
  | inr e ↦ rw e h
]

Has-push_new : (m : Map (List String)) (k a : String) → Has a (indexed (push m k a) k)
Has-push_new m k a =
    rw (indexed-push m k k a) (rw (str_eq_refl k) (Has-append_last a (indexed m k)))

Has-push_cases :
    (m : Map (List String)) (k j a b : String)
    → Has a (indexed (push m k b) j)
    → Has a (indexed m j) ⊎ (b ≡ a)
Has-push_cases m k j a b h =
    let h' = rw (indexed-push m k j b) at h in
    elim (Bool-cases (str_eq k j)) [
      | inl e ↦ rw (← (eq_iff k j).0 e) (Has-append_cases a b (indexed m k) (rw e at h'))
      | inr e ↦ inl (rw e at h')
    ]

Has-index_old :
    (m : Map (List String)) (o : Option String) (j a b : String)
    → Has a (indexed m j)
    → Has a (indexed (index m o b) j)
unfolding index
Has-index_old m none j a b h = h
Has-index_old m (some k) j a b h = Has-push_old m k j a b h

Has-index_new :
    (m : Map (List String)) (o : Option String) (k a : String)
    → o ≡ some k
    → Has a (indexed (index m o a) k)
unfolding index
Has-index_new m o k a e = rw e (Has-push_new m k a)

Has-index_cases :
    (m : Map (List String)) (o : Option String) (j a b : String)
    → Has a (indexed (index m o b) j)
    → Has a (indexed m j) ⊎ (b ≡ a)
unfolding index
Has-index_cases m none j a b h = inl h
Has-index_cases m (some k) j a b h = Has-push_cases m k j a b h

-- Creating a task keeps the index well formed, also where the identifier is taken.
pub add_task-IsIndexed :
    (id : String) (t : Task) (d : Datastore)
    → t.id ≡ some id
    → IsIndexed d
    → IsIndexed (add_task id t d)
unfolding add_task
add_task-IsIndexed id t d e h = record {
  named = λ i u p. elim (get-insert_cases d.tasks id i t p) [
    | inl same ↦ cc (e, same.0, same.1)
    | inr old ↦ h.named i u old
  ];
  found = λ i j u p q. elim (get-insert_cases d.tasks id i t p) [
    | inl same ↦
        rw (← same.0)
          (Has-index_new d.tasks_by_job t.job_id j id (ap (λ (x : Task). x.job_id) same.1 ∙ q))
    | inr old ↦ Has-index_old d.tasks_by_job t.job_id j i id (h.found i j u old q)
  ];
  listed = λ i j p. elim (Has-index_cases d.tasks_by_job t.job_id j i id p) [
    | inl old ↦ let (u, q) = h.listed i j old in get-insert-some d.tasks id i t q
    | inr same ↦ (t, rw (← same) (get-insert_self d.tasks id t))
  ];
}

-- So does a write over a stored task that leaves its identifier and its job as they were.
pub put_task-IsIndexed :
    (id : String) (t t' : Task) (d : Datastore)
    → get d.tasks id ≡ some t
    → SameKey t' t
    → IsIndexed d
    → IsIndexed (put_task id t' d)
put_task-IsIndexed id t t' d e same h = record {
  named = λ i u p. elim (get-insert_cases d.tasks id i t' p) [
    | inl new ↦ cc (same.id, h.named id t e, new.0, new.1)
    | inr old ↦ h.named i u old
  ];
  found = λ i j u p q. elim (get-insert_cases d.tasks id i t' p) [
    | inl new ↦
        rw (← new.0) (h.found id j t e (sym same.job_id ∙ ap (λ (x : Task). x.job_id) new.1 ∙ q))
    | inr old ↦ h.found i j u old q
  ];
  listed = λ i j p. let (u, q) = h.listed i j p in get-insert-some d.tasks id i t' q;
}
