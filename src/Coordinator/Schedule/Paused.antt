-- ===== src/Coordinator/Schedule/Paused.antt =====
-- A scheduled job that is paused is no longer triggered.
use twerk.Prelude.{
  String, Bool, true, false, ◌≡◌, ◌≢◌, sym, ◌∙◌, unwrap_or, Option, none, some, arith, ap, str_eq,
  Bool-cases, inl, inr, if◌then◌else◌,
}
use twerk.Map.{get, insert, remove, get-insert, get-insert_self, get-remove}
use twerk.Job.{ScheduledJob, active, paused}
use twerk.World.{
  Error, Result, ok, err, World, Env, ok_or, pure, fail, cron_job_create, cron_job_remove,
  missing_cron_expression, unknown_scheduled_job,
}
use twerk.Datastore.Keeps.{ok_injective}
use twerk.World.Steps.{bind_inv}
use twerk.Coordinator.Schedule.{
  sj_id_str, added, add_cron, remove_cron, by_state, handle_active, handle_paused,
  handle_scheduled_job,
}

err_is_not-ok : {A : Type 0} {e : Error} {a : A} → err e ≡ ok a → ⊥
err_is_not-ok h = absurd (cc)

some_same : {a b : String} → some a ≡ some b → a ≡ b
some_same h = cc

ok_or_inv :
    {A : Type 0} (e : Error) (o : Option A) (w : World) {a : A} {v : World}
    → ok_or e o w ≡ (ok a, v)
    → (o ≡ some a) × (v ≡ w)
ok_or_inv e none w h = absurd (err_is_not-ok (ap (λ (r : Result _ × World). r.0) h))
ok_or_inv e (some b) w h = (
  ap some (ok_injective (ap (λ (r : Result _ × World). r.0) h)),
  sym (ap (λ (r : Result _ × World). r.1) h),
)

-- No entry of the cron library triggers the scheduled job.
abbrev pub IsIdle : String → World → Type 0
IsIdle id w = (entry : String) → get w.cron_entries entry ≢ some id

module _ (env : Env) where
  if_inv :
      (b : Bool) (e : Error) (w : World) {v : World} {u : Unit {0}}
      → (if b then pure tt else fail e) w ≡ (ok u, v)
      → v ≡ w
  if_inv true e w h = sym (ap (λ (r : Result Unit × World). r.1) h)
  if_inv false e w h = absurd (err_is_not-ok (ap (λ (r : Result Unit × World). r.0) h))

  added_inv :
      (id : String) (o : Option String) (w : World) {entry : String} {v : World}
      → added env id o w ≡ (ok entry, v)
      → (v.cron_entries ≡ insert w.cron_entries entry id) × (v.crons ≡ w.crons)
  added_inv id none w h = absurd (err_is_not-ok (ap (λ (r : Result String × World). r.0) h))
  added_inv id (some x) w {entry} {v} h =
      let same : x ≡ entry = ok_injective (ap (λ (r : Result String × World). r.0) h) in
      (
        sym (ap (λ (r : Result String × World). r.1.cron_entries) h)
            ∙ ap (λ e. insert w.cron_entries e id) same,
        sym (ap (λ (r : Result String × World). r.1.crons) h),
      )

  -- After an activation that returned, one entry of the library more, and the handler knows it.
  activated :
      (sj : ScheduledJob) (w : World) {w' : World}
      → handle_active env sj w ≡ (ok tt, w')
      → (entry : String) × (w'.cron_entries ≡ insert w.cron_entries entry (sj_id_str sj))
        × (get w'.crons (sj_id_str sj) ≡ some entry)
  unfolding handle_active add_cron
  activated sj w h =
      let id = sj_id_str sj in
      let (cron, v0, e0, h0) = bind_inv _ _ w h in
      let (_, v1, e1, h1) = bind_inv _ _ v0 h0 in
      let (entry, v2, e2, h2) = bind_inv _ _ v1 h1 in
      let stays =
        if_inv (env.reads_cron cron) cron_job_create v0 e1
        ∙ (ok_or_inv (missing_cron_expression id) sj.cron w e0).1 in
      let last = ap (λ (r : Result Unit × World). r.1) h2 in
      (
        entry,
        sym (ap (λ (x : World). x.cron_entries) last)
            ∙ (added_inv id (env.add_cron v1.uuids) v1 e2).0
            ∙ ap (λ (x : World). insert x.cron_entries entry id) stays,
        ap (λ (x : World). get x.crons id) (sym last) ∙ get-insert_self v2.crons id entry,
      )

  remove_inv :
      (b : Bool) (entry : String) (v : World) {v' : World}
      → ◌≡◌ {A = Result (Unit {0}) × World}
          (if b
            then (ok tt, record v { cron_entries = remove v.cron_entries entry })
            else (err cron_job_remove, v))
          (ok tt, v')
      → v'.cron_entries ≡ remove v.cron_entries entry
  remove_inv true entry v h = sym (ap (λ (r : Result Unit × World). r.1.cron_entries) h)
  remove_inv false entry v h = absurd (err_is_not-ok (ap (λ (r : Result Unit × World). r.0) h))

  -- A pause that returned has removed the entry that the handler knew.
  paused_inv :
      (sj : ScheduledJob) (w : World) {w' : World} (entry : String)
      → get w.crons (sj_id_str sj) ≡ some entry
      → handle_paused env sj w ≡ (ok tt, w')
      → w'.cron_entries ≡ remove w.cron_entries entry
  unfolding handle_paused remove_cron
  paused_inv sj w entry e h =
      let id = sj_id_str sj in
      let (taken, v0, e0, h0) = bind_inv _ _ w h in
      let (found, v1, e1, h1) = bind_inv _ _ v0 h0 in
      let (is, same) = ok_or_inv (unknown_scheduled_job id) taken v0 e1 in
      let first = ap (λ (r : Result (Option String) × World). r.1.cron_entries) e0 in
      let known : entry ≡ found =
        some_same
          (sym e ∙ ok_injective (ap (λ (r : Result (Option String) × World). r.0) e0) ∙ is) in
      remove_inv (env.removes_cron found) found v1 h1
      ∙ ap (λ (x : World). remove x.cron_entries found) same
      ∙ ap (λ m. remove m found) (sym first)
      ∙ ap (remove w.cron_entries) (sym known)

  -- A scheduled job that no entry of the cron library triggers, that is activated and then paused,
  -- where both return: no entry triggers it again.
  pub pause-after_active :
      (sj pause : ScheduledJob) (w v w' : World)
      → sj.state ≡ active
      → pause.state ≡ paused
      → pause.id ≡ sj.id
      → IsIdle (sj_id_str sj) w
      → handle_scheduled_job env sj w ≡ (ok tt, v)
      → handle_scheduled_job env pause v ≡ (ok tt, w')
      → (entry : String) → get w'.cron_entries entry ≢ some (sj_id_str sj)
  unfolding handle_scheduled_job
  pause-after_active sj pause w v w' on off same idle h k entry triggers =
      let id = sj_id_str sj in
      let (mine, entries, known) = activated sj w (sym (ap (λ s. by_state env s sj w) on) ∙ h) in
      let left =
        paused_inv pause v mine (ap (λ o. get v.crons (unwrap_or o "unknown")) same ∙ known)
          (sym (ap (λ s. by_state env s pause v) off) ∙ k) in
      let all : get w'.cron_entries entry
          ≡ get (remove (insert w.cron_entries mine id) mine) entry =
        ap (λ m. get m entry) (left ∙ ap (λ m. remove m mine) entries) in
      elim (Bool-cases (str_eq mine entry)) [
        | inl e ↦
            absurd
              (ground (arith, all, triggers, get-remove (insert w.cron_entries mine id) mine entry))
        | inr e ↦ idle entry (
            ground (
              arith,
              all,
              triggers,
              get-remove (insert w.cron_entries mine id) mine entry,
              get-insert w.cron_entries mine entry id,
            ))
      ]
