-- ===== src/Jobs/Progress.antt =====
-- Every operation on jobs continues the job table, as `Evolves` says.
use agentmom.Prelude.{
  ℕ, ◌≡◌, String, ◌==◌, false, true, ◌||◌, eq_iff, Bool-cases, inl, inr, arith, Bool, List, update,
  exists, Option, none, some, refl,
}
use agentmom.Settings.{Settings}
use agentmom.Json.{Json}
use agentmom.Catalog.{Catalog, Job}
use agentmom.Jobs.Lifecycle.{
  Edge, Reaches, here, next, claim, release, start, finish, Advances, Evolves, Evolves-update,
  Evolves-append, Evolves-trans,
}
use agentmom.Jobs.{
  CreateJobRequest, insert_job, queued_job, create_job, expire_stale_job_leases,
  lease_expired_output, requeue, fail_expired, claimed, claim_job, is_active,
}
use agentmom.Jobs.Creation.{create_cases}
use agentmom.Jobs.Leases.{expire_keeps}
use agentmom.Jobs.Claims.{is_target, claim_cases}
use agentmom.Jobs.Finish.{
  is_held, started, mark_job_running, is_terminal, finished, complete_job, running_cases,
  complete_cases,
}

-- A queued, claimed or running row is not a finished one.
pub open_not_terminal :
    (s a : String) → is_terminal a ≡ false → (s == a) ≡ true → is_terminal s ≡ false
open_not_terminal s a h e = rw ((eq_iff s a).0 e) h

-- A row that is not finished, with new values in the columns that the queue writes.
pub advance_row :
    (x : Job) (status : String) (output by : Option String) (at : Option ℕ) (now : ℕ)
    → is_terminal x.status ≡ false
    → Reaches x.status status
    → Advances x (record x {
      status = status;
      output_json = output;
      claimed_by = by;
      claimed_at = at;
      updated_at = now;
    })
advance_row x status output by at now unfinished path = record {
  id = refl;
  workspace = refl;
  node = refl;
  kind = refl;
  payload = refl;
  created = refl;
  path = path;
  frozen = λ t. cc unfinished;
}

pub edge : {s t u : String} → (s == t) ≡ true → Edge t u → Reaches s u
edge {s} {t} e step = rw ((eq_iff s t).0 e) (next here step)

requeue-Advances : (now : ℕ) (x : Job) → (x.status == "claimed") ≡ true → Advances x (requeue now x)
requeue-Advances now x e =
    advance_row x "queued" x.output_json none none now (open_not_terminal x.status "claimed" refl e)
      (edge e release)

claimed-Advances :
    (node : String) (now : ℕ) (x : Job)
    → (x.status == "queued") ≡ true
    → Advances x (claimed node now x)
claimed-Advances node now x e =
    advance_row x "claimed" x.output_json (some node) (some now) now
      (open_not_terminal x.status "queued" refl e) (edge e claim)

pub active_not_terminal :
    (s : String) → (s == "claimed" || s == "running") ≡ true → is_terminal s ≡ false
active_not_terminal s h = elim (Bool-cases (s == "claimed")) [
  | inl e ↦ open_not_terminal s "claimed" refl e
  | inr e ↦ open_not_terminal s "running" refl (ground arith)
]

started-Advances : (now : ℕ) (x : Job) → is_active x ≡ true → Advances x (started now x)
started-Advances now x e =
    advance_row x "running" x.output_json x.claimed_by (some now) now
      (active_not_terminal x.status e) (next here (start e))

pub finished-Advances :
    (now : ℕ) (status output : String) (x : Job)
    → is_active x ≡ true
    → is_terminal status ≡ true
    → Advances x (finished now status output x)
finished-Advances now status output x e t =
    advance_row x status (some output) x.claimed_by x.claimed_at now
      (active_not_terminal x.status e) (next here (finish e t))

fail_expired-Advances :
    (env : Settings) (now : ℕ) (x : Job)
    → (x.status == "running") ≡ true
    → Advances x (fail_expired env now x)
fail_expired-Advances env now x e =
    finished-Advances now "failed" (env.to_string lease_expired_output) x (ground arith) refl

-- One update of rows that advance.
advance :
    (p : Job → Bool) (f : Job → Job) (js : List Job) (db : Catalog)
    → ((x : Job) → p x ≡ true → Advances x (f x))
    → Evolves js db.jobs
    → Evolves js (update p f db.jobs)
advance p f js db h e = Evolves-trans js db.jobs _ e (Evolves-update p f db.jobs h)

module _ (js : List Job) where
  abbrev Continues : Catalog → Type 0
  Continues db = Evolves js db.jobs

  pub expire-Evolves :
      (env : Settings) (now : ℕ) (db : Catalog)
      → Evolves js db.jobs
      → Evolves js (expire_stale_job_leases env now db).1.jobs
  expire-Evolves env now db e =
      expire_keeps Continues env now
        (λ db cutoff e.
          advance _ (requeue now) js db (λ x p. requeue-Advances now x (ground arith)) e)
        (λ db cutoff e.
          advance _ (fail_expired env now) js db
            (λ x p. fail_expired-Advances env now x (ground arith)) e)
        db e

  pub claim_job-Evolves :
      (env : Settings) (now : ℕ) (node : String) (capacity_ok disk_ok : Bool) (db : Catalog)
      → Evolves js db.jobs
      → Evolves js (claim_job env now node capacity_ok disk_ok db).1.jobs
  claim_job-Evolves env now node c d db e =
      claim_cases (λ r. Continues r.1) env now node c d db (λ x. e)
        (λ n. expire-Evolves env now db e)
        (λ j row s one f.
          advance (is_target j) (claimed node now) js (expire_stale_job_leases env now db).1
            (λ x p. claimed-Advances node now x (ground arith)) (expire-Evolves env now db e))

  pub mark_job_running-Evolves :
      (now : ℕ) (id node : String) (db : Catalog)
      → Evolves js db.jobs
      → Evolves js (mark_job_running now id node db).1.jobs
  mark_job_running-Evolves now id node db e = running_cases Continues now id node db (
      advance (is_held id node) (started now) js db (λ x p. started-Advances now x (ground arith))
        e)

  pub complete_job-Evolves :
      (env : Settings) (now : ℕ) (id node status : String) (output : Json) (db : Catalog)
      → Evolves js db.jobs
      → Evolves js (complete_job env now id node status output db).1.jobs
  complete_job-Evolves env now id node status output db e =
      complete_cases Continues env now id node status output db e (λ t.
        advance (is_held id node) (finished now status (env.to_string output)) js db
          (λ x p. finished-Advances now status _ x (ground arith) t) e)

  insert_job-Evolves :
      (job : Job) (db : Catalog)
      → job.status ≡ "queued"
      → Evolves js db.jobs
      → Evolves js (insert_job job db).1.jobs
  unfolding insert_job
  insert_job-Evolves job db q e = elim (Bool-cases (exists (λ j. j.id == job.id) db.jobs)) [
    | inl x ↦ rw x e
    | inr x ↦ rw x (Evolves-trans js db.jobs _ e (Evolves-append db.jobs job q))
  ]

  pub create_job-Evolves :
      (env : Settings) (id : String) (now : ℕ) (request : CreateJobRequest) (db : Catalog)
      → Evolves js db.jobs
      → Evolves js (create_job env id now request db).1.jobs
  create_job-Evolves env id now request db e =
      create_cases Continues env id now request db e
        (λ name. insert_job-Evolves (queued_job env id now name request) db refl e)
