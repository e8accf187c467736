-- ===== src/Jobs/Exclusive.antt =====
-- No workspace has two jobs in the hands of workers.
use agentmom.Prelude.{
  ◌+◌, ℕ, ◌≤◌, ◌≡◌, refl, String, Bool, true, false, not, ◌&&◌, ◌||◌, some, inl, inr, arith, [],
  ◌∷◌, ◌==◌, eq_iff, Bool-cases, count, update, exists, Has, count-append, count-update-le,
  count-update_mono, count_mono, count_others_zero, count-zero_of-exists, best_sound, apart,
}
use agentmom.Json.{Json}
use agentmom.Settings.{Settings}
use agentmom.Catalog.{Catalog, Job}
use agentmom.Jobs.{
  CreateJobRequest, is_active, insert_job, queued_job, create_job, expire_stale_job_leases, requeue,
  fail_expired, is_claimable, claimed, next_job, claim_job,
}
use agentmom.Jobs.Creation.{create_cases}
use agentmom.Jobs.Leases.{expire_keeps}
use agentmom.Jobs.Claims.{is_target, taken, claim_cases}
use agentmom.Jobs.Finish.{
  is_held, started, mark_job_running, is_terminal, finished, complete_job, running_cases,
  complete_cases,
}

abbrev pub active_for : String → Job → Bool
active_for w j = j.workspace_name == w && is_active j

-- At most one job of each workspace is claimed or running.
abbrev pub IsExclusive : Catalog → Type 0
IsExclusive db = (w : String) → count (active_for w) db.jobs ≤ 1

-- An update that makes no job active keeps the table exclusive.
pub update-IsExclusive :
    (p : Job → Bool) (f : Job → Job) (db : Catalog)
    → ((w : String) (j : Job) → p j ≡ true → active_for w (f j) ≡ true → active_for w j ≡ true)
    → IsExclusive db
    → IsExclusive (record db { jobs = update p f db.jobs })
update-IsExclusive p f db k h w =
    omega (arith, h w, count-update_mono (active_for w) p f db.jobs (k w))

pub insert_job-IsExclusive :
    (job : Job) (db : Catalog)
    → is_active job ≡ false
    → IsExclusive db
    → IsExclusive (insert_job job db).1
unfolding insert_job count
insert_job-IsExclusive job db q h w =
    ground (arith, h w, count-append (active_for w) db.jobs (job ∷ []))

pub expire-IsExclusive :
    (env : Settings) (now : ℕ) (db : Catalog)
    → IsExclusive db
    → IsExclusive (expire_stale_job_leases env now db).1
expire-IsExclusive env now =
    expire_keeps IsExclusive env now
      (λ db cutoff h. update-IsExclusive _ (requeue now) db (λ w j p a. ground arith) h)
      (λ db cutoff h. update-IsExclusive _ (fail_expired env now) db (λ w j p a. ground arith) h)

-- The chosen job is of a workspace with no active job.
next_job_idle :
    (node : String) (c d : Bool) (db : Catalog) (j : Job)
    → next_job node c d db ≡ some j
    → Has j db.jobs × (is_target j j ≡ true) × (count (active_for j.workspace_name) db.jobs ≡ 0)
unfolding next_job is_claimable
next_job_idle node c d db j e =
    let s = best_sound _ _ db.jobs j e in
    let e : exists (active_for j.workspace_name) db.jobs ≡ false = ground (arith, s.1) in
    (s.0, ground (arith, s.1, eq_iff j.id j.id), count-zero_of-exists _ db.jobs e)

-- The same workspace, and that a job is of its own.
abbrev active_name : Job → Job → Bool
active_name j x = x.workspace_name == j.workspace_name

self : (j : Job) → active_name j j ≡ true
self j = ground (arith, eq_iff j.workspace_name j.workspace_name)

taken-IsExclusive :
    (node : String) (now : ℕ) (j : Job) (db : Catalog)
    → Has j db.jobs
    → is_target j j ≡ true
    → count (is_target j) db.jobs ≡ 1
    → count (active_for j.workspace_name) db.jobs ≡ 0
    → IsExclusive db
    → IsExclusive (taken node now j db)
taken-IsExclusive node now j db has target one idle h w =
    elim (Bool-cases (j.workspace_name == w)) [
      | inl e ↦
          let same : j.workspace_name ≡ w = (eq_iff j.workspace_name w).0 e in
          omega (
            arith,
            added,
            rw same at idle,
            count_mono (λ x. is_target j x && active_for w (claimed node now x)) (is_target j)
                db.jobs (λ x q. ground arith),
            one,
          )
      | inr e ↦ omega (
        arith,
        added,
        h w,
        count_others_zero (is_target j) (active_name j) j db.jobs one has target (self j),
        count_mono (λ x. is_target j x && active_for w (claimed node now x))
            (λ x. is_target j x && not (active_name j x)) db.jobs
            (λ x q. ground (
              arith,
              eq_iff x.workspace_name w,
              eq_iff x.workspace_name j.workspace_name,
              eq_iff j.workspace_name w,
            )),
      )
    ]
  where
    added :
        count (active_for w) (taken node now j db).jobs
        ≤ count (active_for w) db.jobs
          + count (λ x. is_target j x && active_for w (claimed node now x)) db.jobs
    added = count-update-le (active_for w) (is_target j) (claimed node now) db.jobs

pub claim_job-IsExclusive :
    (env : Settings) (now : ℕ) (node : String) (capacity_ok disk_ok : Bool) (db : Catalog)
    → IsExclusive db
    → IsExclusive (claim_job env now node capacity_ok disk_ok db).1
claim_job-IsExclusive env now node c d db h =
    claim_cases (λ r. IsExclusive r.1) env now node c d db (λ e. h) (λ e. fresh)
      (λ j row s one f.
        let i = next_job_idle node c d db' j s in
        taken-IsExclusive node now j db' i.0 i.1 one i.2 fresh)
  where
    db' : Catalog
    db' = (expire_stale_job_leases env now db).1

    fresh : IsExclusive db'
    fresh = expire-IsExclusive env now db h

pub mark_job_running-IsExclusive :
    (now : ℕ) (id node : String) (db : Catalog)
    → IsExclusive db
    → IsExclusive (mark_job_running now id node db).1
mark_job_running-IsExclusive now id node db h =
    running_cases IsExclusive now id node db
      (update-IsExclusive (is_held id node) (started now) db (λ w j p a. ground arith) h)

-- A terminal status is not one of an active job.
pub terminal_inactive :
    (status : String)
    → is_terminal status ≡ true
    → (status == "claimed" || status == "running") ≡ false
terminal_inactive status h = ground (
  arith,
  apart status "succeeded" "claimed" refl,
  apart status "succeeded" "running" refl,
  apart status "failed" "claimed" refl,
  apart status "failed" "running" refl,
  apart status "canceled" "claimed" refl,
  apart status "canceled" "running" refl,
)

pub complete_job-IsExclusive :
    (env : Settings) (now : ℕ) (id node status : String) (output : Json) (db : Catalog)
    → IsExclusive db
    → IsExclusive (complete_job env now id node status output db).1
complete_job-IsExclusive env now id node status output db h =
    complete_cases IsExclusive env now id node status output db h (λ t.
      update-IsExclusive (is_held id node) (finished now status (env.to_string output)) db
        (λ w j p a. ground (arith, terminal_inactive status t)) h)

pub create_job-IsExclusive :
    (env : Settings) (id : String) (now : ℕ) (request : CreateJobRequest) (db : Catalog)
    → IsExclusive db
    → IsExclusive (create_job env id now request db).1
create_job-IsExclusive env id now request db h =
    create_cases IsExclusive env id now request db h
      (λ name. insert_job-IsExclusive (queued_job env id now name request) db refl h)
