-- ===== src/Jobs/Answers.antt =====
-- Which job a claim hands out, and that a completion may be reported again.
use agentmom.Prelude.{
  ℕ, ◌≤◌, String, ◌≡◌, refl, Bool, true, false, Option, none, some, arith, eq_refl, exists, Has,
  find_unique, find-update, best-least, best_sound, best-none,
}
use agentmom.Settings.{Settings}
use agentmom.Catalog.{Catalog, Job}
use agentmom.Catalog.Exec.{Result, ok, err}
use agentmom.Jobs.{
  expire_stale_job_leases, requeue, fail_expired, is_claimable, claimed, next_job, claim_job,
}
use agentmom.Jobs.Keyed.{has_id, KeyedJobs, update-KeyedJobs}
use agentmom.Jobs.Leases.{expire_keeps}
use agentmom.Jobs.Claims.{is_target, taken, claim_cases}

expire-KeyedJobs :
    (env : Settings) (now : ℕ) (db : Catalog)
    → KeyedJobs db.jobs
    → KeyedJobs (expire_stale_job_leases env now db).1.jobs
expire-KeyedJobs env now db h =
    expire_keeps (λ d. KeyedJobs d.jobs) env now
      (λ d cutoff k. update-KeyedJobs _ (requeue now) d.jobs (λ x. refl) k)
      (λ d cutoff k. update-KeyedJobs _ (fail_expired env now) d.jobs (λ x. refl) k) db h

-- The answer of a claim, read against the catalog in which leases have just been expired.
abbrev pub Answer :
    Settings → ℕ → String → Bool → Bool → Catalog → Result (Option Job) × Catalog → Type 0
Answer env now node c d db (err e, db') = db' ≡ db
Answer env now node c d db (ok none, db') =
    let fresh = (expire_stale_job_leases env now db).1 in
    (db' ≡ fresh) × (exists (is_claimable fresh node c d) fresh.jobs ≡ false)
Answer env now node c d db (ok (some row), db') =
    let fresh = (expire_stale_job_leases env now db).1 in
    (j : Job) × Has j fresh.jobs
    × (is_claimable fresh node c d j ≡ true)
    × ((a : Job)
        → Has a fresh.jobs
        → is_claimable fresh node c d a ≡ true
        → j.created_at ≤ a.created_at)
    × (row ≡ claimed node now j)
    × (db' ≡ taken node now j fresh)

queued_target :
    (db : Catalog) (node : String) (c d : Bool) (j : Job)
    → is_claimable db node c d j ≡ true
    → is_target j j ≡ true
unfolding is_claimable
queued_target db node c d j e = ground (arith, eq_refl j.id)

-- Where the ids of the jobs are distinct, a claim fails and leaves the catalog as it was, or
-- answers that there is no job and then no job is claimable once leases are expired, or it
-- answers a claimable job that no claimable job is older than, as the node's claimed row, and
-- that row is then the only change to the catalog besides the expiry.
pub claim_job-Answer :
    (env : Settings) (now : ℕ) (node : String) (capacity_ok disk_ok : Bool) (db : Catalog)
    → KeyedJobs db.jobs
    → Answer env now node capacity_ok disk_ok db (claim_job env now node capacity_ok disk_ok db)
unfolding next_job
claim_job-Answer env now node c d db keyed =
    claim_cases (Answer env now node c d db) env now node c d db (λ e. refl)
      (λ n. (refl, best-none _ _ fresh.jobs n))
      (λ j row s one f.
        let sound = best_sound _ _ fresh.jobs j s in
        let target = queued_target fresh node c d j sound.1 in
        let there = find_unique (has_id j.id) fresh.jobs j (keyed' j.id) sound.0 (eq_refl j.id) in
        let changed =
          find-update (has_id j.id) (is_target j) (claimed node now) fresh.jobs j (λ x. refl)
            there in
        (
          j,
          sound.0,
          sound.1,
          (λ a h t. best-least _ (λ x. x.created_at) fresh.jobs j a s h t),
          ground (arith, f, changed, target),
          refl,
        ))
  where
    fresh : Catalog
    fresh = (expire_stale_job_leases env now db).1

    keyed' : KeyedJobs fresh.jobs
    keyed' = expire-KeyedJobs env now db keyed
