-- ===== src/History/Jobs.antt =====
-- What holds of the jobs after any history of the catalog.
use agentmom.Prelude.{
  ℕ, ◌≤◌, String, ◌≡◌, refl, inl, inr, true, false, ◌||◌, some, List, [], ◌∷◌, ◌++◌, arith, ◌==◌,
  Bool-cases, count, update, count-append, count-update_mono,
}
use agentmom.Settings.{Settings}
use agentmom.Catalog.{Catalog, Job}
use agentmom.Jobs.{is_active}
use agentmom.Jobs.Exclusive.{
  active_for, IsExclusive, create_job-IsExclusive, claim_job-IsExclusive,
  mark_job_running-IsExclusive, complete_job-IsExclusive,
}
use agentmom.Jobs.Lifecycle.{
  here, next, cancel, finish, Advances, Evolves, Evolves-refl, Evolves-trans, Evolves-update,
  Evolves-append,
}
use agentmom.Jobs.Progress.{
  advance_row, active_not_terminal, open_not_terminal, edge, create_job-Evolves, claim_job-Evolves,
  mark_job_running-Evolves, complete_job-Evolves,
}
use agentmom.Recovery.{Move, is_open_job, superseded, superseded_output, restore_job}
use agentmom.Recovery.Queue.{recover_host_keeps}
use agentmom.History.{Operation, run}
use agentmom.History.Rules.{run_keeps}

abbrev AtMostOne : List Job → Type 0
AtMostOne js = (w : String) → count (active_for w) js ≤ 1

superseded_inactive :
    (env : Settings) (now : ℕ) (from to : String) (x : Job)
    → is_active (superseded env now from to x) ≡ false
superseded_inactive env now from to x = elim (Bool-cases (x.status == "queued")) [
  | inl e ↦ rw e refl
  | inr e ↦ rw e refl
]

supersede-AtMostOne :
    (env : Settings) (now : ℕ) (from to name : String) (js : List Job)
    → AtMostOne js
    → AtMostOne (update (is_open_job name) (superseded env now from to) js)
supersede-AtMostOne env now from to name js h w = omega (
  arith,
  h w,
  count-update_mono (active_for w) (is_open_job name) (superseded env now from to) js
      (λ x p a. ground (arith, superseded_inactive env now from to x)),
)

restore-AtMostOne :
    (env : Settings) (now : ℕ) (from to id : String) (m : Move) (js : List Job)
    → AtMostOne js
    → AtMostOne (js ++ restore_job env now id from to m ∷ [])
unfolding count
restore-AtMostOne env now from to id m js h w =
    ground (arith, h w, count-append (active_for w) js (restore_job env now id from to m ∷ []))

-- If no workspace has two jobs that are claimed or running, then none has after any history of
-- job creations, claims, start and completion reports, recoveries, registrations, scheduling
-- changes, placements and workspace reports, failed ones included.
pub run-IsExclusive :
    (env : Settings) (os : List (ℕ × Operation)) (db : Catalog)
    → IsExclusive db
    → IsExclusive (run env os db)
run-IsExclusive env os db h =
    run_keeps AtMostOne env (create_job-IsExclusive env) (claim_job-IsExclusive env)
      mark_job_running-IsExclusive (complete_job-IsExclusive env)
      (λ now ids from to items.
        recover_host_keeps AtMostOne env now from to (supersede-AtMostOne env now from to)
          (λ id m js e. restore-AtMostOne env now from to id m js) ids items)
      os db h

superseded-Advances :
    (env : Settings) (now : ℕ) (from to name : String) (x : Job)
    → is_open_job name x ≡ true
    → Advances x (superseded env now from to x)
superseded-Advances env now from to name x p = elim (Bool-cases (x.status == "queued")) [
  | inl e ↦ rw e (
      advance_row x "canceled" (some (env.to_string (superseded_output from to))) x.claimed_by
        x.claimed_at now (open_not_terminal x.status "queued" refl e) (edge e cancel))
  | inr e ↦
      let a : (x.status == "claimed" || x.status == "running") ≡ true = ground arith in
      rw e (
        advance_row x "failed" (some (env.to_string (superseded_output from to))) x.claimed_by
          x.claimed_at now (active_not_terminal x.status a) (next here (finish a refl)))
]

-- After any history the job table continues the old one row by row: a job keeps its id,
-- workspace, node, kind, payload and creation time, its status moves along the edges of
-- `Edge` only, a job with a final status is unchanged in every column, and every row behind the old ones started
-- in the queue.
pub run-Evolves :
    (env : Settings) (os : List (ℕ × Operation)) (db : Catalog)
    → Evolves db.jobs (run env os db).jobs
run-Evolves env os db =
    run_keeps (Evolves js) env (λ id now request d. create_job-Evolves js env id now request d)
      (λ now node c d d'. claim_job-Evolves js env now node c d d')
      (λ now id node d. mark_job_running-Evolves js now id node d)
      (λ now id node status output d. complete_job-Evolves js env now id node status output d)
      (λ now ids from to items.
        recover_host_keeps (Evolves js) env now from to
          (λ name ks e.
            Evolves-trans js ks _ e
              (Evolves-update _ _ ks (superseded-Advances env now from to name)))
          (λ id m ks new e. Evolves-trans js ks _ e (Evolves-append ks _ refl)) ids items)
      os db (Evolves-refl js)
  where
    js : List Job
    js = db.jobs
