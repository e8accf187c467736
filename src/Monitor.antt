-- ===== src/Monitor.antt =====
-- Health figures and thresholds: `monitor_snapshot` and `backup_due` of src/db.rs, and
-- `monitor_check` and `node_eligible` of src/main.rs.
use agentmom.Prelude.{
  ℕ, ◌-◌, Bool, true, false, not, ◌&&◌, ◌||◌, Option, none, some, List, [], ◌∷◌, ◌++◌, ◌==◌, ltb,
  leb, eqb, if◌then◌else◌, is_some, count, best,
}
use agentmom.Settings.{Settings}
use agentmom.Catalog.{Catalog, Node, Job, Workspace}
use agentmom.Catalog.Exec.{Result, ok, err}
use agentmom.Jobs.{cutoff_before}
use agentmom.Nodes.{is_ready}

pub record MonitorSnapshot : Type 0 where
  pub ready_nodes : ℕ
  pub stale_nodes : ℕ
  pub oldest_queued_job_age : ℕ
  pub recent_failed_jobs : ℕ
  pub stale_scheduled_backups : ℕ
  pub recent_backup_failures : ℕ

-- SELECT MIN(created_at) FROM jobs WHERE status = 'queued'
abbrev oldest_queued : Catalog → Option Job
oldest_queued db = best (λ j. j.status == "queued") (λ a b. ltb a.created_at b.created_at) db.jobs

-- `now.saturating_sub(created_at)`; a job created after `now` has a negative age, which is 0 here.
unfoldable pub oldest_queued_job_age : ℕ → Catalog → ℕ
oldest_queued_job_age now db = elim (oldest_queued db) [ none ↦ 0 | some j ↦ now - j.created_at ]

abbrev pub is_stale_node : ℕ → Node → Bool
is_stale_node cutoff n = not (n.status == "retired") && ltb n.last_seen_at cutoff

abbrev pub backup_older_than : ℕ → Option ℕ → Bool
backup_older_than cutoff none = true
backup_older_than cutoff (some t) = ltb t cutoff

abbrev pub misses_backup : ℕ → Workspace → Bool
misses_backup cutoff w =
    not (w.status == "removed")
    && ltb 0 w.backup_interval_secs
    && backup_older_than cutoff w.last_backup_at

unfoldable pub monitor_snapshot : ℕ → ℕ → ℕ → ℕ → Catalog → MonitorSnapshot
monitor_snapshot stale_cutoff now failed_since backup_stale_cutoff db = record {
  ready_nodes = count (is_ready stale_cutoff) db.nodes;
  stale_nodes = count (is_stale_node stale_cutoff) db.nodes;
  oldest_queued_job_age = oldest_queued_job_age now db;
  recent_failed_jobs = count (λ j. j.status == "failed" && leb failed_since j.updated_at) db.jobs;
  stale_scheduled_backups = count (misses_backup backup_stale_cutoff) db.workspaces;
  recent_backup_failures =
      count
        (λ e.
          e.event_type == "workspace_backup_failed"
          && e.status == "failed"
          && leb failed_since e.created_at)
        db.events;
}

-- The thresholds, which the command refuses when one is negative.
pub record MonitorCheckArgs : Type 0 where
  pub min_ready_nodes : ℕ
  pub max_stale_nodes : ℕ
  pub max_queued_age_secs : ℕ
  pub failed_job_lookback_secs : ℕ
  pub max_recent_failed_jobs : ℕ
  pub max_backup_age_secs : ℕ
  pub max_stale_scheduled_backups : ℕ
  pub max_recent_backup_failures : ℕ

pub data Issue : Type 0 where
  api_not_ready few_ready_nodes many_stale_nodes old_queued_job many_failed_jobs : Issue
  many_stale_backups many_backup_failures : Issue

abbrev when : Bool → Issue → List Issue
when b i = if b then i ∷ [] else []

-- The issues in the order in which they are reported; `api_ok` is whether the readiness request
-- succeeded, or was not asked for.
unfoldable pub find_issues : MonitorCheckArgs → Bool → MonitorSnapshot → List Issue
find_issues args api_ok s =
    when (not api_ok) api_not_ready
    ++ (when (ltb s.ready_nodes args.min_ready_nodes) few_ready_nodes
        ++ (when (ltb args.max_stale_nodes s.stale_nodes) many_stale_nodes
            ++ (when (ltb args.max_queued_age_secs s.oldest_queued_job_age) old_queued_job
                ++ (when (ltb args.max_recent_failed_jobs s.recent_failed_jobs) many_failed_jobs
                    ++ (when
                          (ltb 0 args.max_backup_age_secs
                            && ltb args.max_stale_scheduled_backups s.stale_scheduled_backups)
                          many_stale_backups
                        ++ when (ltb args.max_recent_backup_failures s.recent_backup_failures)
                            many_backup_failures)))))

unfoldable pub monitor_check :
    Settings → ℕ → MonitorCheckArgs → Bool → Catalog → Result (List Issue)
monitor_check env now args api_ok db = elim (cutoff_before now env.node_stale_secs) [
  | err e ↦ err e
  | ok stale_cutoff ↦ ok (
      find_issues args api_ok (
        monitor_snapshot stale_cutoff now (now - args.failed_job_lookback_secs)
          (now - args.max_backup_age_secs) db))
]

unfoldable pub node_eligible : Settings → ℕ → Node → Result Bool
node_eligible env now n =
    if not (n.status == "ready") || not (is_some n.worker_url)
    then ok false
    else elim (cutoff_before now env.node_stale_secs) [
      | err e ↦ err e
      | ok cutoff ↦ ok (not (ltb n.last_seen_at cutoff))
    ]

-- `now.saturating_sub(last) >= interval`; the interval is not 0, so a time after `now` is not due.
unfoldable pub backup_due : Workspace → ℕ → Bool
backup_due w now =
    if eqb w.backup_interval_secs 0
    then false
    else elim w.last_backup_at [ none ↦ true | some last ↦ leb w.backup_interval_secs (now - last) ]
