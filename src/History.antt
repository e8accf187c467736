-- ===== src/History.antt =====
-- Histories of the catalog: any sequence of the operations that the API, the workers and the
-- administrator perform, each at a time of its own.
pub mod Rules
pub mod Jobs
pub mod NodeRules
pub mod Nodes
use agentmom.Prelude.{
  ℕ, zero, suc, ◌+◌, ◌-◌, ◌*◌, ◌/◌, ◌%◌, ◌^◌, ◌≤◌, ◌<◌, String, ◌≡◌, refl, sym, ap, ◌∙◌, ◌≢◌, ◌↔◌,
  ◌⊎◌, inl, inr, Bool, true, false, not, ◌&&◌, ◌||◌, Option, none, some, List, [], ◌∷◌, ◌++◌, map,
  arith, ◌==◌, eq_iff, eq_refl, ltb, leb, eqb, if◌then◌else◌, Bool-cases, Option-cases, leb→le,
  ltb→lt, apart, is_some_of, is_some, i64_max, length, count, sum_where, update, keep, find, exists,
  best, pick, All, Has, count-append, count-update-le, count_mono, count-update_mono,
  count-update_same, count-split, count-zero_of-exists, sum_where-append, sum_where_mono,
  sum_where-update_same, Has-count, count_others_zero, find_sound, exists-Has, best_sound,
  best-none,
}
use agentmom.Json.{Json}
use agentmom.Settings.{Settings}
use agentmom.Catalog.{Catalog, Workspace, Backup, Job}
use agentmom.Jobs.{CreateJobRequest, create_job, claim_job}
use agentmom.Jobs.Finish.{mark_job_running, complete_job}
use agentmom.Nodes.{NodeCapacity, register_node, node_set_status, node_touch, node_mark_offline}
use agentmom.Workspaces.{
  WorkspaceUpsert, workspace_upsert_pending_on_ready_node, workspace_update_from_worker,
  workspace_set_desired, workspace_mark_status,
}
use agentmom.Recovery.{recover_host_with_backups}

pub data Operation : Type 0 where
  creates_job : String → CreateJobRequest → Operation
  claims : String → Bool → Bool → Operation
  starts : String → String → Operation
  completes : String → String → String → Json → Operation
  recovers : (ℕ → String) → String → String → List (Workspace × Backup) → Operation
  registers : String → NodeCapacity → Option String → Operation
  schedules : String → String → Operation
  touches : String → Operation
  goes_offline : String → Operation
  places : WorkspaceUpsert → Option String → Operation
  reports : String → String → Option String → Option String → Bool → Bool → Operation
  sets_desired : String → String → Operation
  marks_status : String → String → Operation

-- The catalog after an operation, whether it succeeds or fails.
unfoldable pub step : Settings → ℕ × Operation → Catalog → Catalog
step env (now, creates_job id request) db = (create_job env id now request db).1
step env (now, claims node capacity_ok disk_ok) db =
    (claim_job env now node capacity_ok disk_ok db).1
step env (now, starts id node) db = (mark_job_running now id node db).1
step env (now, completes id node status output) db =
    (complete_job env now id node status output db).1
step env (now, recovers ids from to items) db =
    (recover_host_with_backups env now ids from to items db).1
step env (now, registers node capacity url) db = (register_node env now node capacity url db).1
step env (now, schedules node status) db = (node_set_status node status db).1
step env (now, touches node) db = (node_touch now node db).1
step env (now, goes_offline node) db = (node_mark_offline now node db).1
step env (now, places input requested) db =
    (workspace_upsert_pending_on_ready_node env now input requested db).1
step env (now, reports name node status desired touch mark_backup) db =
    (workspace_update_from_worker now name node status desired touch mark_backup db).1
step env (now, sets_desired name desired) db = (workspace_set_desired now name desired db).1
step env (now, marks_status name status) db = (workspace_mark_status now name status db).1

unfoldable pub run : Settings → List (ℕ × Operation) → Catalog → Catalog
run env [] db = db
run env (o ∷ os) db = run env os (step env o db)
