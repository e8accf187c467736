-- ===== src/History/Rules.antt =====
-- The operations that leave the job table alone.
use agentmom.Prelude.{ℕ, String, ◌≡◌, refl, Bool, Option, List, [], ◌∷◌, arith}
use agentmom.Settings.{Settings}
use agentmom.Catalog.{Catalog, Workspace, Backup, Job}
use agentmom.Nodes.{
  NodeCapacity, upsert_node, register_node, node_set_status, node_touch, node_mark_offline,
}
use agentmom.Json.{Json}
use agentmom.Jobs.{CreateJobRequest, create_job, claim_job}
use agentmom.Jobs.Finish.{mark_job_running, complete_job}
use agentmom.Recovery.{recover_host_with_backups}
use agentmom.Workspaces.Placing.{upsert_cases}
use agentmom.History.{
  Operation, creates_job, registers, schedules, touches, goes_offline, places, reports,
  sets_desired, marks_status, step, run,
}
use agentmom.Workspaces.{
  WorkspaceUpsert, workspace_upsert_pending_on_ready_node, workspace_update_from_worker,
  refuse_report, workspace_get, workspace_set_desired, workspace_mark_status,
}

jobs-upsert_node :
    (node : String) (c : NodeCapacity) (url : Option String) (now : ℕ) (db : Catalog)
    → (upsert_node node c url now db).1.jobs ≡ db.jobs
unfolding upsert_node
jobs-upsert_node node c url now db = ground arith

pub jobs-register_node :
    (env : Settings) (now : ℕ) (node : String) (c : NodeCapacity) (url : Option String)
    (db : Catalog)
    → (register_node env now node c url db).1.jobs ≡ db.jobs
unfolding register_node
jobs-register_node env now node c url db = ground (arith, jobs-upsert_node node c url now db)

pub jobs-node_set_status :
    (node status : String) (db : Catalog) → (node_set_status node status db).1.jobs ≡ db.jobs
unfolding node_set_status
jobs-node_set_status node status db = ground arith

pub jobs-node_touch :
    (now : ℕ) (node : String) (db : Catalog) → (node_touch now node db).1.jobs ≡ db.jobs
unfolding node_touch
jobs-node_touch now node db = ground arith

pub jobs-place_workspace :
    (env : Settings) (now : ℕ) (input : WorkspaceUpsert) (requested : Option String) (db : Catalog)
    → (workspace_upsert_pending_on_ready_node env now input requested db).1.jobs ≡ db.jobs
jobs-place_workspace env now input requested db =
    upsert_cases env now input db (λ r. r.1.jobs ≡ db.jobs) requested (λ e. refl)
      (λ cutoff node slug q p n c. refl)

pub jobs-report :
    (now : ℕ) (name node : String) (status desired : Option String) (touch mark : Bool)
    (db : Catalog)
    → (workspace_update_from_worker now name node status desired touch mark db).1.jobs ≡ db.jobs
unfolding workspace_update_from_worker refuse_report workspace_get
jobs-report now name node status desired touch mark db = ground arith

-- The operations on jobs and recoveries are the only ones that change the job table.
module _ {ℓ} (Q : List Job → Type ℓ) (env : Settings)
    (creates : (id : String) (now : ℕ) (request : CreateJobRequest) (db : Catalog)
      → Q db.jobs
      → Q (create_job env id now request db).1.jobs)
    (claims : (now : ℕ) (node : String) (c d : Bool) (db : Catalog)
      → Q db.jobs
      → Q (claim_job env now node c d db).1.jobs)
    (starts : (now : ℕ) (id node : String) (db : Catalog)
      → Q db.jobs
      → Q (mark_job_running now id node db).1.jobs)
    (completes : (now : ℕ) (id node status : String) (output : Json) (db : Catalog)
      → Q db.jobs
      → Q (complete_job env now id node status output db).1.jobs)
    (recovers : (now : ℕ) (ids : ℕ → String) (from to : String) (items : List (Workspace × Backup))
        (db : Catalog)
      → Q db.jobs
      → Q (recover_host_with_backups env now ids from to items db).1.jobs) where
  step_keeps : (now : ℕ) (o : Operation) (db : Catalog) → Q db.jobs → Q (step env (now, o) db).jobs
  unfolding step
  step_keeps now (creates_job id request) db q = creates id now request db q
  step_keeps now (Operation.claims node c d) db q = claims now node c d db q
  step_keeps now (Operation.starts id node) db q = starts now id node db q
  step_keeps now (Operation.completes id node status output) db q =
      completes now id node status output db q
  step_keeps now (Operation.recovers ids from to items) db q = recovers now ids from to items db q
  step_keeps now (registers node c url) db q = rw (jobs-register_node env now node c url db) q
  step_keeps now (schedules node status) db q = rw (jobs-node_set_status node status db) q
  step_keeps now (touches node) db q = rw (jobs-node_touch now node db) q
  step_keeps now (goes_offline node) db q = unfold node_mark_offline in q
  step_keeps now (places input requested) db q =
      rw (jobs-place_workspace env now input requested db) q
  step_keeps now (reports name node status desired touch mark) db q =
      rw (jobs-report now name node status desired touch mark db) q
  step_keeps now (sets_desired name desired) db q = unfold workspace_set_desired in q
  step_keeps now (marks_status name status) db q = unfold workspace_mark_status in q

  pub run_keeps : (os : List (ℕ × Operation)) (db : Catalog) → Q db.jobs → Q (run env os db).jobs
  unfolding run
  run_keeps [] db q = q
  run_keeps ((now, o) ∷ os) db q = run_keeps os (step env (now, o) db) (step_keeps now o db q)
