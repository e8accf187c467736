-- ===== src/Api/Reports.antt =====
-- Which reports of workers are let through.
use agentmom.Prelude.{
  ℕ, String, ◌≡◌, refl, ◌⊎◌, inl, inr, Bool, true, Option, none, some, ◌==◌, Bool-cases,
  Option-cases, is_some_of, find,
}
use agentmom.Json.{Json}
use agentmom.Settings.{Settings}
use agentmom.Catalog.{Catalog, Workspace, Job}
use agentmom.Catalog.Exec.{Result, Error, ok, err, Exec, pure, ◌>>◌, Result-cases}
use agentmom.Jobs.{job_get}
use agentmom.Nodes.{node_allows_worker_reports}
use agentmom.Workspaces.{workspace_get, is_named}
use agentmom.Events.{BackupArtifact}
use agentmom.Api.Tokens.{Tokens, require_worker_node_token}
use agentmom.Api.Worker.{
  require_worker_report_allowed, require_assigned_worker, admit_report, api_worker_job_event,
  api_worker_workspace_state, api_worker_workspace_event, api_worker_backup_artifact,
}

-- The requests that report on a workspace or a job.
pub data Report : Type 0 where
  job_event : String → String → String → String → Json → Report
  workspace_state : String → Option String → Option String → Option String → Bool → Bool → Report
  workspace_event : String → String → String → String → Json → Report
  backup_artifact : String → String → BackupArtifact → String → Report

-- The node that the subject of a report is assigned to.
abbrev node_of_workspace : Option Workspace → Option String
node_of_workspace none = none
node_of_workspace (some w) = w.node_id

abbrev node_of_job : Option Job → Option String
node_of_job none = none
node_of_job (some j) = j.node_id

abbrev pub assigned_node : Report → Catalog → Option String
assigned_node (job_event id _ _ _ _) db = node_of_job (find (λ j. j.id == id) db.jobs)
assigned_node (workspace_state w _ _ _ _ _) db = node_of_workspace (find (is_named w) db.workspaces)
assigned_node (workspace_event w _ _ _ _) db = node_of_workspace (find (is_named w) db.workspaces)
assigned_node (backup_artifact _ w _ _) db = node_of_workspace (find (is_named w) db.workspaces)

module _ (env : Settings) (tokens : Tokens) (value : Option String) (now : ℕ) (node : String) where
  -- The handler of a report.
  abbrev pub receive : Report → Exec Unit
  receive (job_event id event_type status message metadata) =
      api_worker_job_event env tokens value now node id event_type status message metadata
  receive (workspace_state w status desired version touch mark) =
      api_worker_workspace_state env tokens value now node w status desired version touch mark
  receive (workspace_event w event_type status message metadata) =
      api_worker_workspace_event env tokens value now node w event_type status message metadata
  receive (backup_artifact id w artifact status) =
      api_worker_backup_artifact env tokens value now node id w artifact status >> pure tt

  pub record Admitted (assigned : Option String) (db : Catalog) : Type 0 where
    pub token : require_worker_node_token tokens value node ≡ ok tt
    pub assignment : is_some_of assigned node ≡ true
    pub status : node_allows_worker_reports node db ≡ true

  abbrev pub Refused : Result (Unit {0}) × Catalog → Catalog → Type 0
  Refused (err e, db') db = db' ≡ db
  Refused (ok u, db') db = ⊥

  abbrev pub Outcome : Option String → Catalog → Result (Unit {0}) × Catalog → Type 0
  Outcome assigned db r = Refused r db ⊎ Admitted assigned db

  admit_report-Admitted :
      (w : String) (db : Catalog)
      → ((e : Error) × (admit_report env tokens value now node w db ≡ (err e, db)))
        ⊎ Admitted (node_of_workspace (find (is_named w) db.workspaces)) db
  unfolding admit_report require_worker_report_allowed require_assigned_worker workspace_get
  admit_report-Admitted w db = elim (Result-cases (require_worker_node_token tokens value node)) [
    | inr (x, e) ↦ rw e (inl (_, refl))
    | inl (u, e) ↦ elim (Option-cases (find (is_named w) db.workspaces)) [
      | inl n ↦ rw (e, n) (inl (_, refl))
      | inr (row, f) ↦ elim (Bool-cases (is_some_of row.node_id node)) [
        | inr s ↦ rw (e, f, s) (inl (_, refl))
        | inl s ↦ elim (Bool-cases (node_allows_worker_reports node db)) [
          | inr t ↦ rw (e, f, s, t) (inl (_, refl))
          | inl t ↦ rw f (inr (record { token = e; assignment = s; status = t }))
        ]
      ]
    ]
  ]

  job_event-Outcome :
      (id event_type status message : String) (metadata : Json) (db : Catalog)
      → Outcome
          (node_of_job (find (λ j. j.id == id) db.jobs))
          db
          (api_worker_job_event env tokens value now node id event_type status message metadata db)
  unfolding api_worker_job_event require_worker_report_allowed job_get
  job_event-Outcome id event_type status message metadata db =
      elim (Result-cases (require_worker_node_token tokens value node)) [
        | inr (x, e) ↦ rw e (inl refl)
        | inl (u, e) ↦ elim (Option-cases (find (λ j. j.id == id) db.jobs)) [
          | inl n ↦ rw (e, n) (inl refl)
          | inr (row, f) ↦ elim (Bool-cases (is_some_of row.node_id node)) [
            | inr s ↦ rw (e, f, s) (inl refl)
            | inl s ↦ elim (Bool-cases (node_allows_worker_reports node db)) [
              | inr t ↦ rw (e, f, s, t) (inl refl)
              | inl t ↦ rw f (inr (record { token = e; assignment = s; status = t }))
            ]
          ]
        ]
      ]

  -- A report is refused and leaves the catalog as it was, unless its token is the one that is
  -- expected of the node, the workspace or the job that it is about is assigned to the node, and
  -- the node has a status in which it may report.
  pub receive-Outcome : (r : Report) (db : Catalog) → Outcome (assigned_node r db) db (receive r db)
  unfolding api_worker_workspace_state api_worker_workspace_event api_worker_backup_artifact
  receive-Outcome (job_event id event_type status message metadata) db =
      job_event-Outcome id event_type status message metadata db
  receive-Outcome (workspace_state w status desired version touch mark) db =
      elim (admit_report-Admitted w db) [ inl (e, q) ↦ rw q (inl refl) | inr a ↦ inr a ]
  receive-Outcome (workspace_event w event_type status message metadata) db =
      elim (admit_report-Admitted w db) [ inl (e, q) ↦ rw q (inl refl) | inr a ↦ inr a ]
  receive-Outcome (backup_artifact id w artifact status) db = elim (admit_report-Admitted w db) [
    | inl (e, q) ↦ rw q (inl refl)
    | inr a ↦ inr a
  ]
