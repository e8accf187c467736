-- ===== src/Api/Isolation.antt =====
-- A worker that reports cannot touch the workspaces of other nodes.
use agentmom.Prelude.{
  ℕ, String, ◌≡◌, refl, ap, ◌∙◌, inl, inr, Bool, true, ◌&&◌, Option, some, ◌==◌, eqb, Bool-cases,
  Option-cases, is_some_of, count, update, keep, find, exists,
}
use agentmom.Json.{Json}
use agentmom.Settings.{Settings}
use agentmom.Catalog.{Catalog, Workspace}
use agentmom.Catalog.Exec.{pure, ◌>>◌, continue, Result-cases, Result, Error, err, ok}
use agentmom.Jobs.{job_get}
use agentmom.Jobs.Finish.{mark_job_running, running_cases, mark_job_running, running_cases}
use agentmom.Nodes.{is_node, node_touch, node_allows_worker_reports}
use agentmom.Workspaces.{is_named, workspace_get, workspace_update_from_worker}
use agentmom.Api.Tokens.{Tokens, require_worker_node_token}
use agentmom.Events.{
  record_workspace_event_for_node, insert_event, record_backup_artifact_for_node, insert_backup,
}
use agentmom.Api.Reports.{
  Report, receive, job_event, workspace_state, workspace_event, backup_artifact,
}
use agentmom.Api.Worker.{
  api_worker_job_event, api_worker_workspace_event, api_worker_backup_artifact,
  require_assigned_worker, api_worker_workspace_state, require_worker_report_allowed, mark_version,
  admit_report,
}
use agentmom.Api.Elsewhere.{
  is_elsewhere, SameElsewhere, KeyedWorkspaces, named_none, mark_version-SameElsewhere,
  update-SameElsewhere, still_none,
}

module _ (env : Settings) (tokens : Tokens) (value : Option String) (now : ℕ) (node : String) where
  -- What the checks of a report pass on.
  admit_cases :
      (P : Result (Unit {0}) × Catalog → Type 0) (name : String) (db : Catalog)
      → ((e : Error) (d : Catalog) → d.workspaces ≡ db.workspaces → P (err e, d))
      → ((row : Workspace) (d : Catalog)
          → find (is_named name) db.workspaces ≡ some row
          → is_some_of row.node_id node ≡ true
          → d.workspaces ≡ db.workspaces
          → P (ok tt, d))
      → P (admit_report env tokens value now node name db)
  unfolding admit_report require_worker_report_allowed require_assigned_worker workspace_get
      node_touch
  admit_cases P name db failed passed =
      elim (Result-cases (require_worker_node_token tokens value node)) [
        | inr (x, e) ↦ rw e (failed x db refl)
        | inl (u, e) ↦ elim (Option-cases (find (is_named name) db.workspaces)) [
          | inl n ↦ rw (e, n) (failed _ db refl)
          | inr (row, f) ↦ elim (Bool-cases (is_some_of row.node_id node)) [
            | inr s ↦ rw (e, f, s) (failed _ db refl)
            | inl s ↦ elim (Bool-cases (node_allows_worker_reports node db)) [
              | inr t ↦ rw (e, f, s, t) (failed _ db refl)
              | inl t ↦ elim (Bool-cases (eqb (count (is_node node) db.nodes) 0)) [
                | inl z ↦ rw (e, f, s, t, z) (failed _ _ refl)
                | inr z ↦ rw (e, f, s, t, z) (passed row _ f s refl)
              ]
            ]
          ]
        ]
      ]

  state-SameElsewhere :
      (name : String) (status desired version : Option String) (touch mark : Bool) (db : Catalog)
      → KeyedWorkspaces db.workspaces
      → SameElsewhere node db
          (api_worker_workspace_state env tokens value now node name status desired version touch
            mark db).1
  unfolding api_worker_workspace_state
  state-SameElsewhere name status desired version touch mark db keyed =
      admit_cases
        (λ r.
          SameElsewhere node db
            (continue r.0
              (λ _. (do
                workspace_update_from_worker now name node status desired touch mark
                mark_version now name version))
              r.1).1)
        name db (λ e d same. ap (keep (is_elsewhere node)) same)
        (λ row d f s same.
          let none_here : count (λ w. is_named name w && is_elsewhere node w) d.workspaces ≡ 0 =
            rw same (named_none name node db.workspaces row keyed f s) in
          let once =
            update-SameElsewhere now name node status desired touch mark d
            ∙ ap (keep (is_elsewhere node)) same in
          elim (Result-cases
            (workspace_update_from_worker now name node status desired touch mark d).0) [
              | inr (x, e) ↦ rw e once
              | inl (u, e) ↦ rw e (
                  mark_version-SameElsewhere now node name version _
                    (still_none now name node status desired touch mark d none_here)
                  ∙ once)
            ])

  running_workspaces :
      (id : String) (db : Catalog) → (mark_job_running now id node db).1.workspaces ≡ db.workspaces
  running_workspaces id db = running_cases (λ d. d.workspaces ≡ db.workspaces) now id node db refl

  -- The catalog after the node was touched.
  abbrev seen : Catalog → Catalog
  seen db = record db {
    nodes = update (is_node node) (λ n. record n { last_seen_at = now }) db.nodes;
  }

  job_event_workspaces :
      (id event_type status message : String) (metadata : Json) (db : Catalog)
      → (api_worker_job_event env tokens value now node id event_type status message metadata
          db).1.workspaces
        ≡ db.workspaces
  unfolding api_worker_job_event require_worker_report_allowed job_get node_touch
      record_workspace_event_for_node insert_event
  job_event_workspaces id event_type status message metadata db =
      elim (Result-cases (require_worker_node_token tokens value node)) [
        | inr (x, e) ↦ rw e refl
        | inl (u, e) ↦ elim (Option-cases (find (λ j. j.id == id) db.jobs)) [
          | inl n ↦ rw (e, n) refl
          | inr (row, f) ↦ elim (Bool-cases (is_some_of row.node_id node)) [
            | inr s ↦ rw (e, f, s) refl
            | inl s ↦ elim (Bool-cases (node_allows_worker_reports node db)) [
              | inr t ↦ rw (e, f, s, t) refl
              | inl t ↦ elim (Bool-cases (eqb (count (is_node node) db.nodes) 0)) [
                | inl z ↦ rw (e, f, s, t, z) refl
                | inr z ↦ elim (Bool-cases (event_type == "job_running")) [
                  | inr k ↦ rw (e, f, s, t, z, k) refl
                  | inl k ↦ elim (Result-cases (mark_job_running now id node (seen db)).0) [
                    | inr (x, m) ↦ rw (e, f, s, t, z, k, m) (running_workspaces id (seen db))
                    | inl (j, m) ↦ rw (e, f, s, t, z, k, m) (running_workspaces id (seen db))
                  ]
                ]
              ]
            ]
          ]
        ]
      ]

  -- Where the names of the workspaces are distinct, a report of a node, whether it is let through
  -- or not, leaves the workspaces that are not assigned to the node as they are, in their order.
  pub receive-SameElsewhere :
      (r : Report) (db : Catalog)
      → KeyedWorkspaces db.workspaces
      → SameElsewhere node db (receive env tokens value now node r db).1
  unfolding api_worker_workspace_event api_worker_backup_artifact record_workspace_event_for_node
      insert_event record_backup_artifact_for_node insert_backup
  receive-SameElsewhere (job_event id event_type status message metadata) db keyed =
      ap (keep (is_elsewhere node)) (job_event_workspaces id event_type status message metadata db)
  receive-SameElsewhere (workspace_state w status desired version touch mark) db keyed =
      state-SameElsewhere w status desired version touch mark db keyed
  receive-SameElsewhere (workspace_event w event_type status message metadata) db keyed =
      admit_cases
        (λ r.
          SameElsewhere node db
            (continue r.0
              (λ _.
                record_workspace_event_for_node env now w node event_type status message metadata)
              r.1).1)
        w db (λ e d same. ap (keep (is_elsewhere node)) same)
        (λ row d f s same. ap (keep (is_elsewhere node)) same)
  receive-SameElsewhere (backup_artifact id w artifact status) db keyed =
      admit_cases
        (λ r.
          SameElsewhere node db
            ((((λ _. r) >> record_backup_artifact_for_node id now w node artifact status)
                >> pure tt)
              db).1)
        w db (λ e d same. ap (keep (is_elsewhere node)) same)
        (λ row d f s same. elim (Bool-cases (exists (λ b. b.id == id) d.backups)) [
          | inl e ↦ rw e (ap (keep (is_elsewhere node)) same)
          | inr e ↦ rw e (ap (keep (is_elsewhere node)) same)
        ])
