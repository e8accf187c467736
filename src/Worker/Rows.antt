-- ===== src/Worker/Rows.antt =====
-- What an accepted request of a worker leaves in the row of a workspace.
use agentmom.Prelude.{
  ℕ, String, ◌≡◌, refl, inl, inr, Bool, true, Option, none, some, arith, eqb, Bool-cases,
  Option-cases, is_some_of, count, find, Has-count, find_sound, find-update,
}
use agentmom.Json.{Json}
use agentmom.Settings.{Settings}
use agentmom.Catalog.{Catalog, Workspace}
use agentmom.Catalog.Exec.{Result-cases, ok}
use agentmom.Workspaces.{
  is_named, is_assigned, reported, workspace_get, workspace_update_from_worker,
}
use agentmom.Nodes.{node_allows_worker_reports, node_touch}
use agentmom.Events.{record_workspace_event_for_node, insert_event}
use agentmom.Api.Tokens.{Tokens, require_worker_node_token}
use agentmom.Api.Worker.{
  admit_report, require_assigned_worker, require_worker_report_allowed, api_worker_workspace_state,
  api_worker_workspace_event,
}

module _ (env : Settings) (tokens : Tokens) (value : Option String) (now : ℕ)
    (node name : String) where
  touched : (db : Catalog) → (node_touch now node db).1.workspaces ≡ db.workspaces
  unfolding node_touch
  touched db = ground arith

  -- A report that is admitted has a row that is assigned to the node, and changes no workspace.
  admit_report-row :
      (db : Catalog)
      → (admit_report env tokens value now node name db).0 ≡ ok tt
      → (w : Workspace) × (find (is_named name) db.workspaces ≡ some w)
        × (is_some_of w.node_id node ≡ true)
        × ((admit_report env tokens value now node name db).1.workspaces ≡ db.workspaces)
  unfolding admit_report require_worker_report_allowed require_assigned_worker workspace_get
      node_touch
  admit_report-row db h = elim (Result-cases (require_worker_node_token tokens value node)) [
    | inr (x, e) ↦ absurd (cc (rw e at h))
    | inl (u, e) ↦ elim (Option-cases (find (is_named name) db.workspaces)) [
      | inl n ↦ absurd (cc (rw (e, n) at h))
      | inr (w, f) ↦ elim (Bool-cases (is_some_of w.node_id node)) [
        | inr s ↦ absurd (cc (rw (e, f, s) at h))
        | inl s ↦ elim (Bool-cases (node_allows_worker_reports node db)) [
          | inr t ↦ absurd (cc (rw (e, f, s, t) at h))
          | inl t ↦ (w, f, s, rw (e, f, s, t) (touched db))
        ]
      ]
    ]
  ]

  -- An accepted report of a state has changed the row as it says.
  pub state-row :
      (status desired : Option String) (touch mark : Bool) (db : Catalog)
      → (api_worker_workspace_state env tokens value now node name status desired none touch mark
          db).0
        ≡ ok tt
      → (w : Workspace) × (find (is_named name) db.workspaces ≡ some w)
        × (find
              (is_named name)
              (api_worker_workspace_state env tokens value now node name status desired none touch
                mark db).1.workspaces
            ≡ some (reported now status desired touch mark w))
  unfolding api_worker_workspace_state workspace_update_from_worker
  state-row status desired touch mark db h =
      let d = (admit_report env tokens value now node name db).1 in
      elim (Result-cases (admit_report env tokens value now node name db).0) [
        | inr (x, e) ↦ absurd (cc (rw e at h))
        | inl (u, e) ↦
            let (w, f, assigned, same) = admit_report-row db e in
            let row : find (is_named name) d.workspaces ≡ some w = rw same f in
            let (there, named) = find_sound (is_named name) d.workspaces w row in
            let chosen : is_assigned name node w ≡ true = ground (arith, named, assigned) in
            let after =
              find-update (is_named name) (is_assigned name node)
                (reported now status desired touch mark) d.workspaces w (λ v. refl) row in
            elim (Bool-cases (eqb (count (is_assigned name node) d.workspaces) 0)) [
              | inl n ↦
                  absurd (
                    ground
                      (arith, n, Has-count (is_assigned name node) w d.workspaces there chosen))
              | inr n ↦ (w, f, rw (e, n) (rw chosen at after))
            ]
      ]

  -- An event changes no workspace.
  pub event-workspaces :
      (event_type status message : String) (metadata : Json) (db : Catalog)
      → (api_worker_workspace_event env tokens value now node name event_type status message
          metadata db).0
        ≡ ok tt
      → (api_worker_workspace_event env tokens value now node name event_type status message
          metadata db).1.workspaces
        ≡ db.workspaces
  unfolding api_worker_workspace_event record_workspace_event_for_node insert_event
  event-workspaces event_type status message metadata db h =
      elim (Result-cases (admit_report env tokens value now node name db).0) [
        | inr (x, e) ↦ absurd (cc (rw e at h))
        | inl (u, e) ↦ let (w, f, assigned, same) = admit_report-row db e in rw e same
      ]
