-- ===== src/Api/Worker.antt =====
-- The handlers that workers call, of src/api.rs.
use agentmom.Prelude.{ℕ, String, Bool, not, Option, none, some, ◌==◌, if◌then◌else◌, is_some_of}
use agentmom.Json.{Json, obj, text, field, end}
use agentmom.Settings.{Settings}
use agentmom.Catalog.{Job}
use agentmom.Catalog.Exec.{unauthorized, Exec, pure, lift, query, guard, ◌>>=◌, ◌>>◌}
use agentmom.Jobs.{job_get, claim_job}
use agentmom.Jobs.Finish.{mark_job_running, complete_job}
use agentmom.Nodes.{
  NodeCapacity, register_node, node_touch, node_allows_worker_reports, node_allows_worker_claims,
}
use agentmom.Workspaces.{workspace_get, workspace_update_from_worker, workspace_mark_vm_version}
use agentmom.Events.{
  BackupArtifact, record_workspace_event_for_node, record_backup_artifact_for_node,
}
use agentmom.Api.Tokens.{Tokens, require_worker_node_token}

unfoldable pub require_worker_report_allowed : String → Exec Unit
require_worker_report_allowed node = do
  allowed ← query (node_allows_worker_reports node)
  guard allowed unauthorized

unfoldable pub require_assigned_worker : String → String → Exec Unit
require_assigned_worker workspace node = do
  w ← workspace_get workspace
  guard (is_some_of w.node_id node) unauthorized

abbrev pub mark_version : ℕ → String → Option String → Exec Unit
mark_version now workspace none = pure tt
mark_version now workspace (some version) = workspace_mark_vm_version now workspace version

-- The header `authorization` and the time of a request come before its path and body.
module _ (env : Settings) (tokens : Tokens) (value : Option String) (now : ℕ) (node : String) where
  unfoldable pub api_worker_register : NodeCapacity → Option String → Exec Unit
  api_worker_register capacity url = do
    lift (require_worker_node_token tokens value node)
    register_node env now node capacity url

  unfoldable pub api_worker_claim : NodeCapacity → Option String → Bool → Bool → Exec (Option Job)
  api_worker_claim capacity url capacity_ok disk_ok = do
    lift (require_worker_node_token tokens value node)
    register_node env now node capacity url
    allowed ← query (node_allows_worker_claims node)
    if not allowed
        then (require_worker_report_allowed node >> pure none)
        else claim_job env now node capacity_ok disk_ok

  -- What the handlers of reports on a workspace begin with.
  unfoldable pub admit_report : String → Exec Unit
  admit_report workspace = do
    lift (require_worker_node_token tokens value node)
    require_assigned_worker workspace node
    require_worker_report_allowed node
    node_touch now node

  abbrev job_event_metadata : String → Json → Json
  job_event_metadata id metadata = obj (
      field "job_id" (text id) (field "worker_node_id" (text node) (field "metadata" metadata end)))

  unfoldable pub api_worker_job_event : String → String → String → String → Json → Exec Unit
  api_worker_job_event id event_type status message metadata = do
    lift (require_worker_node_token tokens value node)
    job ← job_get id
    guard (is_some_of job.node_id node) unauthorized
    require_worker_report_allowed node
    node_touch now node
    if event_type == "job_running" then (mark_job_running now id node >> pure tt) else pure tt
    record_workspace_event_for_node env now job.workspace_name node event_type status message
        (job_event_metadata id metadata)

  unfoldable pub api_worker_job_complete : String → String → Json → Exec Job
  api_worker_job_complete id status output = do
    lift (require_worker_node_token tokens value node)
    require_worker_report_allowed node
    node_touch now node
    complete_job env now id node status output

  unfoldable pub api_worker_workspace_state :
      String → Option String → Option String → Option String → Bool → Bool → Exec Unit
  api_worker_workspace_state workspace status desired version touch mark_backup = do
    admit_report workspace
    workspace_update_from_worker now workspace node status desired touch mark_backup
    mark_version now workspace version

  unfoldable pub api_worker_workspace_event : String → String → String → String → Json → Exec Unit
  api_worker_workspace_event workspace event_type status message metadata = do
    admit_report workspace
    record_workspace_event_for_node env now workspace node event_type status message metadata

  -- `id` is what `new_id("bak")` returns.
  unfoldable pub api_worker_backup_artifact :
      String → String → BackupArtifact → String → Exec String
  api_worker_backup_artifact id workspace artifact status = do
    admit_report workspace
    record_backup_artifact_for_node id now workspace node artifact status
