-- ===== src/Api/Public.antt =====
-- The handlers of src/api.rs that users and administrators call. `header` is the header `cookie`
-- of a request. The notification of the workers after a job is created is left out.
use Prim.Native.String
use agentmom.Prelude.{
  ℕ, String, Bool, not, ◌||◌, Option, none, some, List, ◌==◌, leb, if◌then◌else◌, exists,
}
use agentmom.Json.{Json, obj, text, num, null, field, end, get, as_str}
use agentmom.Settings.{Settings}
use agentmom.Text.{trim}
use agentmom.Catalog.{Workspace, Job, Backup, Event}
use agentmom.Catalog.Exec.{
  Exec, pure, raise, lift, query, ok_or, guard, ◌>>=◌, ◌>>◌, bad_job_kind, no_assigned_node,
  backup_id_required, bad_restore_state, backup_not_restic, backup_not_succeeded, backup_elsewhere,
  assigned_elsewhere, workspace_exists, too_large,
}
use agentmom.Names.{workspace_slug_from_name}
use agentmom.Jobs.{CreateJobRequest, create_job, job_get}
use agentmom.Nodes.{require_claimable_node, select_ready_node}
use agentmom.Workspaces.{
  WorkspaceUpsert, workspace_get, is_named, workspace_upsert_pending_on_ready_node,
}
use agentmom.Events.{backup_record_get, workspace_events_since}
use agentmom.Accounts.Sessions.{require_admin, authorize_workspace, visible_workspaces}

abbrev pub is_public_kind : String → Bool
is_public_kind k =
    k == "start"
    || k == "warm"
    || k == "pause"
    || k == "suspend"
    || k == "resume"
    || k == "stop"
    || k == "execute"
    || k == "hermes"

abbrev pub is_admin_kind : String → Bool
is_admin_kind k = k == "backup" || k == "restore" || k == "remove" || k == "upgrade"

unfoldable pub admit_kind : Settings → ℕ → Option String → String → Exec Unit
admit_kind env now header kind =
    if is_public_kind kind
    then pure tt
    else if is_admin_kind kind
    then (require_admin env now header >> pure tt)
    else raise bad_job_kind

abbrev pub or_default : Option String → String → String
or_default none s = s
or_default (some t) s = t

abbrev pub canonical_json : Backup → String → Json
canonical_json b desired = obj (
    field "backup_id" (text b.id) (
      field "backup_location" (text b.location) (
        field "backup_workspace_name" (text b.workspace_name)
          (field "desired_state" (text desired) end))))

unfoldable pub canonical_restore_payload : Workspace → Json → Exec Json
canonical_restore_payload w payload = do
  id ← lift (ok_or (as_str (get payload "backup_id")) backup_id_required)
  b ← backup_record_get id
  guard (b.kind == "restic") (backup_not_restic b.id)
  guard (b.status == "succeeded") (backup_not_succeeded b.id)
  guard (b.workspace_name == w.name) (backup_elsewhere b.id)
  let desired = or_default (as_str (get payload "desired_state")) w.desired_state
  guard (desired == "running" || desired == "stopped") bad_restore_state
  pure (canonical_json b desired)

-- The node of the job, from the one that the request names and the one of the workspace.
unfoldable pub job_node : Settings → ℕ → Workspace → Option String → Exec (Option String)
job_node env now w requested = elim requested [
  | some node ↦ elim w.node_id [
    | some assigned ↦ do
      guard (node == assigned) (assigned_elsewhere w.name)
      require_claimable_node env now node
      pure (some node)
    | none ↦ do select_ready_node env now (some node); pure (some node)
  ]
  | none ↦ elim w.node_id [
    | some assigned ↦ do require_claimable_node env now assigned; pure (some assigned)
    | none ↦ raise no_assigned_node
  ]
]

unfoldable pub job_payload : Workspace → CreateJobRequest → Exec Json
job_payload w request =
    if request.kind == "restore"
    then canonical_restore_payload w request.payload
    else pure request.payload

unfoldable pub api_create_job : Settings → String → ℕ → Option String → CreateJobRequest → Exec Job
api_create_job env id now header request = do
  admit_kind env now header request.kind
  w ← workspace_get request.workspace_name
  authorize_workspace env now header w.name
  node ← job_node env now w request.node_id
  payload ← job_payload w request
  create_job env id now (record request { node_id = node; payload = payload })

unfoldable pub api_get_job : Settings → ℕ → Option String → String → Exec Job
api_get_job env now header id = do
  job ← job_get id
  authorize_workspace env now header job.workspace_name
  pure job

unfoldable pub api_list_workspaces : Settings → ℕ → Option String → Exec (List Workspace)
api_list_workspaces env now header = visible_workspaces env now header

unfoldable pub api_workspace_events : Settings → ℕ → Option String → String → Exec (List Event)
api_workspace_events env now header name = do
  authorize_workspace env now header name
  query (workspace_events_since name 0)

pub record CreateWorkspaceRequest : Type 0 where
  pub name : String
  pub user : Option String
  pub node_id : Option String
  pub cpus : ℕ
  pub memory : ℕ
  pub workspace_quota : ℕ
  pub idle_timeout : ℕ
  pub backup_interval : ℕ

abbrev u32_max : ℕ
u32_max = 4_294_967_295

abbrev or_null : Option String → Json
or_null none = null
or_null (some s) = text s

abbrev pub upsert_of : CreateWorkspaceRequest → String → WorkspaceUpsert
upsert_of request name = record {
  name = name;
  display_name = trim request.name;
  user_id = or_default request.user name;
  owner_user_id = none;
  agent_name = none;
  vm_name = String.◌++◌ "mom-" name;
  workspace_dir_name = String.◌++◌ "mom-" (String.◌++◌ name "-workspace");
  cpus = request.cpus;
  memory_mib = request.memory;
  workspace_quota_mib = request.workspace_quota;
  idle_timeout_secs = request.idle_timeout;
  backup_interval_secs = request.backup_interval;
}

abbrev pub creation_job : CreateWorkspaceRequest → String → String → CreateJobRequest
creation_job request name node = record {
  workspace_name = name;
  kind = "create";
  node_id = some node;
  payload = obj (
      field "user" (or_null request.user) (
        field "cpus" (num request.cpus) (
          field "memory" (num request.memory) (
            field "workspace_quota" (num request.workspace_quota) (
              field "idle_timeout" (num request.idle_timeout)
                (field "backup_interval" (num request.backup_interval) end))))));
}

unfoldable pub api_create_workspace :
    Settings → String → ℕ → Option String → CreateWorkspaceRequest → Exec Job
api_create_workspace env id now header request = do
  require_admin env now header
  name ← lift (workspace_slug_from_name env request.name)
  taken ← query (λ db. exists (is_named name) db.workspaces)
  guard (not taken) (workspace_exists name)
  guard (leb request.memory u32_max) too_large
  node ← workspace_upsert_pending_on_ready_node env now (upsert_of request name) request.node_id
  create_job env id now (creation_job request name node)
