-- ===== src/Accounts/Owned.antt =====
-- The workspace of a user: `setup_me`, `create_owned_workspace`, and the deletion of a user with
-- its workspace.
use Prim.Native.String
use agentmom.Prelude.{ℕ, String, true, not, ◌||◌, Option, none, some, ◌==◌, eqb, count, keep, find}
use agentmom.Json.{Json, obj, text, num, bool, field, end}
use agentmom.Settings.{Settings}
use agentmom.Text.{trim}
use agentmom.Catalog.{Workspace, Accounts, User}
use agentmom.Catalog.Exec.{
  Error, Exec, pure, lift, query, guard, update_workspaces, ◌>>=◌, ◌>>◌, Result, ok, err,
  account_missing, own_user, setup_names_required, no_ready_nodes, no_ready_nodes_with_capacity,
  no_registered_nodes,
}
use agentmom.Names.{workspace_slug_from_name}
use agentmom.Jobs.{create_job, CreateJobRequest}
use agentmom.Workspaces.{
  WorkspaceUpsert, workspace_upsert_pending_on_ready_node, workspace_get, workspace_set_desired,
  workspace_mark_status, is_named,
}
use agentmom.Accounts.Sessions.{
  AuthUser, current_user, require_admin, user_get, with_accounts, update_user, has_user_id,
  workspace_for_user, is_owned_by, end_sessions,
}

abbrev pub default_workspace_cpus : ℕ
default_workspace_cpus = 1

abbrev pub default_workspace_memory : ℕ
default_workspace_memory = 2048

abbrev pub default_workspace_quota : ℕ
default_workspace_quota = 10240

abbrev pub default_workspace_idle_timeout : ℕ
default_workspace_idle_timeout = 1800

abbrev pub default_workspace_backup_interval : ℕ
default_workspace_backup_interval = 0

abbrev pub owned_upsert : AuthUser → String → String → WorkspaceUpsert
owned_upsert user agent_name name = record {
  name = name;
  display_name = trim agent_name;
  user_id = user.email;
  owner_user_id = some user.id;
  agent_name = some agent_name;
  vm_name = String.◌++◌ "mom-" name;
  workspace_dir_name = String.◌++◌ "mom-" (String.◌++◌ name "-workspace");
  cpus = default_workspace_cpus;
  memory_mib = default_workspace_memory;
  workspace_quota_mib = default_workspace_quota;
  idle_timeout_secs = default_workspace_idle_timeout;
  backup_interval_secs = default_workspace_backup_interval;
}

abbrev owned_payload : AuthUser → Json
owned_payload user = obj (
    field "user" (text user.email) (
      field "cpus" (num default_workspace_cpus) (
        field "memory" (num default_workspace_memory) (
          field "workspace_quota" (num default_workspace_quota) (
            field "idle_timeout" (num default_workspace_idle_timeout)
              (field "backup_interval" (num default_workspace_backup_interval) end))))))

abbrev pub owned_job : AuthUser → String → String → CreateJobRequest
owned_job user name node = record {
  workspace_name = name;
  kind = "create";
  node_id = some node;
  payload = owned_payload user;
}

-- Both messages about ready nodes contain "no ready worker nodes".
abbrev unavailable : Error → Error
unavailable no_ready_nodes = no_registered_nodes
unavailable no_ready_nodes_with_capacity = no_registered_nodes
unavailable e = e

-- map_err
module _ {A : Type 0} where
  abbrev pub mapped : (Error → Error) → Result A → Result A
  mapped f (ok a) = ok a
  mapped f (err e) = err (f e)

  abbrev pub map_err : (Error → Error) → Exec A → Exec A
  map_err f m db = (mapped f (m db).0, (m db).1)

-- `job` is what `new_id` returns.
unfoldable pub create_owned_workspace : Settings → String → ℕ → AuthUser → String → Exec Workspace
create_owned_workspace env job now user agent_name = do
  name ← lift (workspace_slug_from_name env (String.◌++◌ user.email (String.◌++◌ " " agent_name)))
  node ←
      map_err unavailable
        (workspace_upsert_pending_on_ready_node env now (owned_upsert user agent_name name) none)
  create_job env job now (owned_job user name node)
  workspace_get name

unfoldable pub ensure_owned_workspace :
    Settings → String → ℕ → AuthUser → String → Option Workspace → Exec Workspace
ensure_owned_workspace env job now user agent_name (some w) = pure w
ensure_owned_workspace env job now user agent_name none =
    create_owned_workspace env job now user agent_name

abbrev pub renamed : ℕ → String → User → User
renamed now name u = record u { full_name = name; updated_at = now }

-- The request of a user, with its texts trimmed.
unfoldable pub set_up :
    Settings → String → ℕ → AuthUser → String → String → Exec (AuthUser × Workspace)
set_up env job now user name agent = do
  guard (not (name == "" || agent == "")) setup_names_required
  with_accounts (update_user user.id (renamed now name))
  owned ← query (workspace_for_user user.id)
  w ← ensure_owned_workspace env job now user agent owned
  refreshed ← user_get user.id
  pure (refreshed, w)

unfoldable pub setup_me :
    Settings → String → ℕ → Option String → String → String → Exec (AuthUser × Workspace)
setup_me env job now header full_name agent_name = do
  user ← current_user env now header
  set_up env job now user (trim full_name) (trim agent_name)

abbrev pub removal_job : Workspace → String → CreateJobRequest
removal_job w node = record {
  workspace_name = w.name;
  kind = "remove";
  node_id = some node;
  payload = obj (field "remove_workspace_dir" (bool true) end);
}

unfoldable pub remove_owned : Settings → String → ℕ → Option Workspace → Exec Unit
remove_owned env job now none = pure tt
remove_owned env job now (some w) = elim w.node_id [
  | some node ↦ do
    workspace_set_desired now w.name "removed"
    workspace_mark_status now w.name "removing"
    create_job env job now (removal_job w node)
    pure tt
  | none ↦ do
    update_workspaces (is_named w.name)
        (λ v. record v { desired_state = "removed"; status = "removed"; updated_at = now })
    pure tt
]

abbrev pub without_user : ℕ → Accounts → Accounts
without_user id a = record a { users = keep (λ u. not (has_user_id id u)) a.users }

-- DELETE FROM users, which returns the number of rows that it deleted
unfoldable pub delete_user : ℕ → Exec ℕ
delete_user id db = (
  ok (count (has_user_id id) db.accounts.users),
  record db { accounts = without_user id db.accounts },
)

unfoldable pub delete_user_and_workspace : Settings → String → ℕ → ℕ → Exec Unit
delete_user_and_workspace env job now id = do
  owned ← query (λ db. find (is_owned_by id) db.workspaces)
  remove_owned env job now owned
  with_accounts (end_sessions (λ s. eqb s.user_id id))
  changed ← delete_user id
  guard (not (eqb changed 0)) account_missing

unfoldable pub admin_delete_user : Settings → String → ℕ → Option String → ℕ → Exec Unit
admin_delete_user env job now header id = do
  admin ← require_admin env now header
  guard (not (eqb admin.id id)) own_user
  delete_user_and_workspace env job now id
