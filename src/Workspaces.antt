-- ===== src/Workspaces.antt =====
-- The workspace rows of src/db.rs: insertion, placement on a node, and updates.
pub mod Placing
pub mod Capacity
use agentmom.Prelude.{
  ℕ, ◌+◌, String, Bool, true, false, not, ◌&&◌, ◌||◌, Option, none, some, [], ◌∷◌, ◌++◌, ◌==◌, ltb,
  leb, eqb, is_some_of, i64_max, count, sum_where, find, exists, if◌then◌else◌,
}
use agentmom.Settings.{Settings}
use agentmom.Text.{trim}
use agentmom.Catalog.{Catalog, Node, Workspace}
use agentmom.Catalog.Exec.{
  bad_name, Result, ok, err, Exec, pure, lift, query, ok_or, guard, transaction, update_workspaces,
  ◌>>=◌, ◌>>◌, constraint, too_large, node_without_capacity, workspace_missing, empty_version,
  workspace_exists, no_ready_nodes_with_capacity, raise, assigned_elsewhere, unassigned,
}
use agentmom.Names.{workspace_slug_from_name, workspace_id_from_slug}
use agentmom.Jobs.{cutoff_before, holds_capacity}
use agentmom.Nodes.{is_open, is_node, choose_node}

pub record WorkspaceUpsert : Type 0 where
  pub name : String
  pub display_name : String
  pub user_id : String
  pub owner_user_id : Option ℕ
  pub agent_name : Option String
  pub vm_name : String
  pub workspace_dir_name : String
  pub cpus : ℕ
  pub memory_mib : ℕ
  pub workspace_quota_mib : ℕ
  pub idle_timeout_secs : ℕ
  pub backup_interval_secs : ℕ

-- The row that is inserted; `slug` is what `workspace_slug_from_name(name)` returns.
abbrev pub pending : Settings → ℕ → String → Option String → WorkspaceUpsert → Workspace
pending env now slug node input = record {
  workspace_id = workspace_id_from_slug env slug;
  name = input.name;
  slug = slug;
  display_name = input.display_name;
  user_id = input.user_id;
  owner_user_id = input.owner_user_id;
  agent_name = input.agent_name;
  vm_version = env.version;
  vm_name = input.vm_name;
  workspace_dir_name = input.workspace_dir_name;
  node_id = node;
  desired_state = "running";
  status = "creating";
  cpus = input.cpus;
  memory_mib = input.memory_mib;
  workspace_quota_mib = input.workspace_quota_mib;
  idle_timeout_secs = input.idle_timeout_secs;
  backup_interval_secs = input.backup_interval_secs;
  last_used_at = now;
  last_backup_at = none;
  created_at = now;
  updated_at = now;
}

abbrev same_owner : Option ℕ → Option ℕ → Bool
same_owner (some a) (some b) = eqb a b
same_owner _ _ = false

-- The UNIQUE columns besides the key, and the unique index on owners.
unfoldable pub collides : Workspace → Workspace → Bool
collides w a =
    a.workspace_id == w.workspace_id
    || a.slug == w.slug
    || a.vm_name == w.vm_name
    || a.workspace_dir_name == w.workspace_dir_name
    || same_owner a.owner_user_id w.owner_user_id

abbrev pub is_named : String → Workspace → Bool
is_named name w = w.name == name

-- INSERT INTO workspaces … ON CONFLICT(name) DO NOTHING
unfoldable pub insert_workspace : Workspace → Exec ℕ
insert_workspace w db =
    if exists (is_named w.name) db.workspaces
    then (ok 0, db)
    else if exists (collides w) db.workspaces
    then (err constraint, db)
    else (ok 1, record db { workspaces = db.workspaces ++ w ∷ [] })

unfoldable pub insert_workspace_pending : Settings → ℕ → Option String → WorkspaceUpsert → Exec Unit
insert_workspace_pending env now node input = do
  slug ← lift (workspace_slug_from_name env input.name)
  guard (leb input.idle_timeout_secs i64_max && leb input.backup_interval_secs i64_max) too_large
  changed ← insert_workspace (pending env now slug node input)
  guard (not (eqb changed 0)) (workspace_exists input.name)

-- The insertion without a choice of node; `node` is the field `assigned_node_id` of the input.
unfoldable pub workspace_upsert_pending : Settings → ℕ → Option String → WorkspaceUpsert → Exec Unit
workspace_upsert_pending env now node input = insert_workspace_pending env now node input

-- ready_node_for_workspace_query: the slot test of `is_open`, and room for the new workspace
abbrev pub has_room : Catalog → ℕ → WorkspaceUpsert → Node → Bool
has_room db cutoff input n =
    is_open db cutoff n
    && (eqb n.cpus 0
        || leb (sum_where (holds_capacity n.node_id) (λ w. w.cpus) db.workspaces + input.cpus)
            n.cpus)
    && (eqb n.memory_mib 0
        || leb
            (sum_where (holds_capacity n.node_id) (λ w. w.memory_mib) db.workspaces
              + input.memory_mib)
            n.memory_mib)

unfoldable pub place : ℕ → WorkspaceUpsert → Option String → Exec String
place cutoff input (some node) = do
  found ← query (λ db. exists (λ n. has_room db cutoff input n && is_node node n) db.nodes)
  guard found (node_without_capacity node)
  pure node
place cutoff input none = do
  chosen ← query (λ db. choose_node (has_room db cutoff input) db)
  lift (ok_or chosen no_ready_nodes_with_capacity)

unfoldable pub workspace_upsert_pending_on_ready_node :
    Settings → ℕ → WorkspaceUpsert → Option String → Exec String
workspace_upsert_pending_on_ready_node env now input requested = do
  cutoff ← lift (cutoff_before now env.node_stale_secs)
  transaction (do
    node ← place cutoff input requested
    insert_workspace_pending env now (some node) input
    pure node)

unfoldable pub workspace_get : String → Exec Workspace
workspace_get name db = (ok_or (find (is_named name) db.workspaces) (workspace_missing name), db)

unfoldable pub workspace_set_desired : ℕ → String → String → Exec Unit
workspace_set_desired now name desired = do
  update_workspaces (is_named name) (λ w. record w { desired_state = desired; updated_at = now })
  pure tt

unfoldable pub workspace_touch : ℕ → String → Exec Unit
workspace_touch now name = do
  update_workspaces (is_named name) (λ w. record w { last_used_at = now; updated_at = now })
  pure tt

unfoldable pub workspace_mark_status : ℕ → String → String → Exec Unit
workspace_mark_status now name status = do
  update_workspaces (is_named name) (λ w. record w { status = status; updated_at = now })
  pure tt

unfoldable pub workspace_mark_vm_version : ℕ → String → String → Exec Unit
workspace_mark_vm_version now name version = do
  let trimmed = trim version
  guard (not (trimmed == "")) empty_version
  changed ←
      update_workspaces (is_named name) (λ w. record w { vm_version = trimmed; updated_at = now })
  guard (not (eqb changed 0)) (workspace_missing name)

unfoldable pub workspace_mark_backup : ℕ → String → Exec Unit
workspace_mark_backup now name = do
  update_workspaces (is_named name) (λ w. record w { last_backup_at = some now; updated_at = now })
  pure tt

-- WHERE name = ?1 AND node_id = ?2
abbrev pub is_assigned : String → String → Workspace → Bool
is_assigned name node w = w.name == name && is_some_of w.node_id node

abbrev or_else {ℓ} : {A : Type ℓ} → Option A → A → A
or_else none a = a
or_else (some b) a = b

abbrev pub reported : ℕ → Option String → Option String → Bool → Bool → Workspace → Workspace
reported now status desired touch mark_backup w = record w {
  status = or_else status w.status;
  desired_state = or_else desired w.desired_state;
  last_used_at = if touch then now else w.last_used_at;
  last_backup_at = if mark_backup then some now else w.last_backup_at;
  updated_at = now;
}

-- Why a report changed no row.
unfoldable pub refuse_report : String → Exec Unit
refuse_report name = do
  w ← workspace_get name
  elim w.node_id [
    | some assigned ↦ raise (assigned_elsewhere name)
    | none ↦ raise (unassigned name)
  ]

unfoldable pub workspace_update_from_worker :
    ℕ → String → String → Option String → Option String → Bool → Bool → Exec Unit
workspace_update_from_worker now name node status desired touch mark_backup = do
  changed ←
      update_workspaces (is_assigned name node) (reported now status desired touch mark_backup)
  if eqb changed 0 then refuse_report name else pure tt
