-- ===== src/Recovery.antt =====
-- Moving the workspaces of a lost host to another: `recover_host_with_backups` of src/db.rs.
pub mod Queue
pub mod Rounds
pub mod Outcome
pub mod Command
use agentmom.Prelude.{
  ℕ, zero, suc, ◌+◌, String, Bool, true, false, not, ◌&&◌, ◌||◌, Option, none, some, List, [], ◌∷◌,
  ◌==◌, ltb, leb, is_some_of, i64_max, count, sum_where, find, if◌then◌else◌, length,
}
use agentmom.Json.{Json, obj, text, field, end}
use agentmom.Settings.{Settings}
use agentmom.Catalog.{Catalog, Workspace, Backup, Job, Node}
use agentmom.Catalog.Exec.{
  overflow, same_nodes, not_recoverable, not_on_source, target_not_ready, over_active, over_cpus,
  over_memory, Result, ok, err, Exec, pure, lift, query, ok_or, guard, transaction, update_jobs,
  update_nodes, update_workspaces, ◌>>=◌, ◌>>◌, Error,
}
use agentmom.Jobs.{cutoff_before, holds_capacity, insert_job, is_active}
use agentmom.Nodes.{is_node, is_ready}
use agentmom.Workspaces.{is_named}
use agentmom.Events.{insert_event}

-- What the moved workspaces will need on the target.
pub record Load : Type 0 where
  pub running : ℕ
  pub cpus : ℕ
  pub memory_mib : ℕ

abbrev pub no_load : Load
no_load = record { running = 0; cpus = 0; memory_mib = 0 }

-- A workspace to move, the backup to restore, and its desired state when it was looked up.
pub record Move : Type 0 where
  pub workspace : Workspace
  pub backup : Backup
  pub desired_state : String

-- i64::checked_add
unfoldable pub checked_add : ℕ → ℕ → Result ℕ
checked_add a b = if leb (a + b) i64_max then ok (a + b) else err overflow

-- `?` in a computation that only reads.
infixl 5 ◌&>◌
abbrev pub ◌&>◌ {ℓ κ} : {A : Type ℓ} {B : Type κ} → Result A → (A → Result B) → Result B
ok a &> f = f a
err e &> f = err e

unfoldable pub add_load : Load → Workspace → Result Load
unfolding checked_add
add_load load w = checked_add load.running 1 &> λ running. checked_add load.cpus w.cpus &> λ cpus.
    checked_add load.memory_mib w.memory_mib &> λ memory_mib.
    ok (record { running = running; cpus = cpus; memory_mib = memory_mib })

abbrev pub is_current : String → Workspace → Bool
is_current name w = w.name == name && not (w.status == "removed")

-- One round of the loop over the items: the row as it is now must be on the source node.
unfoldable pub look_up : String → Workspace → Catalog → Result String
look_up from w db = elim (find (is_current w.name) db.workspaces) [
  | none ↦ err (not_recoverable w.name)
  | some row ↦
      if is_some_of row.node_id from then ok row.desired_state else err (not_on_source w.name)
]

unfoldable pub gather :
    String → List (Workspace × Backup) → Load → Catalog → Result (Load × List Move)
gather from [] load db = ok (load, [])
gather from ((w, b) ∷ items) load db = look_up from w db &> λ desired.
    (if desired == "running" then add_load load w else ok load) &> λ load'.
    gather from items load' db &> λ r.
    ok (r.0, record { workspace = w; backup = b; desired_state = desired } ∷ r.1)

-- `limit > 0 && projected > limit` is refused
unfoldable pub check_limit : ℕ → ℕ → Error → Result (Unit {0})
check_limit limit projected e = if ltb 0 limit && ltb limit projected then err e else ok tt

unfoldable pub check_target : String → Load → Node → Catalog → Result (Unit {0})
unfolding checked_add check_limit
check_target to load n db =
    checked_add (count (holds_capacity to) db.workspaces) load.running &> λ running.
    check_limit n.max_active_workspaces running (over_active to) &> λ _.
    checked_add (sum_where (holds_capacity to) (λ w. w.cpus) db.workspaces) load.cpus &> λ cpus.
    check_limit n.cpus cpus (over_cpus to) &> λ _.
    checked_add (sum_where (holds_capacity to) (λ w. w.memory_mib) db.workspaces) load.memory_mib
    &> λ memory. check_limit n.memory_mib memory (over_memory to)

-- status IN ('queued', 'claimed', 'running')
abbrev pub is_open_job : String → Job → Bool
is_open_job name j = j.workspace_name == name && (j.status == "queued" || is_active j)

abbrev pub superseded_output : String → String → Json
superseded_output from to = obj (
    field "error" (text "job superseded by host-loss recovery")
      (field "from_node" (text from) (field "to_node" (text to) end)))

abbrev pub superseded : Settings → ℕ → String → String → Job → Job
superseded env now from to j = record j {
  status = if j.status == "queued" then "canceled" else "failed";
  output_json = some (env.to_string (superseded_output from to));
  updated_at = now;
}

abbrev pub moved : ℕ → String → Workspace → Workspace
moved now to w = record w { node_id = some to; status = "restore-queued"; updated_at = now }

abbrev pub restore_payload : String → String → Move → Json
restore_payload from to m = obj (
    field "backup_id" (text m.backup.id) (
      field "backup_location" (text m.backup.location) (
        field "backup_workspace_name" (text m.backup.workspace_name) (
          field "desired_state" (text m.desired_state)
            (field "from_node" (text from) (field "to_node" (text to) end))))))

abbrev pub move_metadata : String → String → Move → Json
move_metadata from to m = obj (
    field "from_node" (text from) (
      field "to_node" (text to) (
        field "backup_id" (text m.backup.id)
          (field "backup_location" (text m.backup.location) end))))

abbrev pub restore_job : Settings → ℕ → String → String → String → Move → Job
restore_job env now id from to m = record {
  id = id;
  workspace_name = m.workspace.name;
  node_id = some to;
  kind = "restore";
  status = "queued";
  payload_json = env.to_string (restore_payload from to m);
  output_json = none;
  claimed_by = none;
  claimed_at = none;
  created_at = now;
  updated_at = now;
}

-- One round of the second loop; `id` is what `new_id("job")` returns.
unfoldable pub reassign : Settings → ℕ → String → String → String → Move → Exec Unit
reassign env now id from to m = do
  update_jobs (is_open_job m.workspace.name) (superseded env now from to)
  update_workspaces (is_named m.workspace.name) (moved now to)
  insert_event m.workspace.name to "workspace_recovery_queued" "queued"
      "workspace reassigned for host-loss recovery" (env.to_string (move_metadata from to m)) now
  insert_job (restore_job env now id from to m)

-- `ids n` is the id that `new_id` returns in the round that leaves `n` rounds to do.
unfoldable pub reassign_all : Settings → ℕ → (ℕ → String) → String → String → List Move → Exec Unit
reassign_all env now ids from to [] = pure tt
reassign_all env now ids from to (m ∷ ms) = do
  reassign env now (ids (length ms)) from to m
  reassign_all env now ids from to ms

unfoldable pub recover :
    Settings → ℕ → (ℕ → String) → String → String → ℕ → List (Workspace × Backup) → Exec Unit
recover env now ids from to cutoff items = do
  gathered ← (λ db. (gather from items no_load db, db))
  target ← query (λ db. find (λ n. is_node to n && is_ready cutoff n) db.nodes)
  node ← lift (ok_or target (target_not_ready to))
  (λ db. (check_target to gathered.0 node db, db))
  reassign_all env now ids from to gathered.1
  update_nodes (is_node from) (λ n. record n { status = "offline"; last_seen_at = now })
  pure tt

unfoldable pub recover_host_with_backups :
    Settings → ℕ → (ℕ → String) → String → String → List (Workspace × Backup) → Exec Unit
recover_host_with_backups env now ids from to items = do
  guard (not (from == to)) same_nodes
  cutoff ← lift (cutoff_before now env.node_stale_secs)
  transaction (recover env now ids from to cutoff items)
