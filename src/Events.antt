-- ===== src/Events.antt =====
-- Workspace events and backup records of src/db.rs.
use agentmom.Prelude.{
  ℕ, zero, suc, String, Bool, ◌&&◌, ◌||◌, Option, List, [], ◌∷◌, ◌++◌, ◌==◌, ltb, leb, eqb,
  if◌then◌else◌, keep, find, exists, best, order_by,
}
use agentmom.Json.{Json}
use agentmom.Settings.{Settings}
use agentmom.Catalog.{Catalog, Backup, Event}
use agentmom.Catalog.Exec.{Exec, pure, ◌>>◌, ok, err, constraint, backup_missing, ok_or}

-- INSERT INTO workspace_events; AUTOINCREMENT gives the id.
unfoldable pub insert_event : String → String → String → String → String → String → ℕ → Exec Unit
insert_event workspace node event_type status message metadata now db = (
  ok tt,
  record db {
    event_seq = suc db.event_seq;
    events =
        db.events
        ++ record {
          id = suc db.event_seq;
          workspace_name = workspace;
          node_id = node;
          event_type = event_type;
          status = status;
          message = message;
          metadata_json = metadata;
          created_at = now;
        }
          ∷ [];
  },
)

unfoldable pub record_workspace_event_for_node :
    Settings → ℕ → String → String → String → String → String → Json → Exec Unit
record_workspace_event_for_node env now workspace node event_type status message metadata =
    insert_event workspace node event_type status message (env.to_string metadata) now

-- The node is the local one.
unfoldable pub record_workspace_event :
    Settings → ℕ → String → String → String → String → Json → Exec Unit
record_workspace_event env now workspace event_type status message metadata =
    insert_event workspace env.local_node event_type status message (env.to_string metadata) now

pub record BackupArtifact : Type 0 where
  pub kind : String
  pub location : String
  pub size_bytes : Option ℕ

-- INSERT INTO workspace_backups; `id` is the primary key.
unfoldable pub insert_backup : Backup → Exec Unit
insert_backup b db =
    if exists (λ a. a.id == b.id) db.backups
    then (err constraint, db)
    else (ok tt, record db { backups = db.backups ++ b ∷ [] })

-- `id` is what `new_id("bak")` returns.
unfoldable pub record_backup_artifact_for_node :
    String → ℕ → String → String → BackupArtifact → String → Exec String
record_backup_artifact_for_node id now workspace node artifact status = do
  insert_backup (record {
    id = id;
    workspace_name = workspace;
    node_id = node;
    kind = artifact.kind;
    location = artifact.location;
    status = status;
    size_bytes = artifact.size_bytes;
    created_at = now;
  })
  pure id

unfoldable pub backup_record_get : String → Exec Backup
backup_record_get id db = (ok_or (find (λ b. b.id == id) db.backups) (backup_missing id), db)

abbrev pub is_restorable : String → Backup → Bool
is_restorable name b = b.workspace_name == name && b.kind == "restic" && b.status == "succeeded"

-- ORDER BY created_at DESC LIMIT 1
unfoldable pub latest_restic_backup : String → Exec Backup
latest_restic_backup name db = (
  ok_or (best (is_restorable name) (λ a b. ltb b.created_at a.created_at) db.backups)
      (backup_missing name),
  db,
)

-- ORDER BY created_at ASC, id ASC, and the other way round
abbrev is_older : Event → Event → Bool
is_older a b = ltb a.created_at b.created_at || (eqb a.created_at b.created_at && ltb a.id b.id)

abbrev is_newer : Event → Event → Bool
is_newer a b = is_older b a

unfoldable pub workspace_events_since : String → ℕ → Catalog → List Event
workspace_events_since name since db =
    order_by is_older (keep (λ e. e.workspace_name == name && leb since e.created_at) db.events)

abbrev limited : ℕ → List Event → List Event
limited zero es = []
limited (suc n) [] = []
limited (suc n) (e ∷ es) = e ∷ limited n es

abbrev reversed : List Event → List Event → List Event
reversed [] done = done
reversed (e ∷ es) done = reversed es (e ∷ done)

-- The newest events, in the order in which they happened.
unfoldable pub workspace_recent_events : String → ℕ → Catalog → List Event
workspace_recent_events name limit db =
    reversed (limited limit (order_by is_newer (keep (λ e. e.workspace_name == name) db.events))) []
