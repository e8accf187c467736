-- ===== src/Catalog.antt =====
-- The fleet catalog: the tables of fleet.db, with the columns that src/db.rs declares, and the
-- structs of src/main.rs that its rows are read into.
pub mod Exec
pub mod Keeps
use agentmom.Prelude.{ℕ, String, Bool, Option, none, some, List, []}

pub record Workspace : Type 0 where
  pub workspace_id : String
  pub name : String
  pub slug : String
  pub display_name : String
  pub user_id : String
  pub owner_user_id : Option ℕ
  pub agent_name : Option String
  pub vm_version : String
  pub vm_name : String
  pub workspace_dir_name : String
  pub node_id : Option String
  pub desired_state : String
  pub status : String
  pub cpus : ℕ
  pub memory_mib : ℕ
  pub workspace_quota_mib : ℕ
  pub idle_timeout_secs : ℕ
  pub backup_interval_secs : ℕ
  pub last_used_at : ℕ
  pub last_backup_at : Option ℕ
  pub created_at : ℕ
  pub updated_at : ℕ

pub record Node : Type 0 where
  pub node_id : String
  pub worker_url : Option String
  pub cpus : ℕ
  pub memory_mib : ℕ
  pub max_active_workspaces : ℕ
  pub disk_reserve_mib : ℕ
  pub last_seen_at : ℕ
  pub status : String

pub record Job : Type 0 where
  pub id : String
  pub workspace_name : String
  pub node_id : Option String
  pub kind : String
  pub status : String
  pub payload_json : String
  pub output_json : Option String
  pub claimed_by : Option String
  pub claimed_at : Option ℕ
  pub created_at : ℕ
  pub updated_at : ℕ

pub record Event : Type 0 where
  pub id : ℕ
  pub workspace_name : String
  pub node_id : String
  pub event_type : String
  pub status : String
  pub message : String
  pub metadata_json : String
  pub created_at : ℕ

pub record Backup : Type 0 where
  pub id : String
  pub workspace_name : String
  pub node_id : String
  pub kind : String
  pub location : String
  pub status : String
  pub size_bytes : Option ℕ
  pub created_at : ℕ

pub record Tunnel : Type 0 where
  pub hostname : String
  pub workspace_name : String
  pub node_id : String
  pub service : String
  pub url : String
  pub updated_at : ℕ

pub record User : Type 0 where
  pub id : ℕ
  pub email : String
  pub password_hash : String
  pub full_name : String
  pub role : String
  pub invite_id : Option ℕ
  pub created_at : ℕ
  pub updated_at : ℕ
  pub last_seen_at : Option ℕ

pub record Invite : Type 0 where
  pub id : ℕ
  pub label : String
  pub description : String
  pub code : String
  pub role : String
  pub max_uses : Option ℕ
  pub used_count : ℕ
  pub active : Bool
  pub created_by_user_id : Option ℕ
  pub created_at : ℕ

pub record Redemption : Type 0 where
  pub id : ℕ
  pub invite_id : ℕ
  pub user_id : ℕ
  pub redeemed_at : ℕ

pub record Session : Type 0 where
  pub id : ℕ
  pub user_id : ℕ
  pub token_hash : String
  pub created_at : ℕ
  pub last_seen_at : ℕ

-- The tables of `ensure_auth_schema`, each with the last id that AUTOINCREMENT gave to a row.
pub record Accounts : Type 0 where
  pub users : List User
  pub user_seq : ℕ
  pub invites : List Invite
  pub invite_seq : ℕ
  pub redemptions : List Redemption
  pub redemption_seq : ℕ
  pub sessions : List Session
  pub session_seq : ℕ

-- `event_seq` is the last id that AUTOINCREMENT gave to an event.
pub record Catalog : Type 0 where
  pub workspaces : List Workspace
  pub events : List Event
  pub event_seq : ℕ
  pub backups : List Backup
  pub nodes : List Node
  pub jobs : List Job
  pub tunnels : List Tunnel
  pub accounts : Accounts

abbrev pub no_accounts : Accounts
no_accounts = record {
  users = [];
  user_seq = 0;
  invites = [];
  invite_seq = 0;
  redemptions = [];
  redemption_seq = 0;
  sessions = [];
  session_seq = 0;
}

abbrev pub empty : Catalog
empty = record {
  workspaces = [];
  events = [];
  event_seq = 0;
  backups = [];
  nodes = [];
  jobs = [];
  tunnels = [];
  accounts = no_accounts;
}
