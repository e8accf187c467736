-- ===== src/Examples/Fleet.antt =====
-- A fleet of two hosts: its settings, its tables and a day of its life.
use agentmom.Prelude.{ℕ, String, true, false, Option, none, some, List, [], ◌∷◌, ◌==◌}
use agentmom.Json.{Json, text, null}
use agentmom.Settings.{Settings, Url}
use agentmom.Catalog.{no_accounts, Catalog, Workspace, Node, Job, Backup}
use agentmom.Jobs.{CreateJobRequest}
use agentmom.Nodes.{NodeCapacity}
use agentmom.Workspaces.{WorkspaceUpsert}
use agentmom.History.{Operation}

abbrev serialized : Json → String
serialized (text s) = s
serialized null = "null"
serialized _ = "{}"

abbrev worker_address : Url
worker_address = record { scheme = "http"; host = some "10.0.0.7"; port = some 8080; path = "/" }

abbrev pub settings : Settings
settings = record {
  node_stale_secs = 90;
  job_claim_timeout_secs = 300;
  job_running_timeout_secs = 3600;
  local_node = "node-a";
  version = "0.9.0";
  to_string = serialized;
  short_hash = λ s n. "0123456789ab";
  parse_url = λ s. some worker_address;
  parse_addr = λ s. some (record { is_unspecified = false; is_loopback = false });
  worker_url_allowlist = none;
  fake_runtime = false;
  auth_secret = some "secret";
  hmac_sha256 = λ key message. message;
  hash_password = λ salt password. some password;
  verify_password = λ password hash. some (password == hash);
}

abbrev pub workspace : String → String → Option String → Workspace
workspace id name node = record {
  workspace_id = id;
  name = name;
  slug = name;
  display_name = name;
  user_id = "ada";
  owner_user_id = none;
  agent_name = none;
  vm_version = "0.9.0";
  vm_name = id;
  workspace_dir_name = id;
  node_id = node;
  desired_state = "running";
  status = "running";
  cpus = 2;
  memory_mib = 4096;
  workspace_quota_mib = 10_240;
  idle_timeout_secs = 1800;
  backup_interval_secs = 3600;
  last_used_at = 1000;
  last_backup_at = none;
  created_at = 1000;
  updated_at = 1000;
}

abbrev pub node : String → Node
node id = record {
  node_id = id;
  worker_url = some "http://10.0.0.7:8080";
  cpus = 8;
  memory_mib = 16_384;
  max_active_workspaces = 4;
  disk_reserve_mib = 1024;
  last_seen_at = 5000;
  status = "ready";
}

abbrev pub queued : String → String → String → String → ℕ → Job
queued id name kind node created = record {
  id = id;
  workspace_name = name;
  node_id = some node;
  kind = kind;
  status = "queued";
  payload_json = "{}";
  output_json = none;
  claimed_by = none;
  claimed_at = none;
  created_at = created;
  updated_at = created;
}

abbrev pub backup : Backup
backup = record {
  id = "backup-1";
  workspace_name = "notes";
  node_id = "node-a";
  kind = "restic";
  location = "repo#abc";
  status = "succeeded";
  size_bytes = none;
  created_at = 4000;
}

abbrev pub fleet : Catalog
fleet = record {
  workspaces =
      workspace "ws-1" "notes" (some "node-a") ∷ workspace "ws-2" "shop" (some "node-b") ∷ [];
  events = [];
  event_seq = 0;
  backups = backup ∷ [];
  nodes = node "node-a" ∷ node "node-b" ∷ [];
  jobs =
      queued "job-2" "notes" "start" "node-a" 4990
      ∷ queued "job-1" "notes" "backup" "node-a" 4980
      ∷ queued "job-3" "shop" "stop" "node-b" 4985
      ∷ [];
  tunnels = [];
  accounts = no_accounts;
}

abbrev pub capacity : NodeCapacity
capacity = record {
  cpus = 8;
  memory_mib = 16_384;
  max_active_workspaces = 4;
  disk_reserve_mib = 1024;
}

abbrev pub request : CreateJobRequest
request = record {
  workspace_name = "shop";
  kind = "start";
  node_id = some "node-b";
  payload = null;
}

abbrev pub upsert : WorkspaceUpsert
upsert = record {
  name = "blog";
  display_name = "Blog";
  user_id = "ada";
  owner_user_id = none;
  agent_name = none;
  vm_name = "vm-blog";
  workspace_dir_name = "blog";
  cpus = 2;
  memory_mib = 4096;
  workspace_quota_mib = 10_240;
  idle_timeout_secs = 1800;
  backup_interval_secs = 3600;
}

-- A node claims, starts and completes a job; another is created and claimed; then the first host
-- is lost and its workspace is moved.
abbrev pub day : List (ℕ × Operation)
day =
    (5000, Operation.touches "node-a")
    ∷ (5010, Operation.claims "node-a" true true)
    ∷ (5011, Operation.claims "node-a" true true)
    ∷ (5012, Operation.starts "job-1" "node-a")
    ∷ (5013, Operation.completes "job-1" "node-a" "succeeded" (text "done"))
    ∷ (5014, Operation.creates_job "job-4" request)
    ∷ (5015, Operation.claims "node-b" true true)
    ∷ (5016, Operation.places upsert none)
    ∷ (
      5020,
      Operation.recovers (λ n. "job-5") "node-a" "node-b"
          ((workspace "ws-1" "notes" (some "node-a"), backup) ∷ []),
    )
    ∷ []
