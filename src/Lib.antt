-- ===== src/Lib.antt =====
-- The control plane of agentmom: a catalog of workspaces, hosts, jobs and accounts in SQLite, which
-- the API server and the administrator's commands read and write, and the workers that run the
-- virtual machines of workspaces. This library models the statements against the catalog, the
-- handlers that run them, and what a worker does with machines and directories.
--
-- The parts and how they interact. A node (a host with a worker) registers and reports
-- (`register_node`, `node_touch`), a workspace is placed on a ready node with room
-- (`workspace_upsert_pending_on_ready_node`), jobs for it are queued (`create_job`), claimed by
-- the node's worker (`claim_job`), started and completed (`mark_job_running`, `complete_job`).
-- Leases that are not renewed expire at the next claim (`expire_stale_job_leases`). When a host
-- is lost, an administrator moves its workspaces with `fleet_recover_host`, which supersedes their
-- open jobs and queues restores on another host. The worker API lets a worker through by its token
-- and by the node that a workspace or a job is assigned to. Users sign up with an invite, log in
-- and ask for jobs on their own workspaces (`create_user_session`, `authenticate_session`,
-- `api_create_job`). A worker carries a job out on a machine and tells the server what it wants and
-- what it reached (`pause_workspace_local` and the like), and restores a directory from a backup
-- (`run_restic_restore`).
--
-- Which file models which part:
--   Prelude (Tests, Rows, Counting, Finding, Keys): tables as lists of rows, the verbs of SQL on
--     them, and lemmas about counts, lookups and keys
--   Json, Settings, Text (Parts, Numbers, Bytes): JSON values, settings and functions of other
--     packages, texts
--   Catalog, Catalog/Exec, Catalog/Keeps: the tables of src/db.rs and the records of src/main.rs;
--     statements as functions from a catalog to a result and a catalog, with errors and
--     transactions
--   Names: `sanitize_workspace_name`, `workspace_slug_from_name`, `workspace_id_from_slug` of
--     src/main.rs
--   Jobs: `create_job`, `claim_job`, `expire_stale_job_leases` of src/db.rs; Jobs/Finish:
--     `mark_job_running`, `complete_job`; the other files of Jobs hold the proofs
--   WorkerUrl, Nodes: `validate_worker_url`, `register_node`, `node_set_status`, `node_touch`,
--     `select_ready_node` and the checks on nodes of src/db.rs
--   Workspaces: the inserts and updates of workspace rows of src/db.rs
--   Events: events and backup records of src/db.rs
--   Recovery: `recover_host_with_backups` of src/db.rs; Recovery/Command: `fleet_recover_host` of
--     src/main.rs
--   Tunnels: the table of service tunnels of src/db.rs; Tunnels/Ports: `reserve_host_port` of
--     src/service.rs; Tunnels/Previews: `preview_spec` of src/main.rs and the URLs of
--     src/service.rs
--   Monitor: `monitor_snapshot` and `backup_due` of src/db.rs, `monitor_check` and
--     `node_eligible` of src/main.rs
--   Accounts (Texts, Sessions, Invites, Signup, Owned): the users, invites and sessions of
--     src/auth.rs and their tables of src/db.rs; the other files of Accounts hold the proofs
--   Api/Tokens, Api/Worker: `require_worker_node_token` of src/db.rs, the worker handlers of
--     src/api.rs; Api/Public: the handlers of src/api.rs for users and administrators; the other
--     files of Api hold the proofs
--   Restore: `run_restic_restore` of src/backup.rs, a step at a time; Restore/Artifact:
--     `run_restic_backup`; the other files of Restore hold the proofs
--   Machines/Addresses, Machines/Vm: `allocate_machine_index` and the operations on machines of
--     src/runtime.rs; the other files of Machines hold the proofs
--   Worker/Completion: `complete_claimed_job` of src/worker.rs; Worker/Site, Worker/Local,
--     Worker/Backup, Worker/Reconcile: the requests of a worker, what it does with a machine, the
--     backup of a workspace and `worker_reconcile_workspace`; the other files of Worker hold the
--     proofs
--   History: sequences of operations on one catalog, in any order
--   Examples: a small fleet, its users, hosts and workers, on which the theorems are applied
--
-- How the model corresponds to the code. A table is the list of its rows in the order of insertion,
-- which also breaks ties of ORDER BY. Each operation runs alone against the catalog, as SQLite
-- serializes writers; a transaction that fails leaves the catalog as it was, and a statement outside
-- a transaction keeps what it wrote. An operation reads the clock once. Times are seconds since
-- the epoch, so they are natural numbers, and a cutoff that would be negative is 0, below which
-- there is no time either. Statuses and kinds are texts as in the code. Each message that an operation
-- fails with is a constructor of `Error`. `new_id`, SHA-256, JSON serialization, and the parsing of
-- URLs and addresses are arguments or settings. The schema is taken to be at its current version.
-- Statements succeed in the database but for those of `service_tunnel_upsert`, which stand outside
-- a transaction with the clock read between them; whether each succeeds is an argument there.
-- A restore runs on a disk with a list of fates, one for each step: it is carried out, it fails, or
-- the process ends before it. Commands on a host run in a world that is an argument, and each may
-- fail there; a request of a worker can be lost, and so can the response to one that was handled.
-- The record of a machine has, beside what the program keeps, the phase of its process and the
-- phases in which snapshots were written, which follow from the tools that reported success.
-- Most loops are structural recursion on a list or a text. `first_free`, `reserve_in_range` and
-- `reserve_ephemeral` recurse on the number of values or attempts that are left, as their loops
-- do. `report_loop` runs on fuel, one unit more than the seconds for which a report is repeated,
-- which is enough, since each pause is at least a second.
--
-- Not modelled: of src/worker.rs and src/runtime.rs the fake runtime, commands and terminals in a
-- guest, and the making of machine definitions, SSH connections and host checks; of src/service.rs
-- the processes behind a tunnel; of src/backup.rs the commands that relay to a worker. They run
-- other programs. Nor are src/ui.rs, src/acp.rs, the parsing of configuration files, the metrics and
-- the queries for display of src/db.rs, as they only present or relay data.
pub mod Accounts
pub mod Api
pub mod Catalog
pub mod Events
pub mod Examples
pub mod History
pub mod Jobs
pub mod Json
pub mod Monitor
pub mod Names
pub mod Nodes
pub mod Prelude
pub mod Restore
pub mod Machines
pub mod Worker
pub mod Recovery
pub mod Settings
pub mod Text
pub mod Tunnels
pub mod WorkerUrl
pub mod Workspaces
