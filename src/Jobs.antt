-- ===== src/Jobs.antt =====
-- The job queue of src/db.rs: insertion, the expiry of leases, and claims.
-- Times are seconds since the epoch, from an unsigned clock, so an `i64` time is a natural number.
-- A cutoff `now - timeout` that would be negative is 0 here: no time is below either.
pub mod Finish
pub mod Leases
pub mod Expiry
pub mod Claims
pub mod Creation
pub mod Keyed
pub mod Answers
pub mod Repeats
pub mod Exclusive
pub mod Progress
pub mod Lifecycle
use agentmom.Prelude.{
  ℕ, ◌+◌, ◌-◌, String, Bool, false, not, ◌&&◌, ◌||◌, Option, none, some, [], ◌∷◌, ◌++◌, ◌==◌, ltb,
  leb, eqb, is_some_of, i64_max, count, sum_where, find, exists, best, if◌then◌else◌,
}
use agentmom.Json.{Json, obj, text, field, end}
use agentmom.Settings.{Settings}
use agentmom.Names.{sanitize_workspace_name}
use agentmom.Catalog.{Catalog, Job, Node, Workspace}
use agentmom.Catalog.Exec.{
  bad_name, too_large, constraint, no_row, job_missing, claim_failed, Result, ok, err, Exec, pure,
  lift, query, ok_or, guard, transaction, update_jobs, ◌>>=◌, ◌>>◌,
}

pub record CreateJobRequest : Type 0 where
  pub workspace_name : String
  pub kind : String
  pub node_id : Option String
  pub payload : Json

-- INSERT INTO jobs; `id` is the primary key.
unfoldable pub insert_job : Job → Exec Unit
insert_job job db =
    if exists (λ j. j.id == job.id) db.jobs
    then (err constraint, db)
    else (ok tt, record db { jobs = db.jobs ++ job ∷ [] })

unfoldable pub job_get : String → Exec Job
job_get id db = (ok_or (find (λ j. j.id == id) db.jobs) (job_missing id), db)

-- The row that `create_job` inserts; `id` is what `new_id("job")` returns.
abbrev pub queued_job : Settings → String → ℕ → String → CreateJobRequest → Job
queued_job env id now name request = record {
  id = id;
  workspace_name = name;
  node_id = request.node_id;
  kind = request.kind;
  status = "queued";
  payload_json = env.to_string request.payload;
  output_json = none;
  claimed_by = none;
  claimed_at = none;
  created_at = now;
  updated_at = now;
}

unfoldable pub create_job : Settings → String → ℕ → CreateJobRequest → Exec Job
create_job env id now request = do
  name ← lift (sanitize_workspace_name request.workspace_name)
  insert_job (queued_job env id now name request)
  job_get id

abbrev pub is_claimed : Job → Bool
is_claimed j = j.status == "claimed"

-- status IN ('claimed', 'running')
abbrev pub is_active : Job → Bool
is_active j = j.status == "claimed" || j.status == "running"

-- claimed_at IS NOT NULL AND claimed_at < cutoff
abbrev pub claimed_before : ℕ → Job → Bool
claimed_before cutoff j = elim j.claimed_at [ none ↦ false | some t ↦ ltb t cutoff ]

abbrev pub requeue : ℕ → Job → Job
requeue now j = record j {
  status = "queued";
  claimed_by = none;
  claimed_at = none;
  updated_at = now;
}

abbrev pub lease_expired_output : Json
lease_expired_output =
    obj (field "error" (text "job running lease expired before the worker completed it") end)

abbrev pub fail_expired : Settings → ℕ → Job → Job
fail_expired env now j = record j {
  status = "failed";
  output_json = some (env.to_string lease_expired_output);
  updated_at = now;
}

-- now.saturating_sub(i64::try_from(timeout)?)
unfoldable pub cutoff_before : ℕ → ℕ → Result ℕ
cutoff_before now timeout = if ltb i64_max timeout then err too_large else ok (now - timeout)

unfoldable pub expire_claims : Settings → ℕ → Exec Unit
expire_claims env now = if eqb env.job_claim_timeout_secs 0 then pure tt else do
  cutoff ← lift (cutoff_before now env.job_claim_timeout_secs)
  update_jobs (λ j. j.status == "claimed" && claimed_before cutoff j) (requeue now)
  pure tt

unfoldable pub expire_runs : Settings → ℕ → Exec Unit
expire_runs env now = if eqb env.job_running_timeout_secs 0 then pure tt else do
  cutoff ← lift (cutoff_before now env.job_running_timeout_secs)
  update_jobs (λ j. j.status == "running" && claimed_before cutoff j) (fail_expired env now)
  pure tt

unfoldable pub expire_stale_job_leases : Settings → ℕ → Exec Unit
expire_stale_job_leases env now = do expire_claims env now; expire_runs env now

-- The workspaces that hold capacity of a node.
abbrev pub holds_capacity : String → Workspace → Bool
holds_capacity node w =
    is_some_of w.node_id node && w.desired_state == "running" && not (w.status == "removed")

-- The three capacity tests of the claim query. A limit of 0 is no limit.
unfoldable pub fits_beside : Catalog → Node → Workspace → Bool
fits_beside db n w =
    let others = λ (a : Workspace). holds_capacity n.node_id a && not (a.name == w.name) in
    (eqb n.max_active_workspaces 0 || leb (count others db.workspaces + 1) n.max_active_workspaces)
    && (eqb n.cpus 0 || leb (sum_where others (λ a. a.cpus) db.workspaces + w.cpus) n.cpus)
    && (eqb n.memory_mib 0
        || leb (sum_where others (λ a. a.memory_mib) db.workspaces + w.memory_mib) n.memory_mib)

unfoldable pub has_room_for : Catalog → String → Job → Bool
has_room_for db node j =
    exists
      (λ n.
        n.node_id == node
        && exists (λ w. w.name == j.workspace_name && fits_beside db n w) db.workspaces)
      db.nodes

abbrev pub restores_stopped : Catalog → Job → Bool
restores_stopped db j =
    j.kind == "restore"
    && exists (λ w. w.name == j.workspace_name && not (w.desired_state == "running")) db.workspaces

-- status IN ('ready', 'cordoned')
abbrev pub takes_jobs : Node → Bool
takes_jobs n = n.status == "ready" || n.status == "cordoned"

-- The WHERE clause of the claim query.
unfoldable pub is_claimable : Catalog → String → Bool → Bool → Job → Bool
is_claimable db node capacity_ok disk_ok j =
    j.status == "queued"
    && is_some_of j.node_id node
    && ((j.kind == "stop" || j.kind == "remove")
        || (disk_ok && restores_stopped db j)
        || (capacity_ok && has_room_for db node j))
    && exists (λ n. n.node_id == node && takes_jobs n) db.nodes
    && not (exists (λ a. a.workspace_name == j.workspace_name && is_active a) db.jobs)

abbrev pub claimed : String → ℕ → Job → Job
claimed node now j = record j {
  status = "claimed";
  claimed_by = some node;
  claimed_at = some now;
  updated_at = now;
}

-- The UPDATE of the chosen job, which must change one row, and the read of that row.
unfoldable pub take_job : String → ℕ → Option Job → Exec (Option Job)
take_job node now none = pure none
take_job node now (some picked) = do
  changed ← update_jobs (λ j. j.id == picked.id && j.status == "queued") (claimed node now)
  guard (eqb changed 1) (claim_failed picked.id)
  job ← query (λ db. find (λ j. j.id == picked.id) db.jobs)
  row ← lift (ok_or job no_row)
  pure (some row)

-- ORDER BY created_at ASC LIMIT 1
unfoldable pub next_job : String → Bool → Bool → Catalog → Option Job
next_job node capacity_ok disk_ok db =
    best (is_claimable db node capacity_ok disk_ok) (λ a b. ltb a.created_at b.created_at) db.jobs

unfoldable pub claim_job : Settings → ℕ → String → Bool → Bool → Exec (Option Job)
claim_job env now node capacity_ok disk_ok = transaction (do
  expire_stale_job_leases env now
  picked ← query (next_job node capacity_ok disk_ok)
  take_job node now picked)
