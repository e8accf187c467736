-- ===== src/Worker/Backup.antt =====
-- The backup of a workspace that a worker takes: `record_backup` and `backup_workspace_local` of
-- src/worker.rs, on a host whose runtime is not the fake one.
use agentmom.Prelude.{
  String, Bool, true, false, not, ◌&&◌, Option, none, some, ◌==◌, if◌then◌else◌, is_some,
}
use agentmom.Json.{obj, text, field, end}
use agentmom.Catalog.{Workspace}
use agentmom.Catalog.Exec.{Result, ok, err, pure, ◌>>◌, workspace_dir_missing}
use agentmom.Events.{BackupArtifact}
use agentmom.Api.Worker.{api_worker_backup_artifact}
use agentmom.Restore.Artifact.{Output, run_restic_backup}
use agentmom.Machines.Vm.{
  Tools, Machine, VmStatus, load_spec, run, vm_status, is_running, is_started, stop_vm,
}
use agentmom.Worker.Site
use agentmom.Worker.Site.{Site, SiteAct, WorkerApi, on_machine, call, update_workspace, event}
use agentmom.Worker.Local.{vm_metadata, ensure_workspace_running_local}

-- Restic on a host: the repository that is set, whether it is installed, whether the workspace
-- directory is there, and what a run of it gives.
pub record Restic (W : Type 0) : Type 0 where
  pub repository : Option String
  pub installed : Bool
  pub has_workspace_dir : W → Bool
  pub backup : Workspace → W → Option Output × W

abbrev pub running_then : Option VmStatus → Bool
running_then none = false
running_then (some s) = is_running s

module _ {W : Type 0} (tools : Tools W) (restic : Restic W) (api : WorkerApi) where
  abbrev status_of : Result (Unit {0}) → VmStatus → Option VmStatus
  status_of (ok u) s = some s
  status_of (err e) s = none

  -- What get_vm finds.
  unfoldable peek : Machine W → Option VmStatus × Machine W
  unfolding run vm_status
  peek m =
      if m.exists_dir
      then (let n = run tools load_spec m in (status_of n.0 (vm_status tools n.1), n.1))
      else (none, m)

  abbrev skip : SiteAct W
  skip s = (ok tt, s)

  unfoldable stop_before_backup : Workspace → Option VmStatus → SiteAct W
  unfolding event stop_vm update_workspace
  stop_before_backup w none = skip
  stop_before_backup w (some status) =
      if is_started status
      then Site.◌>>◌
          (Site.◌>>◌
            (event tools api w.name "backup_stop_started" "running"
              "stopping workspace before backup" (vm_metadata w))
            (on_machine tools (stop_vm tools)))
          (update_workspace tools api w.name (some "backup-stopped") none false false)
      else skip

  -- The response carries the new id.
  unfoldable pub record_backup : String → String → BackupArtifact → SiteAct W
  unfolding call api_worker_backup_artifact
  record_backup id name artifact = call tools (
      api_worker_backup_artifact api.env api.tokens api.value api.now api.node id name artifact
        "succeeded"
      >> pure tt)

  abbrev recorded : Workspace → String → Result BackupArtifact → SiteAct W
  recorded w id (err e) s = (err e, s)
  recorded w id (ok a) s =
      Site.◌>>◌
        (Site.◌>>◌ (record_backup id w.name a)
          (update_workspace tools api w.name none none false true))
        (event tools api w.name "workspace_backup_succeeded" "succeeded"
          "workspace directory backup completed"
          (obj (
            field "workspace_dir" (text w.workspace_dir_name) (
              field "backup_id" (text id)
                (field "kind" (text a.kind) (field "location" (text a.location) end))))))
        s

  unfoldable take_backup : Workspace → String → SiteAct W
  unfolding run_restic_backup record_backup update_workspace event
  take_backup w id s =
      let given = restic.backup w s.machine.world in
      if restic.installed && is_some restic.repository
      then recorded w id (run_restic_backup restic.repository restic.installed given.0)
          (record s { machine = record s.machine { world = given.1 } })
      else recorded w id (run_restic_backup restic.repository restic.installed none) s

  abbrev back_up_dir : Workspace → String → SiteAct W
  back_up_dir w id s =
      if restic.has_workspace_dir s.machine.world
      then Site.◌>>◌
          (event tools api w.name "workspace_backup_started" "running"
            "workspace directory backup started"
            (obj (field "workspace_dir" (text w.workspace_dir_name) end)))
          (take_backup w id) s
      else (err workspace_dir_missing, s)

  abbrev wake_after : Workspace → Bool → SiteAct W
  wake_after w again = if again then ensure_workspace_running_local tools api w else skip

  -- `id` is the id that the server gives the record of the backup.
  unfoldable pub backup_workspace_local : Workspace → Bool → String → SiteAct W
  unfolding peek stop_before_backup take_backup event ensure_workspace_running_local
  backup_workspace_local w leave_stopped id s =
      let found = peek s.machine in
      Site.◌>>◌ (Site.◌>>◌ (stop_before_backup w found.0) (back_up_dir w id))
        (wake_after w (running_then found.0 && not leave_stopped && w.desired_state == "running"))
        (record s { machine = found.1 })
