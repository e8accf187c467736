-- ===== src/Worker/Reconcile.antt =====
-- The periodic check of a worker on a workspace: `worker_reconcile_workspace` of src/worker.rs, and
-- one step of the loop of `worker_reconcile_once`. Lines of the log are left out.
use agentmom.Prelude.{
  ℕ, ◌-◌, String, Bool, true, false, not, ◌&&◌, ◌||◌, none, some, ◌==◌, ltb, leb, if◌then◌else◌,
  is_some_of,
}
use agentmom.Json.{obj, text, bool, num, field, end}
use agentmom.Catalog.{Workspace}
use agentmom.Catalog.Exec.{Result, Error, ok, err}
use agentmom.Monitor.{backup_due}
use agentmom.Machines.Vm.{Tools, is_running, stop_vm, suspend_vm, remove_vm}
use agentmom.Worker.Site.{Site, SiteAct, WorkerApi, ◌>>◌, on_machine, update_workspace, event}
use agentmom.Worker.Local.{
  vm_metadata, is_stoppable, is_suspendable, drop_dir, where_status, ensure_workspace_running_local,
}
use agentmom.Worker.Backup.{Restic, backup_workspace_local}

abbrev pub wants_running : Workspace → Bool
wants_running w = w.desired_state == "running" && not (w.status == "idle-stopped")

-- `now.saturating_sub(last) >= timeout`; the timeout is not 0, so a time after `now` is not idle.
abbrev pub is_idle : Workspace → ℕ → Bool
is_idle w now = ltb 0 w.idle_timeout_secs && leb w.idle_timeout_secs (now - w.last_used_at)

abbrev pub wants_suspended : Workspace → Bool
wants_suspended w = w.desired_state == "suspended" && not (w.status == "suspended")

abbrev pub wants_stopped : Workspace → Bool
wants_stopped w =
    w.desired_state == "stopped" && not (w.status == "stopped" || w.status == "idle-stopped")

abbrev pub wants_removed : Workspace → Bool
wants_removed w = w.desired_state == "removed" && not (w.status == "removed")

module _ {W : Type 0} (tools : Tools W) (restic : Restic W) (api : WorkerApi) where
  abbrev only : Bool → SiteAct W → SiteAct W
  only true a = a
  only false a = λ s. (ok tt, s)

  unfoldable stop_idle : Workspace → ℕ → SiteAct W
  unfolding where_status stop_vm update_workspace event
  stop_idle w now =
      on_machine tools (where_status tools api is_running (stop_vm tools))
      >> update_workspace tools api w.name (some "idle-stopped") (some "stopped") false false
      >> event tools api w.name "workspace_idle_stopped" "succeeded"
          "workspace stopped after idle timeout"
          (obj (field "idle_seconds" (num (now - w.last_used_at)) end))

  unfoldable keep_running : Workspace → ℕ → SiteAct W
  unfolding ensure_workspace_running_local stop_idle
  keep_running w now =
      ensure_workspace_running_local tools api w >> only (is_idle w now) (stop_idle w now)

  unfoldable reconcile_suspended : Workspace → SiteAct W
  unfolding where_status suspend_vm update_workspace event
  reconcile_suspended w =
      on_machine tools (where_status tools api is_suspendable (suspend_vm tools))
      >> update_workspace tools api w.name (some "suspended") none false false
      >> event tools api w.name "workspace_suspend_reconciled" "succeeded"
          "workspace desired-suspended state reconciled" (vm_metadata w)

  unfoldable reconcile_stopped : Workspace → SiteAct W
  unfolding where_status stop_vm update_workspace event
  reconcile_stopped w =
      on_machine tools (where_status tools api is_stoppable (stop_vm tools))
      >> update_workspace tools api w.name (some "stopped") none false false
      >> event tools api w.name "workspace_stop_reconciled" "succeeded"
          "workspace desired-stopped state reconciled" (vm_metadata w)

  abbrev drops_dir : Workspace → Bool
  drops_dir w = w.status == "removing-dir"

  unfoldable reconcile_removed : Workspace → SiteAct W
  unfolding remove_vm update_workspace event
  reconcile_removed w =
      on_machine tools (remove_vm tools)
      >> on_machine tools (drop_dir tools api (drops_dir w))
      >> update_workspace tools api w.name (some "removed") none false false
      >> event tools api w.name "workspace_remove_reconciled" "succeeded"
          "workspace desired-removed VM state reconciled"
          (obj
            (field "vm" (text w.vm_name) (field "workspace_dir_removed" (bool (drops_dir w)) end)))

  -- The message of an event that reports an error is its text; `shown` writes it.
  module _ (shown : Error → String) where
    abbrev or_report : Workspace → Result (Unit {0}) → SiteAct W
    or_report w (ok u) = λ s. (ok u, s)
    or_report w (err e) =
        event tools api w.name "workspace_backup_failed" "failed" (shown e) (obj end)

    unfoldable scheduled_backup : Workspace → String → SiteAct W
    unfolding backup_workspace_local event
    scheduled_backup w id s =
        let taken = backup_workspace_local tools restic api w false id s in
        or_report w taken.0 taken.1

    unfoldable pub worker_reconcile_workspace : Workspace → ℕ → String → SiteAct W
    unfolding keep_running reconcile_suspended reconcile_stopped reconcile_removed backup_due
        scheduled_backup
    worker_reconcile_workspace w now id =
        only (wants_running w) (keep_running w now)
        >> only (wants_suspended w) (reconcile_suspended w)
        >> only (wants_stopped w) (reconcile_stopped w)
        >> only (wants_removed w) (reconcile_removed w)
        >> only (backup_due w now) (scheduled_backup w id)

    -- Errors of the two reports on a failure are only printed.
    abbrev report_failure : Workspace → Error → Site W → Site W
    report_failure w e s =
        (event tools api w.name "workspace_reconcile_failed" "failed" (shown e)
          (obj
            (field "vm" (text w.vm_name) (field "workspace_dir" (text w.workspace_dir_name) end)))
          (update_workspace tools api w.name (some "error") none false false s).1).1

    abbrev or_report_failure : Workspace → Result (Unit {0}) → Site W → Site W
    or_report_failure w (ok u) s = s
    or_report_failure w (err e) s = report_failure w e s

    -- One workspace of the list that the server sends; those of other nodes are passed over.
    unfoldable pub reconcile_record : Workspace → ℕ → String → Site W → Site W
    unfolding worker_reconcile_workspace update_workspace event
    reconcile_record w now id s =
        if is_some_of w.node_id api.node
        then (let r = worker_reconcile_workspace w now id s in or_report_failure w r.0 r.1)
        else s
