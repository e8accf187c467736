-- ===== src/Worker/Local.antt =====
-- What a worker does with the machine of a workspace, and reports: the functions from
-- `pause_workspace_local` to `upgrade_workspace_local`, on a host whose runtime is not the fake one.
-- A line of the log is left out.
use agentmom.Prelude.{String, Bool, true, false, none, some, ◌==◌, if◌then◌else◌}
use agentmom.Json.{Json, obj, text, bool, field, end}
use agentmom.Catalog.{Workspace}
use agentmom.Catalog.Exec.{Result, ok, err, vm_absent}
use agentmom.Machines.Vm.{
  vm_status, load_spec, Tools, Machine, VmStatus, Act, paused, suspended, remove_workspace_dir,
  is_running, connect, start_vm, pause_vm, suspend_vm, stop_vm, remove_vm, create_vm, run, refuse,
  unchanged, ssh,
}
use agentmom.Worker.Site.{
  SiteAct, WorkerApi, ◌>>◌, on_machine, update_workspace, update_workspace_version, event, with_vm,
}

abbrev pub vm_metadata : Workspace → Json
vm_metadata w = obj (field "vm" (text w.vm_name) end)

abbrev vm_and_dir : Workspace → Json
vm_and_dir w =
    obj (field "vm" (text w.vm_name) (field "workspace_dir" (text w.workspace_dir_name) end))

-- Statuses in which a machine is stopped, and in which it is suspended.
abbrev pub is_stoppable : VmStatus → Bool
is_stoppable suspended = true
is_stoppable paused = true
is_stoppable s = is_running s

abbrev pub is_suspendable : VmStatus → Bool
is_suspendable paused = true
is_suspendable s = is_running s

module _ {W : Type 0} (tools : Tools W) (api : WorkerApi) where
  abbrev pub only_if : (VmStatus → Bool) → Act tools → VmStatus → Act tools
  only_if p a s = if p s then a else unchanged tools

  -- `if let Ok(handle) = get_vm(…) && p(handle.status()) { a }`
  unfoldable pub where_status : (VmStatus → Bool) → Act tools → Act tools
  unfolding with_vm
  where_status p a = with_vm tools (unchanged tools) (only_if p a)

  -- `get_vm(…)?` and then an operation, whatever the status
  unfoldable pub on_handle : Act tools → Act tools
  unfolding with_vm
  on_handle a = with_vm tools (refuse tools vm_absent) (λ s. a)

  unfoldable pub pause_workspace_local : Workspace → SiteAct W
  unfolding update_workspace on_handle pause_vm event
  pause_workspace_local w =
      update_workspace tools api w.name none (some "paused") false false
      >> on_machine tools (on_handle (pause_vm tools))
      >> update_workspace tools api w.name (some "paused") none false false
      >> event tools api w.name "workspace_paused" "succeeded" "workspace vm paused" (vm_metadata w)

  unfoldable pub suspend_workspace_local : Workspace → SiteAct W
  unfolding update_workspace on_handle suspend_vm event
  suspend_workspace_local w =
      update_workspace tools api w.name none (some "suspended") false false
      >> on_machine tools (on_handle (suspend_vm tools))
      >> update_workspace tools api w.name (some "suspended") none false false
      >> event tools api w.name "workspace_suspended" "succeeded"
          "workspace vm snapshotted and suspended" (vm_metadata w)

  unfoldable pub stop_workspace_local : Workspace → SiteAct W
  unfolding update_workspace where_status stop_vm event
  stop_workspace_local w =
      update_workspace tools api w.name none (some "stopped") false false
      >> on_machine tools (where_status is_stoppable (stop_vm tools))
      >> update_workspace tools api w.name (some "stopped") none false false
      >> event tools api w.name "workspace_stopped" "succeeded" "workspace stopped" (vm_metadata w)

  abbrev pub removing_status : Bool → String
  removing_status true = "removing-dir"
  removing_status false = "removing-vm"

  abbrev pub drop_dir : Bool → Act tools
  drop_dir true = run tools remove_workspace_dir
  drop_dir false = unchanged tools

  unfoldable pub remove_workspace_local : Workspace → Bool → SiteAct W
  unfolding update_workspace remove_vm run event
  remove_workspace_local w remove_dir =
      update_workspace tools api w.name (some (removing_status remove_dir)) (some "removed") false
        false
      >> on_machine tools (remove_vm tools)
      >> on_machine tools (drop_dir remove_dir)
      >> update_workspace tools api w.name (some "removed") (some "removed") false false
      >> event tools api w.name "workspace_removed" "succeeded" "workspace vm removed"
          (obj (field "workspace_dir_removed" (bool remove_dir) end))

  -- A machine that runs is connected to, one that does not is started.
  unfoldable start_handle : Workspace → SiteAct W
  unfolding event start_vm on_handle update_workspace
  start_handle w =
      event tools api w.name "vm_starting" "running" "starting workspace vm" (vm_metadata w)
      >> on_machine tools (start_vm tools ssh)
      >> update_workspace tools api w.name (some "running") none false false
      >> event tools api w.name "vm_started" "succeeded" "workspace vm started" (vm_metadata w)

  unfoldable connect_handle : Workspace → SiteAct W
  unfolding connect update_workspace
  connect_handle w =
      on_machine tools (connect tools ssh)
      >> update_workspace tools api w.name (some "running") none false false

  unfoldable recreate : Workspace → SiteAct W
  unfolding event create_vm update_workspace_version on_handle start_vm update_workspace
  recreate w =
      event tools api w.name "vm_recreate_started" "running"
        "workspace vm missing; recreating it around existing workspace directory" (vm_and_dir w)
      >> on_machine tools (create_vm tools true)
      >> event tools api w.name "vm_recreated" "succeeded"
          "workspace vm recreated around existing workspace directory"
          (obj (
            field "vm" (text w.vm_name) (
              field "workspace_dir" (text w.workspace_dir_name)
                (field "mom.version" (text api.env.version) end))))
      >> update_workspace_version tools api w.name api.env.version
      >> on_machine tools (on_handle (start_vm tools ssh))
      >> update_workspace tools api w.name (some "running") none false false
      >> event tools api w.name "vm_started" "succeeded" "workspace vm started" (vm_metadata w)

  -- The three outcomes of get_vm.
  abbrev seen_as : Result Bool → SiteAct W → SiteAct W → SiteAct W → SiteAct W
  seen_as (ok true) up down gone = up
  seen_as (ok false) up down gone = down
  seen_as (err e) up down gone = gone

  abbrev look_result : Result (Unit {0}) → VmStatus → Result Bool
  look_result (ok u) s = ok (is_running s)
  look_result (err e) s = err e

  unfoldable look : Machine W → Result Bool × Machine W
  unfolding run vm_status
  look m =
      if m.exists_dir
      then (let n = run tools load_spec m in (look_result n.0 (vm_status tools n.1), n.1))
      else (err vm_absent, m)

  unfoldable pub ensure_workspace_running_local : Workspace → SiteAct W
  unfolding look connect_handle start_handle recreate
  ensure_workspace_running_local w s =
      let found = look s.machine in
      seen_as found.0 (connect_handle w) (start_handle w) (recreate w)
        (record s { machine = found.1 })

  abbrev after_upgrade : Workspace → SiteAct W
  after_upgrade w =
      if w.desired_state == "running"
      then ensure_workspace_running_local (record w { vm_version = api.env.version })
      else update_workspace tools api w.name (some "stopped") (some "stopped") false false

  unfoldable pub upgrade_workspace_local : Workspace → SiteAct W
  unfolding update_workspace event where_status stop_vm create_vm update_workspace_version
      ensure_workspace_running_local
  upgrade_workspace_local w =
      update_workspace tools api w.name (some "upgrading") none false false
      >> event tools api w.name "vm_upgrade_started" "running" "workspace vm upgrade requested" (
          obj (
            field "vm" (text w.vm_name) (
              field "workspace_dir" (text w.workspace_dir_name) (
                field "from_version" (text w.vm_version)
                  (field "to_version" (text api.env.version) end)))))
      >> on_machine tools (where_status (λ s. true) (stop_vm tools))
      >> on_machine tools (create_vm tools true)
      >> update_workspace_version tools api w.name api.env.version
      >> event tools api w.name "vm_upgraded" "succeeded"
          "workspace vm recreated with current Agent Mom version"
          (obj (
            field "vm" (text w.vm_name) (
              field "workspace_dir" (text w.workspace_dir_name) (
                field "from_version" (text w.vm_version)
                  (field "mom.version" (text api.env.version) end)))))
      >> after_upgrade w
