-- ===== src/Machines/Vm.antt =====
-- The operations on a virtual machine: the functions from `start_vm` to `remove_vm` of
-- src/runtime.rs. The tools that they run (systemctl, the control socket of the hypervisor, SSH and
-- the file system) are a parameter; what the program itself keeps is the state file and the
-- snapshot directory of the machine.
use agentmom.Prelude.{
  String, Bool, true, false, ◌||◌, Option, none, some, ◌==◌, if◌then◌else◌, List, ◌∷◌,
}
use agentmom.Text.{trim}
use agentmom.Catalog.Exec.{
  Result, Error, ok, err, vm_absent, vm_not_running, vm_not_paused, vm_not_suspended,
  snapshot_missing, vm_exists, command_failed,
}

pub data VmStatus : Type 0 where
  running draining stopped paused suspended crashed missing unknown : VmStatus

pub data VmReadiness : Type 0 where
  tcp_22 ssh : VmReadiness

-- One constructor for each tool that is run, and each change of a file.
pub data Command : Type 0 where
  ch_pause ch_resume ch_snapshot : Command
  refresh_definition load_spec : Command
  systemctl_start systemctl_stop wait_active wait_inactive wait_api prime_network : Command
  wait_ready : VmReadiness → Command
  wait_tcp_port : Command
  write_state : String → Command
  remove_snapshot create_snapshot_dir remove_machine_dir : Command
  lock_state make_machine_dir generate_keys make_spec write_definition : Command
  make_workspace_dir remove_workspace_dir : Command
  send_request receive_response : Command

-- A removal of the machine directory that fails is taken to leave all of it.
-- The world outside: a command succeeds or fails there, and `systemctl is-active` prints a word,
-- where it can be run.
pub record Tools (W : Type 0) : Type 0 where
  pub perform : Command → W → Bool × W
  pub is_active : W → Option String

-- What the tools that concern the process of a machine did last, as far as they succeeded: it was
-- paused or resumed through its socket, its unit was started and then seen active, or it was stopped
-- and then seen inactive. The program does not keep this; it is what the theorems speak of.
pub data Phase : Type 0 where
  untouched starting live held stopping off : Phase

-- `snapshot` is whether the snapshot directory is there, and `complete` whether a snapshot was
-- written to it in full; `taken` lists the phases in which snapshots were written, the last one first.
pub record Machine (W : Type 0) : Type 0 where
  pub world : W
  pub exists_dir : Bool
  pub state : String
  pub snapshot : Bool
  pub complete : Bool
  pub phase : Phase
  pub taken : List Phase

abbrev pub after_active : Phase → Phase
after_active starting = live
after_active p = p

abbrev pub after_inactive : Phase → Phase
after_inactive stopping = off
after_inactive p = p

abbrev pub is_running : VmStatus → Bool
is_running running = true
is_running draining = true
is_running _ = false

abbrev pub is_started : VmStatus → Bool
is_started paused = true
is_started s = is_running s

abbrev active_status : String → VmStatus
active_status state =
    if state == "paused"
    then paused
    else if state == "suspended"
    then draining
    else if state == "running"
    then running
    else if state == "stopped"
    then stopped
    else unknown

unfoldable pub vm_status_from_systemd : String → String → VmStatus
vm_status_from_systemd active state =
    if active == "active" || active == "activating"
    then active_status state
    else if active == "deactivating"
    then draining
    else if active == "failed"
    then crashed
    else if active == "inactive"
    then (if state == "suspended" then suspended else stopped)
    else unknown

-- The state file alone, where systemctl cannot be asked.
unfoldable pub vm_status_from_file : String → VmStatus
vm_status_from_file state =
    if state == "running"
    then running
    else if state == "stopped"
    then stopped
    else if state == "paused"
    then paused
    else if state == "suspended"
    then suspended
    else if state == "crashed"
    then crashed
    else unknown

module _ {W : Type 0} (tools : Tools W) where
  abbrev pub Act : Type 0
  Act = Machine W → Result (Unit {0}) × Machine W

  abbrev pub then_act : Result (Unit {0}) → Act → Act
  then_act (ok u) k m = k m
  then_act (err e) k m = (err e, m)

  abbrev pub followed : Act → Act → Act
  followed a k m = then_act (a m).0 k (a m).1

  abbrev pub answer : Bool × W → (Machine W → Machine W) → Act
  answer (true, w) f m = (ok tt, f (record m { world = w }))
  answer (false, w) f m = (err command_failed, record m { world = w })

  -- A command, and what it changes of the machine where it succeeds.
  unfoldable pub command : Command → (Machine W → Machine W) → Act
  command c f m = answer (tools.perform c m.world) f m

  abbrev pub keep_all : Machine W → Machine W
  keep_all m = m

  unfoldable pub run : Command → Act
  unfolding command
  run c = command c keep_all

  -- The tools that concern the process.
  unfoldable pub pause_process : Act
  unfolding command
  pause_process = command ch_pause (λ n. record n { phase = held })

  unfoldable pub resume_process : Act
  unfolding command
  resume_process = command ch_resume (λ n. record n { phase = live })

  unfoldable pub start_process : Act
  unfolding command
  start_process = command systemctl_start (λ n. record n { phase = starting })

  unfoldable pub see_active : Act
  unfolding command
  see_active = command wait_active (λ n. record n { phase = after_active n.phase })

  unfoldable pub stop_process : Act
  unfolding command
  stop_process = command systemctl_stop (λ n. record n { phase = stopping })

  unfoldable pub see_inactive : Act
  unfolding command
  see_inactive = command wait_inactive (λ n. record n { phase = after_inactive n.phase })

  -- A command whose result is ignored.
  unfoldable pub attempt : Command → Act
  unfolding command
  attempt c m = (ok tt, (command c keep_all m).1)

  unfoldable pub write : String → Act
  unfolding command
  write s = command (write_state s) (λ m. record m { state = s })

  abbrev pub asked : Option String → String → VmStatus
  asked none state = vm_status_from_file state
  asked (some active) state = vm_status_from_systemd (trim active) state

  unfoldable pub vm_status : Machine W → VmStatus
  unfolding vm_status_from_file vm_status_from_systemd trim
  vm_status m = if m.exists_dir then asked (tools.is_active m.world) (trim m.state) else missing

  abbrev pub refuse : Error → Act
  refuse e m = (err e, m)

  abbrev pub unchanged : Act
  unchanged m = (ok tt, m)

  -- ensure_machine_exists and the match on the status
  unfoldable pub by_status : (VmStatus → Act) → Act
  unfolding vm_status
  by_status f m = if m.exists_dir then f (vm_status m) m else (err vm_absent, m)

  abbrev pub wait_for_readiness : VmReadiness → Act
  wait_for_readiness r = followed (run load_spec) (run (wait_ready r))

  -- A machine that runs is only waited for.
  unfoldable pub connect : VmReadiness → Act
  unfolding run
  connect r = wait_for_readiness r

  unfoldable pub resume_paused : VmReadiness → Act
  unfolding resume_process run write
  resume_paused r = followed (followed resume_process (write "running")) (wait_for_readiness r)

  unfoldable pub wake : VmReadiness → Act
  unfolding start_process see_active run write attempt
  wake r m =
      if m.snapshot
      then followed
          (followed
            (followed
              (followed (followed (followed (run refresh_definition) start_process) see_active)
                (run wait_api))
              (followed (run load_spec) (attempt prime_network)))
            (run (wait_ready r)))
          (write "running") m
      else refuse snapshot_missing m

  abbrev pub restore_by : VmReadiness → VmStatus → Act
  restore_by r running = connect r
  restore_by r draining = connect r
  restore_by r paused = resume_paused r
  restore_by r suspended = wake r
  restore_by r missing = refuse vm_absent
  restore_by r _ = refuse vm_not_suspended

  unfoldable pub restore_suspended_vm : VmReadiness → Act
  unfolding by_status connect resume_paused wake
  restore_suspended_vm r = by_status (restore_by r)

  unfoldable pub boot : VmReadiness → Act
  unfolding start_process see_active run write
  boot r =
      followed
        (followed (followed (followed (run refresh_definition) start_process) (run load_spec))
          (followed see_active (run (wait_ready r))))
        (write "running")

  abbrev pub start_by : VmReadiness → VmStatus → Act
  start_by r running = connect r
  start_by r draining = connect r
  start_by r paused = resume_paused r
  start_by r suspended = restore_suspended_vm r
  start_by r _ = boot r

  unfoldable pub start_vm : VmReadiness → Act
  unfolding by_status connect resume_paused restore_suspended_vm boot
  start_vm r = by_status (start_by r)

  abbrev pub hold : Act
  hold = followed pause_process (write "paused")

  abbrev pub pause_by : VmStatus → Act
  pause_by paused = unchanged
  pause_by running = hold
  pause_by draining = hold
  pause_by _ = refuse vm_not_running

  unfoldable pub pause_vm : Act
  unfolding pause_process by_status run write
  pause_vm = by_status pause_by

  unfoldable pub stop_vm_process : Act
  unfolding stop_process see_inactive
  stop_vm_process = followed stop_process see_inactive

  -- The snapshot directory is removed where it is there; a removal that fails can leave a part.
  unfoldable pub drop_snapshot : Act
  unfolding command
  drop_snapshot m =
      if m.snapshot
      then command remove_snapshot (λ n. record n { snapshot = false })
          (record m { complete = false })
      else unchanged m

  unfoldable pub take_snapshot : Act
  unfolding drop_snapshot command write stop_vm_process
  take_snapshot =
      followed
        (followed
          (followed
            (followed drop_snapshot
              (command create_snapshot_dir (λ n. record n { snapshot = true })))
            (command ch_snapshot (λ n. record n { complete = true; taken = n.phase ∷ n.taken })))
          (write "suspended"))
        stop_vm_process

  abbrev pub suspend_by : VmStatus → Act
  suspend_by suspended = unchanged
  suspend_by paused = take_snapshot
  suspend_by running = followed pause_process take_snapshot
  suspend_by draining = followed pause_process take_snapshot
  suspend_by _ = refuse vm_not_running

  unfoldable pub suspend_vm : Act
  unfolding pause_process by_status run take_snapshot
  suspend_vm = by_status suspend_by

  abbrev pub resume_by : VmStatus → Act
  resume_by running = connect ssh
  resume_by draining = connect ssh
  resume_by suspended = restore_suspended_vm ssh
  resume_by paused =
      followed (followed resume_process (write "running"))
        (followed (followed (run load_spec) (run wait_tcp_port)) (run (wait_ready ssh)))
  resume_by missing = refuse vm_absent
  resume_by _ = refuse vm_not_paused

  unfoldable pub resume_vm : Act
  unfolding resume_process by_status connect restore_suspended_vm run write
  resume_vm = by_status resume_by

  unfoldable pub stop_vm : Act
  unfolding stop_vm_process drop_snapshot write
  stop_vm m =
      if m.exists_dir
      then followed (followed stop_vm_process drop_snapshot) (write "stopped") m
      else refuse vm_absent m

  abbrev pub stop_first : Act
  stop_first m = if m.exists_dir then stop_vm m else unchanged m

  unfoldable pub remove_vm : Act
  unfolding stop_vm command
  remove_vm = followed stop_first (λ m.
      if m.exists_dir
      then command remove_machine_dir
          (λ n. record n { exists_dir = false; snapshot = false; complete = false }) m
      else unchanged m)

  -- The machine that create_vm makes, or one that is left half made.
  unfoldable pub make_vm : Act
  unfolding run command write
  make_vm =
      followed
        (followed
          (followed
            (followed
              (followed (command make_machine_dir (λ n. record n { exists_dir = true; state = "" }))
                (run generate_keys))
              (run make_spec))
            (run make_workspace_dir))
          (run write_definition))
        (write "stopped")

  unfoldable pub create_vm : Bool → Act
  unfolding run remove_vm make_vm
  create_vm replace =
      followed
        (followed (run lock_state) (λ m.
          if m.exists_dir
          then (if replace then remove_vm m else refuse vm_exists m)
          else unchanged m))
        make_vm
