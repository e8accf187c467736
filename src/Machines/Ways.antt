-- ===== src/Machines/Ways.antt =====
-- Starting, resuming, stopping and removing a machine, and the theorem on all operations.
use agentmom.Prelude.{◌≡◌, refl, ap, ◌∙◌, ◌⊎◌, inl, inr, Bool, true, false, if◌then◌else◌}
use agentmom.Catalog.Exec.{vm_absent, Result, ok, err}
use agentmom.Machines.Vm.{
  VmStatus, running, draining, stopped, paused, suspended, crashed, missing, unknown, VmReadiness,
  ssh, load_spec, wait_tcp_port, wait_ready, remove_machine_dir, off, resume_process, Tools,
  Machine, is_running, Act, followed, command, run, write, vm_status, unchanged, connect,
  resume_paused, restore_suspended_vm, boot, start_by, start_vm, resume_by, resume_vm,
  stop_vm_process, drop_snapshot, stop_vm, stop_first, remove_vm,
}
use agentmom.Machines.Lifecycle.{
  Operation, starts, pauses, suspends, resumes, stops, removes, operate, Reached, Up, Steady, Ends,
  Fails, followed-Fails, command-Fails, run_keeps, then_write, resumed-Up, resume_paused_runs,
  boot_runs,
}
use agentmom.Machines.Outcomes.{
  status_cases, lifted, mapped, Woken, connect-Woken, restore-Woken, pause_reached,
}
use agentmom.Machines.Suspension.{suspend_reached, stopped_process, drop_keeps, Before}

module _ {W : Type 0} (tools : Tools W) where
  started : (r : VmReadiness) (m n : Machine W) → Woken tools m n → Reached tools (starts r) m n
  started r m n (inl k) = inl k
  started r m n (inr k) = inr k.1

  start_reached :
      (r : VmReadiness) (m : Machine W)
      → Ends tools m (Reached tools (starts r) m) (start_vm tools r m)
  unfolding start_vm
  start_reached r m = status_cases tools (Reached tools (starts r) m) (start_by tools r) m cases
    where
      booted : Ends tools m (Reached tools (starts r) m) (boot tools r m)
      booted =
          mapped tools m (Up tools) (Reached tools (starts r) m) (boot tools r) (λ n k. inr k)
            (lifted tools m (Up tools) (boot tools r) (boot_runs tools r m))

      woken :
          (a : Act tools)
          → Ends tools m (Woken tools m) (a m)
          → Ends tools m (Reached tools (starts r) m) (a m)
      woken a h = mapped tools m (Woken tools m) (Reached tools (starts r) m) a (started r m) h

      cases :
          (s : VmStatus)
          → vm_status tools m ≡ s
          → Ends tools m (Reached tools (starts r) m) (start_by tools r s m)
      cases running e = woken (connect tools r) (connect-Woken tools r m (ap is_running e))
      cases draining e = woken (connect tools r) (connect-Woken tools r m (ap is_running e))
      cases paused e =
          mapped tools m (Up tools) (Reached tools (starts r) m) (resume_paused tools r)
            (λ n k. inr k)
            (lifted tools m (Up tools) (resume_paused tools r) (resume_paused_runs tools r m))
      cases suspended e = woken (restore_suspended_vm tools r) (restore-Woken tools r m)
      cases stopped e = booted
      cases crashed e = booted
      cases missing e = booted
      cases unknown e = booted

  resumed_runs :
      (m : Machine W)
      → Fails tools (Up tools) (
          followed tools
            (followed tools (resume_process tools) (write tools "running"))
            (followed tools
              (followed tools (run tools load_spec) (run tools wait_tcp_port))
              (run tools (wait_ready ssh)))
            m)
  resumed_runs m =
      followed-Fails tools (Up tools) (Up tools)
        (followed tools (resume_process tools) (write tools "running"))
        (followed tools waits (run tools (wait_ready ssh))) m (resumed-Up tools m)
        (λ n k.
          followed-Fails tools (Up tools) (Up tools) waits (run tools (wait_ready ssh)) n
            (followed-Fails tools (Up tools) (Up tools) (run tools load_spec)
              (run tools wait_tcp_port) n (run_keeps tools (Up tools) load_spec n stays k)
              (λ g j. run_keeps tools (Up tools) wait_tcp_port g stays j))
            (λ g j. run_keeps tools (Up tools) (wait_ready ssh) g stays j))
    where
      stays : Steady tools (Up tools)
      stays n w k = k

      waits : Act tools
      waits = followed tools (run tools load_spec) (run tools wait_tcp_port)

  resume_reached : (m : Machine W) → Ends tools m (Reached tools resumes m) (resume_vm tools m)
  unfolding resume_vm
  resume_reached m = status_cases tools (Reached tools resumes m) (resume_by tools) m cases
    where
      cases :
          (s : VmStatus)
          → vm_status tools m ≡ s
          → Ends tools m (Reached tools resumes m) (resume_by tools s m)
      cases running e = connect-Woken tools ssh m (ap is_running e)
      cases draining e = connect-Woken tools ssh m (ap is_running e)
      cases paused e =
          mapped tools m (Up tools) (Reached tools resumes m)
            (followed tools (followed tools (resume_process tools) (write tools "running")) (
              followed tools (followed tools (run tools load_spec) (run tools wait_tcp_port))
                (run tools (wait_ready ssh))))
            (λ n k. inr (inl e, k))
            (lifted tools m (Up tools)
              (followed tools (followed tools (resume_process tools) (write tools "running")) (
                followed tools (followed tools (run tools load_spec) (run tools wait_tcp_port))
                  (run tools (wait_ready ssh))))
              (resumed_runs m))
      cases suspended e = restore-Woken tools ssh m
      cases stopped e = inr refl
      cases crashed e = inr refl
      cases missing e = inr refl
      cases unknown e = inr refl

  -- Stopped, without a snapshot.
  abbrev Stopped : Machine W → Type 0
  Stopped n = (n.state ≡ "stopped") × (n.snapshot ≡ false) × (n.phase ≡ off)

  stopping_all : Act tools
  stopping_all =
      followed tools (followed tools (stop_vm_process tools) (drop_snapshot tools))
        (write tools "stopped")

  stopping_all-Stopped : (m : Machine W) → Fails tools Stopped (stopping_all m)
  unfolding stopping_all
  stopping_all-Stopped m =
      then_write tools (λ n. (n.snapshot ≡ false) × (n.phase ≡ off)) Stopped
        (followed tools (stop_vm_process tools) (drop_snapshot tools)) "stopped" m
        (λ n w k. (refl, k.0, k.1))
        (followed-Fails tools (λ n. Unit × (n.phase ≡ off))
          (λ n. (n.snapshot ≡ false) × (n.phase ≡ off)) (stop_vm_process tools)
          (drop_snapshot tools) m (stopped_process tools (λ n. Unit) m (λ n w p u. u) tt)
          (λ n k.
            dropped n (drop_snapshot tools n).0 (drop_snapshot tools n).1
              (drop_keeps tools n.phase n.taken n (refl, refl)) k.1))
    where
      dropped :
          (n : Machine W) (r : Result (Unit {0})) (g : Machine W)
          → Fails tools (λ d. (d.snapshot ≡ false) × Before tools n.phase n.taken d) (r, g)
          → n.phase ≡ off
          → Fails tools (λ d. (d.snapshot ≡ false) × (d.phase ≡ off)) (r, g)
      dropped n (ok u) g h e = (h.0, h.1.0 ∙ e)
      dropped n (err x) g h e = h

  stop_reached : (m : Machine W) → Ends tools m (Reached tools stops m) (stop_vm tools m)
  unfolding stop_vm stopping_all
  stop_reached m = cases m.exists_dir
    where
      cases :
          (b : Bool)
          → Ends tools m (Reached tools stops m) (if b then stopping_all m else (err vm_absent, m))
      cases true = lifted tools m (Reached tools stops m) stopping_all (stopping_all-Stopped m)
      cases false = inr refl

  -- A machine that is there is stopped before it is removed.
  abbrev Halted : Machine W → Machine W → Type 0
  Halted m n = (m.exists_dir ≡ false) ⊎ (n.phase ≡ off)

  stop_first-Halted : (m : Machine W) → Fails tools (Halted m) (stop_first tools m)
  unfolding stop_vm stopping_all
  stop_first-Halted m = cases m.exists_dir refl
    where
      weak :
          (r : Result (Unit {0})) (n : Machine W)
          → Fails tools Stopped (r, n)
          → Fails tools (Halted m) (r, n)
      weak (ok u) n h = inr h.2
      weak (err e) n h = h

      cases :
          (b : Bool)
          → m.exists_dir ≡ b
          → Fails tools
              (Halted m)
              (if b then (if b then stopping_all m else (err vm_absent, m)) else (ok tt, m))
      cases true e = weak (stopping_all m).0 (stopping_all m).1 (stopping_all-Stopped m)
      cases false e = inl e

  remove_reached : (m : Machine W) → Ends tools m (Reached tools removes m) (remove_vm tools m)
  unfolding remove_vm
  remove_reached m = lifted tools m (Reached tools removes m) (remove_vm tools) (
      followed-Fails tools (Halted m) (Reached tools removes m) (stop_first tools)
        (λ n. if n.exists_dir then gone n else unchanged tools n) m (stop_first-Halted m)
        (λ n h. cases n n.exists_dir refl h))
    where
      gone : Act tools
      gone n =
          command tools remove_machine_dir
            (λ g. record g { exists_dir = false; snapshot = false; complete = false }) n

      cases :
          (n : Machine W) (b : Bool)
          → n.exists_dir ≡ b
          → Halted m n
          → Fails tools (Reached tools removes m) (if b then gone n else (ok tt, n))
      cases n true e h =
          command-Fails tools (Reached tools removes m) remove_machine_dir
            (λ g. record g { exists_dir = false; snapshot = false; complete = false }) n
            (λ w. (refl, h))
      cases n false e h = (e, h)

  -- Whatever the tools do, an operation that fails does so because a tool failed, or it refused and
  -- left the machine as it was. One that succeeds reaches its state, by what the tools did, as far
  -- as they reported success. A start or a resumption finds the machine running and changes nothing
  -- of it, or leaves it running: with the state file, and with the process resumed, or its unit
  -- started and then seen active. A pause finds a running machine and leaves it with the state file
  -- and the process paused. A suspension finds a running or paused machine, and in this call one
  -- snapshot is written in full, of a running machine after it was paused; the state file says so,
  -- and the process is stopped and then seen inactive. A stop does the last too and leaves no
  -- snapshot, and a removal leaves no machine and stops one that was there. What is suspended already
  -- is not suspended again, and what is paused not paused again.
  pub operate-Reached :
      (o : Operation) (m : Machine W) → Ends tools m (Reached tools o m) (operate tools o m)
  operate-Reached (starts r) m = start_reached r m
  operate-Reached pauses m = pause_reached tools m
  operate-Reached suspends m = suspend_reached tools m
  operate-Reached resumes m = resume_reached m
  operate-Reached stops m = stop_reached m
  operate-Reached removes m = remove_reached m
