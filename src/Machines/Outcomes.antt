-- ===== src/Machines/Outcomes.antt =====
-- Every operation on a machine reaches what it is for, or says why not.
use agentmom.Prelude.{◌≡◌, refl, ap, ◌⊎◌, inl, inr, Bool, true, false, if◌then◌else◌, Bool-cases}
use agentmom.Catalog.Exec.{vm_absent, Result, ok, err}
use agentmom.Machines.Vm.{
  VmStatus, running, draining, stopped, paused, suspended, crashed, missing, unknown, VmReadiness,
  Command, ch_pause, refresh_definition, load_spec, wait_api, prime_network, wait_ready, Tools,
  Machine, is_running, Act, followed, command, run, attempt, write, vm_status, by_status, connect,
  resume_paused, wake, restore_by, restore_suspended_vm, hold, pause_by, pause_vm, keep_all, answer,
  Phase, starting, live, start_process, see_active, pause_process,
}
use agentmom.Machines.Lifecycle.{
  pauses, Reached, Kept, Up, Steady, InPhase, Ends, Fails, followed-Fails, command-Fails, weaken,
  connect_keeps, resume_paused_runs, then_write, run_keeps, unit_started, seen_active,
}

module _ {W : Type 0} (tools : Tools W) where
  attempt_keeps :
      (P : Machine W → Type 0) (c : Command) (m : Machine W)
      → Steady tools P
      → P m
      → Fails tools P (attempt tools c m)
  unfolding attempt command
  attempt_keeps P c m stays h = cases (tools.perform c m.world)
    where
      cases : (a : Bool × W) → P (answer tools a (keep_all tools) m).1
      cases (true, w) = stays m w h
      cases (false, w) = stays m w h

  waking : VmReadiness → Act tools
  waking r =
      followed tools
        (followed tools
          (followed tools
            (followed tools (followed tools (run tools refresh_definition) (start_process tools))
              (see_active tools))
            (run tools wait_api))
          (followed tools (run tools load_spec) (attempt tools prime_network)))
        (run tools (wait_ready r))

  waking_live : (r : VmReadiness) (m : Machine W) → Fails tools (InPhase tools live) (waking r m)
  unfolding waking
  waking_live r m =
      followed-Fails tools Live Live primed (run tools (wait_ready r)) m
        (followed-Fails tools Live Live answered
          (followed tools (run tools load_spec) (attempt tools prime_network)) m
          (followed-Fails tools Live Live up (run tools wait_api) m
            (followed-Fails tools (InPhase tools starting) Live begun (see_active tools) m
              (unit_started tools m) (λ n k. seen_active tools n k))
            (λ n k. run_keeps tools Live wait_api n (λ g w q. q) k))
          (λ n k.
            followed-Fails tools Live Live (run tools load_spec) (attempt tools prime_network) n
              (run_keeps tools Live load_spec n (λ g w q. q) k)
              (λ g q. attempt_keeps Live prime_network g (λ d w z. z) q)))
        (λ n k. run_keeps tools Live (wait_ready r) n (λ g w q. q) k)
    where
      Live : Machine W → Type 0
      Live = InPhase tools live

      begun : Act tools
      begun = followed tools (run tools refresh_definition) (start_process tools)

      up : Act tools
      up = followed tools begun (see_active tools)

      answered : Act tools
      answered = followed tools up (run tools wait_api)

      primed : Act tools
      primed =
          followed tools answered
            (followed tools (run tools load_spec) (attempt tools prime_network))

  wake_runs : (r : VmReadiness) (m : Machine W) → Ends tools m (Up tools) (wake tools r m)
  unfolding wake waking
  wake_runs r m = elim (Bool-cases m.snapshot) [
    | inr n ↦ simp n (inr refl)
    | inl n ↦
        let runs =
          then_write tools (InPhase tools live) (Up tools) (waking r) "running" m
            (λ g w k. (refl, k)) (waking_live r m) in
        simp n (
          weaken tools m (Up tools) (followed tools (waking r) (write tools "running") m).0
            (followed tools (waking r) (write tools "running") m).1 runs)
  ]

  -- The match on the status, case by case.
  pub status_cases :
      (Q : Machine W → Type 0) (f : VmStatus → Act tools) (m : Machine W)
      → ((s : VmStatus) → vm_status tools m ≡ s → Ends tools m Q (f s m))
      → Ends tools m Q (by_status tools f m)
  unfolding by_status
  status_cases Q f m h = cases m.exists_dir
    where
      cases :
          (b : Bool) → Ends tools m Q (if b then f (vm_status tools m) m else (err vm_absent, m))
      cases true = h (vm_status tools m) refl
      cases false = inr refl

  pub lifted :
      (m : Machine W) (Q : Machine W → Type 0) (a : Act tools)
      → Fails tools Q (a m)
      → Ends tools m Q (a m)
  lifted m Q a h = weaken tools m Q (a m).0 (a m).1 h

  pub mapped :
      (m : Machine W) (P Q : Machine W → Type 0) (a : Act tools)
      → ((n : Machine W) → P n → Q n)
      → Ends tools m P (a m)
      → Ends tools m Q (a m)
  mapped m P Q a f h = cases (a m).0 (a m).1 h
    where
      cases :
          (r : Result (Unit {0})) (n : Machine W) → Ends tools m P (r, n) → Ends tools m Q (r, n)
      cases (ok u) n h = f n h
      cases (err e) n h = h

  -- From each status, a restore that succeeds leaves the machine running, or as it ran.
  abbrev pub Woken : Machine W → Machine W → Type 0
  Woken m n =
      ((is_running (vm_status tools m) ≡ true) × Kept tools m n)
      ⊎ (((vm_status tools m ≡ paused) ⊎ (vm_status tools m ≡ suspended)) × Up tools n)

  pub connect-Woken :
      (r : VmReadiness) (m : Machine W)
      → is_running (vm_status tools m) ≡ true
      → Ends tools m (Woken m) (connect tools r m)
  connect-Woken r m e =
      mapped m (Kept tools m) (Woken m) (connect tools r) (λ n k. inl (e, k))
        (lifted m (Kept tools m) (connect tools r) (connect_keeps tools r m))

  pub restore-Woken :
      (r : VmReadiness) (m : Machine W) → Ends tools m (Woken m) (restore_suspended_vm tools r m)
  unfolding restore_suspended_vm
  restore-Woken r m = status_cases (Woken m) (restore_by tools r) m cases
    where
      cases :
          (s : VmStatus) → vm_status tools m ≡ s → Ends tools m (Woken m) (restore_by tools r s m)
      cases running e = connect-Woken r m (ap is_running e)
      cases draining e = connect-Woken r m (ap is_running e)
      cases paused e =
          mapped m (Up tools) (Woken m) (resume_paused tools r) (λ n k. inr (inl e, k))
            (lifted m (Up tools) (resume_paused tools r) (resume_paused_runs tools r m))
      cases suspended e =
          mapped m (Up tools) (Woken m) (wake tools r) (λ n k. inr (inr e, k)) (wake_runs r m)
      cases stopped e = inr refl
      cases crashed e = inr refl
      cases missing e = inr refl
      cases unknown e = inr refl

  process_held : (m : Machine W) → Fails tools (InPhase tools Phase.held) (pause_process tools m)
  unfolding pause_process
  process_held m =
      command-Fails tools (InPhase tools Phase.held) ch_pause (λ n. record n { phase = Phase.held })
        m (λ w. refl)

  abbrev Held : Machine W → Type 0
  Held n = (n.state ≡ "paused") × (n.phase ≡ Phase.held)

  pub pause_reached : (m : Machine W) → Ends tools m (Reached tools pauses m) (pause_vm tools m)
  unfolding pause_vm
  pause_reached m = status_cases (Reached tools pauses m) (pause_by tools) m cases
    where
      held :
          is_running (vm_status tools m) ≡ true
          → Ends tools m (Reached tools pauses m) (hold tools m)
      held e =
          mapped m Held (Reached tools pauses m) (hold tools) (λ n k. inr (e, k.0, k.1))
            (lifted m Held (hold tools) (
              then_write tools (InPhase tools Phase.held) Held (pause_process tools) "paused" m
                (λ n w k. (refl, k)) (process_held m)))

      cases :
          (s : VmStatus)
          → vm_status tools m ≡ s
          → Ends tools m (Reached tools pauses m) (pause_by tools s m)
      cases running e = held (ap is_running e)
      cases draining e = held (ap is_running e)
      cases paused e = inl (e, refl)
      cases suspended e = inr refl
      cases stopped e = inr refl
      cases crashed e = inr refl
      cases missing e = inr refl
      cases unknown e = inr refl
