-- ===== src/Machines/Lifecycle.antt =====
-- What the operations on a machine reach, and where they refuse.
use agentmom.Prelude.{◌∷◌, ap, String, ◌≡◌, refl, ◌⊎◌, inl, Bool, true, false}
use agentmom.Catalog.Exec.{Result, ok, err, command_failed}
use agentmom.Machines.Vm.{
  Phase, starting, live, held, off, after_active, start_process, see_active, resume_process, paused,
  suspended, VmReadiness, Command, ch_resume, refresh_definition, load_spec, systemctl_start,
  wait_active, wait_ready, write_state, Tools, Machine, is_running, Act, then_act, followed, answer,
  command, run, write, vm_status, wait_for_readiness, connect, resume_paused, boot, start_vm,
  pause_vm, suspend_vm, resume_vm, stop_vm, remove_vm, keep_all,
}

pub data Operation : Type 0 where
  starts : VmReadiness → Operation
  pauses suspends resumes stops removes : Operation

module _ {W : Type 0} (tools : Tools W) where
  abbrev pub operate : Operation → Act tools
  operate (starts r) = start_vm tools r
  operate pauses = pause_vm tools
  operate suspends = suspend_vm tools
  operate resumes = resume_vm tools
  operate stops = stop_vm tools
  operate removes = remove_vm tools

  -- Only the world outside is another.
  abbrev pub Kept : Machine W → Machine W → Type 0
  Kept m n = n ≡ record m { world = n.world }

  -- The state file says that the machine runs, and its process was resumed, or started and then
  -- seen active.
  abbrev pub Up : Machine W → Type 0
  Up n = (n.state ≡ "running") × (n.phase ≡ live)

  -- A snapshot was written in full, while the machine was paused, and the process was stopped and
  -- then seen inactive.
  abbrev pub Taken : Machine W → Phase → Machine W → Type 0
  Taken m p n =
      (n.state ≡ "suspended")
      × (n.snapshot ≡ true)
      × (n.complete ≡ true)
      × (n.phase ≡ off)
      × (n.taken ≡ p ∷ m.taken)

  -- What an operation that succeeds has reached, from the status that it found.
  abbrev pub Reached : Operation → Machine W → Machine W → Type 0
  Reached (starts r) m n = ((is_running (vm_status tools m) ≡ true) × Kept m n) ⊎ Up n
  Reached pauses m n =
      ((vm_status tools m ≡ paused) × (n ≡ m))
      ⊎ ((is_running (vm_status tools m) ≡ true) × (n.state ≡ "paused") × (n.phase ≡ held))
  Reached suspends m n =
      ((vm_status tools m ≡ suspended) × (n ≡ m))
      ⊎ ((is_running (vm_status tools m) ≡ true) × Taken m held n)
      ⊎ ((vm_status tools m ≡ paused) × Taken m m.phase n)
  Reached resumes m n =
      ((is_running (vm_status tools m) ≡ true) × Kept m n)
      ⊎ (((vm_status tools m ≡ paused) ⊎ (vm_status tools m ≡ suspended)) × Up n)
  Reached stops m n = (n.state ≡ "stopped") × (n.snapshot ≡ false) × (n.phase ≡ off)
  Reached removes m n = (n.exists_dir ≡ false) × ((m.exists_dir ≡ false) ⊎ (n.phase ≡ off))

  abbrev pub Ends : Machine W → (Machine W → Type 0) → Result (Unit {0}) × Machine W → Type 0
  Ends m Q (ok u, n) = Q n
  Ends m Q (err e, n) = (e ≡ command_failed) ⊎ (n ≡ m)

  -- After a first step only a tool can fail.
  abbrev pub Fails : (Machine W → Type 0) → Result (Unit {0}) × Machine W → Type 0
  Fails Q (ok u, n) = Q n
  Fails Q (err e, n) = e ≡ command_failed

  pub followed-Fails :
      (P Q : Machine W → Type 0) (a k : Act tools) (m : Machine W)
      → Fails P (a m)
      → ((n : Machine W) → P n → Fails Q (k n))
      → Fails Q (followed tools a k m)
  followed-Fails P Q a k m h next = cases (a m).0 (a m).1 h
    where
      cases :
          (r : Result (Unit {0})) (n : Machine W) → Fails P (r, n) → Fails Q (then_act tools r k n)
      cases (ok u) n h = next n h
      cases (err e) n h = h

  pub command-Fails :
      (Q : Machine W → Type 0) (c : Command) (f : Machine W → Machine W) (m : Machine W)
      → ((w : W) → Q (f (record m { world = w })))
      → Fails Q (command tools c f m)
  unfolding command
  command-Fails Q c f m h = cases (tools.perform c m.world)
    where
      cases : (a : Bool × W) → Fails Q (answer tools a f m)
      cases (true, w) = h w
      cases (false, w) = refl

  pub weaken :
      (m : Machine W) (Q : Machine W → Type 0) (r : Result (Unit {0})) (n : Machine W)
      → Fails Q (r, n)
      → Ends m Q (r, n)
  weaken m Q (ok u) n h = h
  weaken m Q (err e) n h = inl h

  abbrev pub Any : Machine W → Type 0
  Any n = Unit

  -- What a change of the world alone does not touch.
  abbrev pub Steady : (Machine W → Type 0) → Type 0
  Steady P = (n : Machine W) (w : W) → P n → P (record n { world = w })

  pub run_keeps :
      (P : Machine W → Type 0) (c : Command) (m : Machine W)
      → Steady P
      → P m
      → Fails P (run tools c m)
  unfolding run
  run_keeps P c m stays h = command-Fails P c (keep_all tools) m (λ w. stays m w h)

  pub then_write :
      (P Q : Machine W → Type 0) (a : Act tools) (s : String) (m : Machine W)
      → ((n : Machine W) (w : W) → P n → Q (record n { world = w; state = s }))
      → Fails P (a m)
      → Fails Q (followed tools a (write tools s) m)
  unfolding write
  then_write P Q a s m written h =
      followed-Fails P Q a (command tools (write_state s) (λ n. record n { state = s })) m h (λ n k.
        command-Fails Q (write_state s) (λ g. record g { state = s }) n (λ w. written n w k))

  pub ready_keeps :
      (P : Machine W → Type 0) (r : VmReadiness) (m : Machine W)
      → Steady P
      → P m
      → Fails P (wait_for_readiness tools r m)
  ready_keeps P r m stays h =
      followed-Fails P P (run tools load_spec) (run tools (wait_ready r)) m
        (run_keeps P load_spec m stays h) (λ n k. run_keeps P (wait_ready r) n stays k)

  pub connect_keeps : (r : VmReadiness) (m : Machine W) → Fails (Kept m) (connect tools r m)
  unfolding connect
  connect_keeps r m =
      ready_keeps (Kept m) r m (λ n w k. ap (λ (g : Machine W). record g { world = w }) k) refl

  abbrev pub InPhase : Phase → Machine W → Type 0
  InPhase p n = n.phase ≡ p

  resumed : (m : Machine W) → Fails (InPhase live) (resume_process tools m)
  unfolding resume_process
  resumed m = command-Fails (InPhase live) ch_resume (λ n. record n { phase = live }) m (λ w. refl)

  pub resumed-Up :
      (m : Machine W) → Fails Up (followed tools (resume_process tools) (write tools "running") m)
  resumed-Up m =
      then_write (InPhase live) Up (resume_process tools) "running" m (λ n w k. (refl, k))
        (resumed m)

  pub resume_paused_runs : (r : VmReadiness) (m : Machine W) → Fails Up (resume_paused tools r m)
  unfolding resume_paused
  resume_paused_runs r m =
      followed-Fails Up Up (followed tools (resume_process tools) (write tools "running"))
        (wait_for_readiness tools r) m (resumed-Up m) (λ n k. ready_keeps Up r n (λ g w q. q) k)

  pub Any-run : (c : Command) (m : Machine W) → Fails Any (run tools c m)
  Any-run c m = run_keeps Any c m (λ n w u. u) tt

  -- The unit is started after the definition was written.
  pub unit_started :
      (m : Machine W)
      → Fails
          (InPhase starting)
          (followed tools (run tools refresh_definition) (start_process tools) m)
  unfolding start_process
  unit_started m =
      followed-Fails Any (InPhase starting) (run tools refresh_definition)
        (command tools systemctl_start (λ n. record n { phase = starting })) m
        (Any-run refresh_definition m)
        (λ n u.
          command-Fails (InPhase starting) systemctl_start (λ g. record g { phase = starting }) n
            (λ w. refl))

  pub seen_active : (m : Machine W) → InPhase starting m → Fails (InPhase live) (see_active tools m)
  unfolding see_active
  seen_active m h =
      command-Fails (InPhase live) wait_active (λ n. record n { phase = after_active n.phase }) m
        (λ w. ap after_active h)

  pub boot_runs : (r : VmReadiness) (m : Machine W) → Fails Up (boot tools r m)
  unfolding boot
  boot_runs r m =
      then_write (InPhase live) Up before "running" m (λ n w k. (refl, k))
        (followed-Fails (InPhase starting) (InPhase live) defined
          (followed tools (see_active tools) (run tools (wait_ready r))) m
          (followed-Fails (InPhase starting) (InPhase starting)
            (followed tools (run tools refresh_definition) (start_process tools))
            (run tools load_spec) m (unit_started m)
            (λ n k. run_keeps (InPhase starting) load_spec n (λ g w q. q) k))
          (λ n k.
            followed-Fails (InPhase live) (InPhase live) (see_active tools)
              (run tools (wait_ready r)) n (seen_active n k)
              (λ g q. run_keeps (InPhase live) (wait_ready r) g (λ d w z. z) q)))
    where
      defined : Act tools
      defined =
          followed tools (followed tools (run tools refresh_definition) (start_process tools))
            (run tools load_spec)

      before : Act tools
      before = followed tools defined (followed tools (see_active tools) (run tools (wait_ready r)))
