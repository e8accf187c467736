-- ===== src/Machines/Suspension.antt =====
-- Suspending a machine, and stopping its process.
use agentmom.Prelude.{List, ◌∷◌, ◌≡◌, refl, ap, inl, inr, Bool, true, false, if◌then◌else◌}
use agentmom.Catalog.Exec.{Result, ok, err}
use agentmom.Machines.Vm.{
  VmStatus, running, draining, stopped, paused, suspended, crashed, missing, unknown, ch_pause,
  ch_snapshot, systemctl_stop, wait_inactive, remove_snapshot, create_snapshot_dir, Tools, Machine,
  is_running, Act, followed, command, write, vm_status, unchanged, stop_vm_process, drop_snapshot,
  take_snapshot, suspend_by, suspend_vm, Phase, stopping, off, after_inactive, pause_process,
  stop_process, see_inactive,
}
use agentmom.Machines.Lifecycle.{
  suspends, Reached, Taken, Ends, Fails, followed-Fails, command-Fails, then_write,
}
use agentmom.Machines.Outcomes.{mapped, lifted, status_cases}

module _ {W : Type 0} (tools : Tools W) where
  -- Neither the phase nor the snapshots that were written.
  abbrev pub Before : Phase → List Phase → Machine W → Type 0
  Before p ps n = (n.phase ≡ p) × (n.taken ≡ ps)

  pub drop_keeps :
      (p : Phase) (ps : List Phase) (m : Machine W)
      → Before p ps m
      → Fails tools (λ n. (n.snapshot ≡ false) × Before p ps n) (drop_snapshot tools m)
  unfolding drop_snapshot
  drop_keeps p ps m h = cases m.snapshot refl
    where
      cases :
          (b : Bool)
          → m.snapshot ≡ b
          → Fails tools
              (λ n. (n.snapshot ≡ false) × Before p ps n)
              (if b
                then command tools remove_snapshot
                    (λ n. record n { snapshot = false })
                    (record m { complete = false })
                else unchanged tools m)
      cases true e =
          command-Fails tools (λ g. (g.snapshot ≡ false) × Before p ps g) remove_snapshot
            (λ g. record g { snapshot = false }) (record m { complete = false }) (λ w. (refl, h))
      cases false e = (e, h)

  -- A predicate that neither the world nor the phase matters to, and the phase afterwards.
  pub stopped_process :
      (P : Machine W → Type 0) (m : Machine W)
      → ((n : Machine W) (w : W) (p : Phase) → P n → P (record n { world = w; phase = p }))
      → P m
      → Fails tools (λ n. P n × (n.phase ≡ off)) (stop_vm_process tools m)
  unfolding stop_vm_process stop_process see_inactive
  stopped_process P m stays h =
      followed-Fails tools (λ n. P n × (n.phase ≡ stopping)) (λ n. P n × (n.phase ≡ off))
        (command tools systemctl_stop (λ n. record n { phase = stopping }))
        (command tools wait_inactive (λ n. record n { phase = after_inactive n.phase })) m
        (command-Fails tools (λ n. P n × (n.phase ≡ stopping)) systemctl_stop
          (λ n. record n { phase = stopping }) m (λ w. (stays m w stopping h, refl)))
        (λ n k.
          command-Fails tools (λ g. P g × (g.phase ≡ off)) wait_inactive
            (λ g. record g { phase = after_inactive g.phase }) n
            (λ w. (stays n w (after_inactive n.phase) k.0, ap after_inactive k.1)))

  -- A full snapshot, and then the state file.
  abbrev Full : Phase → List Phase → Machine W → Type 0
  Full p ps n = (n.snapshot ≡ true) × (n.complete ≡ true) × (n.taken ≡ p ∷ ps)

  abbrev Noted : Phase → List Phase → Machine W → Type 0
  Noted p ps n =
      (n.state ≡ "suspended") × (n.snapshot ≡ true) × (n.complete ≡ true) × (n.taken ≡ p ∷ ps)

  snapshot-Noted :
      (p : Phase) (ps : List Phase) (m : Machine W)
      → Before p ps m
      → Fails tools (Noted p ps) (
          followed tools
            (followed tools
              (followed tools
                (drop_snapshot tools)
                (command tools create_snapshot_dir (λ g. record g { snapshot = true })))
              (command tools ch_snapshot
                (λ g. record g { complete = true; taken = g.phase ∷ g.taken })))
            (write tools "suspended")
            m)
  snapshot-Noted p ps m h =
      then_write tools (Full p ps) (Noted p ps) full "suspended" m (λ n w k. (refl, k.0, k.1, k.2))
        (followed-Fails tools (λ n. (n.snapshot ≡ true) × Before p ps n) (Full p ps) made
          (command tools ch_snapshot (λ g. record g { complete = true; taken = g.phase ∷ g.taken }))
          m
          (followed-Fails tools (λ n. (n.snapshot ≡ false) × Before p ps n)
            (λ n. (n.snapshot ≡ true) × Before p ps n) (drop_snapshot tools)
            (command tools create_snapshot_dir (λ g. record g { snapshot = true })) m
            (drop_keeps p ps m h)
            (λ n k.
              command-Fails tools (λ g. (g.snapshot ≡ true) × Before p ps g) create_snapshot_dir
                (λ g. record g { snapshot = true }) n (λ w. (refl, k.1))))
          (λ n k.
            command-Fails tools (Full p ps) ch_snapshot
              (λ g. record g { complete = true; taken = g.phase ∷ g.taken }) n
              (λ w. (k.0, refl, rw (k.1.0, k.1.1) refl))))
    where
      made : Act tools
      made =
          followed tools (drop_snapshot tools)
            (command tools create_snapshot_dir (λ g. record g { snapshot = true }))

      full : Act tools
      full =
          followed tools made (
            command tools ch_snapshot
              (λ g. record g { complete = true; taken = g.phase ∷ g.taken }))

  snapshot-Taken :
      (s : Machine W) (p : Phase) (m : Machine W)
      → Before p s.taken m
      → Fails tools (Taken tools s p) (take_snapshot tools m)
  unfolding take_snapshot
  snapshot-Taken s p m h =
      followed-Fails tools (Noted p s.taken) (Taken tools s p)
        (followed tools
          (followed tools
            (followed tools (drop_snapshot tools)
              (command tools create_snapshot_dir (λ g. record g { snapshot = true })))
            (command tools ch_snapshot
              (λ g. record g { complete = true; taken = g.phase ∷ g.taken })))
          (write tools "suspended"))
        (stop_vm_process tools) m (snapshot-Noted p s.taken m h)
        (λ n k.
          reordered (stop_vm_process tools n).0 (stop_vm_process tools n).1
            (stopped_process (Noted p s.taken) n (λ g w q z. z) k))
    where
      reordered :
          (r : Result (Unit {0})) (n : Machine W)
          → Fails tools (λ g. Noted p s.taken g × (g.phase ≡ off)) (r, n)
          → Fails tools (Taken tools s p) (r, n)
      reordered (ok u) n ((a, b, c, d), e) = (a, b, c, e, d)
      reordered (err x) n h = h

  paused_before :
      (m : Machine W)
      → Fails tools (λ n. (n.phase ≡ Phase.held) × (n.taken ≡ m.taken)) (pause_process tools m)
  unfolding pause_process
  paused_before m =
      command-Fails tools (λ n. (n.phase ≡ Phase.held) × (n.taken ≡ m.taken)) ch_pause
        (λ n. record n { phase = Phase.held }) m (λ w. (refl, refl))

  pub suspend_reached :
      (m : Machine W) → Ends tools m (Reached tools suspends m) (suspend_vm tools m)
  unfolding suspend_vm
  suspend_reached m = status_cases tools (Reached tools suspends m) (suspend_by tools) m cases
    where
      paused_first : Act tools
      paused_first = followed tools (pause_process tools) (take_snapshot tools)

      running_too :
          is_running (vm_status tools m) ≡ true
          → Ends tools m (Reached tools suspends m) (paused_first m)
      running_too e =
          mapped tools m (Taken tools m Phase.held) (Reached tools suspends m) paused_first
            (λ n k. inr (inl (e, k)))
            (lifted tools m (Taken tools m Phase.held) paused_first (
              followed-Fails tools (Before Phase.held m.taken) (Taken tools m Phase.held)
                (pause_process tools) (take_snapshot tools) m (paused_before m)
                (λ n k. snapshot-Taken m Phase.held n k)))

      cases :
          (s : VmStatus)
          → vm_status tools m ≡ s
          → Ends tools m (Reached tools suspends m) (suspend_by tools s m)
      cases running e = running_too (ap is_running e)
      cases draining e = running_too (ap is_running e)
      cases paused e =
          mapped tools m (Taken tools m m.phase) (Reached tools suspends m) (take_snapshot tools)
            (λ n k. inr (inr (e, k)))
            (lifted tools m (Taken tools m m.phase) (take_snapshot tools)
              (snapshot-Taken m m.phase m (refl, refl)))
      cases suspended e = inl (e, refl)
      cases stopped e = inr refl
      cases crashed e = inr refl
      cases missing e = inr refl
      cases unknown e = inr refl
