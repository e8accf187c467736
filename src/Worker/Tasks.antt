-- ===== src/Worker/Tasks.antt =====
-- The tasks of a worker that put a machine to rest.
use agentmom.Prelude.{String, ◌≡◌, refl, sym, ap, ◌∙◌, ◌⊎◌, inl, inr, Bool, true, false, some}
use agentmom.Json.{obj, bool, field, end}
use agentmom.Catalog.{Workspace}
use agentmom.Catalog.Exec.{Result, ok, err}
use agentmom.Machines.Vm.{
  Tools, Machine, paused, suspended, remove_workspace_dir, run, command, keep_all, pause_vm,
  suspend_vm, remove_vm, vm_status, is_running, held, off,
}
use agentmom.Machines.Lifecycle.{
  pauses, suspends, removes, Kept, Taken, Reached, Fails, command-Fails,
}
use agentmom.Machines.Ways.{operate-Reached}
use agentmom.Worker.Site.{Site, SiteAct, WorkerApi, ◌>>◌, on_machine, update_workspace, event}
use agentmom.Worker.Local.{
  vm_metadata, removing_status, drop_dir, on_handle, pause_workspace_local, suspend_workspace_local,
  remove_workspace_local,
}
use agentmom.Worker.Success.{Steady, Then, Done, Then-Then, machine-Then, handle-Done, from_ends}
use agentmom.Worker.Agreement.{
  told, looked, HasIn, WantsIn, wants-Then, sets-Then, event-Then, settle-Then,
}

pub data Task : Type 0 where
  pauses_it suspends_it : Task
  removes_it : Bool → Task

module _ {W : Type 0} (tools : Tools W) (api : WorkerApi) (w : Workspace) where
  abbrev pub carry_out : Task → SiteAct W
  carry_out pauses_it = pause_workspace_local tools api w
  carry_out suspends_it = suspend_workspace_local tools api w
  carry_out (removes_it dir) = remove_workspace_local tools api w dir

  abbrev pub resting : Task → String
  resting pauses_it = "paused"
  resting suspends_it = "suspended"
  resting (removes_it dir) = "removed"

  -- The machine when the worker looked, or what the task did to it since then.
  abbrev pub AtRest : Task → Site W → Machine W → Type 0
  AtRest pauses_it s n =
      let m = looked tools api w.name "paused" s in
      ((vm_status tools m ≡ paused) × Kept tools m n)
      ⊎ ((is_running (vm_status tools m) ≡ true) × (n.state ≡ "paused") × (n.phase ≡ held))
  AtRest suspends_it s n =
      let m = looked tools api w.name "suspended" s in
      ((vm_status tools m ≡ suspended) × Kept tools m n)
      ⊎ ((is_running (vm_status tools m) ≡ true) × Taken tools m held n)
      ⊎ ((vm_status tools m ≡ paused) × Taken tools m m.phase n)
  AtRest (removes_it dir) s n =
      (n.exists_dir ≡ false) × ((s.machine.exists_dir ≡ false) ⊎ (n.phase ≡ off))

  Kept-world : (m n : Machine W) (v : W) → Kept tools m n → Kept tools m (record n { world = v })
  Kept-world m n v k = ap (λ (g : Machine W). record g { world = v }) k

  same-Kept : (m n : Machine W) → n ≡ m → Kept tools m n
  same-Kept m n e = e ∙ ap (λ (g : Machine W). record m { world = g.world }) (sym e)

  stays : (t : Task) (s : Site W) → Steady tools api w.name (AtRest t s)
  stays pauses_it s n v (inl (e, k)) =
      inl (e, Kept-world (looked tools api w.name "paused" s) n v k)
  stays pauses_it s n v (inr k) = inr k
  stays suspends_it s n v (inl (e, k)) =
      inl (e, Kept-world (looked tools api w.name "suspended" s) n v k)
  stays suspends_it s n v (inr k) = inr k
  stays (removes_it dir) s n v k = k

  rests_paused :
      (s : Site W) (n : Machine W)
      → Reached tools pauses (looked tools api w.name "paused" s) n
      → AtRest pauses_it s n
  rests_paused s n (inl (e, k)) = inl (e, same-Kept (looked tools api w.name "paused" s) n k)
  rests_paused s n (inr k) = inr k

  rests_suspended :
      (s : Site W) (n : Machine W)
      → Reached tools suspends (looked tools api w.name "suspended" s) n
      → AtRest suspends_it s n
  rests_suspended s n (inl (e, k)) = inl (e, same-Kept (looked tools api w.name "suspended" s) n k)
  rests_suspended s n (inr k) = inr k

  -- `s` is the site before the task.
  abbrev pub Agreed : Task → Site W → Site W → Type 0
  Agreed t s n = (HasIn tools api w.name (resting t) (resting t) n.catalog) × AtRest t s n.machine

  pause_agrees :
      (s : Site W)
      → Then tools api w.name (Agreed pauses_it s) (pause_workspace_local tools api w s)
  unfolding pause_workspace_local
  pause_agrees s =
      let m = looked tools api w.name "paused" s in
      settle-Then tools api w.name (AtRest pauses_it s) (on_handle tools api (pause_vm tools))
        "paused" "workspace_paused" "workspace vm paused" (vm_metadata w) s (stays pauses_it s)
        (handle-Done tools api w.name (AtRest pauses_it s) (pause_vm tools)
          (told tools api w.name "paused" s).machine
          (from_ends tools api w.name (Reached tools pauses m) (AtRest pauses_it s) m
            (pause_vm tools) (operate-Reached tools pauses m) (rests_paused s)))

  suspend_agrees :
      (s : Site W)
      → Then tools api w.name (Agreed suspends_it s) (suspend_workspace_local tools api w s)
  unfolding suspend_workspace_local
  suspend_agrees s =
      let m = looked tools api w.name "suspended" s in
      settle-Then tools api w.name (AtRest suspends_it s) (on_handle tools api (suspend_vm tools))
        "suspended" "workspace_suspended" "workspace vm snapshotted and suspended" (vm_metadata w) s
        (stays suspends_it s)
        (handle-Done tools api w.name (AtRest suspends_it s) (suspend_vm tools)
          (told tools api w.name "suspended" s).machine
          (from_ends tools api w.name (Reached tools suspends m) (AtRest suspends_it s) m
            (suspend_vm tools) (operate-Reached tools suspends m) (rests_suspended s)))

  dropped :
      (dir : Bool) (s : Site W) (m : Machine W)
      → AtRest (removes_it dir) s m
      → Done tools api w.name (AtRest (removes_it dir) s) (drop_dir tools api dir m)
  unfolding run
  dropped false s m e = e
  dropped true s m e =
      done (command tools remove_workspace_dir (keep_all tools) m).0
        (command tools remove_workspace_dir (keep_all tools) m).1
        (command-Fails tools (AtRest (removes_it true) s) remove_workspace_dir (keep_all tools) m
          (λ v. e))
    where
      done :
          (r : Result (Unit {0})) (n : Machine W)
          → Fails tools (AtRest (removes_it true) s) (r, n)
          → Done tools api w.name (AtRest (removes_it true) s) (r, n)
      done (ok u) n h = h
      done (err e) n h = tt

  remove_agrees :
      (dir : Bool) (s : Site W)
      → Then tools api w.name (Agreed (removes_it dir) s) (remove_workspace_local tools api w dir s)
  unfolding remove_workspace_local
  remove_agrees dir s =
      Then-Then tools api w.name (Agreed (removes_it dir) s) (Agreed (removes_it dir) s) set
        (event tools api w.name "workspace_removed" "succeeded" "workspace vm removed"
          (obj (field "workspace_dir_removed" (bool dir) end)))
        s
        (Then-Then tools api w.name Gone (Agreed (removes_it dir) s) gone
          (update_workspace tools api w.name (some "removed") (some "removed") false false) s
          (Then-Then tools api w.name Gone Gone without (on_machine tools (drop_dir tools api dir))
            s
            (Then-Then tools api w.name
              (λ t. WantsIn tools api w.name "removed" t.catalog × SameDir t.machine) Gone begin
              (on_machine tools (remove_vm tools)) s
              (wants-Then tools api w.name SameDir (some (removing_status tools api dir)) "removed"
                s (λ m v q. q) refl)
              (λ t k.
                machine-Then tools api w.name (WantsIn tools api w.name "removed")
                  (AtRest (removes_it dir) s) (remove_vm tools) t k.0
                  (from_ends tools api w.name (Reached tools removes t.machine)
                    (AtRest (removes_it dir) s) t.machine (remove_vm tools)
                    (operate-Reached tools removes t.machine) (removed t.machine k.1))))
            (λ t k.
              machine-Then tools api w.name (WantsIn tools api w.name "removed")
                (AtRest (removes_it dir) s) (drop_dir tools api dir) t k.0
                (dropped dir s t.machine k.1)))
          (λ t k.
            sets-Then tools api w.name (AtRest (removes_it dir) s) "removed" "removed" t
              (stays (removes_it dir) s) k.1))
        (λ t k.
          event-Then tools api w.name (AtRest (removes_it dir) s) "removed" "removed"
            "workspace_removed" "succeeded" "workspace vm removed"
            (obj (field "workspace_dir_removed" (bool dir) end)) t (stays (removes_it dir) s) k.0
            k.1)
    where
      Gone : Site W → Type 0
      Gone t = WantsIn tools api w.name "removed" t.catalog × AtRest (removes_it dir) s t.machine

      SameDir : Machine W → Type 0
      SameDir m = m.exists_dir ≡ s.machine.exists_dir

      removed :
          (m : Machine W)
          → SameDir m
          → (n : Machine W) → Reached tools removes m n
          → AtRest (removes_it dir) s n
      removed m same n (gone_dir, inl never) = (gone_dir, inl (sym same ∙ never))
      removed m same n (gone_dir, inr stopped) = (gone_dir, inr stopped)

      begin : SiteAct W
      begin =
          update_workspace tools api w.name (some (removing_status tools api dir)) (some "removed")
            false false

      without : SiteAct W
      without = begin >> on_machine tools (remove_vm tools)

      gone : SiteAct W
      gone = without >> on_machine tools (drop_dir tools api dir)

      set : SiteAct W
      set = gone >> update_workspace tools api w.name (some "removed") (some "removed") false false

  -- Where a worker pauses, suspends or removes the machine of a workspace, and any of its requests
  -- or tools may fail: when it reports success, the row of the workspace in the catalog has the
  -- status and the desired state that go with the task, and the machine is at rest. A machine that
  -- was paused, or suspended, already when the worker looked is as it was then. Else it was running
  -- when the worker looked (or paused, for a suspension); for a pause its state file says so and the
  -- tool that pauses the process succeeded; for a suspension the state file says so, one snapshot
  -- was written in full since then, of a running machine after it was paused, and its process was
  -- stopped and then seen inactive. A removed machine is no longer there, and one that was there
  -- was stopped and then seen inactive.
  pub carry_out-Agreed :
      (t : Task) (s : Site W) → Then tools api w.name (Agreed t s) (carry_out t s)
  carry_out-Agreed pauses_it s = pause_agrees s
  carry_out-Agreed suspends_it s = suspend_agrees s
  carry_out-Agreed (removes_it dir) s = remove_agrees dir s
