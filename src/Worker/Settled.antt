-- ===== src/Worker/Settled.antt =====
-- The periodic check after a task: it finds the workspace as it is wanted.
use agentmom.Prelude.{
  ℕ, String, ◌≡◌, refl, sym, ◌∙◌, inl, inr, false, not, ◌&&◌, ◌||◌, some, ◌==◌, Bool-cases,
  is_some_of, find,
}
use agentmom.Catalog.{Workspace}
use agentmom.Catalog.Exec.{Result, Error, ok, err}
use agentmom.Monitor.{backup_due}
use agentmom.Workspaces.{is_named}
use agentmom.Machines.Vm.{Tools}
use agentmom.Worker.Site.{Site, WorkerApi}
use agentmom.Worker.Backup.{Restic}
use agentmom.Worker.Reconcile.{worker_reconcile_workspace, reconcile_record}
use agentmom.Worker.Success.{Then}
use agentmom.Worker.Agreement.{HasIn}
use agentmom.Worker.Tasks.{Task, carry_out, resting, Agreed, carry_out-Agreed}

missing : (state other : String) → (state == other && not (state == other)) ≡ false
missing state other = elim (Bool-cases (state == other)) [ inl e ↦ rw e refl | inr e ↦ rw e refl ]

missing_too :
    (state other third : String)
    → (state == other && not (state == other || state == third)) ≡ false
missing_too state other third = elim (Bool-cases (state == other)) [
  | inl e ↦ rw e refl
  | inr e ↦ rw e refl
]

module _ {W : Type 0} (tools : Tools W) (restic : Restic W) (api : WorkerApi)
    (shown : Error → String) where
  reconcile_settled :
      (w : Workspace) (now : ℕ) (id : String) (s : Site W)
      → w.status ≡ w.desired_state
      → (w.desired_state == "running") ≡ false
      → backup_due w now ≡ false
      → worker_reconcile_workspace tools restic api shown w now id s ≡ (ok tt, s)
  unfolding worker_reconcile_workspace
  reconcile_settled w now id s same not_running not_due =
      rw
        (
          same,
          not_running,
          missing w.desired_state "suspended",
          missing_too w.desired_state "stopped" "idle-stopped",
          missing w.desired_state "removed",
          not_due,
        )
        refl

  record_settled :
      (w : Workspace) (now : ℕ) (id : String) (s : Site W)
      → w.status ≡ w.desired_state
      → (w.desired_state == "running") ≡ false
      → backup_due w now ≡ false
      → reconcile_record tools restic api shown w now id s ≡ s
  unfolding reconcile_record
  record_settled w now id s same not_running not_due =
      elim (Bool-cases (is_some_of w.node_id api.node)) [
        | inr e ↦ rw e refl
        | inl e ↦ rw (e, reconcile_settled w now id s same not_running not_due) refl
      ]

  module _ (w : Workspace) where
    -- The row of the workspace is at rest, and its check changes nothing unless a backup is due.
    abbrev pub AtPeace : String → Site W → Type 0
    AtPeace state s =
        (r : Workspace) × (find (is_named w.name) s.catalog.workspaces ≡ some r)
        × (r.status ≡ state)
        × (r.desired_state ≡ state)
        × ((now : ℕ) (id : String)
            → backup_due r now ≡ false
            → reconcile_record tools restic api shown r now id s ≡ s)

    peaceful :
        (state : String) (s : Site W)
        → (state == "running") ≡ false
        → HasIn tools api w.name state state s.catalog
        → AtPeace state s
    peaceful state s rests (r, row, is, wants) = (
      r,
      row,
      is,
      wants,
      λ now id not_due. record_settled r now id s (is ∙ sym wants) (rw wants rests) not_due,
    )

    resting_still : (t : Task) → (resting tools api w t == "running") ≡ false
    resting_still Task.pauses_it = refl
    resting_still Task.suspends_it = refl
    resting_still (Task.removes_it dir) = refl

    -- When a worker reports that it paused, suspended or removed the machine of a workspace, the row
    -- of the workspace in the catalog has the status that it is wanted to have, and the next
    -- periodic check of that row, at any time when no backup is due, changes neither the catalog nor
    -- the machine.
    pub carry_out-AtPeace :
        (t : Task) (s : Site W)
        → Then tools api w.name (AtPeace (resting tools api w t)) (carry_out tools api w t s)
    carry_out-AtPeace t s = cases (carry_out tools api w t s) (carry_out-Agreed tools api w t s)
      where
        cases :
            (r : Result (Unit {0}) × Site W)
            → Then tools api w.name (Agreed tools api w t s) r
            → Then tools api w.name (AtPeace (resting tools api w t)) r
        cases (ok u, n) h = peaceful (resting tools api w t) n (resting_still t) h.0
        cases (err e, n) h = tt
