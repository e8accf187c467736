-- ===== src/Restore/Retries.antt =====
-- A restore that is tried again and again, each time with other steps that fail or crash.
use agentmom.Prelude.{String, ◌≡◌, refl, inl, inr, Bool, Option, none, some, List, [], ◌∷◌}
use agentmom.Catalog.Exec.{Result, Result-cases, ok, err}
use agentmom.Restore.{
  whole, Fate, Disk, restore_dirs, run_restic_restore, validate_backup_id_path_component,
  check_location,
}
use agentmom.Restore.Steps.{Safe, Ends}
use agentmom.Restore.Safety.{Restored}
use agentmom.Restore.Progress.{restore_ends}

module _ (ambient : Option String) (has_restic : Bool) (contents : String → String)
    (id location : String) where
  abbrev pub attempt : List Fate → Disk → Result (Unit {0}) × Disk
  attempt fates d =
      run_restic_restore ambient has_restic contents id location (record d { fates = fates })

  -- The attempts one after the other, each with its fates.
  abbrev pub attempts : List (List Fate) → Disk → Disk
  attempts [] d = d
  attempts (fates ∷ more) d = attempts more (attempt fates d).1

  attempt-Safe :
      (old : String) (fates : List Fate) (d : Disk)
      → Safe old (contents location) d
      → Safe old (contents location) (attempt fates d).1
  unfolding run_restic_restore
  attempt-Safe old fates d safe = elim (Result-cases (validate_backup_id_path_component id)) [
    | inr (x, v) ↦ rw v safe
    | inl (u, v) ↦ elim (Result-cases (check_location ambient has_restic location)) [
      | inr (x, c) ↦ rw (v, c) safe
      | inl (w, c) ↦
          let g = record d { fates = fates } in
          rw (v, c)
            (kept (restore_dirs (contents location) g).0 (restore_dirs (contents location) g).1
              (restore_ends old (contents location) Unit g safe (inr tt)))
    ]
  ]
    where
      kept :
          (r : Result (Unit {0})) (g : Disk)
          → Ends old (contents location) Unit (Restored old (contents location) Unit) (r, g)
          → Safe old (contents location) g
      kept (ok u) g (((w, p), s), c) = inl (whole (contents location), w, inr refl)
      kept (err e) g (safe, why) = safe

  -- However many attempts to restore a backup are made, and whichever of their steps fail or crash,
  -- where the workspace directory was there in full it is so afterwards, with its old content or
  -- the restored one, or the restored tree and the one that it replaces both wait in full to be
  -- moved.
  pub attempts-Safe :
      (old : String) (scripts : List (List Fate)) (d : Disk)
      → Safe old (contents location) d
      → Safe old (contents location) (attempts scripts d)
  attempts-Safe old [] d safe = safe
  attempts-Safe old (fates ∷ more) d safe =
      attempts-Safe old more (attempt fates d).1 (attempt-Safe old fates d safe)

  -- After any such attempts, one whose steps all succeed returns, and leaves the restored tree in
  -- full as the workspace directory and none of the directories that it works with, where the id
  -- and the location of the backup are accepted.
  pub attempts-Restored :
      (old : String) (scripts : List (List Fate)) (d : Disk)
      → Safe old (contents location) d
      → validate_backup_id_path_component id ≡ ok tt
      → check_location ambient has_restic location ≡ ok tt
      → let r = attempt [] (attempts scripts d) in
        (r.0 ≡ ok tt)
        × (r.1.workspace ≡ some (whole (contents location)))
        × (r.1.staged ≡ none)
        × (r.1.previous ≡ none)
  unfolding run_restic_restore
  attempts-Restored old scripts d safe valid found =
      let g = record (attempts scripts d) { fates = [] } in
      rw (valid, found)
        (succeeded (restore_dirs (contents location) g).0 (restore_dirs (contents location) g).1
          (restore_ends old (contents location) ⊥ g (attempts-Safe old scripts d safe) (inl refl)))
    where
      succeeded :
          (r : Result (Unit {0})) (g : Disk)
          → Ends old (contents location) ⊥ (Restored old (contents location) ⊥) (r, g)
          → (r ≡ ok tt)
            × (g.workspace ≡ some (whole (contents location)))
            × (g.staged ≡ none)
            × (g.previous ≡ none)
      succeeded (ok u) g (((w, p), s), c) = (refl, w, s, p)
      succeeded (err e) g (safe, never) = absurd never
