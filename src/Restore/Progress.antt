-- ===== src/Restore/Progress.antt =====
-- A restore that is tried again and again, each time with other steps that fail or crash.
use agentmom.Prelude.{String, ◌≡◌, refl, ap, inl, inr, true, not, none, some, Bool-cases, is_some}
use agentmom.Catalog.Exec.{not_restored}
use agentmom.Restore.{
  ◌>>◌, whole, damaged, Disk, act, stop, when, remove_restore_tmp, has_tmp, restored, inside,
  remove_old_previous, recover_interrupted_restore, commit_restored_workspace_dir, run_restic,
  restore_dirs, Io,
}
use agentmom.Restore.Steps.{Here, Safe, Calm, Ends, then_ends, act_ends}
use agentmom.Restore.Safety.{
  Ready, Clear, NewAlone, Restored, new_here, previous_ends, tmp_ends, forget, recover_ends,
  commit_ends,
}

module _ (old new : String) (E : Type 0) where
  Here-Safe : (d : Disk) → Here old new d → Safe old new d
  Here-Safe d h = inl h

  clean_ends :
      (d : Disk)
      → Here old new d
      → Calm old new E d
      → Ends old new E (Here old new) (when (has_tmp d) remove_restore_tmp d)
  clean_ends d h calm = elim (Bool-cases (has_tmp d)) [
    | inr n ↦ rw n (h, calm)
    | inl n ↦ rw n (
        forget old new E (λ g. Here old new g × (g.staged ≡ none)) (Here old new)
          (remove_restore_tmp d).0 (remove_restore_tmp d).1 (λ g q. q.0)
          (tmp_ends old new E (Here old new) d Here-Safe (λ g p r q. q) h calm))
  ]

  restic_ends :
      (d : Disk)
      → Here old new d
      → Calm old new E d
      → Ends old new E (Ready old new E) (run_restic new d)
  unfolding run_restic
  restic_ends d h calm =
      then_ends old new E (Here old new) (Ready old new E)
        (act (λ g. record g { staged = some (some damaged) }))
        (act (λ g. record g { staged = some (some (whole new)) })) d
        (act_ends old new E (Here old new) (λ g. record g { staged = some (some damaged) }) d
          (λ g. refl) (inl h) calm (λ r. h))
        (λ g k c.
          act_ends old new E (Ready old new E) (λ f. record f { staged = some (some (whole new)) })
            g (λ f. refl) (inl k) c (λ r. (k, refl)))

  -- The check that the restored tree has the workspace directory.
  check_ends :
      (d : Disk)
      → Ready old new E d
      → Calm old new E d
      → Ends old new E (Ready old new E) (when (not (is_some (restored d))) (stop not_restored) d)
  check_ends d k calm =
      let there : is_some (restored d) ≡ true = ap (λ s. is_some (inside s)) k.1 in
      rw there (k, calm)

  pub restore_ends :
      (d : Disk)
      → Safe old new d
      → Calm old new E d
      → Ends old new E (Restored old new E) (restore_dirs new d)
  unfolding restore_dirs
  restore_ends d safe calm =
      then_ends old new E (NewAlone old new E) (Restored old new E) committed remove_restore_tmp d
        (then_ends old new E (Clear old new E) (NewAlone old new E) cleared
          commit_restored_workspace_dir d
          (then_ends old new E (Ready old new E) (Clear old new E) checked remove_old_previous d
            (then_ends old new E (Ready old new E) (Ready old new E) fetched
              (λ g. when (not (is_some (restored g))) (stop not_restored) g) d
              (then_ends old new E (Here old new) (Ready old new E) emptied (run_restic new) d
                (then_ends old new E (Here old new) (Here old new) cleaned
                  (act (λ g. record g { staged = some none })) d
                  (then_ends old new E (Here old new) (Here old new) recover_interrupted_restore
                    (λ g. when (has_tmp g) remove_restore_tmp g) d
                    (recover_ends old new E d safe calm) clean_ends)
                  (λ g h c.
                    act_ends old new E (Here old new) (λ f. record f { staged = some none }) g
                      (λ f. refl) (inl h) c (λ r. h)))
                restic_ends)
              check_ends)
            (λ g k c.
              previous_ends old new E (Ready old new E) g (λ f q. inl q.0) (λ f p r q. q) k c))
          (commit_ends old new E))
        (λ g k c.
          tmp_ends old new E (NewAlone old new E) g (λ f q. new_here old new E f q.0) (λ f p r q. q)
            k c)
    where
      cleaned : Io Unit
      cleaned = recover_interrupted_restore >> (λ g. when (has_tmp g) remove_restore_tmp g)

      emptied : Io Unit
      emptied = cleaned >> act (λ g. record g { staged = some none })

      fetched : Io Unit
      fetched = emptied >> run_restic new

      checked : Io Unit
      checked = fetched >> (λ g. when (not (is_some (restored g))) (stop not_restored) g)

      cleared : Io Unit
      cleared = checked >> remove_old_previous

      committed : Io Unit
      committed = cleared >> commit_restored_workspace_dir
