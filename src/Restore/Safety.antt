-- ===== src/Restore/Safety.antt =====
-- Whatever step of a restore fails or is cut off, the workspace is not lost.
use agentmom.Prelude.{
  String, ◌≡◌, refl, ap, inl, inr, Option, none, some, List, Bool-cases, Option-cases, is_some,
}
use agentmom.Catalog.Exec.{Result, Error, ok, err}
use agentmom.Restore.{
  Tree, whole, Fate, Disk, act, when, ◌>>◌, hurt, hurt_staged, remove_previous, remove_restore_tmp,
  inside, restored, place_restored, place_previous, remove_old_previous,
  recover_interrupted_restore, set_aside, move_back, is_crash, or_move_back,
  commit_restored_workspace_dir,
}
use agentmom.Restore.Steps.{Here, Moving, Safe, Calm, Ends, then_ends, act_ends, act_cases}

module _ (old new : String) (E : Type 0) where
  -- The workspace directory is in place, and the restored tree beside it.
  abbrev pub Ready : Disk → Type 0
  Ready d = Here old new d × (d.staged ≡ some (some (whole new)))

  abbrev pub Clear : Disk → Type 0
  Clear d = Ready d × (d.previous ≡ none)

  abbrev pub New : Disk → Type 0
  New d = d.workspace ≡ some (whole new)

  abbrev pub NewAlone : Disk → Type 0
  NewAlone d = New d × (d.previous ≡ none)

  abbrev pub Restored : Disk → Type 0
  Restored d = NewAlone d × (d.staged ≡ none)

  pub new_here : (d : Disk) → New d → Safe old new d
  new_here d h = inl (whole new, h, inr refl)

  -- The removal of the previous directory does not touch what `K` is about.
  pub previous_ends :
      (K : Disk → Type 0) (d : Disk)
      → ((g : Disk) → K g → Safe old new g)
      → ((g : Disk) (p : Option Tree) (r : List Fate)
          → K g
          → K (record g { previous = p; fates = r }))
      → K d
      → Calm old new E d
      → Ends old new E (λ g. K g × (g.previous ≡ none)) (remove_old_previous d)
  unfolding remove_old_previous remove_previous
  previous_ends K d safe stays k calm = elim (Option-cases d.previous) [
    | inl n ↦ simp n ((k, refl), calm)
    | inr (t, n) ↦ simp n (
        then_ends old new E K (λ g. K g × (g.previous ≡ none))
          (act (λ g. record g { previous = hurt g.previous }))
          (act (λ g. record g { previous = none })) d
          (act_ends old new E K (λ g. record g { previous = hurt g.previous }) d (λ g. refl)
            (safe d k) calm (λ r. stays d (hurt d.previous) r k))
          (λ g kg cg.
            act_ends old new E (λ h. K h × (h.previous ≡ none)) (λ h. record h { previous = none })
              g (λ h. refl) (safe g kg) cg (λ r. (stays g none r kg, refl))))
  ]

  -- Nor does the removal of the restore directory.
  pub tmp_ends :
      (K : Disk → Type 0) (d : Disk)
      → ((g : Disk) → K g → Safe old new g)
      → ((g : Disk) (p : Option (Option Tree)) (r : List Fate)
          → K g
          → K (record g { staged = p; fates = r }))
      → K d
      → Calm old new E d
      → Ends old new E (λ g. K g × (g.staged ≡ none)) (remove_restore_tmp d)
  unfolding remove_restore_tmp
  tmp_ends K d safe stays k calm =
      then_ends old new E K (λ g. K g × (g.staged ≡ none))
        (act (λ g. record g { staged = hurt_staged g.staged }))
        (act (λ g. record g { staged = none })) d
        (act_ends old new E K (λ g. record g { staged = hurt_staged g.staged }) d (λ g. refl)
          (safe d k) calm (λ r. stays d (hurt_staged d.staged) r k))
        (λ g kg cg.
          act_ends old new E (λ h. K h × (h.staged ≡ none)) (λ h. record h { staged = none }) g
            (λ h. refl) (safe g kg) cg (λ r. (stays g none r kg, refl)))

  pub forget :
      (P Q : Disk → Type 0) (r : Result (Unit {0})) (d : Disk)
      → ((g : Disk) → P g → Q g)
      → Ends old new E P (r, d)
      → Ends old new E Q (r, d)
  forget P Q (ok u) d f h = (f d h.0, h.1)
  forget P Q (err e) d f h = h

  -- A restore that was cut off is completed or undone.
  pub recover_ends :
      (d : Disk)
      → Safe old new d
      → Calm old new E d
      → Ends old new E (Here old new) (recover_interrupted_restore d)
  unfolding recover_interrupted_restore place_restored
  recover_ends d (inl (t, w, good)) calm = simp w ((t, refl, good), calm)
  recover_ends d (inr (w, s, (t, p, good))) calm =
      simp (w, s)
        (then_ends old new E New (Here old new)
          (act (λ g. record g { workspace = restored g; staged = some none })) remove_old_previous d
          (act_ends old new E New (λ g. record g { workspace = restored g; staged = some none }) d
            (λ g. refl) (inr (w, s, (t, p, good))) calm (λ r. ap inside s))
          (λ g k c.
            forget (λ h. New h × (h.previous ≡ none)) (Here old new) (remove_old_previous g).0
              (remove_old_previous g).1 (λ h q. (whole new, q.0, inr refl))
              (previous_ends New g new_here (λ h p r q. q) k c)))

  -- From a state in which both trees wait, the move that failed is tried the other way round.
  move_back_ends :
      (e : Error) (d : Disk) → Moving old new d → E → Ends old new E New (move_back e d)
  unfolding move_back place_previous act
  move_back_ends e d (w, s, (t, p, good)) reason = elim (Bool-cases (is_crash e)) [
    | inl c ↦ rw c (inr (w, s, (t, p, good)), reason)
    | inr c ↦
        simp (c, p, w)
          (act_cases old new E (λ r. Safe old new r.1 × E)
            (λ g. record g { workspace = g.previous; previous = none }) d (inr reason)
            (λ r k. (inl (t, p, good), reason)) (λ x r k. (inr (w, s, (t, p, good)), reason)))
  ]

  -- The restored directory takes the place of the workspace directory.
  pub commit_ends :
      (d : Disk)
      → Clear d
      → Calm old new E d
      → Ends old new E NewAlone (commit_restored_workspace_dir d)
  unfolding commit_restored_workspace_dir set_aside place_restored
  commit_ends d (((t, w, good), s), p) calm =
      then_ends old new E New NewAlone
        ((λ g. when (is_some g.workspace) set_aside g)
          >> (λ g. or_move_back (place_restored g).0 (place_restored g).1))
        remove_old_previous d
        (then_ends old new E (Moving old new) New (λ g. when (is_some g.workspace) set_aside g)
          (λ g. or_move_back (place_restored g).0 (place_restored g).1) d aside
          (λ g m c.
            act_cases old new E (λ r. Ends old new E New (or_move_back r.0 r.1))
              (λ h. record h { workspace = restored h; staged = some none }) g c
              (λ r k. (ap inside m.1, k))
              (λ e r reason. move_back_ends e (record g { fates = r }) m reason)))
        (λ g k c. previous_ends New g new_here (λ h q r n. n) k c)
    where
      aside : Ends old new E (Moving old new) (when (is_some d.workspace) set_aside d)
      aside =
          simp (w, p)
            (act_ends old new E (Moving old new)
              (λ g. record g { previous = g.workspace; workspace = none }) d (λ g. refl)
              (inl (t, w, good)) calm (λ r. (refl, s, (t, w, good))))
