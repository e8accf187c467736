-- ===== src/Restore/Steps.antt =====
-- Rules for the steps of a restore: what holds when it goes on and when it stops.
use agentmom.Prelude.{String, ◌≡◌, refl, sym, ◌∙◌, ◌⊎◌, inl, inr, none, some, List, [], ◌∷◌}
use agentmom.Catalog.Exec.{Result, ok, err, Error}
use agentmom.Restore.{
  Tree, whole, Fate, succeeds, fails, crashes, Disk, Io, act, ◌>>◌, then_do, meet,
}

-- The tree that was there before, or the one that is restored, in full.
abbrev pub IsGood : String → String → Tree → Type 0
IsGood old new t = (t ≡ whole old) ⊎ (t ≡ whole new)

-- The workspace directory is there in full, or both trees wait in full to be moved there.
abbrev pub Here : String → String → Disk → Type 0
Here old new d = (t : Tree) × (d.workspace ≡ some t) × IsGood old new t

abbrev pub Moving : String → String → Disk → Type 0
Moving old new d =
    (d.workspace ≡ none)
    × (d.staged ≡ some (some (whole new)))
    × ((t : Tree) × (d.previous ≡ some t) × IsGood old new t)

abbrev pub Safe : String → String → Disk → Type 0
Safe old new d = Here old new d ⊎ Moving old new d

-- `E` is a reason for which steps may fail: without it no fate is left.
module _ (old new : String) (E : Type 0) where
  abbrev pub Calm : Disk → Type 0
  Calm d = (d.fates ≡ []) ⊎ E

  abbrev pub Ends : (Disk → Type 0) → Result (Unit {0}) × Disk → Type 0
  Ends Q (ok u, d) = Q d × Calm d
  Ends Q (err e, d) = Safe old new d × E

  pub then_ends :
      (P Q : Disk → Type 0) (m k : Io Unit) (d : Disk)
      → Ends P (m d)
      → ((d' : Disk) → P d' → Calm d' → Ends Q (k d'))
      → Ends Q ((m >> k) d)
  then_ends P Q m k d h next = cases (m d).0 (m d).1 h
    where
      cases : (r : Result (Unit {0})) (d' : Disk) → Ends P (r, d') → Ends Q (then_do r k d')
      cases (ok u) d' h = next d' h.0 h.1
      cases (err e) d' h = h

  -- A step is carried out, or there is a reason and only the fates to come are fewer.
  pub act_cases :
      (M : Result (Unit {0}) × Disk → Type 0) (f : Disk → Disk) (d : Disk)
      → Calm d
      → ((r : List Fate) → (r ≡ []) ⊎ E → M (ok tt, f (record d { fates = r })))
      → ((e : Error) (r : List Fate) → E → M (err e, record d { fates = r }))
      → M (act f d)
  unfolding act
  act_cases M f d calm next stopped = cases d.fates refl
    where
      reason : (x : Fate) (r : List Fate) → d.fates ≡ x ∷ r → E
      reason x r e = elim calm [ inl n ↦ absurd (cc (sym n ∙ e)) | inr p ↦ p ]

      cases : (fs : List Fate) → d.fates ≡ fs → M (meet fs f d)
      cases [] e = next d.fates (inl e)
      cases (succeeds ∷ r) e = next r (inr (reason succeeds r e))
      cases (fails ∷ r) e = stopped _ r (reason fails r e)
      cases (crashes ∷ r) e = stopped _ r (reason crashes r e)

  pub act_ends :
      (Q : Disk → Type 0) (f : Disk → Disk) (d : Disk)
      → ((g : Disk) → (f g).fates ≡ g.fates)
      → Safe old new d
      → Calm d
      → ((r : List Fate) → Q (f (record d { fates = r })))
      → Ends Q (act f d)
  act_ends Q f d same safe calm next =
      act_cases (Ends Q) f d calm
        (λ r c.
          (next r, elim c [ inl e ↦ inl (same (record d { fates = r }) ∙ e) | inr p ↦ inr p ]))
        (λ e r p. (safe, p))
