-- ===== src/Restore.antt =====
-- The restore of a workspace directory from a restic backup: `run_restic_restore` of
-- src/backup.rs, with the steps at which it can fail or be cut off by a crash.
pub mod Steps
pub mod Safety
pub mod Progress
pub mod Retries
pub mod Artifact
use Prim.Native.Char.{code}
use Prim.Native.String
use Prim.Native.String.{[], ◌∷◌}
use agentmom.Prelude.{
  subst, ℕ, zero, suc, ◌+◌, ◌-◌, ◌*◌, ◌/◌, ◌%◌, ◌^◌, ◌≤◌, ◌<◌, String, ◌≡◌, refl, sym, ap, ◌∙◌, ◌≢◌,
  ◌↔◌, ◌⊎◌, inl, inr, Bool, true, false, not, ◌&&◌, ◌||◌, Option, none, some, List, [], ◌∷◌, ◌++◌,
  map, arith, ◌==◌, eq_iff, eq_refl, ltb, leb, eqb, if◌then◌else◌, Bool-cases, Option-cases, leb→le,
  ltb→lt, apart, is_some_of, is_some, i64_max, length, count, sum_where, update, keep, find, exists,
  best, order_by, pick, All, Has, count-append, count-update-le, count_mono, count-update_mono,
  count-update_same, keep-update, count-update_ends, count-update_where, count-split,
  count-zero_of-exists, sum_where-append, sum_where_mono, sum_where-update_same, Has-count,
  count_others_zero, find_sound, find_unique, find-update, update_none, count-update_self,
  some_counted, some_existing, best-least, best-greatest, exists-Has, best_sound, best-none,
  count-keep, count-keep-not, find-append_new, find-count_zero, exists-count_zero, All-append,
  update-All, All-single, All-mono, Unique, append-Unique, update-Unique, keep-Unique, Numbered,
  append-Numbered, update-Numbered, keep-Numbered,
}
use agentmom.Text.{is_alphanumeric, all_bytes}
use agentmom.Catalog.Exec.{
  Result, Error, ok, err, bad_backup_id, no_repository, no_restic, missing_snapshot,
  other_repository, io_failed, crashed, not_restored,
}

-- A directory tree: all of some content, or a tree of which a part is missing.
pub data Tree : Type 0 where
  whole : String → Tree
  damaged : Tree

-- What happens at a step: it is carried out, it fails, or the process ends before it.
pub data Fate : Type 0 where
  succeeds fails crashes : Fate

-- The workspace directory, `.restore-ID` with the workspace directory inside, where there is one,
-- `.pre-restore-ID`, and the fates of the steps to come; past the end of the list all succeed.
pub record Disk : Type 0 where
  pub workspace : Option Tree
  pub staged : Option (Option Tree)
  pub previous : Option Tree
  pub fates : List Fate

abbrev pub Io : Type 0 → Type 0
Io A = Disk → Result A × Disk

abbrev pub then_do : Result (Unit {0}) → Io Unit → Io Unit
then_do (ok u) k d = k d
then_do (err e) k d = (err e, d)

infixl 5 ◌>>◌
abbrev pub ◌>>◌ : Io Unit → Io Unit → Io Unit
◌>>◌ m k d = then_do (m d).0 k (m d).1

abbrev pub done : Io Unit
done d = (ok tt, d)

abbrev pub stop : Error → Io Unit
stop e d = (err e, d)

abbrev pub meet : List Fate → (Disk → Disk) → Io Unit
meet [] f d = (ok tt, f d)
meet (succeeds ∷ rest) f d = (ok tt, f (record d { fates = rest }))
meet (fails ∷ rest) f d = (err io_failed, record d { fates = rest })
meet (crashes ∷ rest) f d = (err crashed, record d { fates = rest })

-- One step, which changes the disk where it is carried out and else leaves it alone.
unfoldable pub act : (Disk → Disk) → Io Unit
act f d = meet d.fates f d

-- remove_dir_all first damages a tree and then removes what is left.
abbrev pub hurt : Option Tree → Option Tree
hurt none = none
hurt (some t) = some damaged

abbrev pub hurt_staged : Option (Option Tree) → Option (Option Tree)
hurt_staged none = none
hurt_staged (some t) = some (hurt t)

unfoldable pub remove_previous : Io Unit
unfolding act
remove_previous =
    act (λ d. record d { previous = hurt d.previous }) >> act (λ d. record d { previous = none })

unfoldable pub remove_restore_tmp : Io Unit
unfolding act
remove_restore_tmp =
    act (λ d. record d { staged = hurt_staged d.staged }) >> act (λ d. record d { staged = none })

abbrev pub has_tmp : Disk → Bool
has_tmp d = is_some d.staged

-- restored_workspace_dir_path on the restore directory
abbrev pub inside : Option (Option Tree) → Option Tree
inside none = none
inside (some t) = t

abbrev pub restored : Disk → Option Tree
restored d = inside d.staged

-- fs::rename of the restored directory, and of the previous one, to the workspace directory
unfoldable pub place_restored : Io Unit
unfolding act
place_restored = act (λ d. record d { workspace = restored d; staged = some none })

unfoldable pub place_previous : Io Unit
unfolding act
place_previous = act (λ d. record d { workspace = d.previous; previous = none })

abbrev pub when : Bool → Io Unit → Io Unit
when true m = m
when false m = done

unfoldable pub remove_old_previous : Io Unit
unfolding remove_previous
remove_old_previous d = when (is_some d.previous) remove_previous d

unfoldable pub recover_interrupted_restore : Io Unit
unfolding place_restored place_previous remove_old_previous
recover_interrupted_restore d =
    if is_some d.workspace
    then done d
    else if is_some (restored d)
    then (place_restored >> remove_old_previous) d
    else when (is_some d.previous) place_previous d

-- fs::rename onto a directory that is there fails.
unfoldable pub set_aside : Io Unit
unfolding act
set_aside d =
    if is_some d.previous
    then stop io_failed d
    else act (λ d. record d { previous = d.workspace; workspace = none }) d

-- The error path of the last rename: the directory that was set aside is moved back, and its own
-- failure is ignored. A crash ends everything.
abbrev pub is_crash : Error → Bool
is_crash crashed = true
is_crash _ = false

abbrev pub moved_back : Result (Unit {0}) → Error → Error
moved_back (ok u) e = e
moved_back (err f) e = if is_crash f then f else e

unfoldable pub move_back : Error → Io Unit
unfolding place_previous
move_back e d =
    if not (is_crash e) && is_some d.previous && not (is_some d.workspace)
    then (err (moved_back (place_previous d).0 e), (place_previous d).1)
    else (err e, d)

abbrev pub or_move_back : Result (Unit {0}) → Io Unit
or_move_back (ok u) d = (ok u, d)
or_move_back (err e) d = move_back e d

unfoldable pub commit_restored_workspace_dir : Io Unit
unfolding set_aside place_restored move_back remove_old_previous
commit_restored_workspace_dir =
    (λ d. when (is_some d.workspace) set_aside d)
    >> (λ d. or_move_back (place_restored d).0 (place_restored d).1)
    >> remove_old_previous

-- The restic command writes the restored tree bit by bit.
unfoldable pub run_restic : String → Io Unit
unfolding act
run_restic content =
    act (λ d. record d { staged = some (some damaged) })
    >> act (λ d. record d { staged = some (some (whole content)) })

-- The part of `run_restic_restore` that touches the disk; `content` is what the snapshot holds.
unfoldable pub restore_dirs : String → Io Unit
unfolding recover_interrupted_restore remove_restore_tmp act run_restic
    commit_restored_workspace_dir remove_old_previous
restore_dirs content =
    recover_interrupted_restore
    >> (λ d. when (has_tmp d) remove_restore_tmp d)
    >> act (λ d. record d { staged = some none })
    >> run_restic content
    >> (λ d. when (not (is_some (restored d))) (stop not_restored) d)
    >> remove_old_previous
    >> commit_restored_workspace_dir
    >> remove_restore_tmp

abbrev is_id_byte : ℕ → Bool
is_id_byte b = is_alphanumeric b || eqb b b'-' || eqb b b'_'

unfoldable pub validate_backup_id_path_component : String → Result (Unit {0})
unfolding all_bytes
validate_backup_id_path_component id =
    if id == "" || not (all_bytes is_id_byte id) then err bad_backup_id else ok tt

-- str::rsplit_once
unfoldable pub rsplit_once : ℕ → String → Option (String × String)
rsplit_once sep [] = none
rsplit_once sep (c ∷ s) = elim (rsplit_once sep s) [
  | some (before, after) ↦ some (c ∷ before, after)
  | none ↦ if eqb (code c) sep then some ([], s) else none
]

-- The repository and the snapshot of a location, which must both be there.
unfoldable pub split_location : String → Option (String × String)
split_location location = elim (rsplit_once b'#' location) [
  | none ↦ none
  | some (repository, snapshot) ↦
      if not (repository == "") && not (snapshot == "") then some (repository, snapshot) else none
]

unfoldable pub check_location : Option String → Bool → String → Result (Unit {0})
check_location ambient has_restic location = elim ambient [
  | none ↦ err no_repository
  | some repository ↦ if not has_restic then err no_restic else elim (split_location location) [
    | none ↦ err missing_snapshot
    | some (own, snapshot) ↦ if own == repository then ok tt else err other_repository
  ]
]

-- `ambient` is RESTIC_REPOSITORY, `has_restic` whether restic is installed, and `contents` what the
-- snapshot at a location holds.
unfoldable pub run_restic_restore :
    Option String → Bool → (String → String) → String → String → Io Unit
run_restic_restore ambient has_restic contents id location =
    (λ d. (validate_backup_id_path_component id, d))
    >> (λ d. (check_location ambient has_restic location, d))
    >> restore_dirs (contents location)
