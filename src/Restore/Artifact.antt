-- ===== src/Restore/Artifact.antt =====
-- The backup of a workspace directory with restic: `run_restic_backup` of src/backup.rs, and the
-- location that it records, which the restore takes apart.
use Prim.Native.Char.{code}
use Prim.Native.String
use Prim.Native.String.append
use Prim.Native.String.{[], ◌∷◌}
use agentmom.Prelude.{
  String, ◌≡◌, refl, Bool, true, false, not, Option, none, some, List, [], ◌∷◌, arith, ◌==◌,
  eq_refl, eqb, if◌then◌else◌,
}
use agentmom.Text.Parts.{contains, any_char}
use agentmom.Json.{Json, get, as_str}
use agentmom.Events.{BackupArtifact}
use agentmom.Catalog.Exec.{Result, ok, err, no_repository, no_restic, restic_failed, no_snapshot_id}
use agentmom.Restore.{rsplit_once, split_location, check_location}

-- What `restic backup --json` gives where it succeeds: its lines, each as JSON where it is JSON.
abbrev pub Output : Type 0
Output = List (Option Json)

abbrev snapshot_id : Json → Option String
snapshot_id value = elim (as_str (get value "message_type")) [
  | none ↦ none
  | some t ↦ if t == "summary" then as_str (get value "snapshot_id") else none
]

abbrev id_of_line : Option Json → Option String
id_of_line none = none
id_of_line (some value) = snapshot_id value

unfoldable pub first_id : Output → Option String
unfolding get
first_id List.[] = none
first_id (List.◌∷◌ line lines) =
    let rest = first_id lines in elim (id_of_line line) [ none ↦ rest | some id ↦ some id ]

unfoldable pub location_of : String → String → String
location_of repository id = String.◌++◌ repository (String.◌++◌ "#" id)

abbrev pub artifact_at : String → String → BackupArtifact
artifact_at repository id = record {
  kind = "restic";
  location = location_of repository id;
  size_bytes = none;
}

abbrev artifact_of : String → Option String → Result BackupArtifact
artifact_of repository none = err no_snapshot_id
artifact_of repository (some id) = ok (artifact_at repository id)

abbrev backed_up : String → Option Output → Result BackupArtifact
backed_up repository none = err restic_failed
backed_up repository (some lines) = artifact_of repository (first_id lines)

-- `ambient` is RESTIC_REPOSITORY, `has_restic` whether restic is installed, and `output` what it
-- gives, none where it fails.
unfoldable pub run_restic_backup : Option String → Bool → Option Output → Result BackupArtifact
unfolding first_id
run_restic_backup none has_restic output = err no_repository
run_restic_backup (some repository) has_restic output =
    if not has_restic then err no_restic else backed_up repository output

-- A snapshot id that the restore can take from a location: there is no # in it.
abbrev pub IsPlain : String → Type 0
IsPlain id = (contains b'#' id ≡ false) × ((id == "") ≡ false)

rsplit_once-none : (s : String) → contains b'#' s ≡ false → rsplit_once b'#' s ≡ none
unfolding rsplit_once contains any_char
rsplit_once-none [] h = refl
rsplit_once-none (c ∷ s) h =
    let here : eqb (code c) b'#' ≡ false = ground arith in
    let there : any_char (λ d. eqb d b'#') s ≡ false = ground arith in
    rw (rsplit_once-none s there, here) refl

rsplit_once-location_of :
    (repository id : String)
    → contains b'#' id ≡ false
    → rsplit_once b'#' (location_of repository id) ≡ some (repository, id)
unfolding rsplit_once location_of
rsplit_once-location_of [] id h =
    rw
      (append.nil (String.◌++◌ "#" id), append.cons "#" "" id, append.nil id, rsplit_once-none id h)
      refl
rsplit_once-location_of (c ∷ s) id h =
    rw (append.cons c s (String.◌++◌ "#" id), rsplit_once, rsplit_once-location_of s id h) refl

split-location_of :
    (repository id : String)
    → (repository == "") ≡ false
    → IsPlain id
    → split_location (location_of repository id) ≡ some (repository, id)
unfolding split_location
split-location_of repository id named (plain, some_id) =
    rw (split_location, rsplit_once-location_of repository id plain, named, some_id) refl

-- Where restic backs a directory up to a repository that has a name, and reports an id that is not
-- empty and has no # in it, the artifact is recorded with a location that takes the same repository
-- and id apart again, and that a restore with the same repository and with restic accepts.
pub run_restic_backup-check_location :
    (repository id : String) (lines : Output)
    → (repository == "") ≡ false
    → IsPlain id
    → first_id lines ≡ some id
    → (run_restic_backup (some repository) true (some lines) ≡ ok (artifact_at repository id))
      × (split_location (artifact_at repository id).location ≡ some (repository, id))
      × (check_location (some repository) true (artifact_at repository id).location ≡ ok tt)
unfolding run_restic_backup check_location
run_restic_backup-check_location repository id lines named plain found =
    let parts = split-location_of repository id named plain in
    (rw found refl, parts, rw (parts, eq_refl repository) refl)
