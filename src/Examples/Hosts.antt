-- ===== src/Examples/Hosts.antt =====
-- A host: a restore that crashes twice, the address of a new machine, and a machine that is
-- suspended.
use agentmom.Prelude.{
  ℕ, ◌+◌, String, ◌≡◌, refl, inl, true, false, Option, none, some, List, [], ◌∷◌,
}
use agentmom.Catalog.Exec.{Result, ok}
use agentmom.Restore.{
  whole, damaged, Fate, succeeds, fails, crashes, Disk, validate_backup_id_path_component,
  check_location, split_location, rsplit_once, restore_dirs, run_restic_restore,
  recover_interrupted_restore, remove_restore_tmp, act, run_restic, place_restored,
  remove_old_previous,
}
use agentmom.Restore.Steps.{Safe}
use agentmom.Restore.Retries.{attempt, attempts, attempts-Safe, attempts-Restored}
use agentmom.Text.{all_bytes}
use agentmom.Machines.Addresses.{
  Entry, spec, no_spec, entries, Allocation, allocate_machine_index,
  allocate_machine_index-Allocation,
}
use agentmom.Machines.Vm.{Tools, Machine, untouched}
use agentmom.Machines.Lifecycle.{Operation, operate, Reached, Ends}
use agentmom.Machines.Ways.{operate-Reached}

abbrev disk : Disk
disk = record { workspace = some (whole "old"); staged = none; previous = none; fates = [] }

abbrev contents : String → String
contents s = "new"

-- The first attempt crashes between the two renames of the commit, the second in its recovery.
abbrev crashing : List (List Fate)
crashing =
    (succeeds ∷ succeeds ∷ succeeds ∷ succeeds ∷ crashes ∷ [])
    ∷ (succeeds ∷ crashes ∷ [])
    ∷ (fails ∷ [])
    ∷ []

abbrev repository : Option String
repository = some "repo"

attempts-Safe_example :
    Safe "old" "new" (attempts repository true contents "b1" "repo#s1" crashing disk)
attempts-Safe_example =
    attempts-Safe repository true contents "b1" "repo#s1" "old" crashing disk
      (inl (whole "old", refl, inl refl))

valid_id : validate_backup_id_path_component "b1" ≡ ok tt
unfolding validate_backup_id_path_component all_bytes
valid_id = refl

right_repository : check_location repository true "repo#s1" ≡ ok tt
unfolding check_location split_location rsplit_once
right_repository = refl

abbrev last_attempt : Result (Unit {0}) × Disk
last_attempt =
    attempt repository true contents "b1" "repo#s1" []
      (attempts repository true contents "b1" "repo#s1" crashing disk)

attempts-Restored_example :
    (last_attempt.0 ≡ ok tt)
    × (last_attempt.1.workspace ≡ some (whole "new"))
    × (last_attempt.1.staged ≡ none)
    × (last_attempt.1.previous ≡ none)
attempts-Restored_example =
    attempts-Restored repository true contents "b1" "repo#s1" "old" crashing disk
      (inl (whole "old", refl, inl refl)) valid_id right_repository

-- Without a workspace directory before, a tree that restic was cut off while writing is moved into
-- place by the next attempt, which then fails in restic.
promoted :
    (attempts repository true contents "b1" "repo#s1"
      ((succeeds ∷ succeeds ∷ crashes ∷ [])
        ∷ (succeeds ∷ succeeds ∷ succeeds ∷ succeeds ∷ fails ∷ [])
        ∷ [])
      (record disk { workspace = none })).workspace
    ≡ some damaged
unfolding run_restic_restore validate_backup_id_path_component all_bytes check_location
    split_location rsplit_once restore_dirs recover_interrupted_restore remove_restore_tmp act
    run_restic place_restored remove_old_previous
promoted = refl

abbrev machines : List Entry
machines =
    spec (record { name = "mom-a"; machine_index = 10 })
    ∷ no_spec
    ∷ spec (record { name = "mom-b"; machine_index = 12 })
    ∷ []

allocate_machine_index-Allocation_example :
    Allocation machines "mom-c" (allocate_machine_index (entries machines) "mom-c")
allocate_machine_index-Allocation_example = allocate_machine_index-Allocation machines "mom-c"

-- Tools that always succeed, and whose world counts the commands.
abbrev tools : Tools ℕ
tools = record { perform = λ c n. (true, n + 1); is_active = λ n. some "active" }

abbrev machine : Machine ℕ
machine = record {
  world = 0;
  exists_dir = true;
  state = "running";
  snapshot = false;
  complete = false;
  phase = untouched;
  taken = [];
}

operate-Reached_example :
    Ends tools machine
      (Reached tools Operation.suspends machine)
      (operate tools Operation.suspends machine)
operate-Reached_example = operate-Reached tools Operation.suspends machine
