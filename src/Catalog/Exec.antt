-- ===== src/Catalog/Exec.antt =====
-- Statements against the catalog. A statement that fails leaves what the ones before it wrote,
-- unless they run in a transaction.
use agentmom.Prelude.{
  ℕ, String, Bool, true, false, Option, none, some, count, update, ◌≡◌, refl, ◌⊎◌, inl, inr,
}
use agentmom.Catalog.{Catalog, Job, Node, Workspace}

-- One constructor for each message that the modelled code fails with.
pub data Error : Type 0 where
  bad_name bad_worker_url bad_url too_large overflow : Error
  constraint no_row : Error
  workspace_missing workspace_exists node_missing job_missing backup_missing : String → Error
  invalid_node_status invalid_terminal_status empty_version : Error
  no_ready_nodes no_ready_nodes_with_capacity : Error
  node_not_ready node_without_capacity node_not_claimable node_not_recovery_ready : String → Error
  claim_failed not_claimed_by assigned_elsewhere unassigned : String → Error
  same_nodes unauthorized : Error
  not_recoverable not_on_source : String → Error
  unauthenticated forbidden account_missing invalid_signup_code auth_config : Error
  invite_label_required bad_max_uses bad_invite_role bad_email name_required : Error
  weak_password email_taken bad_password_hash own_user setup_names_required : Error
  no_registered_nodes : Error
  bad_job_kind no_assigned_node backup_id_required bad_restore_state : Error
  backup_not_restic backup_not_succeeded backup_elsewhere : String → Error
  bad_backup_id no_repository no_restic missing_snapshot other_repository : Error
  restic_failed no_snapshot_id workspace_dir_missing : Error
  database_failed clock_failed bad_machine_dir : Error
  io_failed crashed not_restored : Error
  vm_absent vm_not_running vm_not_paused vm_not_suspended snapshot_missing vm_exists
        command_failed :
      Error
  no_free_address lock_timeout no_free_port bad_port_range bad_preview : Error
  target_not_ready over_active over_cpus over_memory : String → Error

pub data Result {ℓ} (A : Type ℓ) : Type ℓ where
  ok : A → Result A
  err : Error → Result A

abbrev pub Exec : Type 0 → Type 0
Exec A = Catalog → Result A × Catalog

module _ {A B : Type 0} where
  abbrev pub continue : Result A → (A → Exec B) → Exec B
  continue (ok a) f db = f a db
  continue (err e) f db = (err e, db)

  infixl 5 ◌>>=◌ ◌>>◌
  abbrev pub ◌>>=◌ : Exec A → (A → Exec B) → Exec B
  ◌>>=◌ m f db = continue (m db).0 f (m db).1

  abbrev pub ◌>>◌ : Exec A → Exec B → Exec B
  m >> k = m >>= λ _. k

module _ {A : Type 0} where
  abbrev pub pure : A → Exec A
  pure a db = (ok a, db)

  abbrev pub raise : Error → Exec A
  raise e db = (err e, db)

  abbrev pub lift : Result A → Exec A
  lift r db = (r, db)

  -- A read of the tables.
  abbrev pub query : (Catalog → A) → Exec A
  query f db = (ok (f db), db)

  -- `.optional()?.ok_or_else(…)`, and `query_row` on a row that must be there
  abbrev pub ok_or : Option A → Error → Result A
  ok_or none e = err e
  ok_or (some a) e = ok a

  abbrev settle : Result A → Catalog → Catalog → Result A × Catalog
  settle (ok a) before after = (ok a, after)
  settle (err e) before after = (err e, before)

  -- BEGIN … COMMIT; a transaction that is dropped is rolled back.
  abbrev pub transaction : Exec A → Exec A
  transaction m db = settle (m db).0 db (m db).1

abbrev pub guard : Bool → Error → Exec Unit
guard true e = pure tt
guard false e = raise e

-- UPDATE returns the number of rows that it changed.
abbrev pub update_jobs : (Job → Bool) → (Job → Job) → Exec ℕ
update_jobs p f db = (ok (count p db.jobs), record db { jobs = update p f db.jobs })

abbrev pub update_nodes : (Node → Bool) → (Node → Node) → Exec ℕ
update_nodes p f db = (ok (count p db.nodes), record db { nodes = update p f db.nodes })

abbrev pub update_workspaces : (Workspace → Bool) → (Workspace → Workspace) → Exec ℕ
update_workspaces p f db =
    (ok (count p db.workspaces), record db { workspaces = update p f db.workspaces })

pub Result-cases {ℓ} :
    {A : Type ℓ} (r : Result A) → ((a : A) × (r ≡ ok a)) ⊎ ((e : Error) × (r ≡ err e))
Result-cases (ok a) = inl (a, refl)
Result-cases (err e) = inr (e, refl)
