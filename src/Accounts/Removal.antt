-- ===== src/Accounts/Removal.antt =====
-- The deletion of a user: what is left of it.
use agentmom.Prelude.{
  ℕ, String, ◌≡◌, refl, inl, inr, not, Option, none, some, arith, eqb, Bool-cases, Option-cases,
  count, find, false,
}
use agentmom.Settings.{Settings}
use agentmom.Catalog.{Catalog, Accounts, Workspace}
use agentmom.Catalog.Exec.{
  Error, Result, Result-cases, ok, err, guard, ◌>>◌, account_missing, own_user,
}
use agentmom.Catalog.Keeps.{Keeps, bind_after}
use agentmom.Jobs.{create_job}
use agentmom.Workspaces.{workspace_set_desired, workspace_mark_status}
use agentmom.Accounts.Sessions.{require_admin, has_user_id, is_owned_by}
use agentmom.Accounts.Owned.{
  removal_job, remove_owned, delete_user, delete_user_and_workspace, admin_delete_user,
}
use agentmom.Accounts.Reach.{Reaches, From, deletes, deleted}
use agentmom.Accounts.Paths.{require_admin-Reaches}
use agentmom.Accounts.Others.{accounts-create_job}

module _ (env : Settings) (job : String) (now : ℕ) where
  accounts-remove_owned :
      (owned : Option Workspace) (db : Catalog)
      → (remove_owned env job now owned db).1.accounts ≡ db.accounts
  unfolding remove_owned workspace_set_desired workspace_mark_status
  accounts-remove_owned none db = refl
  accounts-remove_owned (some w) db = elim (Option-cases w.node_id) [
    | inl n ↦ rw n refl
    | inr (node, n) ↦
        rw n (elim (Result-cases (create_job env job now (removal_job w node) (marked w db)).0) [
          | inl (j, c) ↦ rw c (accounts-create_job env job now (removal_job w node) (marked w db))
          | inr (x, c) ↦ rw c (accounts-create_job env job now (removal_job w node) (marked w db))
        ])
  ]
    where
      marked : Workspace → Catalog → Catalog
      marked w db =
          (workspace_mark_status now w.name "removing"
            (workspace_set_desired now w.name "removed" db).1).1

  -- The removal of the workspace fails and leaves the accounts alone, or the sessions and the row
  -- of the user are deleted.
  pub delete_cases {ℓ} :
      (P : Result (Unit {0}) → Accounts → Type ℓ) (id : ℕ) (db : Catalog)
      → ((e : Error) → P (err e) db.accounts)
      → (count (has_user_id id) db.accounts.users ≡ 0
          → P (err account_missing) (deleted id db.accounts))
      → (eqb (count (has_user_id id) db.accounts.users) 0 ≡ false
          → P (ok tt) (deleted id db.accounts))
      → let r = delete_user_and_workspace env job now id db in P r.0 r.1.accounts
  unfolding delete_user_and_workspace delete_user
  delete_cases P id db failed missing done =
      let owned = find (is_owned_by id) db.workspaces in
      let kept = accounts-remove_owned owned db in
      elim (Result-cases (remove_owned env job now owned db).0) [
        | inr (x, e) ↦ rw (e, kept) (failed x)
        | inl (u, e) ↦ elim (Bool-cases (eqb (count (has_user_id id) db.accounts.users) 0)) [
          | inl n ↦ rw (e, kept, n) (missing (ground arith))
          | inr n ↦ rw (e, kept, n) (done n)
        ]
      ]

module _ (a : Accounts) (env : Settings) (job : String) (now : ℕ) where
  delete-Reaches : (id : ℕ) → Keeps (From a) (delete_user_and_workspace env job now id)
  delete-Reaches id db h =
      delete_cases env job now (λ r b. Reaches a b) id db (λ e. h) (λ n. deletes id h)
        (λ n. deletes id h)

  pub admin_delete_user-Reaches :
      (header : Option String) (id : ℕ) → Keeps (From a) (admin_delete_user env job now header id)
  unfolding admin_delete_user
  admin_delete_user-Reaches header id db h =
      bind_after (From a) (require_admin env now header)
        (λ admin.
          guard (not (eqb admin.id id)) own_user >> delete_user_and_workspace env job now id)
        db (require_admin-Reaches a env now header db h)
        (λ admin e. elim (Bool-cases (eqb admin.id id)) [
          | inl t ↦ rw t (require_admin-Reaches a env now header db h)
          | inr t ↦ rw t (
              delete-Reaches id (require_admin env now header db).1
                (require_admin-Reaches a env now header db h))
        ])
