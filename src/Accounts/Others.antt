-- ===== src/Accounts/Others.antt =====
-- The operations on the workspace of a user change little of the accounts.
use Prim.Native.String
use agentmom.Text.{trim}
use agentmom.Prelude.{
  subst, ℕ, String, ◌≡◌, refl, sym, ◌∙◌, inl, inr, ◌||◌, Option, none, some, arith, ◌==◌,
  Bool-cases, Option-cases, find,
}
use agentmom.Settings.{Settings}
use agentmom.Catalog.{Catalog, Workspace, Accounts}
use agentmom.Catalog.Exec.{Result-cases, pure, ◌>>=◌}
use agentmom.Catalog.Keeps.{Keeps, bind_after}
use agentmom.Names.{workspace_slug_from_name}
use agentmom.Jobs.{CreateJobRequest, create_job, insert_job}
use agentmom.Jobs.Creation.{create_cases}
use agentmom.Workspaces.{WorkspaceUpsert, workspace_upsert_pending_on_ready_node, workspace_get}
use agentmom.Workspaces.Placing.{upsert_cases}
use agentmom.Accounts.Sessions.{
  AuthUser, current_user, user_get, update_user, has_user_id, workspace_for_user,
}
use agentmom.Accounts.Owned.{
  create_owned_workspace, owned_upsert, ensure_owned_workspace, set_up, setup_me, owned_job,
  renamed,
}
use agentmom.Accounts.Reach.{Reaches, From, alters}
use agentmom.Accounts.Paths.{current_user-Reaches}

pub accounts-create_job :
    (env : Settings) (id : String) (now : ℕ) (request : CreateJobRequest) (db : Catalog)
    → (create_job env id now request db).1.accounts ≡ db.accounts
unfolding insert_job
accounts-create_job env id now request db =
    create_cases (λ d. d.accounts ≡ db.accounts) env id now request db refl (λ name. ground arith)

pub accounts-place_workspace :
    (env : Settings) (now : ℕ) (input : WorkspaceUpsert) (requested : Option String) (db : Catalog)
    → (workspace_upsert_pending_on_ready_node env now input requested db).1.accounts ≡ db.accounts
accounts-place_workspace env now input requested db =
    upsert_cases env now input db (λ r. r.1.accounts ≡ db.accounts) requested (λ e. refl)
      (λ cutoff node slug q p n c. refl)

module _ (env : Settings) (job : String) (now : ℕ) where
  accounts-create_owned_workspace :
      (user : AuthUser) (agent : String) (db : Catalog)
      → (create_owned_workspace env job now user agent db).1.accounts ≡ db.accounts
  unfolding create_owned_workspace workspace_get
  accounts-create_owned_workspace user agent db =
      elim (Result-cases
        (workspace_slug_from_name env (String.◌++◌ user.email (String.◌++◌ " " agent)))) [
          | inr (x, e) ↦ rw e refl
          | inl (name, e) ↦
              let placed =
                workspace_upsert_pending_on_ready_node env now (owned_upsert user agent name) none
                  db in
              let kept = accounts-place_workspace env now (owned_upsert user agent name) none db in
              elim (Result-cases placed.0) [
                | inr (x, p) ↦ rw (e, p) kept
                | inl (node, p) ↦
                    let request = owned_job user name node in
                    elim (Result-cases (create_job env job now request placed.1).0) [
                      | inr (x, c) ↦
                          rw (e, p, c) (accounts-create_job env job now request placed.1 ∙ kept)
                      | inl (j, c) ↦
                          rw (e, p, c) (accounts-create_job env job now request placed.1 ∙ kept)
                    ]
              ]
        ]

module _ (a : Accounts) (env : Settings) (job : String) (now : ℕ) where
  ensure_owned-Reaches :
      (user : AuthUser) (agent : String) (owned : Option Workspace)
      → Keeps (From a) (ensure_owned_workspace env job now user agent owned)
  unfolding ensure_owned_workspace
  ensure_owned-Reaches user agent (some w) db h = h
  ensure_owned-Reaches user agent none db h =
      subst (Reaches a) (sym (accounts-create_owned_workspace env job now user agent db)) h

  set_up-Reaches :
      (user : AuthUser) (name agent : String) → Keeps (From a) (set_up env job now user name agent)
  unfolding set_up user_get
  set_up-Reaches user name agent db h = elim (Bool-cases (name == "" || agent == "")) [
    | inl e ↦ rw e h
    | inr e ↦
        let named = alters user.id (renamed now name) (λ u. refl) (λ u. refl) h in
        let db1 = record db { accounts = update_user user.id (renamed now name) db.accounts } in
        rw e (
          bind_after (From a)
            (ensure_owned_workspace env job now user agent (workspace_for_user user.id db1))
            (λ w. user_get user.id >>= λ refreshed. pure (refreshed, w)) db1
            (ensure_owned-Reaches user agent (workspace_for_user user.id db1) db1 named)
            (λ w q.
              elim (Option-cases (
                find (has_user_id user.id)
                  (ensure_owned_workspace env job now user agent (workspace_for_user user.id db1)
                    db1).1.accounts.users)) [
                      | inl n ↦ rw n (
                          ensure_owned-Reaches user agent (workspace_for_user user.id db1) db1
                            named)
                      | inr (u, n) ↦ rw n (
                          ensure_owned-Reaches user agent (workspace_for_user user.id db1) db1
                            named)
                    ]))
  ]

  pub setup_me-Reaches :
      (header : Option String) (full_name agent_name : String)
      → Keeps (From a) (setup_me env job now header full_name agent_name)
  unfolding setup_me
  setup_me-Reaches header full_name agent_name db h =
      bind_after (From a) (current_user env now header)
        (λ user. set_up env job now user (trim full_name) (trim agent_name)) db
        (current_user-Reaches a env now header db h)
        (λ user e.
          set_up-Reaches user (trim full_name) (trim agent_name) (current_user env now header db).1
            (current_user-Reaches a env now header db h))
