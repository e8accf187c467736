-- ===== src/Api/Requests.antt =====
-- What a request of a user may do: `authorize_workspace` and `api_create_job`.
use agentmom.Prelude.{
  ℕ, String, ◌≡◌, inl, inr, true, ◌||◌, Option, some, arith, ◌==◌, eq_iff, Bool-cases, Option-cases,
  find,
}
use agentmom.Settings.{Settings}
use agentmom.Catalog.{Catalog, Accounts, Workspace, User}
use agentmom.Catalog.Exec.{
  forbidden, Error, Result, Result-cases, continue, ok, err, pure, guard, ◌>>=◌, ◌>>◌,
}
use agentmom.Workspaces.{workspace_get, is_named}
use agentmom.Accounts.Texts.{session_token_hash, cookie_value, session_cookie_name}
use agentmom.Accounts.Sessions.{
  AuthUser, user_from_row, current_user, require_admin, authorize_workspace, is_owned_by,
  user_of_session, touch_session, update_user, seen,
}

-- Only the accounts differ.
abbrev pub with_touched : Accounts → Catalog → Catalog
with_touched a db = record db { accounts = a }

-- The cookie of the request is that of a session of a user.
pub record SessionOf (env : Settings) (header : Option String) (a : Accounts) (u : User)
    : Type 0 where
  pub token : String
  pub hash : String
  pub cookie : cookie_value header session_cookie_name ≡ some token
  pub hashed : session_token_hash env token ≡ ok hash
  pub found : user_of_session hash a ≡ some u

module _ (env : Settings) (now : ℕ) (header : Option String) (db : Catalog) where
  pub user_cases {ℓ} :
      (P : Result AuthUser × Catalog → Type ℓ)
      → ((e : Error) → P (err e, db))
      → ((u : User) (a : Accounts)
          → SessionOf env header db.accounts u
          → P (ok (record (user_from_row u) { last_seen_at = some now }), with_touched a db))
      → P (current_user env now header db)
  unfolding current_user
  user_cases P refused known = elim (Option-cases (cookie_value header session_cookie_name)) [
    | inl c ↦ rw c (refused _)
    | inr (token, c) ↦ elim (Result-cases (session_token_hash env token)) [
      | inr (x, s) ↦ rw (c, s) (refused _)
      | inl (hash, s) ↦ elim (Option-cases (user_of_session hash db.accounts)) [
        | inl f ↦ rw (c, s, f) (refused _)
        | inr (u, f) ↦
            rw (c, s, f)
              (known u (update_user u.id (seen now) (touch_session now hash db.accounts))
                (record { token = token; hash = hash; cookie = c; hashed = s; found = f }))
      ]
    ]
  ]

  pub admin_cases {ℓ} :
      (P : Result AuthUser × Catalog → Type ℓ)
      → ((e : Error) (a : Accounts) → P (err e, with_touched a db))
      → ((u : User) (a : Accounts)
          → SessionOf env header db.accounts u
          → u.role ≡ "admin"
          → P (ok (record (user_from_row u) { last_seen_at = some now }), with_touched a db))
      → P (require_admin env now header db)
  unfolding require_admin
  admin_cases P refused known =
      user_cases (λ r. P (continue r.0 (λ u. guard (u.role == "admin") forbidden >> pure u) r.1))
        (λ e. refused e db.accounts)
        (λ u a s. elim (Bool-cases (u.role == "admin")) [
          | inr t ↦ rw t (refused _ a)
          | inl t ↦ rw t (known u a s (ground (arith, eq_iff u.role "admin")))
        ])

  pub authorize_cases {ℓ} :
      (P : Result Workspace × Catalog → Type ℓ) (name : String)
      → ((e : Error) (a : Accounts) → P (err e, with_touched a db))
      → ((u : User) (w : Workspace) (a : Accounts)
          → SessionOf env header db.accounts u
          → find (is_named name) db.workspaces ≡ some w
          → (u.role == "admin" || is_owned_by u.id w) ≡ true
          → P (ok w, with_touched a db))
      → P (authorize_workspace env now header name db)
  unfolding authorize_workspace workspace_get
  authorize_cases P name refused known =
      user_cases
        (λ r. P (
          continue r.0
            (λ u. workspace_get name >>= λ w.
              guard (u.role == "admin" || is_owned_by u.id w) forbidden >> pure w)
            r.1))
        (λ e. refused e db.accounts)
        (λ u a s. elim (Option-cases (find (is_named name) db.workspaces)) [
          | inl f ↦ rw f (refused _ a)
          | inr (w, f) ↦ elim (Bool-cases (u.role == "admin" || is_owned_by u.id w)) [
            | inr t ↦ rw (f, t) (refused _ a)
            | inl t ↦ rw (f, t) (known u w a s f t)
          ]
        ])
