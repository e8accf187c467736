-- ===== src/Accounts/Entry.antt =====
-- What sign-up and login do to the accounts.
use agentmom.Prelude.{
  ℕ, String, ◌≡◌, ap, ◌∙◌, inl, inr, true, false, Option, some, Bool-cases, Option-cases, find,
  exists, find_sound,
}
use agentmom.Settings.{Settings}
use agentmom.Catalog.{Catalog, Accounts, User}
use agentmom.Catalog.Exec.{Error, Result, Result-cases, ok, err}
use agentmom.Catalog.Keeps.{Keeps}
use agentmom.Accounts.Texts.{
  session_token_hash, normalize_email, normalize_full_name, validate_password, given_code,
}
use agentmom.Accounts.Sessions.{AuthUser, user_from_row, has_hash, update_user, seen}
use agentmom.Accounts.Signup.{
  has_email, with_session, insert_session, create_session_in_tx, user_by_email, sign_up,
  create_user_session, authenticate_session,
}
use agentmom.Accounts.Admission.{sign_up_cases}
use agentmom.Accounts.Reach.{From, joins, enters}

module _ (a : Accounts) (env : Settings) (now : ℕ) (token name email hash : String)
    (code : Option String) where
  pub sign_up-Reaches : Keeps (From a) (sign_up env now token name email hash code)
  sign_up-Reaches db h =
      sign_up_cases env now token name email hash code db (λ r. From a r.1) (λ e. h)
        (λ role invite t new why s free.
          joins now name email hash code role invite t new why free h)

pub create_user_session-Reaches :
    (a : Accounts) (env : Settings) (now : ℕ) (salt token full_name email : String)
    (code : Option String) (password : String)
    → Keeps (From a) (create_user_session env now salt token full_name email code password)
unfolding create_user_session
create_user_session-Reaches a env now salt token full_name email code password db h =
    elim (Result-cases (normalize_full_name full_name)) [
      | inr (x, e) ↦ rw e h
      | inl (name, e) ↦ elim (Result-cases (normalize_email email)) [
        | inr (x, m) ↦ rw (e, m) h
        | inl (address, m) ↦ elim (Result-cases (validate_password password)) [
          | inr (x, v) ↦ rw (e, m, v) h
          | inl (u, v) ↦ elim (Option-cases (env.hash_password salt password)) [
            | inl p ↦ rw (e, m, v, p) h
            | inr (hash, p) ↦
                rw (e, m, v, p)
                  (sign_up-Reaches a env now token name address hash (given_code code) db h)
          ]
        ]
      ]
    ]

-- A login reads the user of an address, touches it, and inserts a session.
module _ (env : Settings) (now : ℕ) (token email password : String) (db : Catalog) where
  pub login_cases {ℓ} :
      (P : Result (AuthUser × String) × Catalog → Type ℓ)
      → ((e : Error) → P (err e, db))
      → ((address token_hash : String) (u : User)
          → normalize_email email ≡ ok address
          → find (has_email address) db.accounts.users ≡ some u
          → env.verify_password password u.password_hash ≡ some true
          → session_token_hash env token ≡ ok token_hash
          → exists (has_hash token_hash) db.accounts.sessions ≡ false
          → P (
            ok (record (user_from_row u) { last_seen_at = some now }, token),
            record db {
              accounts = with_session now u.id token_hash (update_user u.id (seen now) db.accounts);
            },
          ))
      → P (authenticate_session env now token email password db)
  unfolding authenticate_session user_by_email create_session_in_tx insert_session
  login_cases P failed done = elim (Result-cases (normalize_email email)) [
    | inr (x, m) ↦ rw m (failed x)
    | inl (address, m) ↦ elim (Option-cases (find (has_email address) db.accounts.users)) [
      | inl n ↦ rw (m, n) (failed _)
      | inr (u, n) ↦ elim (Option-cases (env.verify_password password u.password_hash)) [
        | inl v ↦ rw (m, n, v) (failed _)
        | inr (b, v) ↦ elim (Bool-cases b) [
          | inr f ↦ rw (m, n, v, f) (failed _)
          | inl f ↦
              let verified : env.verify_password password u.password_hash ≡ some true =
                v ∙ ap some f in
              elim (Result-cases (session_token_hash env token)) [
                | inr (x, s) ↦ rw (m, n, verified, n, s) (failed _)
                | inl (h, s) ↦ elim (Bool-cases (exists (has_hash h) db.accounts.sessions)) [
                  | inl t ↦ rw (m, n, verified, n, s, t) (failed _)
                  | inr t ↦ rw (m, n, verified, n, s, t) (done address h u m n verified s t)
                ]
              ]
        ]
      ]
    ]
  ]

pub authenticate_session-Reaches :
    (a : Accounts) (env : Settings) (now : ℕ) (token email password : String)
    → Keeps (From a) (authenticate_session env now token email password)
authenticate_session-Reaches a env now token email password db h =
    login_cases env now token email password db (λ r. From a r.1) (λ e. h)
      (λ address hash u m n v s t.
        enters now u hash (find_sound (has_email address) db.accounts.users u n).0 t h)
