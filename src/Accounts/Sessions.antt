-- ===== src/Accounts/Sessions.antt =====
-- The session of a request and what it lets through: `current_user`, `require_admin`,
-- `authorize_workspace`, `visible_workspaces`, `logout` and the statements they run.
use agentmom.Prelude.{
  ℕ, String, Bool, false, not, ◌||◌, Option, none, some, List, [], ◌∷◌, ◌==◌, eqb, if◌then◌else◌,
  update, keep, find, best, order_by,
}
use agentmom.Settings.{Settings}
use agentmom.Text.Parts.{comes_before}
use agentmom.Catalog.{Catalog, Workspace, Accounts, User, Session}
use agentmom.Catalog.Exec.{
  Exec, pure, lift, query, ok_or, guard, ◌>>=◌, ◌>>◌, ok, unauthenticated, forbidden,
  account_missing,
}
use agentmom.Workspaces.{workspace_get}
use agentmom.Accounts.Texts.{session_token_hash, cookie_value, session_cookie_name}

pub record AuthUser : Type 0 where
  pub id : ℕ
  pub email : String
  pub full_name : String
  pub role : String
  pub invite_id : Option ℕ
  pub last_seen_at : Option ℕ

-- user_from_row
abbrev pub user_from_row : User → AuthUser
user_from_row u = record {
  id = u.id;
  email = u.email;
  full_name = u.full_name;
  role = u.role;
  invite_id = u.invite_id;
  last_seen_at = u.last_seen_at;
}

-- An UPDATE or DELETE on the tables of the accounts.
abbrev pub with_accounts : (Accounts → Accounts) → Exec Unit
with_accounts f db = (ok tt, record db { accounts = f db.accounts })

abbrev pub has_user_id : ℕ → User → Bool
has_user_id id u = eqb u.id id

abbrev pub has_hash : String → Session → Bool
has_hash hash s = s.token_hash == hash

abbrev pub update_user : ℕ → (User → User) → Accounts → Accounts
update_user id f a = record a { users = update (has_user_id id) f a.users }

abbrev pub seen : ℕ → User → User
seen now u = record u { last_seen_at = some now; updated_at = now }

abbrev pub touch_session : ℕ → String → Accounts → Accounts
touch_session now hash a = record a {
  sessions = update (has_hash hash) (λ s. record s { last_seen_at = now }) a.sessions;
}

abbrev user_of : Option Session → List User → Option User
user_of none users = none
user_of (some s) users = find (has_user_id s.user_id) users

-- FROM sessions JOIN users ON users.id = sessions.user_id WHERE sessions.token_hash = ?1
unfoldable pub user_of_session : String → Accounts → Option User
user_of_session hash a = user_of (find (has_hash hash) a.sessions) a.users

-- `header` is the header `cookie` of the request.
unfoldable pub current_user : Settings → ℕ → Option String → Exec AuthUser
current_user env now header = do
  token ← lift (ok_or (cookie_value header session_cookie_name) unauthenticated)
  hash ← lift (session_token_hash env token)
  found ← query (λ db. user_of_session hash db.accounts)
  user ← lift (ok_or found unauthenticated)
  with_accounts (touch_session now hash)
  with_accounts (update_user user.id (seen now))
  pure (record (user_from_row user) { last_seen_at = some now })

unfoldable pub require_admin : Settings → ℕ → Option String → Exec AuthUser
require_admin env now header = do
  user ← current_user env now header
  guard (user.role == "admin") forbidden
  pure user

abbrev pub is_owned_by : ℕ → Workspace → Bool
is_owned_by id w = elim w.owner_user_id [ none ↦ false | some owner ↦ eqb owner id ]

unfoldable pub authorize_workspace : Settings → ℕ → Option String → String → Exec Workspace
authorize_workspace env now header name = do
  user ← current_user env now header
  w ← workspace_get name
  guard (user.role == "admin" || is_owned_by user.id w) forbidden
  pure w

-- ORDER BY name LIMIT 1
unfoldable pub workspace_for_user : ℕ → Catalog → Option Workspace
workspace_for_user id db = best (is_owned_by id) (λ a b. comes_before a.name b.name) db.workspaces

abbrev as_list {ℓ} : {A : Type ℓ} → Option A → List A
as_list none = []
as_list (some a) = a ∷ []

-- ORDER BY name
unfoldable pub workspace_all : Catalog → List Workspace
workspace_all db = order_by (λ a b. comes_before a.name b.name) db.workspaces

unfoldable pub visible_workspaces : Settings → ℕ → Option String → Exec (List Workspace)
visible_workspaces env now header = do
  user ← current_user env now header
  query (λ db.
      if user.role == "admin" then workspace_all db else as_list (workspace_for_user user.id db))

abbrev pub end_sessions : (Session → Bool) → Accounts → Accounts
end_sessions p a = record a { sessions = keep (λ s. not (p s)) a.sessions }

unfoldable pub end_session : Settings → Option String → Exec Unit
end_session env none = pure tt
end_session env (some token) = do
  hash ← lift (session_token_hash env token)
  with_accounts (end_sessions (has_hash hash))

unfoldable pub logout : Settings → Option String → Exec Unit
logout env header = end_session env (cookie_value header session_cookie_name)

unfoldable pub user_get : ℕ → Exec AuthUser
user_get id = do
  found ← query (λ db. find (has_user_id id) db.accounts.users)
  user ← lift (ok_or found account_missing)
  pure (user_from_row user)
