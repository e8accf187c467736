-- ===== src/Accounts/Signup.antt =====
-- Sign-up and login: `create_user_session` and `authenticate_session`. The salt of a password and
-- the token of a session are random, so they are arguments.
use agentmom.Prelude.{
  ℕ, ◌+◌, String, Bool, true, false, not, ◌&&◌, Option, none, some, [], ◌∷◌, ◌++◌, ◌==◌, leb, eqb,
  if◌then◌else◌, count, update, find, exists,
}
use agentmom.Settings.{Settings}
use agentmom.Catalog.{Accounts, User, Invite}
use agentmom.Catalog.Exec.{
  Exec, pure, lift, query, ok_or, guard, transaction, ◌>>=◌, ◌>>◌, ok, err, no_row, constraint,
  unauthenticated, invalid_signup_code, email_taken, bad_password_hash,
}
use agentmom.Accounts.Texts.{
  normalize_email, normalize_full_name, validate_password, session_token_hash, given_code,
}
use agentmom.Accounts.Sessions.{AuthUser, user_from_row, with_accounts, update_user, seen, has_hash}
use agentmom.Accounts.Invites.{has_code, has_invite_id}

abbrev pub has_email : String → User → Bool
has_email email u = u.email == email

abbrev pub with_session : ℕ → ℕ → String → Accounts → Accounts
with_session now user hash a =
    let id = a.session_seq + 1 in
    record a {
      sessions =
          a.sessions
          ++ record {
            id = id;
            user_id = user;
            token_hash = hash;
            created_at = now;
            last_seen_at = now;
          }
            ∷ [];
      session_seq = id;
    }

-- INSERT INTO sessions; the column `token_hash` is unique.
unfoldable pub insert_session : ℕ → ℕ → String → Exec Unit
insert_session now user hash db =
    if exists (has_hash hash) db.accounts.sessions
    then (err constraint, db)
    else (ok tt, record db { accounts = with_session now user hash db.accounts })

-- `token` is what `generate_session_token` returns.
unfoldable pub create_session_in_tx : Settings → ℕ → String → ℕ → Exec String
create_session_in_tx env now token user = do
  hash ← lift (session_token_hash env token)
  insert_session now user hash
  pure token

abbrev pub spent : Invite → Bool
spent i = elim i.max_uses [ none ↦ false | some most ↦ leb most i.used_count ]

abbrev pub with_use : Invite → Invite
with_use i = record i { used_count = i.used_count + 1 }

abbrev pub count_use : ℕ → Accounts → Accounts
count_use id a = record a { invites = update (has_invite_id id) with_use a.invites }

unfoldable pub use_invite : Option String → Exec (String × Option ℕ)
use_invite code = do
  given ← lift (ok_or code invalid_signup_code)
  found ← query (λ db. find (λ i. has_code given i && i.active) db.accounts.invites)
  invite ← lift (ok_or found invalid_signup_code)
  guard (not (spent invite)) invalid_signup_code
  with_accounts (count_use invite.id)
  pure (invite.role, some invite.id)

-- The role of a new user, and the invite that lets it in.
unfoldable pub admit_signup : Option String → Exec (String × Option ℕ)
admit_signup code db =
    let first = count (λ u. true) db.accounts.users in
    if eqb first 0 then (ok ("admin", none), db) else use_invite code db

abbrev pub new_user : ℕ → String → String → String → String → Option ℕ → ℕ → User
new_user now email hash full_name role invite id = record {
  id = id;
  email = email;
  password_hash = hash;
  full_name = full_name;
  role = role;
  invite_id = invite;
  created_at = now;
  updated_at = now;
  last_seen_at = some now;
}

abbrev pub with_user : User → Accounts → Accounts
with_user u a = record a { users = a.users ++ u ∷ []; user_seq = u.id }

-- INSERT INTO users; the column `email` is unique. The answer is last_insert_rowid().
unfoldable pub insert_user_with_password : ℕ → String → String → String → String → Option ℕ → Exec ℕ
insert_user_with_password now email hash full_name role invite db =
    let id = db.accounts.user_seq + 1 in
    if exists (has_email email) db.accounts.users then (err constraint, db) else (
      ok id,
      record db {
        accounts = with_user (new_user now email hash full_name role invite id) db.accounts;
      },
    )

abbrev pub with_redemption : ℕ → ℕ → ℕ → Accounts → Accounts
with_redemption now invite user a =
    let id = a.redemption_seq + 1 in
    record a {
      redemptions =
          a.redemptions
          ++ record { id = id; invite_id = invite; user_id = user; redeemed_at = now } ∷ [];
      redemption_seq = id;
    }

unfoldable pub redeem : ℕ → Option ℕ → ℕ → Exec Unit
redeem now none user = pure tt
redeem now (some invite) user = with_accounts (with_redemption now invite user)

unfoldable pub user_by_email : String → Exec User
user_by_email email = do
  found ← query (λ db. find (has_email email) db.accounts.users)
  lift (ok_or found no_row)

-- The rows of a user that is let in, and its first session.
unfoldable pub enroll :
    Settings → ℕ → String → String → String → String → String → Option ℕ → Exec (AuthUser × String)
enroll env now token full_name email hash role invite = do
  id ← insert_user_with_password now email hash full_name role invite
  redeem now invite id
  user ← user_by_email email
  session ← create_session_in_tx env now token user.id
  pure (user_from_row user, session)

-- The transaction of a sign-up, after the checks on the texts.
unfoldable pub sign_up :
    Settings → ℕ → String → String → String → String → Option String → Exec (AuthUser × String)
sign_up env now token full_name email hash code = transaction (do
  taken ← query (λ db. exists (has_email email) db.accounts.users)
  guard (not taken) email_taken
  (role, invite) ← admit_signup code
  enroll env now token full_name email hash role invite)

unfoldable pub create_user_session :
    Settings
    → ℕ
    → String
    → String
    → String
    → String
    → Option String
    → String
    → Exec (AuthUser × String)
create_user_session env now salt token full_name email code password = do
  name ← lift (normalize_full_name full_name)
  address ← lift (normalize_email email)
  lift (validate_password password)
  hash ← lift (ok_or (env.hash_password salt password) bad_password_hash)
  sign_up env now token name address hash (given_code code)

unfoldable pub authenticate_session :
    Settings → ℕ → String → String → String → Exec (AuthUser × String)
authenticate_session env now token email password = do
  address ← lift (normalize_email email)
  transaction (do
    found ← query (λ db. find (has_email address) db.accounts.users)
    stored ← lift (ok_or found unauthenticated)
    verified ← lift (ok_or (env.verify_password password stored.password_hash) bad_password_hash)
    guard verified unauthenticated
    user ← user_by_email address
    with_accounts (update_user user.id (seen now))
    session ← create_session_in_tx env now token user.id
    pure (record (user_from_row user) { last_seen_at = some now }, session))
