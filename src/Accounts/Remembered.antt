-- ===== src/Accounts/Remembered.antt =====
-- Whom the sessions that sign-up and login open are answered as, and what ends them.
use agentmom.Prelude.{
  subst, ℕ, ◌+◌, String, ◌≡◌, refl, sym, inl, inr, true, false, Option, none, some, arith, eq_refl,
  Option-cases, find, exists, find_sound, find_unique, find-update, count-keep-not, find-append_new,
  find-count_zero, exists-count_zero,
}
use agentmom.Settings.{Settings}
use agentmom.Catalog.{Catalog, Accounts, User, Session}
use agentmom.Catalog.Exec.{Result, Result-cases, ok, err, unauthenticated}
use agentmom.Accounts.Texts.{given_code, session_token_hash, cookie_value, session_cookie_name}
use agentmom.Accounts.Sessions.{
  AuthUser, current_user, end_session, logout, has_hash, has_user_id, user_of_session, update_user,
  seen,
}
use agentmom.Accounts.Signup.{has_email, with_session, create_user_session, authenticate_session}
use agentmom.Accounts.Admission.{entrant, joined}
use agentmom.Accounts.Entry.{login_cases}
use agentmom.Accounts.Consistent.{Consistent}
use agentmom.Accounts.Identity.{current_user-found}
use agentmom.Accounts.Joining.{create_user_session-Entered}

abbrev first_session : ℕ → String → Accounts → Session
first_session now hash a = record {
  id = a.session_seq + 1;
  user_id = a.user_seq + 1;
  token_hash = hash;
  created_at = now;
  last_seen_at = now;
}

abbrev later_session : ℕ → User → String → Accounts → Session
later_session now u hash a = record {
  id = a.session_seq + 1;
  user_id = u.id;
  token_hash = hash;
  created_at = now;
  last_seen_at = now;
}

unused : (a : Accounts) → Consistent a → exists (has_user_id (a.user_seq + 1)) a.users ≡ false
unused a h = exists-count_zero _ a.users (h.users.ahead (a.user_seq + 1) (omega arith))

-- The new user is the one that its session leads to.
joined-user :
    (now : ℕ) (name email hash : String) (code : Option String) (role : String) (invite : Option ℕ)
    (th : String) (a : Accounts)
    → exists (has_hash th) a.sessions ≡ false
    → Consistent a
    → user_of_session th (joined now name email hash role invite th a)
      ≡ some (entrant now name email hash role invite a)
unfolding user_of_session
joined-user now name email hash code role none th a free h =
    rw (find-append_new (has_hash th) (first_session now th a) a.sessions free (eq_refl th)) (
      find-append_new (has_user_id (a.user_seq + 1)) (entrant now name email hash role none a)
        a.users (unused a h) (ground arith))
joined-user now name email hash code role (some id) th a free h =
    rw (find-append_new (has_hash th) (first_session now th a) a.sessions free (eq_refl th)) (
      find-append_new (has_user_id (a.user_seq + 1)) (entrant now name email hash role (some id) a)
        a.users (unused a h) (ground arith))

-- Where the accounts are consistent, a request that carries the token of a sign-up that succeeded
-- is answered as the user that signed up, seen at the time of the request.
pub create_user_session-current_user :
    (env : Settings) (now later : ℕ) (salt token full_name email : String) (code : Option String)
    (password : String) (header : Option String) (user : AuthUser) (session : String)
    (db db' : Catalog)
    → Consistent db.accounts
    → create_user_session env now salt token full_name email code password db
      ≡ (ok (user, session), db')
    → cookie_value header session_cookie_name ≡ some session
    → (current_user env later header db').0 ≡ ok (record user { last_seen_at = some later })
create_user_session-current_user env now later salt token full_name email code password header user
      session db db' h e c =
    let j =
      rw e at (create_user_session-Entered env now salt token full_name email code password db) in
    let u = entrant now j.name j.address j.hash j.role j.invite db.accounts in
    let known : user_of_session j.token_hash db'.accounts ≡ some u =
      subst (λ a. user_of_session j.token_hash a ≡ some u) (sym j.rows)
        (joined-user now j.name j.address j.hash (given_code code) j.role j.invite j.token_hash
          db.accounts j.free h) in
    let secret : session_token_hash env session ≡ ok j.token_hash = rw j.given j.secret in
    subst
      (λ (v : AuthUser).
        (current_user env later header db').0 ≡ ok (record v { last_seen_at = some later }))
      (sym j.identity)
      (current_user-found env later header session j.token_hash u db' c secret known)

-- The session of an answer leads to its user.
abbrev Answered : Settings → ℕ → Option String → Result (AuthUser × String) × Catalog → Type 0
Answered env later header (err e, db') = Unit
Answered env later header (ok (user, session), db') =
    cookie_value header session_cookie_name ≡ some session
    → (current_user env later header db').0 ≡ ok (record user { last_seen_at = some later })

login_user :
    (now : ℕ) (u : User) (address hash : String) (a : Accounts)
    → find (has_email address) a.users ≡ some u
    → exists (has_hash hash) a.sessions ≡ false
    → Consistent a
    → user_of_session hash (with_session now u.id hash (update_user u.id (seen now) a))
      ≡ some (seen now u)
unfolding user_of_session
login_user now u address hash a n free h =
    let there = (find_sound (has_email address) a.users u n).0 in
    let row = find_unique (has_user_id u.id) a.users u (h.users.single u.id) there (ground arith) in
    let after =
      find-update (has_user_id u.id) (has_user_id u.id) (seen now) a.users u (λ v. refl) row in
    let own : has_user_id u.id u ≡ true = ground arith in
    rw
      (
        find-append_new (has_hash hash) (later_session now u hash a) a.sessions free (eq_refl hash),
        after,
        own,
      )
      refl

login-Answered :
    (env : Settings) (now later : ℕ) (token email password : String) (header : Option String)
    (db : Catalog)
    → Consistent db.accounts
    → Answered env later header (authenticate_session env now token email password db)
login-Answered env now later token email password header db h =
    login_cases env now token email password db (Answered env later header) (λ x. tt)
      (λ address hash u m n v s t c.
        current_user-found env later header token hash (seen now u) _ c s
          (login_user now u address hash db.accounts n t h))

-- Where the accounts are consistent, a request that carries the token of a login that succeeded is
-- answered as the user that logged in, seen at the time of the request.
pub authenticate_session-current_user :
    (env : Settings) (now later : ℕ) (token email password : String) (header : Option String)
    (user : AuthUser) (session : String) (db db' : Catalog)
    → Consistent db.accounts
    → authenticate_session env now token email password db ≡ (ok (user, session), db')
    → cookie_value header session_cookie_name ≡ some session
    → (current_user env later header db').0 ≡ ok (record user { last_seen_at = some later })
authenticate_session-current_user env now later token email password header user session db db' h e
      c =
    let answered = login-Answered env now later token email password header db h in
    (subst (Answered env later header) e answered) c

-- After a logout that succeeds, a request with the same cookie is refused as unauthenticated.
pub logout-current_user :
    (env : Settings) (later : ℕ) (header : Option String) (db : Catalog)
    → (logout env header db).0 ≡ ok tt
    → (current_user env later header (logout env header db).1).0 ≡ err unauthenticated
unfolding logout end_session current_user user_of_session
logout-current_user env later header db h =
    elim (Option-cases (cookie_value header session_cookie_name)) [
      | inl c ↦ rw c refl
      | inr (token, c) ↦ elim (Result-cases (session_token_hash env token)) [
        | inr (x, s) ↦ absurd (cc (rw (c, s) at h))
        | inl (hash, s) ↦
            rw
              (
                c,
                s,
                find-count_zero (has_hash hash) _
                    (count-keep-not (has_hash hash) db.accounts.sessions),
              )
              refl
      ]
    ]
