-- ===== src/Accounts/Identity.antt =====
-- Who a request is: sign-up, login, logout and deletion against `current_user`.
use agentmom.Prelude.{
  subst, ℕ, ◌+◌, ◌≤◌, ◌<◌, String, ◌≡◌, refl, sym, ap, ◌∙◌, ◌⊎◌, inl, inr, true, false, Option,
  none, some, List, [], ◌∷◌, ◌++◌, arith, ◌==◌, ltb, leb, eqb, Bool-cases, Option-cases, count,
  update, exists, Has,
}
use agentmom.Settings.{Settings}
use agentmom.Text.{trim, byte_len, to_lowercase}
use agentmom.Catalog.{Catalog, Accounts, User, Invite, Session, Redemption}
use agentmom.Catalog.Exec.{Result, Result-cases, ok, err}
use agentmom.Accounts.Texts.{
  normalize_email, normalize_full_name, validate_password, given_code, session_token_hash,
  cookie_value, session_cookie_name, is_valid_email,
}
use agentmom.Accounts.Sessions.{AuthUser, user_from_row, current_user, user_of_session}
use agentmom.Accounts.Signup.{create_user_session, spent}
use agentmom.Accounts.Admission.{Admission, entrant, joined}
use agentmom.Accounts.Joining.{Entered, create_user_session-Entered}

-- The user of a session that is found.
pub current_user-found :
    (env : Settings) (now : ℕ) (header : Option String) (token hash : String) (u : User)
    (db : Catalog)
    → cookie_value header session_cookie_name ≡ some token
    → session_token_hash env token ≡ ok hash
    → user_of_session hash db.accounts ≡ some u
    → (current_user env now header db).0 ≡ ok (record (user_from_row u) { last_seen_at = some now })
unfolding current_user
current_user-found env now header token hash u db c s f = rw (c, s, f) refl

-- Who a request with an answer is: a user that a session leads to.
pub current_user-known :
    (env : Settings) (now : ℕ) (header : Option String) (user : AuthUser) (db : Catalog)
    → (current_user env now header db).0 ≡ ok user
    → (hash : String) × (u : User) × (user_of_session hash db.accounts ≡ some u) × (u.id ≡ user.id)
unfolding current_user
current_user-known env now header user db h =
    elim (Option-cases (cookie_value header session_cookie_name)) [
      | inl c ↦ absurd (cc (rw c at h))
      | inr (token, c) ↦ elim (Result-cases (session_token_hash env token)) [
        | inr (x, s) ↦ absurd (cc (rw (c, s) at h))
        | inl (hash, s) ↦ elim (Option-cases (user_of_session hash db.accounts)) [
          | inl f ↦ absurd (cc (rw (c, s, f) at h))
          | inr (u, f) ↦
              let same : ok (record (user_from_row u) { last_seen_at = some now }) ≡ ok user =
                rw (c, s, f) at h in
              (hash, u, f, ap id_of same)
        ]
      ]
    ]
  where
    id_of : Result AuthUser → ℕ
    id_of (ok a) = a.id
    id_of (err e) = 0

-- Why a new user is let in, and what that leaves: it is the first and becomes an administrator, or
-- its code is that of an active invite with uses left.
abbrev pub HasUses : Invite → Type 0
HasUses i = (i.max_uses ≡ none) ⊎ ((most : ℕ) × (i.max_uses ≡ some most) × (i.used_count < most))

abbrev pub LetIn : ℕ → ℕ → Option String → String → Option ℕ → Accounts → Accounts → Type 0
LetIn now user code role none a b =
    (a.users ≡ []) × (role ≡ "admin") × (b.invites ≡ a.invites) × (b.redemptions ≡ a.redemptions)
LetIn now user code role (some id) a b =
    ((i : Invite) × Has i a.invites
      × (i.id ≡ id)
      × (i.role ≡ role)
      × (code ≡ some i.code)
      × (i.active ≡ true)
      × HasUses i)
    × (b.invites
        ≡ update (λ j. eqb j.id id) (λ j. record j { used_count = j.used_count + 1 }) a.invites)
    × ((r : Redemption) × (b.redemptions ≡ a.redemptions ++ r ∷ [])
        × (r.invite_id ≡ id)
        × (r.user_id ≡ user)
        × (r.redeemed_at ≡ now))

-- What a sign-up that succeeds does.
pub record Signed (env : Settings) (now : ℕ) (salt full_name email password token : String)
    (code : Option String) (user : AuthUser) (session : String) (a b : Accounts) : Type 0 where
  pub address : String
  pub role : String
  pub invite : Option ℕ
  pub row : User
  pub opened : Session
  pub normal : address ≡ to_lowercase (trim email)
  pub reachable : is_valid_email address ≡ true
  pub strong : 8 ≤ byte_len password
  pub named : (trim full_name == "") ≡ false
  pub new : exists (λ u. u.email == address) a.users ≡ false
  pub users : b.users ≡ a.users ++ row ∷ []
  pub its_texts : (row.email ≡ address) × (row.full_name ≡ trim full_name)
  pub its_password : env.hash_password salt password ≡ some row.password_hash
  pub its_role : (row.role ≡ role) × (row.invite_id ≡ invite)
  pub identity : (user.id ≡ row.id) × (user.email ≡ row.email) × (user.role ≡ row.role)
  pub let_in : LetIn now row.id (given_code code) role invite a b
  pub given : session ≡ token
  pub sessions : b.sessions ≡ a.sessions ++ opened ∷ []
  pub its_session :
      (opened.user_id ≡ row.id) × (session_token_hash env token ≡ ok opened.token_hash)

abbrev pub SignUp :
    Settings
    → ℕ
    → String
    → String
    → String
    → String
    → String
    → Option String
    → Catalog
    → Result (AuthUser × String) × Catalog
    → Type 0
SignUp env now salt full_name email password token code db (err e, db') = db' ≡ db
SignUp env now salt full_name email password token code db (ok (user, session), db') =
    Signed env now salt full_name email password token code user session db.accounts db'.accounts

none_counted : (us : List User) → count (λ u. true) us ≡ 0 → us ≡ []
unfolding count
none_counted [] h = refl
none_counted (u ∷ us) h = absurd (omega arith)

uses_left : (i : Invite) → spent i ≡ false → HasUses i
uses_left i h = elim (Option-cases i.max_uses) [
  | inl e ↦ inl e
  | inr (most, e) ↦
      let short : leb most i.used_count ≡ false = rw e at h in inr (most, e, ground arith)
]

admitted :
    (now : ℕ) (name email hash role : String) (invite : Option ℕ) (th : String)
    (code : Option String) (a : Accounts)
    → Admission code a role invite
    → LetIn now (a.user_seq + 1) code role invite a (joined now name email hash role invite th a)
admitted now name email hash role none th code a (first, admin) =
    (none_counted a.users first, admin, refl, refl)
admitted now name email hash role (some id) th code a (i, there, its, role_is, c, active, left) = (
  (i, there, its, role_is, c, active, uses_left i left),
  refl,
  (
    record {
      id = a.redemption_seq + 1;
      invite_id = id;
      user_id = a.user_seq + 1;
      redeemed_at = now;
    },
    refl,
    refl,
    refl,
    refl,
  ),
)

user_row :
    (now : ℕ) (name email hash role : String) (invite : Option ℕ) (th : String) (a : Accounts)
    → ((joined now name email hash role invite th a).users
        ≡ a.users ++ entrant now name email hash role invite a ∷ [])
      × ((s : Session) × ((joined now name email hash role invite th a).sessions
            ≡ a.sessions ++ s ∷ [])
          × (s.user_id ≡ a.user_seq + 1)
          × (s.token_hash ≡ th))
user_row now name email hash role none th a = (
  refl,
  (
    record {
      id = a.session_seq + 1;
      user_id = a.user_seq + 1;
      token_hash = th;
      created_at = now;
      last_seen_at = now;
    },
    refl,
    refl,
    refl,
  ),
)
user_row now name email hash role (some id) th a = (
  refl,
  (
    record {
      id = a.session_seq + 1;
      user_id = a.user_seq + 1;
      token_hash = th;
      created_at = now;
      last_seen_at = now;
    },
    refl,
    refl,
    refl,
  ),
)

strong_enough : (password : String) → validate_password password ≡ ok tt → 8 ≤ byte_len password
unfolding validate_password
strong_enough password h = elim (Bool-cases (ltb (byte_len password) 8)) [
  | inl e ↦ absurd (cc (rw e at h))
  | inr e ↦ ground arith
]

address_of :
    (email address : String)
    → normalize_email email ≡ ok address
    → (address ≡ to_lowercase (trim email)) × (is_valid_email address ≡ true)
unfolding normalize_email
address_of email address h = elim (Bool-cases (is_valid_email (to_lowercase (trim email)))) [
  | inr e ↦ absurd (cc (rw e at h))
  | inl e ↦
      let same : ok (to_lowercase (trim email)) ≡ ok address = rw e at h in
      let is : to_lowercase (trim email) ≡ address = cc in (sym is, rw is at e)
]

name_of :
    (full_name name : String)
    → normalize_full_name full_name ≡ ok name
    → (name ≡ trim full_name) × ((trim full_name == "") ≡ false)
unfolding normalize_full_name
name_of full_name name h = elim (Bool-cases (trim full_name == "")) [
  | inl e ↦ absurd (cc (rw e at h))
  | inr e ↦ let same : ok (trim full_name) ≡ ok name = rw e at h in (cc, e)
]

-- A sign-up that is refused changes nothing. One that succeeds has a name that is not blank, an
-- address that is valid after it was trimmed and put in lower case and that no user has, and a
-- password of 8 bytes or more. It adds one user, with these, the hash of the password and a role.
-- Either there was no user, the role is that of an administrator, and invites and redemptions stay
-- as they were; or the code is that of an active invite with uses left, whose role is taken, whose
-- uses go up by one and whose redemption by the user is noted. One session is opened, of that user
-- and with the hash of the new token, which is the answer together with the user.
pub create_user_session-SignUp :
    (env : Settings) (now : ℕ) (salt token full_name email : String) (code : Option String)
    (password : String) (db : Catalog)
    → SignUp env now salt full_name email password token code db
        (create_user_session env now salt token full_name email code password db)
create_user_session-SignUp env now salt token full_name email code password db =
    cases (create_user_session env now salt token full_name email code password db)
      (create_user_session-Entered env now salt token full_name email code password db)
  where
    cases :
        (r : Result (AuthUser × String) × Catalog)
        → Entered env now salt full_name email password token code db r
        → SignUp env now salt full_name email password token code db r
    cases (err e, db') h = h
    cases (ok (user, session), db') j =
        let a = db.accounts in
        let row = entrant now j.name j.address j.hash j.role j.invite a in
        let b = joined now j.name j.address j.hash j.role j.invite j.token_hash a in
        let (users, (opened, sessions, its, hashed)) =
          user_row now j.name j.address j.hash j.role j.invite j.token_hash a in
        let (normal, valid) = address_of email j.address j.reachable in
        let (name_is, named) = name_of full_name j.name j.named in
        record {
          address = j.address;
          role = j.role;
          invite = j.invite;
          row = row;
          opened = opened;
          normal = normal;
          reachable = valid;
          strong = strong_enough password j.strong;
          named = named;
          new = j.new;
          users = ap (λ (c : Accounts). c.users) j.rows ∙ users;
          its_texts = (refl, name_is);
          its_password = j.hashed;
          its_role = (refl, refl);
          identity = rw j.identity (refl, refl, refl);
          let_in = subst (LetIn now row.id (given_code code) j.role j.invite a) (sym j.rows) (
              admitted now j.name j.address j.hash j.role j.invite j.token_hash (given_code code) a
                j.let_in);
          given = j.given;
          sessions = ap (λ (c : Accounts). c.sessions) j.rows ∙ sessions;
          its_session = (its, j.secret ∙ ap ok (sym hashed));
        }
