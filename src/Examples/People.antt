-- ===== src/Examples/People.antt =====
-- Users of the fleet: an administrator and a user that it invited, and the theorems about accounts
-- applied to them.
use agentmom.Prelude.{
  ℕ, suc, ◌≤◌, String, ◌≡◌, refl, sym, ◌∙◌, ◌≢◌, inl, inr, false, Option, none, some, List, [], ◌∷◌,
  arith, ◌==◌, eq_iff, if◌then◌else◌, Bool-cases, count, update, keep, find, exists,
}
use agentmom.Json.{text, obj, field, end}
use agentmom.Catalog.{Catalog, Accounts, User, Session, empty, no_accounts}
use agentmom.Catalog.Exec.{unauthenticated, ok, err}
use agentmom.Jobs.{CreateJobRequest}
use agentmom.Accounts.Texts.{InviteRole, cookie_value, session_cookie_name}
use agentmom.Accounts.Sessions.{AuthUser, current_user, logout}
use agentmom.Accounts.Signup.{create_user_session, authenticate_session}
use agentmom.Accounts.Owned.{delete_user_and_workspace}
use agentmom.Accounts.Consistent.{Consistent}
use agentmom.Accounts.Identity.{SignUp, create_user_session-SignUp}
use agentmom.Accounts.Remembered.{
  create_user_session-current_user, authenticate_session-current_user, logout-current_user,
}
use agentmom.Accounts.Life.{Request, serve, serve_all, serve_all-Consistent}
use agentmom.Accounts.Gone.{delete_user-current_user}
use agentmom.Api.Public.{api_create_job}
use agentmom.Api.JobRequests.{JobRequest, api_create_job-JobRequest}
use agentmom.Text.{
  trim, trim_start_where, trim_end_where, is_whitespace, to_lowercase, lower, split, byte_len,
}
use agentmom.Text.Parts.{split_once, contains, any_char}
use agentmom.Accounts.Texts.{
  first_cookie, normalize_full_name, normalize_email, is_valid_email, validate_password, given_code,
  session_token_hash, hmac_hex,
}
use agentmom.Accounts.Sessions.{user_of_session, end_session}
use agentmom.Accounts.Signup.{
  sign_up, admit_signup, insert_user_with_password, enroll, redeem, user_by_email,
  create_session_in_tx, insert_session,
}
use agentmom.Accounts.Owned.{remove_owned, delete_user}
use agentmom.Examples.Fleet.{settings, fleet}

abbrev cookie : Option String
cookie = some "agentmom_session=s1"

abbrev ada : AuthUser
ada = record {
  id = 1;
  email = "ada@x.org";
  full_name = "Ada";
  role = "admin";
  invite_id = none;
  last_seen_at = some 5000;
}

abbrev bob_cookie : Option String
bob_cookie = some "agentmom_session=s2"

-- The first user signs up, invites another and logs in again.
abbrev requests : List (ℕ × Request)
requests =
    (5000, Request.signs_up "salt" "s1" "Ada" "ada@x.org" none "password")
    ∷ (
      5001,
      Request.issues_invite ("abc" ∷ []) (record {
        label = "team";
        description = "";
        role = InviteRole.user;
        max_uses = some 1;
        created_by_user_id = some 1;
      }),
    )
    ∷ (5002, Request.signs_up "salt" "s2" "Bob" "bob@x.org" (some "ABC") "password")
    ∷ (5003, Request.signs_up "salt" "s3" "Eve" "eve@x.org" (some "ABC") "password")
    ∷ (5004, Request.logs_in "s4" "ada@x.org" "password")
    ∷ (5005, Request.visits cookie)
    ∷ []

no_accounts-Consistent : Consistent no_accounts
unfolding count
no_accounts-Consistent = record {
  users = record { single = λ n. omega arith; ahead = λ n h. refl };
  emails = λ k. omega arith;
  invites = record { single = λ n. omega arith; ahead = λ n h. refl };
  codes = λ k. omega arith;
  redeemed = λ n h. refl;
  uses = tt;
  hashes = λ k. omega arith;
}

serve_all-Consistent_example : Consistent (serve_all settings requests empty).accounts
serve_all-Consistent_example = serve_all-Consistent settings requests empty no_accounts-Consistent

create_user_session-SignUp_example :
    SignUp settings 5000 "salt" "Ada" "ada@x.org" "password" "s1" none empty
      (create_user_session settings 5000 "salt" "s1" "Ada" "ada@x.org" none "password" empty)
create_user_session-SignUp_example =
    create_user_session-SignUp settings 5000 "salt" "s1" "Ada" "ada@x.org" none "password" empty

abbrev after_sign_up : Catalog
after_sign_up =
    (create_user_session settings 5000 "salt" "s1" "Ada" "ada@x.org" none "password" empty).1

signed_up :
    create_user_session settings 5000 "salt" "s1" "Ada" "ada@x.org" none "password" empty
    ≡ (ok (ada, "s1"), after_sign_up)
unfolding create_user_session normalize_full_name normalize_email is_valid_email split_once contains
    any_char trim trim_start_where trim_end_where is_whitespace to_lowercase lower validate_password
    byte_len given_code session_token_hash hmac_hex sign_up admit_signup insert_user_with_password
    enroll redeem user_by_email create_session_in_tx insert_session find exists count
signed_up = refl

own_cookie : cookie_value cookie session_cookie_name ≡ some "s1"
unfolding cookie_value first_cookie split split_once trim trim_start_where trim_end_where
    is_whitespace
own_cookie = refl

create_user_session-current_user_example :
    (current_user settings 5005 cookie after_sign_up).0
    ≡ ok (record ada { last_seen_at = some 5005 })
create_user_session-current_user_example =
    create_user_session-current_user settings 5000 5005 "salt" "s1" "Ada" "ada@x.org" none
      "password" cookie ada "s1" empty after_sign_up no_accounts-Consistent signed_up own_cookie

-- The accounts of an administrator and a user, each with a session.
abbrev person : ℕ → String → String → String → User
person id email name role = record {
  id = id;
  email = email;
  password_hash = "password";
  full_name = name;
  role = role;
  invite_id = none;
  created_at = 4000;
  updated_at = 4000;
  last_seen_at = some 4000;
}

abbrev session : ℕ → ℕ → String → Session
session id user hash = record {
  id = id;
  user_id = user;
  token_hash = hash;
  created_at = 4000;
  last_seen_at = 4000;
}

abbrev people : Accounts
people = record no_accounts {
  users = person 1 "ada@x.org" "Ada" "admin" ∷ person 2 "bob@x.org" "Bob" "user" ∷ [];
  user_seq = 2;
  sessions = session 1 1 "s1" ∷ session 2 2 "s2" ∷ [];
  session_seq = 2;
}

abbrev pub town : Catalog
town = record fleet { accounts = people }

two_texts :
    (s t k : String)
    → (s == t) ≡ false
    → (if s == k then suc (if t == k then 1 else 0) else if t == k then 1 else 0) ≤ 1
two_texts s t k h = elim (Bool-cases (s == k)) [
  | inl e ↦
      let same : s ≡ k = (eq_iff s k).0 e in
      elim (Bool-cases (t == k)) [
        | inl f ↦
            let other : t ≡ k = (eq_iff t k).0 f in
            absurd (ground (arith, eq_iff s t, same ∙ sym other))
        | inr f ↦ rw (e, f) (omega arith)
      ]
  | inr e ↦ elim (Bool-cases (t == k)) [
    | inl f ↦ rw (e, f) (omega arith)
    | inr f ↦ rw (e, f) (omega arith)
  ]
]

people-Consistent : Consistent people
unfolding count
people-Consistent = record {
  users = record { single = λ n. ground arith; ahead = λ n h. ground arith };
  emails = λ k. two_texts "ada@x.org" "bob@x.org" k refl;
  invites = record { single = λ n. omega arith; ahead = λ n h. refl };
  codes = λ k. omega arith;
  redeemed = λ n h. refl;
  uses = tt;
  hashes = λ k. two_texts "s1" "s2" k refl;
}

abbrev after_login : Catalog
after_login = (authenticate_session settings 5000 "s3" "ada@x.org" "password" town).1

abbrev login_cookie : Option String
login_cookie = some "agentmom_session=s3"

logged_in :
    authenticate_session settings 5000 "s3" "ada@x.org" "password" town
    ≡ (ok (ada, "s3"), after_login)
unfolding authenticate_session normalize_email is_valid_email split_once contains any_char trim
    trim_start_where trim_end_where is_whitespace to_lowercase lower session_token_hash hmac_hex
    user_by_email create_session_in_tx insert_session find exists update
logged_in = refl

login_token : cookie_value login_cookie session_cookie_name ≡ some "s3"
unfolding cookie_value first_cookie split split_once trim trim_start_where trim_end_where
    is_whitespace
login_token = refl

authenticate_session-current_user_example :
    (current_user settings 5005 login_cookie after_login).0
    ≡ ok (record ada { last_seen_at = some 5005 })
authenticate_session-current_user_example =
    authenticate_session-current_user settings 5000 5005 "s3" "ada@x.org" "password" login_cookie
      ada "s3" town after_login people-Consistent logged_in login_token

logged_out : (logout settings cookie town).0 ≡ ok tt
unfolding logout end_session cookie_value first_cookie split split_once trim trim_start_where
    trim_end_where is_whitespace session_token_hash hmac_hex
logged_out = refl

logout-current_user_example :
    (current_user settings 5005 cookie (logout settings cookie town).1).0 ≡ err unauthenticated
logout-current_user_example = logout-current_user settings 5005 cookie town logged_out

-- Bob is deleted, and Ada goes on.
abbrev without_bob : Catalog
without_bob = (delete_user_and_workspace settings "job-9" 5000 2 town).1

bob_deleted : (delete_user_and_workspace settings "job-9" 5000 2 town).0 ≡ ok tt
unfolding delete_user_and_workspace delete_user remove_owned find count
bob_deleted = refl

abbrev visits : List (ℕ × Request)
visits = (5001, Request.visits bob_cookie) ∷ []

ada_goes_on :
    (current_user settings 5005 cookie (serve_all settings visits without_bob)).0
    ≡ ok (record ada { last_seen_at = some 5005 })
unfolding current_user serve_all serve delete_user_and_workspace delete_user remove_owned
    user_of_session cookie_value first_cookie split split_once trim trim_start_where trim_end_where
    is_whitespace session_token_hash hmac_hex find update keep count
ada_goes_on = refl

delete_user-current_user_example : ada.id ≢ 2
delete_user-current_user_example =
    delete_user-current_user settings "job-9" 5000 5005 2 visits cookie
      (record ada { last_seen_at = some 5005 }) town people-Consistent bob_deleted ada_goes_on

abbrev restore : CreateJobRequest
restore = record {
  workspace_name = "notes";
  kind = "restore";
  node_id = none;
  payload = obj (field "backup_id" (text "backup-1") end);
}

api_create_job-JobRequest_example :
    JobRequest settings "job-9" 5005 cookie restore town
      (api_create_job settings "job-9" 5005 cookie restore town)
api_create_job-JobRequest_example =
    api_create_job-JobRequest settings "job-9" 5005 cookie restore town
