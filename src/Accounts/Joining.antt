-- ===== src/Accounts/Joining.antt =====
-- The steps of `create_user_session`.
use agentmom.Prelude.{ℕ, String, ◌≡◌, refl, inl, inr, false, Option, some, Option-cases, exists}
use agentmom.Settings.{Settings}
use agentmom.Catalog.{Catalog, Accounts}
use agentmom.Catalog.Exec.{Result, Result-cases, ok, err}
use agentmom.Accounts.Texts.{
  normalize_email, normalize_full_name, validate_password, given_code, session_token_hash,
}
use agentmom.Accounts.Sessions.{AuthUser, user_from_row, has_hash}
use agentmom.Accounts.Signup.{has_email, create_user_session}
use agentmom.Accounts.Admission.{Admission, entrant, joined, sign_up_cases}

-- The texts, the admission and the rows of a sign-up that succeeds.
pub record Joined (env : Settings) (now : ℕ) (salt full_name email password token : String)
    (code : Option String) (user : AuthUser) (session : String) (a b : Accounts) : Type 0 where
  pub name : String
  pub address : String
  pub hash : String
  pub role : String
  pub invite : Option ℕ
  pub token_hash : String
  pub named : normalize_full_name full_name ≡ ok name
  pub reachable : normalize_email email ≡ ok address
  pub strong : validate_password password ≡ ok tt
  pub hashed : env.hash_password salt password ≡ some hash
  pub new : exists (has_email address) a.users ≡ false
  pub let_in : Admission (given_code code) a role invite
  pub secret : session_token_hash env token ≡ ok token_hash
  pub free : exists (has_hash token_hash) a.sessions ≡ false
  pub identity : user ≡ user_from_row (entrant now name address hash role invite a)
  pub given : session ≡ token
  pub rows : b ≡ joined now name address hash role invite token_hash a

abbrev pub Entered :
    Settings
    → ℕ
    → String
    → String
    → String
    → String
    → String
    → Option String
    → Catalog
    → Result (AuthUser × String) × Catalog
    → Type 0
Entered env now salt full_name email password token code db (err e, db') = db' ≡ db
Entered env now salt full_name email password token code db (ok (user, session), db') =
    Joined env now salt full_name email password token code user session db.accounts db'.accounts

pub create_user_session-Entered :
    (env : Settings) (now : ℕ) (salt token full_name email : String) (code : Option String)
    (password : String) (db : Catalog)
    → Entered env now salt full_name email password token code db
        (create_user_session env now salt token full_name email code password db)
unfolding create_user_session
create_user_session-Entered env now salt token full_name email code password db =
    elim (Result-cases (normalize_full_name full_name)) [
      | inr (x, e) ↦ rw e refl
      | inl (name, e) ↦ elim (Result-cases (normalize_email email)) [
        | inr (x, m) ↦ rw (e, m) refl
        | inl (address, m) ↦ elim (Result-cases (validate_password password)) [
          | inr (x, v) ↦ rw (e, m, v) refl
          | inl (u, v) ↦ elim (Option-cases (env.hash_password salt password)) [
            | inl p ↦ rw (e, m, v, p) refl
            | inr (hash, p) ↦
                rw (e, m, v, p)
                  (sign_up_cases env now token name address hash (given_code code) db
                    (Entered env now salt full_name email password token code db) (λ x. refl)
                    (λ role invite th new why s free. record {
                      name = name;
                      address = address;
                      hash = hash;
                      role = role;
                      invite = invite;
                      token_hash = th;
                      named = e;
                      reachable = m;
                      strong = v;
                      hashed = p;
                      new = new;
                      let_in = why;
                      secret = s;
                      free = free;
                      identity = refl;
                      given = refl;
                      rows = refl;
                    }))
          ]
        ]
      ]
    ]
