-- ===== src/Accounts/Gone.antt =====
-- A deleted user.
use agentmom.Prelude.{
  ℕ, String, ◌≡◌, ◌∙◌, ◌≢◌, inl, inr, false, Option, some, List, arith, leb, eqb, Bool-cases,
  Option-cases, leb→le, count, find, Has-count, find_sound, count-keep-not,
}
use agentmom.Settings.{Settings}
use agentmom.Catalog.{Catalog, Accounts, User}
use agentmom.Catalog.Exec.{ok}
use agentmom.Accounts.Sessions.{AuthUser, current_user, has_hash, has_user_id, user_of_session}
use agentmom.Accounts.Owned.{delete_user_and_workspace}
use agentmom.Accounts.Consistent.{Consistent}
use agentmom.Accounts.Reach.{deleted}
use agentmom.Accounts.Removal.{delete_cases}
use agentmom.Accounts.Life.{Request, serve_all, serve_all-Retired, Retired}
use agentmom.Accounts.Identity.{current_user-known}

deleted-Retired :
    (id : ℕ) (a : Accounts)
    → eqb (count (has_user_id id) a.users) 0 ≡ false
    → Consistent a
    → Retired id (deleted id a)
deleted-Retired id a there h = (
  elim (Bool-cases (leb id a.user_seq)) [
    | inl e ↦ leb→le id a.user_seq e
    | inr e ↦ let none_there = h.users.ahead id (ground arith) in absurd (ground arith)
  ],
  count-keep-not (has_user_id id) a.users,
)

user_of_session-other :
    (id : ℕ) (hash : String) (a : Accounts) (u : User)
    → Retired id a
    → user_of_session hash a ≡ some u
    → u.id ≢ id
unfolding user_of_session
user_of_session-other id hash a u gone h same =
    elim (Option-cases (find (has_hash hash) a.sessions)) [
      | inl n ↦ absurd (cc (rw n at h))
      | inr (s, n) ↦
          let found : find (has_user_id s.user_id) a.users ≡ some u = rw n at h in
          let (there, _) = find_sound (has_user_id s.user_id) a.users u found in
          let one = Has-count (has_user_id id) u a.users there (ground arith) in
          absurd (omega (arith, one, gone.1))
    ]

-- Where the accounts are consistent and a user is deleted, no request is ever answered as that
-- user again: not with the cookies that it had, and not after any further requests of others,
-- sign-ups among them.
pub delete_user-current_user :
    (env : Settings) (job : String) (now later id : ℕ) (rs : List (ℕ × Request))
    (header : Option String) (user : AuthUser) (db : Catalog)
    → Consistent db.accounts
    → (delete_user_and_workspace env job now id db).0 ≡ ok tt
    → (current_user env later header
        (serve_all env rs (delete_user_and_workspace env job now id db).1)).0
      ≡ ok user
    → user.id ≢ id
delete_user-current_user env job now later id rs header user db h done answered same =
    let after = delete_user_and_workspace env job now id db in
    let retired =
      delete_cases env job now (λ r a. r ≡ ok tt → Retired id a) id db (λ e q. absurd (cc q))
        (λ n q. absurd (cc q)) (λ n q. deleted-Retired id db.accounts n h) done in
    let (hash, u, f, whose) =
      current_user-known env later header user (serve_all env rs after.1) answered in
    user_of_session-other id hash (serve_all env rs after.1).accounts u
      (serve_all-Retired id env rs after.1 retired) f (whose ∙ same)
