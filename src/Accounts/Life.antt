-- ===== src/Accounts/Life.antt =====
-- Histories of the accounts: any sequence of requests of users and administrators, each at a time
-- of its own, from any catalog.
use agentmom.Prelude.{
  ℕ, ◌≤◌, String, ◌≡◌, refl, ap, not, Option, none, some, List, [], ◌∷◌, arith, eqb, count,
  count-append, count-update_same, count-keep,
}
use agentmom.Settings.{Settings}
use agentmom.Catalog.{Catalog, Accounts}
use agentmom.Accounts.Sessions.{current_user, logout, has_user_id, seen}
use agentmom.Accounts.Invites.{InviteCreate, create_invite, admin_disable_invite}
use agentmom.Accounts.Signup.{create_user_session, authenticate_session}
use agentmom.Accounts.Owned.{setup_me, admin_delete_user}
use agentmom.Accounts.Admission.{entrant}
use agentmom.Accounts.Consistent.{Consistent}
use agentmom.Accounts.Reach.{
  Reaches, From, here, alters, touches, ends, issues, disables, joins, enters, deletes,
  Reaches-Consistent,
}
use agentmom.Accounts.Paths.{
  current_user-Reaches, logout-Reaches, create_invite-Reaches, admin_disable_invite-Reaches,
}
use agentmom.Accounts.Entry.{create_user_session-Reaches, authenticate_session-Reaches}
use agentmom.Accounts.Others.{setup_me-Reaches}
use agentmom.Accounts.Removal.{admin_delete_user-Reaches}

-- A request, with the random texts that the program draws for it and the cookie that it carries.
pub data Request : Type 0 where
  signs_up : String → String → String → String → Option String → String → Request
  logs_in : String → String → String → Request
  visits : Option String → Request
  logs_out : Option String → Request
  issues_invite : List String → InviteCreate → Request
  disables_invite : Option String → ℕ → Request
  sets_up : String → Option String → String → String → Request
  deletes_user : String → Option String → ℕ → Request

-- The catalog after a request, whether it succeeds or fails.
unfoldable pub serve : Settings → ℕ × Request → Catalog → Catalog
serve env (now, signs_up salt token full_name email code password) db =
    (create_user_session env now salt token full_name email code password db).1
serve env (now, logs_in token email password) db =
    (authenticate_session env now token email password db).1
serve env (now, visits header) db = (current_user env now header db).1
serve env (now, logs_out header) db = (logout env header db).1
serve env (now, issues_invite codes input) db = (create_invite now codes input db).1
serve env (now, disables_invite header id) db = (admin_disable_invite env now header id db).1
serve env (now, sets_up job header full_name agent_name) db =
    (setup_me env job now header full_name agent_name db).1
serve env (now, deletes_user job header id) db = (admin_delete_user env job now header id db).1

unfoldable pub serve_all : Settings → List (ℕ × Request) → Catalog → Catalog
serve_all env [] db = db
serve_all env (r ∷ rs) db = serve_all env rs (serve env r db)

serve-Reaches :
    (a : Accounts) (env : Settings) (now : ℕ) (r : Request) (db : Catalog)
    → From a db
    → From a (serve env (now, r) db)
unfolding serve
serve-Reaches a env now (signs_up salt token full_name email code password) db h =
    create_user_session-Reaches a env now salt token full_name email code password db h
serve-Reaches a env now (logs_in token email password) db h =
    authenticate_session-Reaches a env now token email password db h
serve-Reaches a env now (visits header) db h = current_user-Reaches a env now header db h
serve-Reaches a env now (logs_out header) db h = logout-Reaches a env header db h
serve-Reaches a env now (issues_invite codes input) db h =
    create_invite-Reaches a now codes input db h
serve-Reaches a env now (disables_invite header id) db h =
    admin_disable_invite-Reaches a env now header id db h
serve-Reaches a env now (sets_up job header full_name agent_name) db h =
    setup_me-Reaches a env job now header full_name agent_name db h
serve-Reaches a env now (deletes_user job header id) db h =
    admin_delete_user-Reaches a env job now header id db h

pub serve_all-Reaches :
    (a : Accounts) (env : Settings) (rs : List (ℕ × Request)) (db : Catalog)
    → From a db
    → From a (serve_all env rs db)
unfolding serve_all
serve_all-Reaches a env [] db h = h
serve_all-Reaches a env ((now, r) ∷ rs) db h =
    serve_all-Reaches a env rs (serve env (now, r) db) (serve-Reaches a env now r db h)

-- Where the accounts are consistent, they are so after any sequence of requests, also where some
-- of them fail: the uses that every invite counts are its redemptions, no invite is used more
-- often than it allows, no two users have one id or one address, no two invites one id or one
-- code, and no two sessions one token.
pub serve_all-Consistent :
    (env : Settings) (rs : List (ℕ × Request)) (db : Catalog)
    → Consistent db.accounts
    → Consistent (serve_all env rs db).accounts
serve_all-Consistent env rs db h =
    Reaches-Consistent (serve_all-Reaches db.accounts env rs db here) h

-- The id was given to a user that is no longer there.
abbrev pub Retired : ℕ → Accounts → Type 0
Retired id a = (id ≤ a.user_seq) × (count (has_user_id id) a.users ≡ 0)

Reaches-Retired : (id : ℕ) {a b : Accounts} → Reaches a b → Retired id a → Retired id b
unfolding count
Reaches-Retired id here h = h
Reaches-Retired id (alters {b} n f same mail r) h =
    let (past, gone) = Reaches-Retired id r h in
    (
      past,
      rw
          (count-update_same (has_user_id id) (has_user_id n) f b.users
            (λ u. ap (λ m. eqb m id) (same u)))
          gone,
    )
Reaches-Retired id (touches {b} now hash r) h = Reaches-Retired id r h
Reaches-Retired id (ends {b} p r) h = Reaches-Retired id r h
Reaches-Retired id (issues {b} now code input new r) h = Reaches-Retired id r h
Reaches-Retired id (disables {b} n r) h = Reaches-Retired id r h
Reaches-Retired id (joins {b} now name email hash code role none th new why free r) h =
    let (past, gone) = Reaches-Retired id r h in
    (
      omega arith,
      ground (
        arith,
        gone,
        count-append (has_user_id id) b.users (entrant now name email hash role none b ∷ []),
      ),
    )
Reaches-Retired id (joins {b} now name email hash code role (some i) th new why free r) h =
    let (past, gone) = Reaches-Retired id r h in
    (
      omega arith,
      ground (
        arith,
        gone,
        count-append (has_user_id id) b.users (entrant now name email hash role (some i) b ∷ []),
      ),
    )
Reaches-Retired id (enters {b} now u hash there free r) h =
    let (past, gone) = Reaches-Retired id r h in
    (
      past,
      rw (count-update_same (has_user_id id) (has_user_id u.id) (seen now) b.users (λ v. refl))
          gone,
    )
Reaches-Retired id (deletes {b} n r) h =
    let (past, gone) = Reaches-Retired id r h in
    (past, omega (arith, gone, count-keep (has_user_id id) (λ u. not (has_user_id n u)) b.users))

pub serve_all-Retired :
    (id : ℕ) (env : Settings) (rs : List (ℕ × Request)) (db : Catalog)
    → Retired id db.accounts
    → Retired id (serve_all env rs db).accounts
serve_all-Retired id env rs db h =
    Reaches-Retired id (serve_all-Reaches db.accounts env rs db here) h
