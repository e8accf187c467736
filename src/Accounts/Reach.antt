-- ===== src/Accounts/Reach.antt =====
-- The changes that the operations make to the accounts, as a step relation.
use agentmom.Prelude.{ℕ, ◌+◌, String, ◌≡◌, refl, Bool, false, Option, eqb, exists, Has}
use agentmom.Catalog.{Catalog, Accounts, User, Session}
use agentmom.Accounts.Sessions.{has_hash, update_user, seen, touch_session, end_sessions}
use agentmom.Accounts.Invites.{InviteCreate, add_invite, issued, has_code, disable}
use agentmom.Accounts.Signup.{has_email, with_session}
use agentmom.Accounts.Admission.{Admission, joined}
use agentmom.Accounts.Owned.{without_user}
use agentmom.Accounts.Consistent.{
  Consistent, update_user-Consistent, touch_session-Consistent, end_sessions-Consistent,
  disable-Consistent, without_user-Consistent,
}
use agentmom.Accounts.Counts.{add_invite-Consistent, with_session-Consistent, joined-Consistent}

-- The accounts after a deletion.
abbrev pub deleted : ℕ → Accounts → Accounts
deleted id a = without_user id (end_sessions (λ s. eqb s.user_id id) a)

pub data Reaches (a : Accounts) : Accounts → Type 0 where
  here : Reaches a a
  alters :
      {b : Accounts} (id : ℕ) (f : User → User)
      → ((u : User) → (f u).id ≡ u.id)
      → ((u : User) → (f u).email ≡ u.email)
      → Reaches a b
      → Reaches a (update_user id f b)
  touches :
      {b : Accounts} (now : ℕ) (hash : String) → Reaches a b → Reaches a (touch_session now hash b)
  ends : {b : Accounts} (p : Session → Bool) → Reaches a b → Reaches a (end_sessions p b)
  issues :
      {b : Accounts} (now : ℕ) (code : String) (input : InviteCreate)
      → exists (has_code code) b.invites ≡ false
      → Reaches a b
      → Reaches a (add_invite (issued now code input (b.invite_seq + 1)) b)
  disables : {b : Accounts} (id : ℕ) → Reaches a b → Reaches a (disable id b)
  joins :
      {b : Accounts} (now : ℕ) (name email hash : String) (code : Option String) (role : String)
      (invite : Option ℕ) (token_hash : String)
      → exists (has_email email) b.users ≡ false
      → Admission code b role invite
      → exists (has_hash token_hash) b.sessions ≡ false
      → Reaches a b
      → Reaches a (joined now name email hash role invite token_hash b)
  enters :
      {b : Accounts} (now : ℕ) (u : User) (hash : String)
      → Has u b.users
      → exists (has_hash hash) b.sessions ≡ false
      → Reaches a b
      → Reaches a (with_session now u.id hash (update_user u.id (seen now) b))
  deletes : {b : Accounts} (id : ℕ) → Reaches a b → Reaches a (deleted id b)

-- The accounts of a catalog are reached from `a`.
abbrev pub From : Accounts → Catalog → Type 0
From a db = Reaches a db.accounts

pub Reaches-Consistent : {a b : Accounts} → Reaches a b → Consistent a → Consistent b
Reaches-Consistent here h = h
Reaches-Consistent (alters {b} id f same mail r) h =
    update_user-Consistent id f b same mail (Reaches-Consistent r h)
Reaches-Consistent (touches {b} now hash r) h =
    touch_session-Consistent now hash b (Reaches-Consistent r h)
Reaches-Consistent (ends {b} p r) h = end_sessions-Consistent p b (Reaches-Consistent r h)
Reaches-Consistent (issues {b} now code input new r) h =
    add_invite-Consistent now code input b new (Reaches-Consistent r h)
Reaches-Consistent (disables {b} id r) h = disable-Consistent id b (Reaches-Consistent r h)
Reaches-Consistent (joins {b} now name email hash code role invite th new why free r) h =
    joined-Consistent now name email hash code role invite th b new why free
      (Reaches-Consistent r h)
Reaches-Consistent (enters {b} now u hash there free r) h =
    with_session-Consistent now u.id hash (update_user u.id (seen now) b) free
      (update_user-Consistent u.id (seen now) b (λ v. refl) (λ v. refl) (Reaches-Consistent r h))
Reaches-Consistent (deletes {b} id r) h =
    without_user-Consistent id (end_sessions (λ s. eqb s.user_id id) b)
      (end_sessions-Consistent (λ s. eqb s.user_id id) b (Reaches-Consistent r h))
