-- ===== src/Accounts/Consistent.antt =====
-- The state of the accounts: what the operations on users, invites and sessions keep.
use agentmom.Prelude.{
  ℕ, ◌≤◌, ◌<◌, String, ◌≡◌, refl, Bool, false, not, Option, none, some, List, eqb, count, All,
  update-All, Unique, update-Unique, keep-Unique, Numbered, update-Numbered, keep-Numbered,
}
use agentmom.Accounts.Owned.{without_user}
use agentmom.Catalog.{Accounts, User, Invite, Redemption, Session}
use agentmom.Accounts.Sessions.{has_user_id, has_hash, update_user, touch_session, end_sessions}
use agentmom.Accounts.Invites.{has_invite_id, disable}

abbrev pub of_invite : ℕ → Redemption → Bool
of_invite id r = eqb r.invite_id id

abbrev pub Limited : Option ℕ → ℕ → Type 0
Limited none used = Unit
Limited (some most) used = used ≤ most

-- The count of an invite is the number of its redemptions, and within its limit.
abbrev pub Accounted : List Redemption → Invite → Type 0
Accounted rs i = (i.used_count ≡ count (of_invite i.id) rs) × Limited i.max_uses i.used_count

pub record Consistent (a : Accounts) : Type 0 where
  pub users : Numbered (λ (u : User). u.id) a.user_seq a.users
  pub emails : Unique (λ (u : User). u.email) a.users
  pub invites : Numbered (λ (i : Invite). i.id) a.invite_seq a.invites
  pub codes : Unique (λ (i : Invite). i.code) a.invites
  pub redeemed : (n : ℕ) → a.invite_seq < n → count (of_invite n) a.redemptions ≡ 0
  pub uses : All (Accounted a.redemptions) a.invites
  pub hashes : Unique (λ (s : Session). s.token_hash) a.sessions

-- A change of a user that leaves its id and its address alone.
pub update_user-Consistent :
    (id : ℕ) (f : User → User) (a : Accounts)
    → ((u : User) → (f u).id ≡ u.id)
    → ((u : User) → (f u).email ≡ u.email)
    → Consistent a
    → Consistent (update_user id f a)
update_user-Consistent id f a same mail h = record {
  users = update-Numbered (λ (u : User). u.id) a.user_seq (has_user_id id) f a.users same h.users;
  emails = update-Unique (λ (u : User). u.email) (has_user_id id) f a.users mail h.emails;
  invites = h.invites;
  codes = h.codes;
  redeemed = h.redeemed;
  uses = h.uses;
  hashes = h.hashes;
}

pub touch_session-Consistent :
    (now : ℕ) (hash : String) (a : Accounts) → Consistent a → Consistent (touch_session now hash a)
touch_session-Consistent now hash a h = record {
  users = h.users;
  emails = h.emails;
  invites = h.invites;
  codes = h.codes;
  redeemed = h.redeemed;
  uses = h.uses;
  hashes =
      update-Unique (λ (s : Session). s.token_hash) (has_hash hash)
        (λ s. record s { last_seen_at = now }) a.sessions (λ s. refl) h.hashes;
}

pub end_sessions-Consistent :
    (p : Session → Bool) (a : Accounts) → Consistent a → Consistent (end_sessions p a)
end_sessions-Consistent p a h = record {
  users = h.users;
  emails = h.emails;
  invites = h.invites;
  codes = h.codes;
  redeemed = h.redeemed;
  uses = h.uses;
  hashes = keep-Unique (λ (s : Session). s.token_hash) (λ s. not (p s)) a.sessions h.hashes;
}

pub disable-Consistent : (id : ℕ) (a : Accounts) → Consistent a → Consistent (disable id a)
disable-Consistent id a h = record {
  users = h.users;
  emails = h.emails;
  invites =
      update-Numbered (λ (i : Invite). i.id) a.invite_seq (has_invite_id id)
        (λ i. record i { active = false }) a.invites (λ i. refl) h.invites;
  codes =
      update-Unique (λ (i : Invite). i.code) (has_invite_id id) (λ i. record i { active = false })
        a.invites (λ i. refl) h.codes;
  redeemed = h.redeemed;
  uses =
      update-All (Accounted a.redemptions) (has_invite_id id) (λ i. record i { active = false })
        a.invites (λ i q e. q) h.uses;
  hashes = h.hashes;
}

pub without_user-Consistent :
    (id : ℕ) (a : Accounts) → Consistent a → Consistent (without_user id a)
without_user-Consistent id a h = record {
  users =
      keep-Numbered (λ (u : User). u.id) a.user_seq (λ u. not (has_user_id id u)) a.users h.users;
  emails = keep-Unique (λ (u : User). u.email) (λ u. not (has_user_id id u)) a.users h.emails;
  invites = h.invites;
  codes = h.codes;
  redeemed = h.redeemed;
  uses = h.uses;
  hashes = h.hashes;
}
