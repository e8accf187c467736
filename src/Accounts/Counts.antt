-- ===== src/Accounts/Counts.antt =====
-- The counts of the invites stay those of their redemptions.
use agentmom.Prelude.{
  subst, ℕ, ◌+◌, ◌≤◌, ◌<◌, String, ◌≡◌, refl, sym, inl, inr, true, false, Option, none, some, List,
  [], ◌∷◌, ◌++◌, arith, leb, eqb, Bool-cases, count, update, exists, All, Has, count-append,
  Has-count, All-append, All-single, append-Unique, update-Unique, Numbered, append-Numbered,
  update-Numbered,
}
use agentmom.Catalog.{Accounts, User, Invite, Redemption, Session}
use agentmom.Accounts.Sessions.{has_hash}
use agentmom.Accounts.Invites.{InviteCreate, add_invite, issued, has_code, has_invite_id}
use agentmom.Accounts.Signup.{
  has_email, with_session, spent, with_use, count_use, with_user, with_redemption,
}
use agentmom.Accounts.Admission.{Admission, entrant, joined}
use agentmom.Accounts.Consistent.{Consistent, Accounted, Limited, of_invite}

pub add_invite-Consistent :
    (now : ℕ) (code : String) (input : InviteCreate) (a : Accounts)
    → exists (has_code code) a.invites ≡ false
    → Consistent a
    → Consistent (add_invite (issued now code input (a.invite_seq + 1)) a)
add_invite-Consistent now code input a new h =
    let i = issued now code input (a.invite_seq + 1) in
    let no_use : count (of_invite (a.invite_seq + 1)) a.redemptions ≡ 0 =
      h.redeemed _ (omega arith) in
    record {
      users = h.users;
      emails = h.emails;
      invites = append-Numbered (λ (j : Invite). j.id) a.invite_seq i a.invites refl h.invites;
      codes = append-Unique (λ (j : Invite). j.code) i a.invites new h.codes;
      redeemed = λ n later. h.redeemed n (omega arith);
      uses =
          All-append (Accounted a.redemptions) i a.invites h.uses
            (sym no_use, unused input.max_uses);
      hashes = h.hashes;
    }
  where
    unused : (most : Option ℕ) → Limited most 0
    unused none = tt
    unused (some m) = omega arith

Limited-use :
    (most : Option ℕ) (used : ℕ)
    → elim most [ none ↦ false | some m ↦ leb m used ] ≡ false
    → Limited most (used + 1)
Limited-use none used h = tt
Limited-use (some m) used h = ground arith

-- A use of an invite that is not spent, and the redemption that goes with it.
recount :
    (id : ℕ) (r : Redemption) (rs : List Redemption) (xs : List Invite)
    → r.invite_id ≡ id
    → All (Accounted rs) xs
    → All (λ x. has_invite_id id x ≡ true → spent x ≡ false) xs
    → All (Accounted (rs ++ r ∷ [])) (update (has_invite_id id) with_use xs)
unfolding update count
recount id r rs [] same h k = tt
recount id r rs (x ∷ xs) same h k =
    let more = count-append (of_invite x.id) rs (r ∷ []) in
    elim (Bool-cases (has_invite_id id x)) [
      | inl e ↦ rw e (
        (ground (arith, more), Limited-use x.max_uses x.used_count (k.0 e)),
        recount id r rs xs same h.1 k.1,
      )
      | inr e ↦ rw e ((ground (arith, more), h.0.1), recount id r rs xs same h.1 k.1)
    ]

redeemed_later :
    (n id : ℕ) (r : Redemption) (rs : List Redemption)
    → r.invite_id ≡ id
    → count (of_invite n) rs ≡ 0
    → eqb id n ≡ false
    → count (of_invite n) (rs ++ r ∷ []) ≡ 0
unfolding count
redeemed_later n id r rs same h other = ground (arith, count-append (of_invite n) rs (r ∷ []))

pub with_session-Consistent :
    (now user : ℕ) (hash : String) (a : Accounts)
    → exists (has_hash hash) a.sessions ≡ false
    → Consistent a
    → Consistent (with_session now user hash a)
with_session-Consistent now user hash a new h = record {
  users = h.users;
  emails = h.emails;
  invites = h.invites;
  codes = h.codes;
  redeemed = h.redeemed;
  uses = h.uses;
  hashes = append-Unique (λ (s : Session). s.token_hash) _ a.sessions new h.hashes;
}

with_user-Consistent :
    (u : User) (a : Accounts)
    → u.id ≡ a.user_seq + 1
    → exists (has_email u.email) a.users ≡ false
    → Consistent a
    → Consistent (with_user u a)
with_user-Consistent u a same new h = record {
  users =
      subst (λ n. Numbered (λ (v : User). v.id) n (a.users ++ u ∷ [])) (sym same)
        (append-Numbered (λ (v : User). v.id) a.user_seq u a.users same h.users);
  emails = append-Unique (λ (v : User). v.email) u a.users new h.emails;
  invites = h.invites;
  codes = h.codes;
  redeemed = h.redeemed;
  uses = h.uses;
  hashes = h.hashes;
}

-- The use of an invite and its redemption go together.
redemption-Consistent :
    (now id user : ℕ) (i : Invite) (a : Accounts)
    → Has i a.invites
    → i.id ≡ id
    → spent i ≡ false
    → Consistent a
    → Consistent (with_redemption now id user (count_use id a))
redemption-Consistent now id user i a there same unspent h =
    let r : Redemption = record {
      id = a.redemption_seq + 1;
      invite_id = id;
      user_id = user;
      redeemed_at = now;
    } in
    let known : has_invite_id id i ≡ true = ground arith in
    let once = Has-count (has_invite_id id) i a.invites there known in
    record {
      users = h.users;
      emails = h.emails;
      invites =
          update-Numbered (λ (j : Invite). j.id) a.invite_seq (has_invite_id id) with_use a.invites
            (λ j. refl) h.invites;
      codes =
          update-Unique (λ (j : Invite). j.code) (has_invite_id id) with_use a.invites (λ j. refl)
            h.codes;
      redeemed = λ n later.
          redeemed_later n id r a.redemptions refl (h.redeemed n later)
            (other n later (h.invites.ahead id) once);
      uses = recount id r a.redemptions a.invites refl h.uses (
          All-single (has_invite_id id) (λ j. spent j ≡ false) i a.invites (h.invites.single id)
            there known unspent);
      hashes = h.hashes;
    }
  where
    other :
        (n : ℕ)
        → a.invite_seq < n
        → (a.invite_seq < id → count (has_invite_id id) a.invites ≡ 0)
        → 1 ≤ count (has_invite_id id) a.invites
        → eqb id n ≡ false
    other n later past once = elim (Bool-cases (eqb id n)) [
      | inr e ↦ e
      | inl e ↦ let none_there = past (ground arith) in absurd (omega arith)
    ]

pub joined-Consistent :
    (now : ℕ) (name email hash : String) (code : Option String) (role : String) (invite : Option ℕ)
    (token_hash : String) (a : Accounts)
    → exists (has_email email) a.users ≡ false
    → Admission code a role invite
    → exists (has_hash token_hash) a.sessions ≡ false
    → Consistent a
    → Consistent (joined now name email hash role invite token_hash a)
joined-Consistent now name email hash code role none token_hash a new why free h =
    with_session-Consistent now (a.user_seq + 1) token_hash _ free
      (with_user-Consistent _ a refl new h)
joined-Consistent now name email hash code role (some id) token_hash a new why free h =
    let (i, there, same, _, _, _, unspent) = why in
    with_session-Consistent now (a.user_seq + 1) token_hash _ free (
      with_user-Consistent (entrant now name email hash role (some id) a)
        (with_redemption now id (a.user_seq + 1) (count_use id a)) refl new
        (redemption-Consistent now id (a.user_seq + 1) i a there same unspent h))
