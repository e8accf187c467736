-- ===== src/Accounts/Admission.antt =====
-- The ways in which a sign-up ends.
use agentmom.Prelude.{
  ℕ, ◌+◌, String, ◌≡◌, refl, sym, ap, ◌∙◌, inl, inr, true, false, ◌&&◌, Option, none, some, arith,
  eq_iff, eq_refl, eqb, Bool-cases, Option-cases, count, find, exists, Has, find_sound,
  find-append_new,
}
use agentmom.Settings.{Settings}
use agentmom.Catalog.{Catalog, Accounts, User, Invite}
use agentmom.Catalog.Exec.{Error, Result, Result-cases, ok, err, continue, transaction}
use agentmom.Accounts.Texts.{session_token_hash}
use agentmom.Accounts.Sessions.{AuthUser, user_from_row, has_hash}
use agentmom.Accounts.Invites.{has_code}
use agentmom.Accounts.Signup.{
  has_email, with_session, insert_session, create_session_in_tx, spent, count_use, use_invite,
  admit_signup, new_user, with_user, insert_user_with_password, with_redemption, redeem,
  user_by_email, enroll, sign_up,
}

-- The use of an invite, and its redemption.
abbrev pub counted : Option ℕ → Accounts → Accounts
counted none a = a
counted (some id) a = count_use id a

abbrev pub with_redeemed : ℕ → Option ℕ → ℕ → Accounts → Accounts
with_redeemed now none user a = a
with_redeemed now (some id) user a = with_redemption now id user a

-- Why a new user is let in: it is the first, or its code is that of an active invite with uses
-- left.
abbrev pub Admission : Option String → Accounts → String → Option ℕ → Type 0
Admission code a role none = (count (λ u. true) a.users ≡ 0) × (role ≡ "admin")
Admission code a role (some id) =
    (i : Invite) × Has i a.invites
    × (i.id ≡ id)
    × (i.role ≡ role)
    × (code ≡ some i.code)
    × (i.active ≡ true)
    × (spent i ≡ false)

-- The user that signs up, and the accounts afterwards.
module _ (now : ℕ) (name email hash role : String) (invite : Option ℕ) where
  abbrev pub entrant : Accounts → User
  entrant a = new_user now email hash name role invite (a.user_seq + 1)

  abbrev pub joined : String → Accounts → Accounts
  joined token_hash a =
      with_session now (a.user_seq + 1) token_hash
        (with_redeemed now invite (a.user_seq + 1) (with_user (entrant a) (counted invite a)))

module _ (env : Settings) (now : ℕ) (token name email hash : String) (code : Option String)
    (db : Catalog) where
  admission_cases {ℓ} :
      (P : Result (String × Option ℕ) × Catalog → Type ℓ)
      → ((e : Error) → P (err e, db))
      → ((role : String) (invite : Option ℕ)
          → Admission code db.accounts role invite
          → P (ok (role, invite), record db { accounts = counted invite db.accounts }))
      → P (admit_signup code db)
  unfolding admit_signup use_invite
  admission_cases P failed admitted =
      elim (Bool-cases (eqb (count (λ (u : User). true) db.accounts.users) 0)) [
        | inl f ↦ rw f (admitted "admin" none (ground arith, refl))
        | inr f ↦ elim (Option-cases code) [
          | inl c ↦ rw (f, c) (failed _)
          | inr (given, c) ↦
              elim (Option-cases (find (λ i. has_code given i && i.active) db.accounts.invites)) [
                | inl n ↦ rw (f, c, n) (failed _)
                | inr (i, n) ↦ elim (Bool-cases (spent i)) [
                  | inl s ↦ rw (f, c, n, s) (failed _)
                  | inr s ↦
                      let (there, both) = find_sound _ db.accounts.invites i n in
                      let same : i.code ≡ given = ground (arith, eq_iff i.code given) in
                      let from : code ≡ some i.code = c ∙ ap some (sym same) in
                      rw (f, c, n, s)
                        (admitted i.role (some i.id) (i, there, refl, refl, from, ground arith, s))
                ]
              ]
        ]
      ]

  -- The rows are inserted, or a statement fails; `db'` is what the admission left.
  enroll_cases {ℓ} :
      (P : Result (AuthUser × String) × Catalog → Type ℓ) (role : String) (invite : Option ℕ)
      → exists (has_email email) db.accounts.users ≡ false
      → ((e : Error) (db' : Catalog) → P (err e, db'))
      → ((token_hash : String)
          → session_token_hash env token ≡ ok token_hash
          → exists (has_hash token_hash) db.accounts.sessions ≡ false
          → P (
            ok (user_from_row (entrant now name email hash role invite db.accounts), token),
            record db { accounts = joined now name email hash role invite token_hash db.accounts },
          ))
      → P (
          enroll env now token name email hash role invite
            (record db { accounts = counted invite db.accounts }))
  unfolding enroll insert_user_with_password redeem user_by_email create_session_in_tx
      insert_session
  enroll_cases P role none new failed done =
      let found =
        find-append_new (has_email email) (entrant now name email hash role none db.accounts)
          db.accounts.users new (eq_refl email) in
      elim (Result-cases (session_token_hash env token)) [
        | inr (x, s) ↦ rw (new, found, s) (failed _ _)
        | inl (h, s) ↦ elim (Bool-cases (exists (has_hash h) db.accounts.sessions)) [
          | inl t ↦ rw (new, found, s, t) (failed _ _)
          | inr t ↦ rw (new, found, s, t) (done h s t)
        ]
      ]
  enroll_cases P role (some id) new failed done =
      let found =
        find-append_new (has_email email) (entrant now name email hash role (some id) db.accounts)
          db.accounts.users new (eq_refl email) in
      elim (Result-cases (session_token_hash env token)) [
        | inr (x, s) ↦ rw (new, found, s) (failed _ _)
        | inl (h, s) ↦ elim (Bool-cases (exists (has_hash h) db.accounts.sessions)) [
          | inl t ↦ rw (new, found, s, t) (failed _ _)
          | inr t ↦ rw (new, found, s, t) (done h s t)
        ]
      ]

  pub sign_up_cases {ℓ} :
      (P : Result (AuthUser × String) × Catalog → Type ℓ)
      → ((e : Error) → P (err e, db))
      → ((role : String) (invite : Option ℕ) (token_hash : String)
          → exists (has_email email) db.accounts.users ≡ false
          → Admission code db.accounts role invite
          → session_token_hash env token ≡ ok token_hash
          → exists (has_hash token_hash) db.accounts.sessions ≡ false
          → P (
            ok (user_from_row (entrant now name email hash role invite db.accounts), token),
            record db { accounts = joined now name email hash role invite token_hash db.accounts },
          ))
      → P (sign_up env now token name email hash code db)
  unfolding sign_up
  sign_up_cases P failed signed = elim (Bool-cases (exists (has_email email) db.accounts.users)) [
    | inl t ↦ rw t (failed _)
    | inr t ↦ rw t (
        admission_cases
          (λ r. P (
            transaction (λ _. continue r.0 (λ a. enroll env now token name email hash a.0 a.1) r.1)
              db))
          failed
          (λ role invite why.
            enroll_cases (λ r. P (transaction (λ _. r) db)) role invite t (λ e db'. failed e)
              (λ h s n. signed role invite h t why s n)))
  ]
