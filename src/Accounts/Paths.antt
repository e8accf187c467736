-- ===== src/Accounts/Paths.antt =====
-- What the operations on sessions and invites do to the accounts.
use agentmom.Prelude.{
  ℕ, String, refl, inl, inr, not, Option, none, some, List, [], ◌∷◌, ◌==◌, eqb, Bool-cases,
  Option-cases, count, exists,
}
use agentmom.Settings.{Settings}
use agentmom.Catalog.{Accounts}
use agentmom.Catalog.Exec.{forbidden, account_missing, pure, Result-cases, guard, ◌>>=◌, ◌>>◌}
use agentmom.Catalog.Keeps.{Keeps, bind_after}
use agentmom.Text.{trim}
use agentmom.Accounts.Invites.{is_below_one}
use agentmom.Accounts.Texts.{
  normalize_access_code, session_token_hash, cookie_value, session_cookie_name,
}
use agentmom.Accounts.Sessions.{
  has_hash, seen, user_of_session, current_user, require_admin, logout, end_session,
}
use agentmom.Accounts.Invites.{
  InviteCreate, has_code, has_invite_id, insert_invite, try_codes, first, max_attempts,
  create_invite, disable_invite, invite_get, admin_disable_invite,
}
use agentmom.Accounts.Reach.{From, alters, touches, ends, issues, disables}

module _ (a : Accounts) where
  pub current_user-Reaches :
      (env : Settings) (now : ℕ) (header : Option String)
      → Keeps (From a) (current_user env now header)
  unfolding current_user
  current_user-Reaches env now header db h =
      elim (Option-cases (cookie_value header session_cookie_name)) [
        | inl e ↦ rw e h
        | inr (token, e) ↦ elim (Result-cases (session_token_hash env token)) [
          | inr (x, s) ↦ rw (e, s) h
          | inl (hash, s) ↦ elim (Option-cases (user_of_session hash db.accounts)) [
            | inl n ↦ rw (e, s, n) h
            | inr (u, n) ↦
                rw (e, s, n) (alters u.id (seen now) (λ v. refl) (λ v. refl) (touches now hash h))
          ]
        ]
      ]

  pub require_admin-Reaches :
      (env : Settings) (now : ℕ) (header : Option String)
      → Keeps (From a) (require_admin env now header)
  unfolding require_admin
  require_admin-Reaches env now header db h =
      bind_after (From a) (current_user env now header)
        (λ u. guard (u.role == "admin") forbidden >> pure u) db
        (current_user-Reaches env now header db h)
        (λ u e. elim (Bool-cases (u.role == "admin")) [
          | inl t ↦ rw t (current_user-Reaches env now header db h)
          | inr t ↦ rw t (current_user-Reaches env now header db h)
        ])

  end_session-Reaches :
      (env : Settings) (token : Option String) → Keeps (From a) (end_session env token)
  unfolding end_session
  end_session-Reaches env none db h = h
  end_session-Reaches env (some token) db h = elim (Result-cases (session_token_hash env token)) [
    | inr (x, s) ↦ rw s h
    | inl (hash, s) ↦ rw s (ends (has_hash hash) h)
  ]

  pub logout-Reaches :
      (env : Settings) (header : Option String) → Keeps (From a) (logout env header)
  unfolding logout
  logout-Reaches env header = end_session-Reaches env (cookie_value header session_cookie_name)

  try_codes-Reaches :
      (now : ℕ) (input : InviteCreate) (codes : List String)
      → Keeps (From a) (try_codes now input codes)
  unfolding try_codes insert_invite
  try_codes-Reaches now input [] db h = h
  try_codes-Reaches now input (g ∷ codes) db h =
      elim (Bool-cases (exists (has_code (normalize_access_code g)) db.accounts.invites)) [
        | inl e ↦ rw e (try_codes-Reaches now input codes db h)
        | inr e ↦ rw e (issues now (normalize_access_code g) input e h)
      ]

  pub create_invite-Reaches :
      (now : ℕ) (codes : List String) (input : InviteCreate)
      → Keeps (From a) (create_invite now codes input)
  unfolding create_invite
  create_invite-Reaches now codes input db h = elim (Bool-cases (trim input.label == "")) [
    | inl e ↦ rw e h
    | inr e ↦ elim (Bool-cases (is_below_one input.max_uses)) [
      | inl f ↦ rw (e, f) h
      | inr f ↦ rw (e, f) (try_codes-Reaches now input (first max_attempts codes) db h)
    ]
  ]

  pub admin_disable_invite-Reaches :
      (env : Settings) (now : ℕ) (header : Option String) (id : ℕ)
      → Keeps (From a) (admin_disable_invite env now header id)
  unfolding admin_disable_invite disable_invite invite_get
  admin_disable_invite-Reaches env now header id db h =
      bind_after (From a) (require_admin env now header)
        (λ _. disable_invite id >>= λ n. guard (not (eqb n 0)) account_missing >> invite_get id) db
        (require_admin-Reaches env now header db h)
        (λ u e.
          let kept = disables id (require_admin-Reaches env now header db h) in
          elim (Bool-cases (
            eqb (count (has_invite_id id) (require_admin env now header db).1.accounts.invites)
              0)) [ inl t ↦ rw t kept | inr t ↦ rw t kept ])
