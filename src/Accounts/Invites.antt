-- ===== src/Accounts/Invites.antt =====
-- Invites: `create_invite` and `admin_disable_invite`.
use agentmom.Prelude.{
  ℕ, zero, suc, ◌+◌, String, Bool, true, false, not, Option, none, some, List, [], ◌∷◌, ◌++◌, ◌==◌,
  ltb, eqb, if◌then◌else◌, count, update, find, exists,
}
use agentmom.Settings.{Settings}
use agentmom.Text.{trim}
use agentmom.Catalog.{Accounts, Invite, Catalog}
use agentmom.Catalog.Exec.{
  Exec, lift, query, ok_or, guard, ◌>>=◌, ◌>>◌, ok, err, constraint, account_missing,
  invite_label_required, bad_max_uses, Result,
}
use agentmom.Accounts.Texts.{InviteRole, role_as_str, normalize_access_code}
use agentmom.Accounts.Sessions.{require_admin}

-- `max_uses` is at least 0 here; the code refuses what is below 1.
pub record InviteCreate : Type 0 where
  pub label : String
  pub description : String
  pub role : InviteRole
  pub max_uses : Option ℕ
  pub created_by_user_id : Option ℕ

abbrev pub has_code : String → Invite → Bool
has_code code i = i.code == code

abbrev pub has_invite_id : ℕ → Invite → Bool
has_invite_id id i = eqb i.id id

abbrev pub issued : ℕ → String → InviteCreate → ℕ → Invite
issued now code input id = record {
  id = id;
  label = trim input.label;
  description = trim input.description;
  code = code;
  role = role_as_str input.role;
  max_uses = input.max_uses;
  used_count = 0;
  active = true;
  created_by_user_id = input.created_by_user_id;
  created_at = now;
}

abbrev pub add_invite : Invite → Accounts → Accounts
add_invite i a = record a { invites = a.invites ++ i ∷ []; invite_seq = i.id }

-- INSERT INTO invites; the column `code` is unique. The answer is last_insert_rowid().
unfoldable pub insert_invite : ℕ → String → InviteCreate → Exec ℕ
insert_invite now code input db =
    let id = db.accounts.invite_seq + 1 in
    if exists (has_code code) db.accounts.invites
    then (err constraint, db)
    else (ok id, record db { accounts = add_invite (issued now code input id) db.accounts })

abbrev or_retry :
    String → Result ℕ × Catalog → Result (ℕ × String) × Catalog → Result (ℕ × String) × Catalog
or_retry code (ok id, db) rest = (ok (id, code), db)
or_retry code (err e, db) rest = rest

-- The loop over the attempts, each with the code that `generate_access_code` returns for it. The
-- insertion fails on a constraint only, and the error of the last attempt is returned.
unfoldable pub try_codes : ℕ → InviteCreate → List String → Exec (ℕ × String)
try_codes now input [] db = (err constraint, db)
try_codes now input (generated ∷ codes) db =
    let code = normalize_access_code generated in
    or_retry code (insert_invite now code input db) (try_codes now input codes db)

abbrev pub is_below_one : Option ℕ → Bool
is_below_one none = false
is_below_one (some n) = ltb n 1

unfoldable pub first : ℕ → List String → List String
first zero xs = []
first (suc n) [] = []
first (suc n) (x ∷ xs) = x ∷ first n xs

abbrev pub max_attempts : ℕ
max_attempts = 8

unfoldable pub create_invite : ℕ → List String → InviteCreate → Exec (ℕ × String)
create_invite now codes input = do
  guard (not (trim input.label == "")) invite_label_required
  guard (not (is_below_one input.max_uses)) bad_max_uses
  try_codes now input (first max_attempts codes)

abbrev pub disable : ℕ → Accounts → Accounts
disable id a = record a {
  invites = update (has_invite_id id) (λ i. record i { active = false }) a.invites;
}

-- UPDATE invites SET active = 0, which returns the number of rows that it changed
unfoldable pub disable_invite : ℕ → Exec ℕ
disable_invite id db = (
  ok (count (has_invite_id id) db.accounts.invites),
  record db { accounts = disable id db.accounts },
)

unfoldable pub invite_get : ℕ → Exec Invite
invite_get id = do
  found ← query (λ db. find (has_invite_id id) db.accounts.invites)
  lift (ok_or found account_missing)

unfoldable pub admin_disable_invite : Settings → ℕ → Option String → ℕ → Exec Invite
admin_disable_invite env now header id = do
  require_admin env now header
  changed ← disable_invite id
  guard (not (eqb changed 0)) account_missing
  invite_get id
