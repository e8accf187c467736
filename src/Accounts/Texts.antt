-- ===== src/Accounts/Texts.antt =====
-- The texts that src/auth.rs accepts and builds: e-mail addresses, names, passwords, access codes,
-- roles and cookies.
use Prim.Native.Char.{Char, code}
use Prim.Native.String
use Prim.Native.String.{char_at}
use agentmom.Prelude.{
  ℕ, String, ◌≡◌, refl, Bool, true, false, not, ◌&&◌, ◌||◌, Option, none, some, List, [], ◌∷◌, ◌==◌,
  ltb, leb, eqb, if◌then◌else◌,
}
use agentmom.Settings.{Settings}
use agentmom.Text.{trim, split, byte_len, is_whitespace, to_lowercase}
use agentmom.Text.Parts.{any_char, contains, split_once, upper, map_chars}
use agentmom.Catalog.Exec.{
  Result, ok, err, bad_email, name_required, weak_password, auth_config, bad_invite_role,
}

pub data InviteRole : Type 0 where
  admin user : InviteRole

-- InviteRole::as_str and InviteRole::parse
abbrev pub role_as_str : InviteRole → String
role_as_str InviteRole.admin = "admin"
role_as_str InviteRole.user = "user"

unfoldable pub parse_role : String → Result InviteRole
parse_role value =
    let role = to_lowercase (trim value) in
    if role == "admin"
    then ok InviteRole.admin
    else if role == "user" || role == "non-admin" || role == "non_admin"
    then ok InviteRole.user
    else err bad_invite_role

abbrev domain_is_valid : String → Bool
domain_is_valid domain = contains b'.' domain && not (contains b'@' domain)

unfoldable pub is_valid_email : String → Bool
is_valid_email email = elim (split_once b'@' email) [
  | none ↦ false
  | some (local, domain) ↦
      not (local == "") && domain_is_valid domain && not (any_char is_whitespace email)
]

unfoldable pub normalize_email : String → Result String
normalize_email email =
    let normal = to_lowercase (trim email) in
    if is_valid_email normal then ok normal else err bad_email

unfoldable pub normalize_full_name : String → Result String
normalize_full_name full_name =
    let name = trim full_name in if name == "" then err name_required else ok name

unfoldable pub validate_password : String → Result (Unit {0})
validate_password password = if ltb (byte_len password) 8 then err weak_password else ok tt

unfoldable pub hmac_hex : Settings → String → Result String
hmac_hex env message = elim env.auth_secret [
  | none ↦ err auth_config
  | some secret ↦ ok (env.hmac_sha256 secret message)
]

unfoldable pub session_token_hash : Settings → String → Result String
session_token_hash env token = hmac_hex env (trim token)

-- The dashes of Unicode that a code may be typed with.
abbrev is_dash : ℕ → Bool
is_dash c = (leb 0x2010 c && leb c 0x2014) || eqb c 0x2212

unfoldable code_char : Char → Char
code_char c = if is_dash (code c) then char_at "-" 0 else upper c

unfoldable pub normalize_access_code : String → String
unfolding code_char
normalize_access_code s = map_chars code_char (trim s)

-- `.map(normalize_access_code).filter(|value| !value.is_empty())`
unfoldable pub given_code : Option String → Option String
given_code none = none
given_code (some s) =
    let normal = normalize_access_code s in if normal == "" then none else some normal

abbrev pub session_cookie_name : String
session_cookie_name = "agentmom_session"

unfoldable pub first_cookie : String → List String → Option String
first_cookie name [] = none
first_cookie name (part ∷ parts) =
    let rest = first_cookie name parts in
    elim (split_once b'=' (trim part)) [
      | none ↦ rest
      | some (key, value) ↦ if key == name then some value else rest
    ]

-- `header` is the header `cookie`, where there is one that is text.
unfoldable pub cookie_value : Option String → String → Option String
cookie_value none name = none
cookie_value (some header) name = first_cookie name (split b';' header)

-- `secure` is whether MOM_SESSION_COOKIE_SECURE is enabled.
abbrev secure_cookie_suffix : Bool → String
secure_cookie_suffix true = "; Secure"
secure_cookie_suffix false = ""

unfoldable pub session_cookie : Bool → String → String
session_cookie secure token = String.◌++◌ session_cookie_name (
    String.◌++◌ "=" (
      String.◌++◌ token
        (String.◌++◌ "; Path=/; HttpOnly; SameSite=Lax" (secure_cookie_suffix secure))))

unfoldable pub bool_flag_enabled : String → Bool
bool_flag_enabled value =
    let flag = to_lowercase (trim value) in
    flag == "1" || flag == "true" || flag == "yes" || flag == "on"

read_back :
    cookie_value (some "theme=dark; agentmom_session=s1; x=2") session_cookie_name ≡ some "s1"
unfolding cookie_value first_cookie split_once split trim
read_back = refl
