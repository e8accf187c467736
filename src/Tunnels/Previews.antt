-- ===== src/Tunnels/Previews.antt =====
-- Previews, the tunnels that a user opens to a port of a workspace: `preview_spec` of src/main.rs
-- and what it calls, and the URLs of tunnels of src/service.rs.
use Prim.Native.Char.{Char, code}
use Prim.Native.String
use Prim.Native.String.{[], ◌∷◌}
use Prim.Native.String.append
use agentmom.Prelude.{
  ℕ, String, Bool, true, false, not, ◌&&◌, ◌||◌, Option, none, some, [], ◌∷◌, ◌==◌, ltb, eqb,
  if◌then◌else◌,
}
use agentmom.Text.{
  byte_len, trim, trim_start_where, trim_end_where, lower, is_alphanumeric, strip_prefix,
}
use agentmom.Text.Parts.{any_char, contains}
use agentmom.Catalog.Exec.{Result, ok, err, bad_preview}
use text.Mathlib.Text.{starts_with}

pub record PreviewOpenRequest : Type 0 where
  pub name : String
  pub host : String
  pub port : ℕ
  pub path : String

pub record PreviewSpec : Type 0 where
  pub name : String
  pub service : String
  pub host : String
  pub port : ℕ
  pub path : String

unfoldable pub preview_service_id : String → String
preview_service_id name = String.◌++◌ "preview:" name

unfoldable pub preview_name_from_service : String → Option String
unfolding strip_prefix
preview_name_from_service service = strip_prefix "preview:" service

-- char::is_ascii_whitespace
abbrev is_ascii_space : ℕ → Bool
is_ascii_space c = eqb c 32 || eqb c 9 || eqb c 10 || eqb c 12 || eqb c 13

abbrev pub is_dash : ℕ → Bool
is_dash c = eqb c b'-'

abbrev written_before : Char → Option String → Option String
written_before c none = none
written_before c (some s) = some (c ∷ s)

-- The loop of `normalize_preview_name`: whether something was written, and whether the last
-- character that was written is a dash. None where a character is not allowed.
unfoldable pub name_loop : Bool → Bool → String → Option String
unfolding lower
name_loop written last_dash [] = some []
name_loop written last_dash (c ∷ s) =
    let plain = name_loop true false s in
    let dash = name_loop true true s in
    let same = name_loop written last_dash s in
    if is_alphanumeric (code c)
    then written_before (lower c) plain
    else if eqb (code c) b'-'
    then written_before c dash
    else if eqb (code c) b'_'
    then written_before c plain
    else if is_ascii_space (code c) || eqb (code c) b'.'
    then (if not last_dash && written then written_before "-" dash else same)
    else none

abbrev pub checked_name : String → Result String
checked_name output =
    if output == "" || ltb 48 (byte_len output) then err bad_preview else ok output

abbrev pub trimmed_name : Option String → Result String
trimmed_name none = err bad_preview
trimmed_name (some output) = checked_name (trim_end_where is_dash (trim_start_where is_dash output))

-- The messages of all these errors are one constructor here.
unfoldable pub normalize_preview_name : String → Result String
unfolding trim name_loop trim_start_where trim_end_where byte_len
normalize_preview_name value = trimmed_name (name_loop false false (trim value))

abbrev pub bad_in_host : ℕ → Bool
bad_in_host c = is_ascii_space c || eqb c b'/' || eqb c 92 || eqb c b':'

unfoldable pub normalize_preview_host : String → Result String
unfolding trim any_char
normalize_preview_host value =
    let host = trim value in
    if host == ""
    then err bad_preview
    else if host == "0.0.0.0" || host == "::"
    then ok "127.0.0.1"
    else if any_char bad_in_host host
    then err bad_preview
    else ok host

unfoldable pub normalize_preview_path : String → String
unfolding trim
normalize_preview_path value =
    let path = trim value in
    if path == "" then "/" else if starts_with path "/" then path else String.◌++◌ "/" path

abbrev pub spec_of : PreviewOpenRequest → Result String → Result String → Result PreviewSpec
spec_of request (ok name) (ok host) = ok (record {
  name = name;
  service = preview_service_id name;
  host = host;
  port = request.port;
  path = normalize_preview_path request.path;
})
spec_of request (ok name) (err e) = err e
spec_of request (err e) host = err e

unfoldable pub preview_spec : PreviewOpenRequest → Result PreviewSpec
unfolding normalize_preview_name normalize_preview_host normalize_preview_path preview_service_id
preview_spec request =
    if eqb request.port 0
    then err bad_preview
    else spec_of request (normalize_preview_name request.name) (normalize_preview_host request.host)

unfoldable pub preview_key : String → String → String
preview_key workspace_name service_name = String.◌++◌ workspace_name (String.◌++◌ ":" service_name)

unfoldable pub service_url_with_path : String → String → String
unfolding normalize_preview_path trim_end_where
service_url_with_path base value =
    let path = normalize_preview_path value in
    if path == "/" then base else String.◌++◌ (trim_end_where (λ c. eqb c b'/') base) path

unfoldable pub service_tunnel_probe_host : String → String
service_tunnel_probe_host host =
    if host == "0.0.0.0" then "127.0.0.1" else if host == "::" then "::1" else host

unfoldable pub http_host_for_url : String → String
unfolding contains
http_host_for_url host =
    if contains b':' host && not (starts_with host "[")
    then String.◌++◌ "[" (String.◌++◌ host "]")
    else host
