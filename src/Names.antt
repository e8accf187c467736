-- ===== src/Names.antt =====
-- Workspace names and slugs: `sanitize_workspace_name`, `workspace_slug_from_name` and
-- `workspace_id_from_slug` of src/main.rs. SHA-256 is a setting, see Settings.antt.
pub mod Slugs
use Prim.Native.Char.{Char, code}
use Prim.Native.String
use Prim.Native.String.{[], ◌∷◌}
use agentmom.Prelude.{
  ℕ, zero, suc, ◌+◌, ◌-◌, String, Bool, true, false, not, ◌&&◌, ◌||◌, ◌==◌, ltb, leb, eqb,
  if◌then◌else◌,
}
use agentmom.Settings.{Settings}
use agentmom.Text.{is_alphanumeric, byte_len, all_bytes, trim, trim_end_where, lower}
use agentmom.Catalog.Exec.{bad_name, Result, ok, err}

abbrev pub is_name_byte : ℕ → Bool
is_name_byte b = is_alphanumeric b || eqb b b'.' || eqb b b'-' || eqb b b'_'

unfoldable pub sanitize_workspace_name : String → Result String
unfolding byte_len all_bytes
sanitize_workspace_name name =
    if name == ""
    then err bad_name
    else if ltb 96 (byte_len name)
    then err bad_name
    else if not (all_bytes is_name_byte name)
    then err bad_name
    else ok name

abbrev pub push : String → Char → String
push s c = String.◌++◌ s (c ∷ [])

-- The loop over the characters: `slug` is the text so far, `dash` the flag `last_was_dash`.
unfoldable pub slug_loop : String → Bool → String → String
unfolding lower
slug_loop slug dash [] = slug
slug_loop slug dash (c ∷ s) =
    let letter = slug_loop (push slug (lower c)) false s in
    let dashed = slug_loop (String.◌++◌ slug "-") true s in
    let same = slug_loop slug dash s in
    if is_alphanumeric (code c)
    then letter
    else if not dash && not (slug == "")
    then dashed
    else same

-- `while slug.ends_with('-') { slug.pop(); }`
unfoldable pub drop_dashes : String → String
drop_dashes = trim_end_where (λ c. eqb c b'-')

-- String::truncate on ASCII text
unfoldable pub truncate : ℕ → String → String
truncate zero s = []
truncate (suc n) [] = []
truncate (suc n) (c ∷ s) = c ∷ truncate n s

abbrev pub max_slug_len : ℕ
max_slug_len = 64

-- The slug shortened so that a dash and the hash still fit.
unfoldable pub shorten : ℕ → String → String
shorten suffix_len slug =
    if ltb max_slug_len (byte_len slug + suffix_len)
    then drop_dashes (truncate (max_slug_len - suffix_len) slug)
    else slug

unfoldable pub finish_slug : String → String → String → String
finish_slug trimmed slug hash =
    if slug == ""
    then String.◌++◌ "workspace-" hash
    else if slug == trimmed && leb (byte_len slug) max_slug_len
    then slug
    else String.◌++◌ (shorten (byte_len hash + 1) slug) (String.◌++◌ "-" hash)

unfoldable pub workspace_slug_from_name : Settings → String → Result String
workspace_slug_from_name env name =
    let trimmed = trim name in
    if trimmed == ""
    then err bad_name
    else if ltb 128 (byte_len trimmed)
    then err bad_name
    else ok
        (finish_slug trimmed (drop_dashes (slug_loop "" false trimmed)) (env.short_hash trimmed 12))

unfoldable pub workspace_id_from_slug : Settings → String → String
workspace_id_from_slug env slug = String.◌++◌ "ws_" (env.short_hash slug 16)
