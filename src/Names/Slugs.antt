-- ===== src/Names/Slugs.antt =====
-- The shape of the slugs that workspaces are stored under.
use Prim.Native.Char.{code}
use Prim.Native.String
use Prim.Native.String.append
use Prim.Native.String.{[], ◌∷◌}
use agentmom.Prelude.{
  subst, ℕ, zero, suc, ◌+◌, ◌-◌, ◌≤◌, String, ◌≡◌, refl, inl, inr, Bool, true, false, not, ◌&&◌, [],
  ◌∷◌, arith, ◌==◌, eq_iff, ltb, leb, eqb, Bool-cases,
}
use agentmom.Settings.{Settings}
use agentmom.Text.{byte_len, all_bytes, trim, utf8_width, lower, is_alphanumeric}
use agentmom.Text.Bytes.{
  is_slug_byte, all_bytes-append, byte_len-append, all_bytes_mono, all_bytes-trim_end_where,
  byte_len-trim_end_where, lower_slug_byte,
}
use agentmom.Catalog.Exec.{Result, ok, err}
use agentmom.Names.{
  is_name_byte, sanitize_workspace_name, push, slug_loop, drop_dashes, truncate, shorten,
  finish_slug, workspace_slug_from_name,
}

abbrev IsSlug : String → Type 0
IsSlug s = all_bytes is_slug_byte s ≡ true

append-IsSlug : (s t : String) → IsSlug s → IsSlug t → IsSlug (String.◌++◌ s t)
append-IsSlug s t h k = ground (arith, h, k, all_bytes-append is_slug_byte s t)

slug_loop-IsSlug :
    (slug : String) (dash : Bool) (s : String) → IsSlug slug → IsSlug (slug_loop slug dash s)
unfolding slug_loop all_bytes
slug_loop-IsSlug slug dash [] h = h
slug_loop-IsSlug slug dash (c ∷ s) h = elim (Bool-cases (is_alphanumeric (code c))) [
  | inl e ↦ rw e (
      slug_loop-IsSlug (push slug (lower c)) false s
        (append-IsSlug slug (lower c ∷ []) h (ground (arith, lower_slug_byte c e))))
  | inr e ↦ elim (Bool-cases (not dash && not (slug == ""))) [
    | inl d ↦
        rw (e, d) (slug_loop-IsSlug (String.◌++◌ slug "-") true s (append-IsSlug slug "-" h refl))
    | inr d ↦ rw (e, d) (slug_loop-IsSlug slug dash s h)
  ]
]

truncate-IsSlug : (n : ℕ) (s : String) → IsSlug s → IsSlug (truncate n s)
unfolding truncate all_bytes
truncate-IsSlug zero s h = refl
truncate-IsSlug (suc n) [] h = refl
truncate-IsSlug (suc n) (c ∷ s) h = ground (arith, truncate-IsSlug n s (ground arith))

slug_width : (b : ℕ) → is_slug_byte b ≡ true → utf8_width b ≡ 1
slug_width b h = ground arith

byte_len-truncate : (n : ℕ) (s : String) → IsSlug s → byte_len (truncate n s) ≤ n
unfolding truncate all_bytes byte_len
byte_len-truncate zero s h = omega arith
byte_len-truncate (suc n) [] h = omega arith
byte_len-truncate (suc n) (c ∷ s) h =
    let rest = byte_len-truncate n s (ground arith) in
    omega (arith, rest, slug_width (code c) (ground arith))

shorten-IsSlug : (n : ℕ) (s : String) → IsSlug s → IsSlug (shorten n s)
unfolding shorten drop_dashes
shorten-IsSlug n s h = elim (Bool-cases (ltb 64 (byte_len s + n))) [
  | inl e ↦
      rw e (
        all_bytes-trim_end_where is_slug_byte _ (truncate (64 - n) s)
          (truncate-IsSlug (64 - n) s h))
  | inr e ↦ rw e h
]

byte_len-shorten : (n : ℕ) (s : String) → IsSlug s → n ≤ 64 → byte_len (shorten n s) + n ≤ 64
unfolding shorten drop_dashes
byte_len-shorten n s h k = elim (Bool-cases (ltb 64 (byte_len s + n))) [
  | inl e ↦ rw e (
      omega (
        arith,
        k,
        byte_len-truncate (64 - n) s h,
        byte_len-trim_end_where (λ c. eqb c b'-') (truncate (64 - n) s),
      ))
  | inr e ↦ rw e (ground arith)
]

-- What a slug is made of, and that it is a valid workspace name.
pub record Shape (slug : String) : Type 0 where
  pub bytes : IsSlug slug
  pub short : byte_len slug ≤ 64
  pub filled : (slug == "") ≡ false

-- A text that has bytes is not empty.
filled_of-byte_len : (s : String) → 1 ≤ byte_len s → (s == "") ≡ false
unfolding byte_len
filled_of-byte_len s h = elim (Bool-cases (s == "")) [
  | inr e ↦ e
  | inl e ↦
      let none_left = subst (λ t. 1 ≤ byte_len t) ((eq_iff s "").0 e) h in
      absurd (omega (arith, none_left))
]

sanitized : (slug : String) → Shape slug → sanitize_workspace_name slug ≡ ok slug
unfolding sanitize_workspace_name
sanitized slug s =
    let name_bytes = all_bytes_mono is_slug_byte is_name_byte slug (λ b h. ground arith) s.bytes in
    let fits : ltb 96 (byte_len slug) ≡ false = ground (arith, s.short) in
    rw (s.filled, fits, name_bytes) refl

module _ (trimmed slug hash : String) (digits : byte_len hash ≡ 12) (hex : IsSlug hash) where
  dashed_len : byte_len (String.◌++◌ "-" hash) ≡ 13
  unfolding byte_len
  dashed_len = omega (arith, byte_len-append "-" hash, digits)

  finish_slug-Shape : IsSlug slug → Shape (finish_slug trimmed slug hash)
  unfolding finish_slug byte_len all_bytes
  finish_slug-Shape h = elim (Bool-cases (slug == "")) [
    | inl e ↦ rw e (record {
      bytes = append-IsSlug "workspace-" hash refl hex;
      short = omega (arith, byte_len-append "workspace-" hash, digits);
      filled = filled_of-byte_len _ (omega (arith, byte_len-append "workspace-" hash, digits));
    })
    | inr e ↦ elim (Bool-cases (slug == trimmed && leb (byte_len slug) 64)) [
      | inl f ↦ rw (e, f) (record { bytes = h; short = ground arith; filled = e })
      | inr f ↦
          rw (e, f)
            (record {
              bytes =
                  append-IsSlug (shorten (byte_len hash + 1) slug) (String.◌++◌ "-" hash)
                    (shorten-IsSlug (byte_len hash + 1) slug h) (append-IsSlug "-" hash refl hex);
              short = omega (
                arith,
                digits,
                dashed_len,
                byte_len-append (shorten (byte_len hash + 1) slug) (String.◌++◌ "-" hash),
                byte_len-shorten (byte_len hash + 1) slug h (omega (arith, digits)),
              );
              filled = filled_of-byte_len _ (
                  omega (
                    arith,
                    dashed_len,
                    byte_len-append (shorten (byte_len hash + 1) slug) (String.◌++◌ "-" hash),
                  ));
            })
    ]
  ]

abbrev Outcome : Result String → Type 0
Outcome (err e) = Unit
Outcome (ok slug) = Shape slug × (sanitize_workspace_name slug ≡ ok slug)

slug-Outcome :
    (env : Settings) (name : String)
    → byte_len (env.short_hash (trim name) 12) ≡ 12
    → IsSlug (env.short_hash (trim name) 12)
    → Outcome (workspace_slug_from_name env name)
unfolding workspace_slug_from_name drop_dashes all_bytes
slug-Outcome env name digits hex = elim (Bool-cases (trim name == "")) [
  | inl e ↦ rw e tt
  | inr e ↦ elim (Bool-cases (ltb 128 (byte_len (trim name)))) [
    | inl f ↦ rw (e, f) tt
    | inr f ↦
        let looped = slug_loop-IsSlug "" false (trim name) refl in
        let shape = finish_slug-Shape (trim name) _ _ digits hex (
          all_bytes-trim_end_where is_slug_byte (λ c. eqb c b'-') (slug_loop "" false (trim name))
            looped) in
        rw (e, f) (shape, sanitized _ shape)
  ]
]

-- If the hash of the trimmed name has the 12 digits that were asked for, and they are lower-case
-- letters, digits or dashes, then a slug that a name is given is not empty, has at most 64 bytes,
-- all of them lower-case letters, digits or dashes, and is a valid workspace name itself.
pub workspace_slug-Shape :
    (env : Settings) (name slug : String)
    → byte_len (env.short_hash (trim name) 12) ≡ 12
    → IsSlug (env.short_hash (trim name) 12)
    → workspace_slug_from_name env name ≡ ok slug
    → Shape slug × (sanitize_workspace_name slug ≡ ok slug)
workspace_slug-Shape env name slug digits hex e = subst Outcome e (slug-Outcome env name digits hex)
