-- ===== src/Tunnels/Specified.antt =====
-- What `preview_spec` answers.
use Prim.Native.Char.{code}
use Prim.Native.String
use Prim.Native.String.{[], ◌∷◌}
use Prim.Native.String.append
use agentmom.Prelude.{
  ◌≤◌, String, ◌≡◌, refl, ◌≢◌, inl, inr, true, false, ◌||◌, Option, none, some, [], ◌∷◌, arith,
  ◌==◌, eq_iff, ltb, eqb, Bool-cases,
}
use agentmom.Text.{byte_len, trim, trim_start_where, trim_end_where, strip_prefix}
use agentmom.Text.Parts.{any_char}
use agentmom.Catalog.Exec.{Result, ok, err, bad_preview}
use agentmom.Tunnels.Previews.{
  PreviewOpenRequest, PreviewSpec, preview_service_id, preview_name_from_service, name_loop,
  is_dash, checked_name, trimmed_name, normalize_preview_name, bad_in_host, normalize_preview_host,
  spec_of, preview_spec,
}

-- A specification that is given has a port and a name of 1 to 48 bytes, and its service leads back
-- to the name.
abbrev pub Preview : PreviewOpenRequest → Result PreviewSpec → Type 0
Preview request (ok spec) =
    (1 ≤ spec.port)
    × (spec.port ≡ request.port)
    × (spec.name ≢ "")
    × (byte_len spec.name ≤ 48)
    × (preview_name_from_service spec.service ≡ some spec.name)
Preview request (err e) = e ≡ bad_preview

strip_prefix-append : (p s : String) → strip_prefix p (String.◌++◌ p s) ≡ some s
unfolding strip_prefix
strip_prefix-append [] s = rw (append.nil s) refl
strip_prefix-append (c ∷ p) s =
    let same : eqb (code c) (code c) ≡ true = ground arith in
    rw (append.cons c p s, strip_prefix, same, strip_prefix-append p s) refl

preview_name-preview_service_id :
    (name : String) → preview_name_from_service (preview_service_id name) ≡ some name
unfolding preview_name_from_service preview_service_id
preview_name-preview_service_id name = strip_prefix-append "preview:" name

abbrev Named : Result String → Type 0
Named (ok name) = (name ≢ "") × (byte_len name ≤ 48)
Named (err e) = e ≡ bad_preview

checked-Named : (s : String) → Named (checked_name s)
checked-Named s = elim (Bool-cases (s == "" || ltb 48 (byte_len s))) [
  | inl h ↦ rw h refl
  | inr h ↦ rw h ((λ e. let empty = (eq_iff s "").1 e in ground (arith, empty, h)), ground arith)
]

name-Named : (value : String) → Named (normalize_preview_name value)
unfolding normalize_preview_name
name-Named value = cases (name_loop false false (trim value))
  where
    cases : (o : Option String) → Named (trimmed_name o)
    cases none = refl
    cases (some s) = checked-Named (trim_end_where is_dash (trim_start_where is_dash s))

abbrev Refused : Result String → Type 0
Refused (ok host) = Unit {0}
Refused (err e) = e ≡ bad_preview

host-Refused : (value : String) → Refused (normalize_preview_host value)
unfolding normalize_preview_host
host-Refused value = elim (Bool-cases (trim value == "")) [
  | inl a ↦ rw a refl
  | inr a ↦ elim (Bool-cases (trim value == "0.0.0.0" || trim value == "::")) [
    | inl b ↦ rw (a, b) tt
    | inr b ↦ elim (Bool-cases (any_char bad_in_host (trim value))) [
      | inl c ↦ rw (a, b, c) refl
      | inr c ↦ rw (a, b, c) tt
    ]
  ]
]

-- A request for a preview is answered with a specification that has the port of the request, which
-- is not 0, and a name of 1 to 48 bytes, and whose service leads back to that name; or with an
-- error.
pub preview_spec-Preview : (request : PreviewOpenRequest) → Preview request (preview_spec request)
unfolding preview_spec
preview_spec-Preview request = elim (Bool-cases (eqb request.port 0)) [
  | inl e ↦ rw e refl
  | inr e ↦ rw e (
      cases (normalize_preview_name request.name) (name-Named request.name)
        (normalize_preview_host request.host) (host-Refused request.host) (ground arith))
]
  where
    cases :
        (n : Result String)
        → Named n
        → (h : Result String) → Refused h
        → 1 ≤ request.port
        → Preview request (spec_of request n h)
    cases (ok name) (some_name, short) (ok host) e p =
        (p, refl, some_name, short, preview_name-preview_service_id name)
    cases (ok name) good (err f) e p = e
    cases (err f) good h e p = good
