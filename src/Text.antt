-- ===== src/Text.antt =====
-- ASCII tests on characters, the byte length of a text, and texts as lists of code points.
pub mod Bytes
pub mod Parts
pub mod Numbers
use Prim.Native.Char.{Char, code}
use Prim.Native.String.{[], ◌∷◌, char_at}
use agentmom.Prelude.{
  ℕ, ◌+◌, String, Bool, true, ◌&&◌, ◌||◌, leb, ltb, eqb, List, ◌-◌, if◌then◌else◌, ◌≡◌, refl,
  Option, some, none,
}

-- char::is_ascii_digit, is_ascii_uppercase, is_ascii_lowercase
abbrev pub is_digit : ℕ → Bool
is_digit c = leb b'0' c && leb c b'9'

abbrev pub is_upper : ℕ → Bool
is_upper c = leb b'A' c && leb c b'Z'

abbrev pub is_lower : ℕ → Bool
is_lower c = leb b'a' c && leb c b'z'

-- u8::is_ascii_alphanumeric; the bytes of a character past ASCII are all 128 or more
abbrev pub is_alphanumeric : ℕ → Bool
is_alphanumeric c = is_digit c || is_upper c || is_lower c

-- The bytes of a character in UTF-8.
abbrev pub utf8_width : ℕ → ℕ
utf8_width c = if ltb c 0x80 then 1 else if ltb c 0x800 then 2 else if ltb c 0x10000 then 3 else 4

-- str::len
unfoldable pub byte_len : String → ℕ
byte_len [] = 0
byte_len (c ∷ s) = utf8_width (code c) + byte_len s

-- s.bytes().all(p), for a test that only ASCII bytes pass
unfoldable pub all_bytes : (ℕ → Bool) → String → Bool
all_bytes p [] = true
all_bytes p (c ∷ s) = p (code c) && all_bytes p s

-- char::is_whitespace: the code points with the Unicode property White_Space
unfoldable pub is_whitespace : ℕ → Bool
is_whitespace c =
    (leb 9 c && leb c 13)
    || eqb c 0x20
    || eqb c 0x85
    || eqb c 0xa0
    || eqb c 0x1680
    || (leb 0x2000 c && leb c 0x200a)
    || eqb c 0x2028
    || eqb c 0x2029
    || eqb c 0x202f
    || eqb c 0x205f
    || eqb c 0x3000

-- str::trim_start_matches and trim_end_matches with a test on characters
unfoldable pub trim_start_where : (ℕ → Bool) → String → String
trim_start_where p [] = []
trim_start_where p (c ∷ s) = let rest = trim_start_where p s in if p (code c) then rest else c ∷ s

unfoldable pub trim_end_where : (ℕ → Bool) → String → String
trim_end_where p [] = []
trim_end_where p (c ∷ s) = elim (trim_end_where p s) [
  | [] ↦ if p (code c) then [] else c ∷ []
  | d ∷ t ↦ c ∷ d ∷ t
]

-- str::trim
unfoldable pub trim : String → String
unfolding is_whitespace trim_start_where trim_end_where
trim s = trim_end_where is_whitespace (trim_start_where is_whitespace s)

abbrev onto_first : Char → List String → List String
onto_first c List.[] = List.◌∷◌ (c ∷ []) List.[]
onto_first c (List.◌∷◌ part parts) = List.◌∷◌ (c ∷ part) parts

-- str::split at a character
unfoldable pub split : ℕ → String → List String
split sep [] = List.◌∷◌ [] List.[]
split sep (c ∷ s) =
    let parts = split sep s in if eqb (code c) sep then List.◌∷◌ [] parts else onto_first c parts

-- char::to_ascii_lowercase and char::to_ascii_uppercase
unfoldable pub lower : Char → Char
lower c = if is_upper (code c) then char_at "abcdefghijklmnopqrstuvwxyz" (code c - b'A') else c

-- str::to_ascii_lowercase
unfoldable pub to_lowercase : String → String
unfolding lower
to_lowercase [] = []
to_lowercase (c ∷ s) = lower c ∷ to_lowercase s

trimmed : trim "  a b " ≡ "a b"
unfolding trim
trimmed = refl

-- str::strip_prefix
unfoldable pub strip_prefix : String → String → Option String
strip_prefix [] s = some s
strip_prefix (p ∷ ps) [] = none
strip_prefix (p ∷ ps) (c ∷ s) =
    let rest = strip_prefix ps s in if eqb (code p) (code c) then rest else none
