-- ===== src/Text/Parts.antt =====
-- Tests on the characters of a text, a split at a character, upper case, and the order of texts.
use Prim.Native.Char.{Char, code}
use Prim.Native.String.{[], ◌∷◌, char_at}
use agentmom.Prelude.{
  ℕ, ◌-◌, String, Bool, true, false, ◌||◌, Option, none, some, [], ◌∷◌, ltb, eqb, if◌then◌else◌,
}
use agentmom.Text.{is_lower}

-- s.chars().any(p)
unfoldable pub any_char : (ℕ → Bool) → String → Bool
any_char p [] = false
any_char p (c ∷ s) = p (code c) || any_char p s

-- str::contains with a character
unfoldable pub contains : ℕ → String → Bool
unfolding any_char
contains sep s = any_char (λ c. eqb c sep) s

abbrev behind : Char → Option (String × String) → Option (String × String)
behind c none = none
behind c (some (before, after)) = some (c ∷ before, after)

-- str::split_once with a character
unfoldable pub split_once : ℕ → String → Option (String × String)
split_once sep [] = none
split_once sep (c ∷ s) =
    let rest = split_once sep s in if eqb (code c) sep then some ([], s) else behind c rest

-- char::to_ascii_uppercase
unfoldable pub upper : Char → Char
upper c = if is_lower (code c) then char_at "ABCDEFGHIJKLMNOPQRSTUVWXYZ" (code c - b'a') else c

-- The order of texts by code points, which is the order of their bytes in UTF-8.
unfoldable pub comes_before : String → String → Bool
comes_before [] [] = false
comes_before [] (d ∷ t) = true
comes_before (c ∷ s) [] = false
comes_before (c ∷ s) (d ∷ t) =
    let rest = comes_before s t in
    if ltb (code c) (code d) then true else if eqb (code c) (code d) then rest else false

-- chars().map(f).collect()
unfoldable pub map_chars : (Char → Char) → String → String
map_chars f [] = []
map_chars f (c ∷ s) = f c ∷ map_chars f s
