-- ===== src/Text/Numbers.antt =====
-- str::parse to an unsigned integer: decimal digits, after a plus sign where there is one.
use Prim.Native.Char.{code}
use Prim.Native.String.{[], ◌∷◌}
use agentmom.Prelude.{
  ℕ, ◌+◌, ◌-◌, ◌*◌, String, ◌≡◌, refl, Option, none, some, [], ◌∷◌, leb, eqb, if◌then◌else◌,
}
use agentmom.Text.{is_digit}

unfoldable digits : String → ℕ → Option ℕ
digits [] n = some n
digits (c ∷ s) n =
    let rest = digits s (n * 10 + (code c - b'0')) in if is_digit (code c) then rest else none

abbrev bounded : ℕ → Option ℕ → Option ℕ
bounded most none = none
bounded most (some n) = if leb n most then some n else none

abbrev unsigned : String → Option ℕ
unsigned [] = none
unsigned (c ∷ s) = digits (c ∷ s) 0

-- `most` is the largest value of the type.
unfoldable pub parse_unsigned : ℕ → String → Option ℕ
unfolding digits
parse_unsigned most [] = none
parse_unsigned most (c ∷ s) =
    bounded most (if eqb (code c) b'+' then unsigned s else unsigned (c ∷ s))

abbrev pub u16_max : ℕ
u16_max = 65_535

parsed : parse_unsigned u16_max "+8080" ≡ some 8080
unfolding parse_unsigned digits
parsed = refl

too_large : parse_unsigned u16_max "65536" ≡ none
unfolding parse_unsigned digits
too_large = refl
