-- ===== src/Text/Bytes.antt =====
-- The bytes of the texts that the functions of Text.antt return.
use Prim.Native.Char.{Char, code}
use Prim.Native.String
use Prim.Native.String.append
use Prim.Native.String.{[], ◌∷◌, char_at}
use agentmom.Prelude.{
  ℕ, zero, suc, ◌+◌, ◌-◌, ◌≤◌, ◌<◌, String, ◌≡◌, ◌⊎◌, refl, inl, inr, Bool, true, ◌&&◌, ◌||◌, arith,
  eqb, Bool-cases,
}
use agentmom.Text.{
  is_digit, is_lower, is_upper, is_alphanumeric, byte_len, all_bytes, trim_end_where, lower,
}

-- Lower-case letters, digits and dashes.
abbrev pub is_slug_byte : ℕ → Bool
is_slug_byte b = is_digit b || is_lower b || eqb b b'-'

String-cases : (s : String) → (s ≡ []) ⊎ ((c : Char) × (t : String) × (s ≡ c ∷ t))
String-cases [] = inl refl
String-cases (c ∷ s) = inr (c, s, refl)

pub all_bytes-append :
    (p : ℕ → Bool) (s t : String) → all_bytes p (String.◌++◌ s t) ≡ (all_bytes p s && all_bytes p t)
unfolding all_bytes
all_bytes-append p [] t = rw (append.nil t) refl
all_bytes-append p (c ∷ s) t = rw (append.cons c s t) (ground (arith, all_bytes-append p s t))

pub byte_len-append : (s t : String) → byte_len (String.◌++◌ s t) ≡ byte_len s + byte_len t
unfolding byte_len
byte_len-append [] t = rw (append.nil t) (omega arith)
byte_len-append (c ∷ s) t = rw (append.cons c s t) (omega (arith, byte_len-append s t))

pub all_bytes_mono :
    (p q : ℕ → Bool) (s : String)
    → ((b : ℕ) → p b ≡ true → q b ≡ true)
    → all_bytes p s ≡ true
    → all_bytes q s ≡ true
unfolding all_bytes
all_bytes_mono p q [] h e = refl
all_bytes_mono p q (c ∷ s) h e = ground (arith, h (code c), all_bytes_mono p q s h)

-- A prefix of a text: what is left of it when characters are dropped at its end.
pub all_bytes-trim_end_where :
    (p q : ℕ → Bool) (s : String) → all_bytes p s ≡ true → all_bytes p (trim_end_where q s) ≡ true
unfolding all_bytes trim_end_where
all_bytes-trim_end_where p q [] h = refl
all_bytes-trim_end_where p q (c ∷ s) h =
    let rest = all_bytes-trim_end_where p q s (ground arith) in
    elim (String-cases (trim_end_where q s)) [
      | inl e ↦
          rw e (elim (Bool-cases (q (code c))) [ inl f ↦ rw f refl | inr f ↦ rw f (ground arith) ])
      | inr (d, t, e) ↦ let both = rw e at rest in rw e (ground arith)
    ]

pub byte_len-trim_end_where :
    (q : ℕ → Bool) (s : String) → byte_len (trim_end_where q s) ≤ byte_len s
unfolding byte_len trim_end_where
byte_len-trim_end_where q [] = omega arith
byte_len-trim_end_where q (c ∷ s) =
    let rest = byte_len-trim_end_where q s in
    elim (String-cases (trim_end_where q s)) [
      | inl e ↦ rw e (elim (Bool-cases (q (code c))) [
        | inl f ↦ rw f (omega arith)
        | inr f ↦ rw f (omega arith)
      ])
      | inr (d, t, e) ↦ let both = rw e at rest in rw e (omega (arith, both))
    ]

all_below : (ℕ → Bool) → ℕ → Bool
all_below p zero = true
all_below p (suc n) = p n && all_below p n

below_all : (p : ℕ → Bool) (k n : ℕ) → all_below p k ≡ true → n < k → p n ≡ true
unfolding all_below
below_all p zero n h l = absurd (omega (arith, l))
below_all p (suc k) n h l = elim (Bool-cases (eqb n k)) [
  | inl e ↦ let same : n ≡ k = ground arith in rw same (ground arith)
  | inr e ↦ below_all p k n (ground arith) (ground arith)
]

abbrev letter : ℕ → Bool
letter n = is_lower (code (char_at "abcdefghijklmnopqrstuvwxyz" n))

letters : all_below letter 26 ≡ true
unfolding all_below
letters = refl

pub lower_slug_byte :
    (c : Char) → is_alphanumeric (code c) ≡ true → is_slug_byte (code (lower c)) ≡ true
unfolding lower
lower_slug_byte c h = elim (Bool-cases (is_upper (code c))) [
  | inr e ↦ rw e (ground arith)
  | inl e ↦
      let small : code c - b'A' < 26 = ground arith in
      rw e (ground (arith, below_all letter 26 (code c - b'A') letters small))
]
