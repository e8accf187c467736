-- ===== src/Machines/Addresses.antt =====
-- The addresses of the machines: `allocate_machine_index` and `microvm_cidr_prefix`.
use Prim.Native.String
use agentmom.Prelude.{
  ◌∙◌, ℕ, zero, suc, ◌+◌, ◌-◌, ◌≤◌, ◌<◌, String, ◌≡◌, refl, ◌⊎◌, inl, inr, Bool, true, false,
  Option, none, some, List, [], ◌∷◌, arith, ◌==◌, eq_iff, eqb, if◌then◌else◌, Bool-cases, length,
  exists, Has,
}
use agentmom.Text.{split}
use agentmom.Text.Parts.{split_once}
use agentmom.Catalog.Exec.{Result, ok, err, no_free_address, bad_machine_dir}

-- What `spec.json` of a machine directory says.
pub record MicrovmSpec : Type 0 where
  pub name : String
  pub machine_index : ℕ

-- An entry of the directory of machines: it is no directory or has no `spec.json`, or its type, its
-- `spec.json` or what that says cannot be read, or it has a specification.
pub data Entry : Type 0 where
  no_spec unreadable : Entry
  spec : MicrovmSpec → Entry

-- The directory of machines: it is not there, cannot be read, or has entries.
pub data Listing : Type 0 where
  absent unlisted : Listing
  entries : List Entry → Listing

abbrev pub min_machine_index : ℕ
min_machine_index = 10

abbrev pub max_machine_index : ℕ
max_machine_index = 229

-- What the loop over the entries ends with: an error, the index that the machine has already, or
-- the set of the indices of the others.
pub data Scan : Type 0 where
  fails : Scan
  has : ℕ → Scan
  others : List ℕ → Scan

abbrev pub also : ℕ → Scan → Scan
also i (others used) = others (i ∷ used)
also i fails = fails
also i (has own) = has own

unfoldable pub scan_entries : String → List Entry → Scan
scan_entries name [] = others []
scan_entries name (no_spec ∷ es) = scan_entries name es
scan_entries name (unreadable ∷ es) = fails
scan_entries name (spec s ∷ es) =
    let rest = scan_entries name es in
    if s.name == name then has s.machine_index else also s.machine_index rest

-- The loop over the `left` indices from `index` on.
unfoldable pub first_free : ℕ → ℕ → List ℕ → Option ℕ
first_free zero index used = none
first_free (suc left) index used =
    let rest = first_free left (index + 1) used in
    if exists (eqb index) used then rest else some index

abbrev free_index : Option ℕ → Result ℕ
free_index none = err no_free_address
free_index (some i) = ok i

abbrev scanned : Scan → Result ℕ
scanned fails = err bad_machine_dir
scanned (has own) = ok own
scanned (others used) =
    free_index (first_free (max_machine_index + 1 - min_machine_index) min_machine_index used)

unfoldable pub allocate_machine_index : Listing → String → Result ℕ
unfolding scan_entries first_free
allocate_machine_index absent name = ok min_machine_index
allocate_machine_index unlisted name = err bad_machine_dir
allocate_machine_index (entries es) name = scanned (scan_entries name es)

abbrev first_three : List String → Option String
first_three (a ∷ b ∷ c ∷ d ∷ []) =
    some (String.◌++◌ a (String.◌++◌ "." (String.◌++◌ b (String.◌++◌ "." c))))
first_three _ = none

abbrev or_prefix : Option String → String
or_prefix none = "192.168.83"
or_prefix (some p) = p

-- `cidr` is MOM_MICROVM_CIDR.
unfoldable pub microvm_cidr_prefix : Option String → String
microvm_cidr_prefix none = "192.168.83"
microvm_cidr_prefix (some cidr) = elim (split_once b'/' cidr) [
  | none ↦ "192.168.83"
  | some (address, length) ↦ or_prefix (first_three (split b'.' address))
]

-- Whether `first_free` finds an index, and which.
abbrev Found : ℕ → ℕ → List ℕ → Option ℕ → Type 0
Found left index used (some i) =
    (index ≤ i)
    × (i < index + left)
    × (exists (eqb i) used ≡ false)
    × ((j : ℕ) → index ≤ j → j < i → exists (eqb j) used ≡ true)
Found left index used none = (j : ℕ) → index ≤ j → j < index + left → exists (eqb j) used ≡ true

from_next :
    (left index : ℕ) (used : List ℕ) (o : Option ℕ)
    → exists (eqb index) used ≡ true
    → Found left (index + 1) used o
    → Found (suc left) index used o
from_next left index used (some i) taken (low, high, free, below) = (
  omega arith,
  omega arith,
  free,
  λ j l h. elim (Bool-cases (eqb j index)) [
    | inl e ↦ let same : j ≡ index = ground arith in rw same taken
    | inr e ↦ below j (ground arith) h
  ],
)
from_next left index used none taken rest = λ j l h. elim (Bool-cases (eqb j index)) [
  | inl e ↦ let same : j ≡ index = ground arith in rw same taken
  | inr e ↦ rest j (ground arith) (omega arith)
]

first_free-Found :
    (left index : ℕ) (used : List ℕ) → Found left index used (first_free left index used)
unfolding first_free
first_free-Found zero index used = λ j l h. absurd (omega arith)
first_free-Found (suc left) index used = elim (Bool-cases (exists (eqb index) used)) [
  | inl e ↦ rw e (
      from_next left index used (first_free left (index + 1) used) e
        (first_free-Found left (index + 1) used))
  | inr e ↦ rw e (omega arith, omega arith, e, λ j l h. absurd (omega arith))
]

-- Tests on entries.
abbrev pub is_unreadable : Entry → Bool
is_unreadable unreadable = true
is_unreadable _ = false

abbrev pub has_name : String → Entry → Bool
has_name name (spec s) = s.name == name
has_name name _ = false

abbrev pub has_index : ℕ → Entry → Bool
has_index i (spec s) = eqb i s.machine_index
has_index i _ = false

-- How the loop over the entries ends.
abbrev Scanned : String → List Entry → Scan → Type 0
Scanned name es fails = exists is_unreadable es ≡ true
Scanned name es (has i) =
    (s : MicrovmSpec) × Has (spec s) es × (s.name ≡ name) × (s.machine_index ≡ i)
Scanned name es (others used) =
    (exists is_unreadable es ≡ false)
    × (exists (has_name name) es ≡ false)
    × ((j : ℕ) → exists (has_index j) es ≡ exists (eqb j) used)

skipped :
    (name : String) (es : List Entry) (r : Scan) → Scanned name es r → Scanned name (no_spec ∷ es) r
unfolding exists
skipped name es fails h = h
skipped name es (has i) (s, there, its, same) = (s, inr there, its, same)
skipped name es (others used) h = h

added :
    (name : String) (s : MicrovmSpec) (es : List Entry) (r : Scan)
    → (s.name == name) ≡ false
    → Scanned name es r
    → Scanned name (spec s ∷ es) (also s.machine_index r)
unfolding exists
added name s es fails e h = h
added name s es (has i) e (t, there, its, same) = (t, inr there, its, same)
added name s es (others used) e (readable, absent_name, same) =
    (readable, rw (e, absent_name) refl, λ j. rw (same j) refl)

scan_entries-Scanned : (name : String) (es : List Entry) → Scanned name es (scan_entries name es)
unfolding scan_entries exists
scan_entries-Scanned name [] = (refl, refl, λ j. refl)
scan_entries-Scanned name (no_spec ∷ es) =
    skipped name es (scan_entries name es) (scan_entries-Scanned name es)
scan_entries-Scanned name (unreadable ∷ es) = refl
scan_entries-Scanned name (spec s ∷ es) = elim (Bool-cases (s.name == name)) [
  | inl e ↦ rw e (s, inl refl, (eq_iff s.name name).0 e, refl)
  | inr e ↦ rw e (added name s es (scan_entries name es) e (scan_entries-Scanned name es))
]

abbrev pub Allocation : List Entry → String → Result ℕ → Type 0
Allocation es name (ok i) =
    ((own : MicrovmSpec) × Has (spec own) es × (own.name ≡ name) × (own.machine_index ≡ i))
    ⊎ ((min_machine_index ≤ i)
        × (i ≤ max_machine_index)
        × (exists (has_index i) es ≡ false)
        × (exists (has_name name) es ≡ false)
        × ((j : ℕ) → min_machine_index ≤ j → j < i → exists (has_index j) es ≡ true))
Allocation es name (err e) =
    ((e ≡ bad_machine_dir) × (exists is_unreadable es ≡ true))
    ⊎ ((e ≡ no_free_address)
        × ((j : ℕ)
            → min_machine_index ≤ j
            → j ≤ max_machine_index
            → exists (has_index j) es ≡ true))

-- Where the directory of machines can be listed: a machine that is given an index has it already,
-- or has no specification there and is given the smallest index from 10 to 229 that no machine
-- has. The allocation fails only where the type or the specification of an entry cannot be read, or
-- where all of the indices are taken.
pub allocate_machine_index-Allocation :
    (es : List Entry) (name : String)
    → Allocation es name (allocate_machine_index (entries es) name)
unfolding allocate_machine_index
allocate_machine_index-Allocation es name =
    cases (scan_entries name es) (scan_entries-Scanned name es)
  where
    free :
        (used : List ℕ) (o : Option ℕ)
        → Found (max_machine_index + 1 - min_machine_index) min_machine_index used o
        → Scanned name es (others used)
        → Allocation es name (free_index o)
    free used none all (readable, absent_name, same) =
        inr (refl, λ j l h. same j ∙ all j l (omega arith))
    free used (some i) (low, high, unused, below) (readable, absent_name, same) =
        inr (low, omega arith, same i ∙ unused, absent_name, λ j l h. same j ∙ below j l h)

    cases : (r : Scan) → Scanned name es r → Allocation es name (scanned r)
    cases fails h = inl (refl, h)
    cases (has i) h = inl h
    cases (others used) h =
        free used (first_free (max_machine_index + 1 - min_machine_index) min_machine_index used)
          (first_free-Found (max_machine_index + 1 - min_machine_index) min_machine_index used) h
