-- ===== src/Prelude/Rows.antt =====
-- A table is the list of its rows, in the order of insertion. The verbs of SQL on it.
use Prim.Native.Nat.{ℕ, suc, ◌+◌}
use mathlib.Core.Path.{◌≡◌}
use mathlib.Core.Bool.{Bool, false, ◌||◌}
use mathlib.Core.Logic.{◌⊎◌}
use mathlib.Core.Option.{Option, none, some}
use mathlib.Core.List.{List, [], ◌∷◌}
use agentmom.Prelude.Tests.{if◌then◌else◌}

module _ {ℓ} {A : Type ℓ} where
  abbrev pub length : List A → ℕ
  length [] = 0
  length (x ∷ xs) = suc (length xs)

  -- SELECT COUNT(*) … WHERE p
  unfoldable pub count : (A → Bool) → List A → ℕ
  count p [] = 0
  count p (x ∷ xs) = let rest = count p xs in if p x then suc rest else rest

  -- SELECT COALESCE(SUM(f), 0) … WHERE p
  unfoldable pub sum_where : (A → Bool) → (A → ℕ) → List A → ℕ
  sum_where p f [] = 0
  sum_where p f (x ∷ xs) = let rest = sum_where p f xs in if p x then f x + rest else rest

  -- UPDATE … SET f WHERE p
  unfoldable pub update : (A → Bool) → (A → A) → List A → List A
  update p f [] = []
  update p f (x ∷ xs) = (if p x then f x else x) ∷ update p f xs

  -- DELETE … WHERE not p
  unfoldable pub keep : (A → Bool) → List A → List A
  keep p [] = []
  keep p (x ∷ xs) = let rest = keep p xs in if p x then x ∷ rest else rest

  -- SELECT … WHERE p, the first row
  unfoldable pub find : (A → Bool) → List A → Option A
  find p [] = none
  find p (x ∷ xs) = if p x then some x else find p xs

  -- EXISTS (SELECT 1 … WHERE p)
  unfoldable pub exists : (A → Bool) → List A → Bool
  exists p [] = false
  exists p (x ∷ xs) = p x || exists p xs

  -- The better of a row and the best of the rows behind it.
  abbrev pub pick : (A → A → Bool) → A → Option A → Option A
  pick better x none = some x
  pick better x (some y) = if better y x then some y else some x

  -- SELECT … WHERE p ORDER BY … LIMIT 1: of equally good rows the one inserted first
  unfoldable pub best : (A → Bool) → (A → A → Bool) → List A → Option A
  best p better [] = none
  best p better (x ∷ xs) = let rest = best p better xs in if p x then pick better x rest else rest

  -- SELECT … ORDER BY: equally good rows in the order of insertion
  unfoldable insert_row : (A → A → Bool) → A → List A → List A
  insert_row better x [] = x ∷ []
  insert_row better x (y ∷ ys) =
      let rest = insert_row better x ys in if better y x then y ∷ rest else x ∷ y ∷ ys

  unfoldable pub order_by : (A → A → Bool) → List A → List A
  unfolding insert_row
  order_by better [] = []
  order_by better (x ∷ xs) = insert_row better x (order_by better xs)

  abbrev pub All {κ} : (A → Type κ) → List A → Type κ
  All P [] = Unit
  All P (x ∷ xs) = P x × All P xs

-- Rows live in `Type 0`.
abbrev pub Has : {A : Type 0} → A → List A → Type 0
Has a [] = ⊥
Has a (x ∷ xs) = (x ≡ a) ⊎ Has a xs
