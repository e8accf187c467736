-- ===== src/Prelude/Counting.antt =====
-- Counts and sums over a table, before and after an update.
use Prim.Native.Nat.{ℕ, ◌+◌, ◌≤◌}
use mathlib.Core.Path.{◌≡◌, refl, ap, ◌∙◌}
use mathlib.Core.Bool.{Bool, true, false, not, ◌&&◌}
use mathlib.Core.Logic.{inl, inr}
use mathlib.Core.List.{List, [], ◌∷◌, ◌++◌}
use native.Mathlib.Omega.{arith}
use agentmom.Prelude.Tests.{Bool-cases}
use agentmom.Prelude.Rows.{count, sum_where, update, exists, Has, keep}

module _ {ℓ} {A : Type ℓ} where
  pub count-append : (p : A → Bool) (xs ys : List A) → count p (xs ++ ys) ≡ count p xs + count p ys
  unfolding count
  count-append p [] ys = omega arith
  count-append p (x ∷ xs) ys = ground (arith, count-append p xs ys)

  -- An update adds to a count at most the updated rows that have the property afterwards.
  pub count-update-le :
      (p q : A → Bool) (f : A → A) (xs : List A)
      → count p (update q f xs) ≤ count p xs + count (λ x. q x && p (f x)) xs
  unfolding count update
  count-update-le p q f [] = omega arith
  count-update-le p q f (x ∷ xs) = ground (arith, count-update-le p q f xs)

  pub count_mono :
      (p q : A → Bool) (xs : List A) → ((x : A) → p x ≡ true → q x ≡ true) → count p xs ≤ count q xs
  unfolding count
  count_mono p q [] h = omega arith
  count_mono p q (x ∷ xs) h = ground (arith, h x, count_mono p q xs h)

  -- An update that gives no row the property does not raise the count.
  pub count-update_mono :
      (p q : A → Bool) (f : A → A) (xs : List A)
      → ((x : A) → q x ≡ true → p (f x) ≡ true → p x ≡ true)
      → count p (update q f xs) ≤ count p xs
  unfolding count update
  count-update_mono p q f [] h = omega arith
  count-update_mono p q f (x ∷ xs) h = ground (arith, h x, count-update_mono p q f xs h)

  -- An update that does not touch the property keeps the count.
  pub count-update_same :
      (p q : A → Bool) (f : A → A) (xs : List A)
      → ((x : A) → p (f x) ≡ p x)
      → count p (update q f xs) ≡ count p xs
  unfolding count update
  count-update_same p q f [] h = refl
  count-update_same p q f (x ∷ xs) h = ground (arith, h x, count-update_same p q f xs h)

  -- An update that keeps the property of the rows that it changes keeps the count.
  pub count-update_where :
      (p q : A → Bool) (f : A → A) (xs : List A)
      → ((x : A) → q x ≡ true → p (f x) ≡ p x)
      → count p (update q f xs) ≡ count p xs
  unfolding count update
  count-update_where p q f [] h = refl
  count-update_where p q f (x ∷ xs) h = ground (arith, h x, count-update_where p q f xs h)

  -- An update of every row with the property that ends it leaves no such row.
  pub count-update_ends :
      (p q : A → Bool) (f : A → A) (xs : List A)
      → ((x : A) → p x ≡ true → q x ≡ true)
      → ((x : A) → p (f x) ≡ false)
      → count p (update q f xs) ≡ 0
  unfolding count update
  count-update_ends p q f [] h k = refl
  count-update_ends p q f (x ∷ xs) h k = ground (arith, h x, k x, count-update_ends p q f xs h k)

  -- An update that selects no row with a property, and gives it to none, leaves those rows alone.
  pub keep-update :
      (p q : A → Bool) (f : A → A) (xs : List A)
      → count (λ x. q x && p x) xs ≡ 0
      → ((x : A) → p (f x) ≡ p x)
      → keep p (update q f xs) ≡ keep p xs
  unfolding count update keep
  keep-update p q f [] none_such h = refl
  keep-update p q f (x ∷ xs) none_such h = elim (Bool-cases (q x)) [
    | inr e ↦ elim (Bool-cases (p x)) [
      | inl t ↦ rw (e, t) (ap (λ ys. x ∷ ys) (keep-update p q f xs (ground arith) h))
      | inr t ↦ rw (e, t) (keep-update p q f xs (ground arith) h)
    ]
    | inl e ↦ elim (Bool-cases (p x)) [
      | inl t ↦ absurd (ground arith)
      | inr t ↦
          let after : p (f x) ≡ false = h x ∙ t in
          rw (e, t, after) (keep-update p q f xs (ground arith) h)
    ]
  ]

  pub count-split :
      (p q : A → Bool) (xs : List A)
      → count p xs ≡ count (λ x. p x && q x) xs + count (λ x. p x && not (q x)) xs
  unfolding count
  count-split p q [] = omega arith
  count-split p q (x ∷ xs) = ground (arith, count-split p q xs)

  pub count-zero_of-exists : (p : A → Bool) (xs : List A) → exists p xs ≡ false → count p xs ≡ 0
  unfolding count exists
  count-zero_of-exists p [] h = refl
  count-zero_of-exists p (x ∷ xs) h = ground (arith, count-zero_of-exists p xs)

  pub sum_where-append :
      (p : A → Bool) (g : A → ℕ) (xs ys : List A)
      → sum_where p g (xs ++ ys) ≡ sum_where p g xs + sum_where p g ys
  unfolding sum_where
  sum_where-append p g [] ys = omega arith
  sum_where-append p g (x ∷ xs) ys = ground (arith, sum_where-append p g xs ys)

  pub sum_where_mono :
      (p q : A → Bool) (g : A → ℕ) (xs : List A)
      → ((x : A) → p x ≡ true → q x ≡ true)
      → sum_where p g xs ≤ sum_where q g xs
  unfolding sum_where
  sum_where_mono p q g [] h = omega arith
  sum_where_mono p q g (x ∷ xs) h = ground (arith, h x, sum_where_mono p q g xs h)

  pub sum_where-update_same :
      (p q : A → Bool) (g : A → ℕ) (f : A → A) (xs : List A)
      → ((x : A) → p (f x) ≡ p x)
      → ((x : A) → g (f x) ≡ g x)
      → sum_where p g (update q f xs) ≡ sum_where p g xs
  unfolding sum_where update
  sum_where-update_same p q g f [] h k = refl
  sum_where-update_same p q g f (x ∷ xs) h k =
      ground (arith, h x, k x, sum_where-update_same p q g f xs h k)

pub Has-count :
    {A : Type 0} (p : A → Bool) (a : A) (xs : List A) → Has a xs → p a ≡ true → 1 ≤ count p xs
unfolding count
Has-count p a [] h e = absurd h
Has-count p a (x ∷ xs) (inl e) h = ground arith
Has-count p a (x ∷ xs) (inr r) h = ground (arith, Has-count p a xs r h)

-- Where one row is selected, every selected row has what that row has.
pub count_others_zero :
    {A : Type 0} (q r : A → Bool) (a : A) (xs : List A)
    → count q xs ≡ 1
    → Has a xs
    → q a ≡ true
    → r a ≡ true
    → count (λ x. q x && not (r x)) xs ≡ 0
count_others_zero q r a xs one h p s =
    omega (arith, count-split q r xs, Has-count (λ x. q x && r x) a xs h (rw (p, s)))
