-- ===== src/Prelude/Finding.antt =====
-- What a query that returns one row guarantees.
use mathlib.Core.Bool.{false≢true}
use mathlib.Core.Path.{subst, sym, ap, ◌∙◌, ◌≡◌, refl}
use mathlib.Core.Bool.{Bool, true, false}
use mathlib.Core.Logic.{inl, inr}
use mathlib.Core.Option.{none, some}
use mathlib.Core.List.{List, [], ◌∷◌}
use native.Mathlib.Omega.{arith}
use agentmom.Prelude.Tests.{if◌then◌else◌, Bool-cases, Option-cases}
use Prim.Native.Nat.{ℕ, suc, ◌≤◌}
use mathlib.Core.Logic.{◌≢◌}
use agentmom.Prelude.Counting.{Has-count}
use agentmom.Prelude.Tests.{ltb}
use agentmom.Prelude.Rows.{count, keep, find, best, exists, Has, update}

module _ {A : Type 0} where
  pub keep-Has : (p : A → Bool) (xs : List A) (a : A) → p a ≡ true → Has a xs → Has a (keep p xs)
  unfolding keep
  keep-Has p [] a e h = h
  keep-Has p (x ∷ xs) a e (inl q) = rw (ap p q ∙ e) (inl q)
  keep-Has p (x ∷ xs) a e (inr q) = elim (Bool-cases (p x)) [
    | inl k ↦ rw k (inr (keep-Has p xs a e q))
    | inr k ↦ rw k (keep-Has p xs a e q)
  ]

  pub find_sound :
      (p : A → Bool) (xs : List A) (a : A) → find p xs ≡ some a → Has a xs × (p a ≡ true)
  unfolding find
  find_sound p [] a h = cc
  find_sound p (x ∷ xs) a h = elim (Bool-cases (p x)) [
    | inl e ↦ let same : x ≡ a = ground arith in (inl same, ground arith)
    | inr e ↦ let r = find_sound p xs a (ground arith) in (inr r.0, r.1)
  ]

  pub exists-Has : (p : A → Bool) (xs : List A) (a : A) → Has a xs → p a ≡ true → exists p xs ≡ true
  unfolding exists
  exists-Has p [] a h e = absurd h
  exists-Has p (x ∷ xs) a (inl q) e = ground arith
  exists-Has p (x ∷ xs) a (inr q) e = ground (arith, exists-Has p xs a q e)

  pub best_sound :
      (p : A → Bool) (better : A → A → Bool) (xs : List A) (a : A)
      → best p better xs ≡ some a
      → Has a xs × (p a ≡ true)
  unfolding best
  best_sound p better [] a h = cc
  best_sound p better (x ∷ xs) a h = elim (Bool-cases (p x)) [
    | inr e ↦ let r = best_sound p better xs a (ground arith) in (inr r.0, r.1)
    | inl e ↦ elim (Option-cases (best p better xs)) [
      | inl n ↦ let same : x ≡ a = ground arith in (inl same, ground arith)
      | inr (y, s) ↦ elim (Bool-cases (better y x)) [
        | inl b ↦
            let same : y ≡ a = ground arith in
            let r = best_sound p better xs y s in
            let q : best p better xs ≡ some a = ground arith in
            let r = best_sound p better xs a q in (inr r.0, r.1)
        | inr b ↦ let same : x ≡ a = ground arith in (inl same, ground arith)
      ]
    ]
  ]

  pub best-none :
      (p : A → Bool) (better : A → A → Bool) (xs : List A)
      → best p better xs ≡ none
      → exists p xs ≡ false
  unfolding best exists
  best-none p better [] h = refl
  best-none p better (x ∷ xs) h = ground (arith, best-none p better xs)

-- Of rows that a key tells apart, the query returns the one that is there.
module _ {A : Type 0} where
  pub find_unique :
      (p : A → Bool) (xs : List A) (a : A)
      → count p xs ≤ 1
      → Has a xs
      → p a ≡ true
      → find p xs ≡ some a
  unfolding find count
  find_unique p [] a one h e = absurd h
  find_unique p (x ∷ xs) a one (inl q) e = ground arith
  find_unique p (x ∷ xs) a one (inr q) e = elim (Bool-cases (p x)) [
    | inl t ↦
        let more : 1 ≤ count p xs = Has-count p a xs q e in
        let most : suc (count p xs) ≤ 1 = ground arith in absurd (omega arith)
    | inr t ↦ ground (arith, find_unique p xs a (ground arith) q e)
  ]

  -- An update of a row that the query returns, by a change that the query does not see.
  pub find-update :
      (p q : A → Bool) (f : A → A) (xs : List A) (a : A)
      → ((x : A) → p (f x) ≡ p x)
      → find p xs ≡ some a
      → find p (update q f xs) ≡ some (if q a then f a else a)
  unfolding find update
  find-update p q f [] a h e = cc
  find-update p q f (x ∷ xs) a h e = elim (Bool-cases (p x)) [
    | inl t ↦ let same : x ≡ a = ground arith in rw (← same) (ground (arith, h x))
    | inr t ↦ ground (arith, h x, find-update p q f xs a h (ground arith))
  ]

  pub update_none : (p : A → Bool) (f : A → A) (xs : List A) → count p xs ≡ 0 → update p f xs ≡ xs
  unfolding update count
  update_none p f [] h = refl
  update_none p f (x ∷ xs) h = ground (arith, update_none p f xs)

  -- An update that ends its own condition leaves no row to update.
  pub count-update_self :
      (p : A → Bool) (f : A → A) (xs : List A)
      → ((x : A) → p (f x) ≡ false)
      → count p (update p f xs) ≡ 0
  unfolding update count
  count-update_self p f [] h = refl
  count-update_self p f (x ∷ xs) h = ground (arith, h x, count-update_self p f xs h)

  pub some_counted :
      (p : A → Bool) (xs : List A) → count p xs ≢ 0 → (a : A) × Has a xs × (p a ≡ true)
  unfolding count
  some_counted p [] h = absurd (h refl)
  some_counted p (x ∷ xs) h = elim (Bool-cases (p x)) [
    | inl t ↦ (x, inl refl, t)
    | inr t ↦ let (a, q, e) = some_counted p xs (ground arith) in (a, inr q, e)
  ]

-- ORDER BY … LIMIT 1 returns a row that comes first in the order `R` that `better` decides.
module _ {A : Type 0} (R : A → A → Type 0) (p : A → Bool) (better : A → A → Bool)
    (self : (x : A) → R x x) (chain : (x y z : A) → R x y → R y z → R x z)
    (wins : (x y : A) → better x y ≡ true → R x y)
    (loses : (x y : A) → better x y ≡ false → R y x) where
  pub best-first :
      (xs : List A) (a b : A) → best p better xs ≡ some a → Has b xs → p b ≡ true → R a b
  unfolding best
  best-first [] a b e h t = absurd h
  best-first (x ∷ xs) a b e h t = elim (Bool-cases (p x)) [
    | inr f ↦ elim h [
      | inl q ↦ absurd (false≢true (sym f ∙ ap p q ∙ t))
      | inr q ↦ best-first xs a b (ground arith) q t
    ]
    | inl f ↦ elim (Option-cases (best p better xs)) [
      | inl n ↦
          let first : x ≡ a = ground arith in
          elim h [
            | inl q ↦ subst (λ w. R w b) first (subst (R x) q (self x))
            | inr q ↦ absurd (false≢true (sym (best-none p better xs n) ∙ exists-Has p xs b q t))
          ]
      | inr (y, s) ↦ elim (Bool-cases (better y x)) [
        | inl w ↦
            let first : y ≡ a = ground arith in
            elim h [
              | inl q ↦ subst (λ u. R u b) first (subst (R y) q (wins y x w))
              | inr q ↦ subst (λ u. R u b) first (best-first xs y b s q t)
            ]
        | inr w ↦
            let first : x ≡ a = ground arith in
            elim h [
              | inl q ↦ subst (λ u. R u b) first (subst (R x) q (self x))
              | inr q ↦
                  subst (λ u. R u b) first (chain x y b (loses y x w) (best-first xs y b s q t))
            ]
      ]
    ]
  ]

module _ {A : Type 0} (p : A → Bool) (k : A → ℕ) (xs : List A) (a b : A) where
  -- ORDER BY k ASC LIMIT 1
  pub best-least : best p (λ x y. ltb (k x) (k y)) xs ≡ some a → Has b xs → p b ≡ true → k a ≤ k b
  best-least =
      best-first (λ x y. k x ≤ k y) p (λ x y. ltb (k x) (k y)) (λ x. omega arith)
        (λ x y z h i. omega arith) (λ x y h. ground arith) (λ x y h. ground arith) xs a b

  -- ORDER BY k DESC LIMIT 1
  pub best-greatest :
      best p (λ x y. ltb (k y) (k x)) xs ≡ some a → Has b xs → p b ≡ true → k b ≤ k a
  best-greatest =
      best-first (λ x y. k y ≤ k x) p (λ x y. ltb (k y) (k x)) (λ x. omega arith)
        (λ x y z h i. omega arith) (λ x y h. ground arith) (λ x y h. ground arith) xs a b

pub some_existing :
    {A : Type 0} (p : A → Bool) (xs : List A)
    → exists p xs ≡ true
    → (a : A) × Has a xs × (p a ≡ true)
unfolding exists
some_existing p [] h = absurd (false≢true h)
some_existing p (x ∷ xs) h = elim (Bool-cases (p x)) [
  | inl t ↦ (x, inl refl, t)
  | inr t ↦ let (a, q, e) = some_existing p xs (ground arith) in (a, inr q, e)
]
