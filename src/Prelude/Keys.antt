-- ===== src/Prelude/Keys.antt =====
-- Unique columns: a text that no two rows share, and a number that AUTOINCREMENT gives out.
use Prim.Native.Nat.{ℕ, ◌+◌, ◌≤◌, ◌<◌}
use Prim.Native.String.{String}
use mathlib.Core.Path.{◌≡◌, refl, ap, sym, subst}
use mathlib.Core.Bool.{Bool, true, false, not}
use mathlib.Core.Option.{none, some}
use mathlib.Core.Logic.{inl, inr}
use mathlib.Core.List.{List, [], ◌∷◌, ◌++◌}
use native.Mathlib.Omega.{arith}
use text.Mathlib.Text.{◌==◌}
use text.Mathlib.TextEquality.{eq_iff}
use agentmom.Prelude.Tests.{Bool-cases, eqb}
use agentmom.Prelude.Rows.{count, update, keep, find, exists, All, Has}
use agentmom.Prelude.Counting.{count-append, count-update_same, count-zero_of-exists, Has-count}

module _ {A : Type 0} where
  pub count-keep : (p q : A → Bool) (xs : List A) → count p (keep q xs) ≤ count p xs
  unfolding count keep
  count-keep p q [] = omega arith
  count-keep p q (x ∷ xs) = ground (arith, count-keep p q xs)

  -- What `keep` drops is gone.
  pub count-keep-not : (p : A → Bool) (xs : List A) → count p (keep (λ x. not (p x)) xs) ≡ 0
  unfolding count keep
  count-keep-not p [] = refl
  count-keep-not p (x ∷ xs) = ground (arith, count-keep-not p xs)

  -- A lookup of a row that was inserted last, and that no row before it answers.
  pub find-append_new :
      (p : A → Bool) (a : A) (xs : List A)
      → exists p xs ≡ false
      → p a ≡ true
      → find p (xs ++ a ∷ []) ≡ some a
  unfolding find exists
  find-append_new p a [] h e = ground arith
  find-append_new p a (x ∷ xs) h e = ground (arith, find-append_new p a xs)

  pub find-count_zero : (p : A → Bool) (xs : List A) → count p xs ≡ 0 → find p xs ≡ none
  unfolding find count
  find-count_zero p [] h = refl
  find-count_zero p (x ∷ xs) h = ground (arith, find-count_zero p xs)

  pub find-none : (p : A → Bool) (xs : List A) → find p xs ≡ none → exists p xs ≡ false
  unfolding find exists
  find-none p [] h = refl
  find-none p (x ∷ xs) h = elim (Bool-cases (p x)) [
    | inl e ↦ absurd (cc (rw e at h))
    | inr e ↦ rw e (find-none p xs (rw e at h))
  ]

  pub exists-count_zero : (p : A → Bool) (xs : List A) → count p xs ≡ 0 → exists p xs ≡ false
  unfolding exists count
  exists-count_zero p [] h = refl
  exists-count_zero p (x ∷ xs) h = ground (arith, exists-count_zero p xs)

  All-none {κ} :
      (q : A → Bool) (P : A → Type κ) (xs : List A)
      → count q xs ≡ 0
      → All (λ x. q x ≡ true → P x) xs
  unfolding count
  All-none q P [] h = tt
  All-none q P (x ∷ xs) h = (λ t. absurd (ground arith), All-none q P xs (ground arith))

  pub All-append {κ} :
      (P : A → Type κ) (a : A) (xs : List A) → All P xs → P a → All P (xs ++ a ∷ [])
  All-append P a [] h q = (q, tt)
  All-append P a (x ∷ xs) h q = (h.0, All-append P a xs h.1 q)

  pub update-All {κ} :
      (P : A → Type κ) (p : A → Bool) (f : A → A) (xs : List A)
      → ((x : A) → P x → p x ≡ true → P (f x))
      → All P xs
      → All P (update p f xs)
  unfolding update
  update-All P p f [] k h = tt
  update-All P p f (x ∷ xs) k h = elim (Bool-cases (p x)) [
    | inl e ↦ rw e (k x h.0 e, update-All P p f xs k h.1)
    | inr e ↦ rw e (h.0, update-All P p f xs k h.1)
  ]

  -- Of rows that a test selects at most one of, what holds of that one holds of all.
  pub All-single {κ} :
      (q : A → Bool) (P : A → Type κ) (a : A) (xs : List A)
      → count q xs ≤ 1
      → Has a xs
      → q a ≡ true
      → P a
      → All (λ x. q x ≡ true → P x) xs
  unfolding count
  All-single q P a [] one h e p = tt
  All-single q P a (x ∷ xs) one (inl s) e p =
      let chosen : q x ≡ true = ground arith in
      (λ t. subst P (sym s) p, All-none q P xs (ground arith))
  All-single q P a (x ∷ xs) one (inr s) e p =
      let some_there : 1 ≤ count q xs = Has-count q a xs s e in
      (λ t. absurd (ground arith), All-single q P a xs (ground arith) s e p)

  pub All-mono {κ ν} :
      (P : A → Type κ) (Q : A → Type ν) (xs : List A) → ((x : A) → P x → Q x) → All P xs → All Q xs
  All-mono P Q [] f h = tt
  All-mono P Q (x ∷ xs) f h = (f x h.0, All-mono P Q xs f h.1)

-- No two rows have one text in the column.
module _ {A : Type 0} (key : A → String) where
  abbrev pub Unique : List A → Type 0
  Unique xs = (k : String) → count (λ x. key x == k) xs ≤ 1

  pub append-Unique :
      (a : A) (xs : List A)
      → exists (λ x. key x == key a) xs ≡ false
      → Unique xs
      → Unique (xs ++ a ∷ [])
  unfolding count
  append-Unique a xs e h k = elim (Bool-cases (key a == k)) [
    | inr n ↦ ground (arith, h k, count-append (λ x. key x == k) xs (a ∷ []))
    | inl y ↦
        let same : key a ≡ k = (eq_iff (key a) k).0 y in
        let none_there : count (λ x. key x == k) xs ≡ 0 =
          rw same at (count-zero_of-exists (λ x. key x == key a) xs e) in
        ground (arith, none_there, count-append (λ x. key x == k) xs (a ∷ []))
  ]

  pub update-Unique :
      (p : A → Bool) (f : A → A) (xs : List A)
      → ((x : A) → key (f x) ≡ key x)
      → Unique xs
      → Unique (update p f xs)
  update-Unique p f xs same h k =
      rw (count-update_same (λ x. key x == k) p f xs (λ x. ap (λ (s : String). s == k) (same x)))
        (h k)

  pub keep-Unique : (q : A → Bool) (xs : List A) → Unique xs → Unique (keep q xs)
  keep-Unique q xs h k = omega (arith, h k, count-keep (λ x. key x == k) q xs)

-- No two rows have one number, and no row a number past `seq`.
module _ {A : Type 0} (id : A → ℕ) where
  pub record Numbered (seq : ℕ) (xs : List A) : Type 0 where
    pub single : (n : ℕ) → count (λ x. eqb (id x) n) xs ≤ 1
    pub ahead : (n : ℕ) → seq < n → count (λ x. eqb (id x) n) xs ≡ 0

  pub append-Numbered :
      (seq : ℕ) (a : A) (xs : List A)
      → id a ≡ seq + 1
      → Numbered seq xs
      → Numbered (seq + 1) (xs ++ a ∷ [])
  unfolding count
  append-Numbered seq a xs e h = record {
    single =
        λ n. ground (arith, h.single n, h.ahead n, count-append (λ x. eqb (id x) n) xs (a ∷ []));
    ahead = λ n later. ground (arith, h.ahead n, count-append (λ x. eqb (id x) n) xs (a ∷ []));
  }

  pub update-Numbered :
      (seq : ℕ) (p : A → Bool) (f : A → A) (xs : List A)
      → ((x : A) → id (f x) ≡ id x)
      → Numbered seq xs
      → Numbered seq (update p f xs)
  update-Numbered seq p f xs same h = record {
    single = λ n.
        rw (count-update_same (λ x. eqb (id x) n) p f xs (λ x. ap (λ m. eqb m n) (same x)))
          (h.single n);
    ahead = λ n later.
        rw (count-update_same (λ x. eqb (id x) n) p f xs (λ x. ap (λ m. eqb m n) (same x)))
          (h.ahead n later);
  }

  pub keep-Numbered :
      (seq : ℕ) (q : A → Bool) (xs : List A) → Numbered seq xs → Numbered seq (keep q xs)
  keep-Numbered seq q xs h = record {
    single = λ n. omega (arith, h.single n, count-keep (λ x. eqb (id x) n) q xs);
    ahead = λ n later. omega (arith, h.ahead n later, count-keep (λ x. eqb (id x) n) q xs);
  }
