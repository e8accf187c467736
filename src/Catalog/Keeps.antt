-- ===== src/Catalog/Keeps.antt =====
-- Rules for a predicate on the catalog that a chain of statements keeps.
use agentmom.Prelude.{◌≡◌, inl, inr, Bool, true, false}
use agentmom.Catalog.{Catalog}
use agentmom.Catalog.Exec.{Error, Result-cases, ok, Exec, guard, transaction, ◌>>=◌}

module _ {ℓ} (P : Catalog → Type ℓ) where
  abbrev pub Keeps : {A : Type 0} → Exec A → Type ℓ
  Keeps m = (db : Catalog) → P db → P (m db).1

module _ {ℓ} {A B : Type 0} (P : Catalog → Type ℓ) where
  -- What follows a statement may rely on the result of the statement and on the catalog that it
  -- ran against.
  pub bind_after :
      (m : Exec A) (f : A → Exec B) (db : Catalog)
      → P (m db).1
      → ((a : A) → (m db).0 ≡ ok a → P (f a (m db).1).1)
      → P ((m >>= f) db).1
  bind_after m f db h k = elim (Result-cases (m db).0) [
    | inl (a, e) ↦ rw e (k a e)
    | inr (x, e) ↦ rw e h
  ]

  pub Keeps-bind :
      (m : Exec A) (f : A → Exec B) → Keeps P m → ((a : A) → Keeps P (f a)) → Keeps P (m >>= f)
  Keeps-bind m f h k db p = bind_after m f db (h db p) (λ a e. k a (m db).1 (h db p))

module _ {ℓ} {A : Type 0} (P : Catalog → Type ℓ) where
  pub Keeps-transaction : (m : Exec A) → Keeps P m → Keeps P (transaction m)
  Keeps-transaction m h db p = elim (Result-cases (m db).0) [
    | inl (a, e) ↦ rw e (h db p)
    | inr (x, e) ↦ rw e p
  ]

  -- A transaction that fails changes nothing, so only its success matters.
  pub transaction_keeps :
      (m : Exec A) (db : Catalog)
      → P db
      → ((a : A) → (m db).0 ≡ ok a → P (m db).1)
      → P (transaction m db).1
  transaction_keeps m db p h = elim (Result-cases (m db).0) [
    | inl (a, e) ↦ rw e (h a e)
    | inr (x, e) ↦ rw e p
  ]

pub Keeps-guard {ℓ} : (P : Catalog → Type ℓ) (b : Bool) (e : Error) → Keeps P (guard b e)
Keeps-guard P true e db p = p
Keeps-guard P false e db p = p
