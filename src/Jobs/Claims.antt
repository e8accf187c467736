-- ===== src/Jobs/Claims.antt =====
-- The three ways in which a claim ends, as a case rule.
use agentmom.Prelude.{
  ℕ, ◌≡◌, String, Bool, inl, inr, ◌&&◌, ◌==◌, Option, none, some, arith, eqb, Bool-cases,
  Option-cases, count, update, find,
}
use agentmom.Settings.{Settings}
use agentmom.Catalog.{Catalog, Job}
use agentmom.Catalog.Exec.{Error, Result, Result-cases, ok, err}
use agentmom.Jobs.{expire_stale_job_leases, next_job, claimed, take_job, claim_job}

-- The rows that the update of a claim selects.
abbrev pub is_target : Job → Job → Bool
is_target j a = a.id == j.id && a.status == "queued"

-- The catalog after the chosen job was updated.
abbrev pub taken : String → ℕ → Job → Catalog → Catalog
taken node now j db = record db { jobs = update (is_target j) (claimed node now) db.jobs }

module _ {ℓ} (P : Result (Option Job) × Catalog → Type ℓ) (env : Settings) (now : ℕ) (node : String)
    (capacity_ok disk_ok : Bool) (db : Catalog) where
  abbrev fresh : Catalog
  fresh = (expire_stale_job_leases env now db).1

  pub claim_cases :
      ((e : Error) → P (err e, db))
      → (next_job node capacity_ok disk_ok fresh ≡ none → P (ok none, fresh))
      → ((j row : Job)
          → next_job node capacity_ok disk_ok fresh ≡ some j
          → count (is_target j) fresh.jobs ≡ 1
          → find (λ a. a.id == j.id) (taken node now j fresh).jobs ≡ some row
          → P (ok (some row), taken node now j fresh))
      → P (claim_job env now node capacity_ok disk_ok db)
  unfolding claim_job take_job
  claim_cases failed idle took = elim (Result-cases (expire_stale_job_leases env now db).0) [
    | inr (x, e) ↦ rw e (failed x)
    | inl (u, e) ↦ elim (Option-cases (next_job node capacity_ok disk_ok fresh)) [
      | inl n ↦ rw (e, n, take_job) (idle n)
      | inr (j, s) ↦ elim (Bool-cases (eqb (count (is_target j) fresh.jobs) 1)) [
        | inr c ↦ rw (e, s, take_job, c) (failed _)
        | inl c ↦ elim (Option-cases (find (λ a. a.id == j.id) (taken node now j fresh).jobs)) [
          | inl n ↦ rw (e, s, take_job, c, n) (failed _)
          | inr (row, f) ↦ rw (e, s, take_job, c, f) (took j row s (ground arith) f)
        ]
      ]
    ]
  ]
