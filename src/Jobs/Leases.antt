-- ===== src/Jobs/Leases.antt =====
-- What the expiry of leases does to the job table, as case rules.
use agentmom.Prelude.{ℕ, inl, inr, ◌&&◌, eqb, ◌==◌, Bool-cases, update}
use agentmom.Settings.{Settings}
use agentmom.Catalog.{Catalog}
use agentmom.Catalog.Exec.{Result-cases}
use agentmom.Jobs.{
  claimed_before, requeue, fail_expired, cutoff_before, expire_claims, expire_runs,
  expire_stale_job_leases,
}

module _ {ℓ} (P : Catalog → Type ℓ) (env : Settings) (now : ℕ) (db : Catalog) where
  pub expire_claims_cases :
      P db
      → ((cutoff : ℕ)
          → P (record db {
            jobs =
                update
                  (λ j. j.status == "claimed" && claimed_before cutoff j)
                  (requeue now)
                  db.jobs;
          }))
      → P (expire_claims env now db).1
  unfolding expire_claims
  expire_claims_cases same moved = elim (Bool-cases (eqb env.job_claim_timeout_secs 0)) [
    | inl e ↦ rw e same
    | inr e ↦ elim (Result-cases (cutoff_before now env.job_claim_timeout_secs)) [
      | inl (c, q) ↦ rw (e, q) (moved c)
      | inr (x, q) ↦ rw (e, q) same
    ]
  ]

  pub expire_runs_cases :
      P db
      → ((cutoff : ℕ)
          → P (record db {
            jobs =
                update
                  (λ j. j.status == "running" && claimed_before cutoff j)
                  (fail_expired env now)
                  db.jobs;
          }))
      → P (expire_runs env now db).1
  unfolding expire_runs
  expire_runs_cases same moved = elim (Bool-cases (eqb env.job_running_timeout_secs 0)) [
    | inl e ↦ rw e same
    | inr e ↦ elim (Result-cases (cutoff_before now env.job_running_timeout_secs)) [
      | inl (c, q) ↦ rw (e, q) (moved c)
      | inr (x, q) ↦ rw (e, q) same
    ]
  ]

-- A property that both updates keep is kept by the expiry.
pub expire_keeps {ℓ} :
    (P : Catalog → Type ℓ) (env : Settings) (now : ℕ)
    → ((db : Catalog) (cutoff : ℕ)
        → P db
        → P (record db {
          jobs =
              update (λ j. j.status == "claimed" && claimed_before cutoff j) (requeue now) db.jobs;
        }))
    → ((db : Catalog) (cutoff : ℕ)
        → P db
        → P (record db {
          jobs =
              update
                (λ j. j.status == "running" && claimed_before cutoff j)
                (fail_expired env now)
                db.jobs;
        }))
    → (db : Catalog) → P db
    → P (expire_stale_job_leases env now db).1
unfolding expire_stale_job_leases
expire_keeps P env now requeues fails db h = elim (Result-cases (expire_claims env now db).0) [
  | inl (u, e) ↦ rw e (expire_runs_cases P env now _ once (λ cutoff. fails _ cutoff once))
  | inr (x, e) ↦ rw e once
]
  where
    once : P (expire_claims env now db).1
    once = expire_claims_cases P env now db h (λ cutoff. requeues db cutoff h)
