-- ===== src/Jobs/Expiry.antt =====
-- What an expiry of leases leaves behind.
use agentmom.Prelude.{
  ℕ, ◌-◌, String, ◌≡◌, refl, ◌⊎◌, inl, inr, Bool, ◌&&◌, List, arith, ◌==◌, eqb, Bool-cases, count,
  count-update_mono, count-update_self,
}
use agentmom.Settings.{Settings}
use agentmom.Catalog.{Catalog, Job}
use agentmom.Catalog.Exec.{ok, Result-cases}
use agentmom.Jobs.{
  claimed_before, requeue, fail_expired, cutoff_before, expire_claims, expire_runs,
  expire_stale_job_leases,
}
use agentmom.Workspaces.Capacity.{cutoff_value}
use agentmom.Jobs.Leases.{expire_runs_cases}

-- A job with a status whose lease began before the cutoff.
abbrev pub is_stale : String → ℕ → Job → Bool
is_stale status cutoff j = j.status == status && claimed_before cutoff j

-- No lease is older than its timeout, where a timeout of 0 is none.
pub record Swept (env : Settings) (now : ℕ) (js : List Job) : Type 0 where
  pub claims :
      (env.job_claim_timeout_secs ≡ 0)
      ⊎ (count (is_stale "claimed" (now - env.job_claim_timeout_secs)) js ≡ 0)
  pub runs :
      (env.job_running_timeout_secs ≡ 0)
      ⊎ (count (is_stale "running" (now - env.job_running_timeout_secs)) js ≡ 0)

module _ (env : Settings) (now : ℕ) where
  swept_claims :
      (db : Catalog)
      → (expire_claims env now db).0 ≡ ok tt
      → (env.job_claim_timeout_secs ≡ 0)
        ⊎ (count
              (is_stale "claimed" (now - env.job_claim_timeout_secs))
              (expire_claims env now db).1.jobs
            ≡ 0)
  unfolding expire_claims
  swept_claims db h = elim (Bool-cases (eqb env.job_claim_timeout_secs 0)) [
    | inl e ↦ inl (ground arith)
    | inr e ↦ elim (Result-cases (cutoff_before now env.job_claim_timeout_secs)) [
      | inr (x, q) ↦ absurd (cc (rw (e, q) at h))
      | inl (c, q) ↦
          rw (e, q, cutoff_value now env.job_claim_timeout_secs c q)
            (inr (count-update_self (is_stale "claimed" c) (requeue now) db.jobs (λ x. refl)))
    ]
  ]

  swept_runs :
      (db : Catalog)
      → (expire_runs env now db).0 ≡ ok tt
      → (env.job_running_timeout_secs ≡ 0)
        ⊎ (count
              (is_stale "running" (now - env.job_running_timeout_secs))
              (expire_runs env now db).1.jobs
            ≡ 0)
  unfolding expire_runs
  swept_runs db h = elim (Bool-cases (eqb env.job_running_timeout_secs 0)) [
    | inl e ↦ inl (ground arith)
    | inr e ↦ elim (Result-cases (cutoff_before now env.job_running_timeout_secs)) [
      | inr (x, q) ↦ absurd (cc (rw (e, q) at h))
      | inl (c, q) ↦
          rw (e, q, cutoff_value now env.job_running_timeout_secs c q)
            (inr
              (count-update_self (is_stale "running" c) (fail_expired env now) db.jobs (λ x. refl)))
    ]
  ]

  still_swept :
      (cutoff : ℕ) (db : Catalog)
      → count (is_stale "claimed" cutoff) db.jobs ≡ 0
      → count (is_stale "claimed" cutoff) (expire_runs env now db).1.jobs ≡ 0
  still_swept cutoff db h =
      expire_runs_cases (λ d. count (is_stale "claimed" cutoff) d.jobs ≡ 0) env now db h
        (λ c. omega (
          arith,
          h,
          count-update_mono (is_stale "claimed" cutoff) (is_stale "running" c)
              (fail_expired env now) db.jobs (λ x s f. ground arith),
        ))

  -- After an expiry that succeeds, no job is claimed whose claim is older than the claim timeout,
  -- and none is running whose start is older than the running timeout, where a timeout of 0 is
  -- none.
  pub expire_stale_job_leases-Swept :
      (db : Catalog)
      → (expire_stale_job_leases env now db).0 ≡ ok tt
      → Swept env now (expire_stale_job_leases env now db).1.jobs
  unfolding expire_stale_job_leases
  expire_stale_job_leases-Swept db h = elim (Result-cases (expire_claims env now db).0) [
    | inr (x, e) ↦ absurd (cc (rw e at h))
    | inl (u, e) ↦ rw e (record {
      claims = elim (swept_claims db e) [ inl z ↦ inl z | inr z ↦ inr (still_swept _ _ z) ];
      runs = swept_runs (expire_claims env now db).1 (rw e at h);
    })
  ]
