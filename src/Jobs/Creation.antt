-- ===== src/Jobs/Creation.antt =====
-- The job table after `create_job`, as a case rule.
use agentmom.Prelude.{
  ◌≡◌, ltb, ℕ, String, inl, inr, [], ◌∷◌, ◌++◌, ◌==◌, eq_refl, Bool-cases, exists, find-append_new,
}
use agentmom.Settings.{Settings}
use agentmom.Catalog.{Catalog, Job}
use agentmom.Catalog.Exec.{Result-cases, Result, Error, ok, err}
use agentmom.Text.{byte_len, all_bytes}
use agentmom.Names.{is_name_byte, sanitize_workspace_name}
use agentmom.Jobs.{CreateJobRequest, insert_job, queued_job, job_get, create_job}

pub create_cases {ℓ} :
    (P : Catalog → Type ℓ) (env : Settings) (id : String) (now : ℕ) (request : CreateJobRequest)
    (db : Catalog)
    → P db
    → ((name : String) → P (insert_job (queued_job env id now name request) db).1)
    → P (create_job env id now request db).1
unfolding create_job job_get
create_cases P env id now request db same inserted =
    elim (Result-cases (sanitize_workspace_name request.workspace_name)) [
      | inr (x, e) ↦ rw e same
      | inl (name, e) ↦ elim (Result-cases (insert_job (queued_job env id now name request) db).0) [
        | inl (u, i) ↦ rw (e, i) (inserted name)
        | inr (x, i) ↦ rw (e, i) (inserted name)
      ]
    ]

sanitized : (s name : String) → sanitize_workspace_name s ≡ ok name → name ≡ s
unfolding sanitize_workspace_name
sanitized s name h = elim (Bool-cases (s == "")) [
  | inl a ↦ absurd (cc (rw a at h))
  | inr a ↦ elim (Bool-cases (ltb 96 (byte_len s))) [
    | inl b ↦ absurd (cc (rw (a, b) at h))
    | inr b ↦ elim (Bool-cases (all_bytes is_name_byte s)) [
      | inr c ↦ absurd (cc (rw (a, b, c) at h))
      | inl c ↦ let same : ok s ≡ ok name = rw (a, b, c) at h in cc
    ]
  ]
]

-- A job that is not created leaves the catalog alone; one that is is the row that is returned.
pub outcome_cases {ℓ} :
    (P : Result Job × Catalog → Type ℓ) (env : Settings) (id : String) (now : ℕ)
    (request : CreateJobRequest) (db : Catalog)
    → ((e : Error) → P (err e, db))
    → ((name : String)
        → name ≡ request.workspace_name
        → let job = queued_job env id now name request in
          P (ok job, record db { jobs = db.jobs ++ job ∷ [] }))
    → P (create_job env id now request db)
unfolding create_job job_get insert_job
outcome_cases P env id now request db failed created =
    elim (Result-cases (sanitize_workspace_name request.workspace_name)) [
      | inr (x, e) ↦ rw e (failed x)
      | inl (name, e) ↦ elim (Bool-cases (exists (λ (j : Job). j.id == id) db.jobs)) [
        | inl t ↦ rw (e, t) (failed _)
        | inr t ↦
            rw
              (
                e,
                t,
                find-append_new (λ (j : Job). j.id == id) (queued_job env id now name request)
                    db.jobs t (eq_refl id),
              )
              (created name (sanitized request.workspace_name name e))
      ]
    ]
