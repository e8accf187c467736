-- ===== src/Jobs/Finish.antt =====
-- `mark_job_running` and `complete_job` of src/db.rs: what a worker reports of a job it claimed.
use agentmom.Prelude.{
  ℕ, String, Bool, not, ◌&&◌, ◌||◌, some, ◌==◌, eqb, is_some_of, if◌then◌else◌, update,
  Option-cases, ◌≡◌, Bool-cases, find, true, count, inl, inr,
}
use agentmom.Json.{Json}
use agentmom.Settings.{Settings}
use agentmom.Catalog.{Catalog, Job}
use agentmom.Catalog.Exec.{
  invalid_terminal_status, not_claimed_by, Exec, pure, guard, update_jobs, ◌>>=◌, ◌>>◌,
}
use agentmom.Jobs.{job_get, is_active}

-- WHERE id = ?1 AND claimed_by = ?2 AND status IN ('claimed', 'running')
abbrev pub is_held : String → String → Job → Bool
is_held id node j = j.id == id && is_some_of j.claimed_by node && is_active j

abbrev pub started : ℕ → Job → Job
started now j = record j { status = "running"; claimed_at = some now; updated_at = now }

unfoldable pub mark_job_running : ℕ → String → String → Exec Job
mark_job_running now id node = do
  changed ← update_jobs (is_held id node) (started now)
  guard (not (eqb changed 0)) (not_claimed_by id)
  job_get id

-- matches!(status, "succeeded" | "failed" | "canceled")
abbrev pub is_terminal : String → Bool
is_terminal status = status == "succeeded" || status == "failed" || status == "canceled"

abbrev pub finished : ℕ → String → String → Job → Job
finished now status output j = record j {
  status = status;
  output_json = some output;
  updated_at = now;
}

-- The report repeats one that was accepted.
abbrev pub is_repeat : String → String → String → Job → Bool
is_repeat node status output j =
    is_some_of j.claimed_by node && j.status == status && is_some_of j.output_json output

unfoldable pub accept_repeat : String → String → String → String → Exec Job
accept_repeat id node status output = do
  job ← job_get id
  guard (is_repeat node status output job) (not_claimed_by id)
  pure job

unfoldable pub complete_job : Settings → ℕ → String → String → String → Json → Exec Job
complete_job env now id node status output = do
  guard (is_terminal status) invalid_terminal_status
  let output_json = env.to_string output
  changed ← update_jobs (is_held id node) (finished now status output_json)
  if eqb changed 0 then accept_repeat id node status output_json else job_get id

-- The job table after a report, as case rules.
module _ {ℓ} (P : Catalog → Type ℓ) (now : ℕ) (id node : String) (db : Catalog) where
  pub running_cases :
      P (record db { jobs = update (is_held id node) (started now) db.jobs })
      → P (mark_job_running now id node db).1
  unfolding mark_job_running job_get
  running_cases moved = elim (Bool-cases (eqb (count (is_held id node) db.jobs) 0)) [
    | inl e ↦ rw e moved
    | inr e ↦ rw e moved
  ]

  repeat_cases : (status output : String) → P db → P (accept_repeat id node status output db).1
  unfolding accept_repeat job_get
  repeat_cases status output h = elim (Option-cases (find (λ j. j.id == id) db.jobs)) [
    | inl n ↦ rw n h
    | inr (j, s) ↦ elim (Bool-cases (is_repeat node status output j)) [
      | inl e ↦ rw (s, e) h
      | inr e ↦ rw (s, e) h
    ]
  ]

pub complete_cases {ℓ} :
    (P : Catalog → Type ℓ) (env : Settings) (now : ℕ) (id node status : String) (output : Json)
    (db : Catalog)
    → P db
    → (is_terminal status ≡ true
        → P (record db {
          jobs = update (is_held id node) (finished now status (env.to_string output)) db.jobs;
        }))
    → P (complete_job env now id node status output db).1
unfolding complete_job job_get
complete_cases P env now id node status output db same moved =
    elim (Bool-cases (is_terminal status)) [
      | inr e ↦ rw e same
      | inl e ↦ elim (Bool-cases (eqb (count (is_held id node) db.jobs) 0)) [
        | inl z ↦ rw (e, z) (repeat_cases P now id node _ status (env.to_string output) (moved e))
        | inr z ↦ rw (e, z) (moved e)
      ]
    ]
