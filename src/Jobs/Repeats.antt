-- ===== src/Jobs/Repeats.antt =====
-- A worker may report a completion again, as it does when the answer was lost.
use agentmom.Prelude.{
  ℕ, String, ◌≡◌, refl, inl, inr, true, some, List, arith, eq_refl, eqb, Bool-cases, Option-cases,
  count, update, find, find_unique, find-update, update_none, count-update_self, some_counted,
  subst,
}
use agentmom.Json.{Json}
use agentmom.Settings.{Settings}
use agentmom.Catalog.{Catalog, Job}
use agentmom.Catalog.Exec.{Result, ok, err}
use agentmom.Jobs.{job_get}
use agentmom.Jobs.Keyed.{has_id, KeyedJobs}
use agentmom.Jobs.Finish.{is_held, is_terminal, finished, is_repeat, accept_repeat, complete_job}
use agentmom.Jobs.Exclusive.{terminal_inactive}

module _ (env : Settings) (id node status : String) (output : Json) where
  abbrev output_json : String
  output_json = env.to_string output

  -- What a successful report leaves behind.
  record Done (row : Job) (js : List Job) : Type 0 where
    terminal : is_terminal status ≡ true
    none_held : count (is_held id node) js ≡ 0
    there : find (has_id id) js ≡ some row
    repeats : is_repeat node status output_json row ≡ true

  abbrev left_by : ℕ → Catalog → Catalog
  left_by now db = record db {
    jobs = update (is_held id node) (finished now status output_json) db.jobs;
  }

  none_left :
      (now : ℕ) (db : Catalog)
      → is_terminal status ≡ true
      → count (is_held id node) (left_by now db).jobs ≡ 0
  none_left now db t =
      count-update_self (is_held id node) (finished now status output_json) db.jobs
        (λ x. ground (arith, terminal_inactive status t))

  abbrev Outcome : Result Job × Catalog → Type 0
  Outcome (err e, db) = Unit {0}
  Outcome (ok row, db) = Done row db.jobs

  accept_repeat-Outcome :
      (now : ℕ) (db : Catalog)
      → is_terminal status ≡ true
      → Outcome (accept_repeat id node status output_json (left_by now db))
  unfolding accept_repeat job_get
  accept_repeat-Outcome now db t = elim (Option-cases (find (has_id id) (left_by now db).jobs)) [
    | inl n ↦ rw n tt
    | inr (r, s) ↦ elim (Bool-cases (is_repeat node status output_json r)) [
      | inr f ↦ rw (s, f) tt
      | inl f ↦
          rw (s, f)
            (record { terminal = t; none_held = none_left now db t; there = s; repeats = f })
    ]
  ]

  complete_job-Outcome :
      (now : ℕ) (db : Catalog)
      → KeyedJobs db.jobs
      → Outcome (complete_job env now id node status output db)
  unfolding complete_job job_get
  complete_job-Outcome now db keyed = elim (Bool-cases (is_terminal status)) [
    | inr t ↦ rw t tt
    | inl t ↦ elim (Bool-cases (eqb (count (is_held id node) db.jobs) 0)) [
      | inl z ↦ rw (t, z) (accept_repeat-Outcome now db t)
      | inr z ↦
          let (a, has, held) = some_counted (is_held id node) db.jobs (λ q. ground arith) in
          let there = find_unique (has_id id) db.jobs a (keyed id) has (ground arith) in
          let now_there : find (has_id id) (left_by now db).jobs
              ≡ some (finished now status output_json a) =
            rw held at (
              find-update (has_id id) (is_held id node) (finished now status output_json) db.jobs a
                (λ x. refl) there) in
          rw (t, z, now_there)
            (record {
              terminal = t;
              none_held = none_left now db t;
              there = now_there;
              repeats = ground (arith, held, eq_refl status, eq_refl output_json);
            })
    ]
  ]

  repeat :
      (now : ℕ) (row : Job) (db : Catalog)
      → Done row db.jobs
      → complete_job env now id node status output db ≡ (ok row, db)
  unfolding complete_job accept_repeat job_get
  repeat now row db d =
      let same =
        update_none (is_held id node) (finished now status output_json) db.jobs d.none_held in
      rw (d.terminal, d.none_held, same, d.there, d.repeats) refl

  -- Where the ids of the jobs are distinct, a completion that succeeded succeeds again at any
  -- later time, with the same row as the answer and no change to the catalog.
  pub complete_job_again :
      (now later : ℕ) (db db' : Catalog) (row : Job)
      → KeyedJobs db.jobs
      → complete_job env now id node status output db ≡ (ok row, db')
      → complete_job env later id node status output db' ≡ (ok row, db')
  complete_job_again now later db db' row keyed e =
      repeat later row db' (subst Outcome e (complete_job-Outcome now db keyed))
