-- ===== src/Worker/Completion.antt =====
-- The end of a job: `job_completion_status`, and the loop of `complete_claimed_job` that repeats
-- the report until it is accepted or the time is over. Numbers in JSON are natural here, so an exit
-- code that a signal makes negative is not covered.
use agentmom.Prelude.{
  ℕ, zero, suc, ◌+◌, ◌≤◌, ◌<◌, String, ◌≡◌, inl, inr, Bool, true, false, not, ◌||◌, Option, none,
  some, arith, leb, eqb, if◌then◌else◌, Bool-cases, leb→le,
}
use agentmom.Json.{Json, num, get, as_bool}

abbrev as_code : Option Json → Option ℕ
as_code (some (num n)) = some n
as_code _ = none

abbrev is_false : Option Bool → Bool
is_false (some false) = true
is_false _ = false

abbrev is_failure_code : Option ℕ → Bool
is_failure_code none = false
is_failure_code (some n) = not (eqb n 0)

unfoldable pub job_completion_status : Json → String
job_completion_status output =
    if is_false (as_bool (get output "ok")) || is_failure_code (as_code (get output "code"))
    then "failed"
    else "succeeded"

-- How the loop ends, after how many attempts and when.
pub data Ending : Type 0 where
  accepted gave_up : ℕ → ℕ → Ending

abbrev pub pause_after : ℕ → ℕ
pause_after attempt = if leb attempt 10 then attempt else 10

-- `accepts` and `takes` are whether an attempt is accepted and the seconds that it takes; `none` is
-- the end of the fuel.
module _ (accepts : ℕ → Bool) (takes : ℕ → ℕ) (deadline : ℕ) where
  unfoldable pub report_loop : ℕ → ℕ → ℕ → Option Ending
  report_loop zero done now = none
  report_loop (suc fuel) done now =
      let attempt = done + 1 in
      let later = now + takes attempt in
      let rest = report_loop fuel attempt (later + pause_after attempt) in
      if accepts attempt
      then some (Ending.accepted attempt later)
      else if leb deadline later
      then some (Ending.gave_up attempt later)
      else rest

  -- Every attempt but the last was refused, and the loop went on only before the deadline.
  abbrev pub Ended : ℕ → Option Ending → Type 0
  Ended done none = ⊥
  Ended done (some (Ending.accepted n t)) =
      (done < n) × (accepts n ≡ true) × ((k : ℕ) → done < k → k < n → accepts k ≡ false)
  Ended done (some (Ending.gave_up n t)) =
      (done < n) × (deadline ≤ t) × ((k : ℕ) → done < k → k ≤ n → accepts k ≡ false)

  on_from :
      (done : ℕ) (o : Option Ending)
      → accepts (done + 1) ≡ false
      → Ended (done + 1) o
      → Ended done o
  on_from done none e h = h
  on_from done (some (Ending.accepted n t)) e (l, a, before) = (
    omega arith,
    a,
    λ k m b. elim (Bool-cases (eqb k (done + 1))) [
      | inl q ↦ let same : k ≡ done + 1 = ground arith in rw same e
      | inr q ↦ before k (ground arith) b
    ],
  )
  on_from done (some (Ending.gave_up n t)) e (l, late, before) = (
    omega arith,
    late,
    λ k m b. elim (Bool-cases (eqb k (done + 1))) [
      | inl q ↦ let same : k ≡ done + 1 = ground arith in rw same e
      | inr q ↦ before k (ground arith) b
    ],
  )

  report_loop-Ended :
      (fuel done now : ℕ)
      → deadline < fuel + now
      → 0 < fuel
      → Ended done (report_loop fuel done now)
  unfolding report_loop
  report_loop-Ended zero done now h p = absurd (omega arith)
  report_loop-Ended (suc fuel) done now h p = elim (Bool-cases (accepts (done + 1))) [
    | inl a ↦ rw a (omega arith, a, λ k l b. absurd (omega arith))
    | inr a ↦
        let later = now + takes (done + 1) in
        elim (Bool-cases (leb deadline later)) [
          | inl l ↦
              rw (a, l)
                (
                  omega arith,
                  leb→le deadline later l,
                  λ k m b. let same : k ≡ done + 1 = omega arith in rw same a,
                )
          | inr l ↦
              let pause : 1 ≤ pause_after (done + 1) = ground arith in
              let early : later < deadline = ground arith in
              let rest =
                report_loop-Ended fuel (done + 1) (later + pause_after (done + 1)) (omega arith)
                  (omega arith) in
              rw (a, l)
                (on_from done (report_loop fuel (done + 1) (later + pause_after (done + 1))) a rest)
        ]
  ]

abbrev pub enough_attempts : ℕ → ℕ
enough_attempts retry_for = retry_for + 1

-- `retry_for` is MOM_JOB_COMPLETION_RETRY_SECS.
unfoldable pub complete_claimed_job : (ℕ → Bool) → (ℕ → ℕ) → ℕ → ℕ → Option Ending
unfolding report_loop
complete_claimed_job accepts takes retry_for now =
    report_loop accepts takes (now + retry_for) (enough_attempts retry_for) 0 now

-- The report of a completed job is not repeated for ever: the loop ends after at most one attempt
-- more than the seconds that it may take. It ends with the first attempt that is accepted, or with
-- a refused attempt at or after the deadline, where every attempt was refused.
pub complete_claimed_job-Ended :
    (accepts : ℕ → Bool) (takes : ℕ → ℕ) (retry_for now : ℕ)
    → Ended accepts takes (now + retry_for) 0 (complete_claimed_job accepts takes retry_for now)
unfolding complete_claimed_job
complete_claimed_job-Ended accepts takes retry_for now =
    report_loop-Ended accepts takes (now + retry_for) (enough_attempts retry_for) 0 now
      (omega arith) (omega arith)
