-- ===== src/Examples/Queue.antt =====
-- The job queue of the small fleet.
use agentmom.Prelude.{◌≡◌, refl, true, some, [], ◌∷◌, arith, count, update, find}
use agentmom.Json.{text}
use agentmom.Catalog.{Catalog, Job}
use agentmom.Catalog.Exec.{ok}
use agentmom.Jobs.{claim_job, job_get}
use agentmom.Jobs.Finish.{complete_job}
use agentmom.Jobs.Keyed.{KeyedJobs, KeyedJobs-Fresh}
use agentmom.Jobs.Exclusive.{IsExclusive}
use agentmom.Jobs.Answers.{Answer, claim_job-Answer}
use agentmom.Jobs.Repeats.{complete_job_again}
use agentmom.Jobs.Lifecycle.{Evolves}
use agentmom.History.{run}
use agentmom.History.Jobs.{run-IsExclusive, run-Evolves}
use agentmom.Examples.Fleet.{settings, fleet, day, queued}

-- A fleet in which the first host runs its job.
abbrev running : Job
running = record (queued "job-1" "notes" "backup" "node-a" 4980) {
  status = "running";
  claimed_by = some "node-a";
  claimed_at = some 5012;
}

abbrev busy : Catalog
busy = record fleet { jobs = running ∷ queued "job-2" "notes" "start" "node-a" 4990 ∷ [] }

fleet-KeyedJobs : KeyedJobs fleet.jobs
unfolding count
fleet-KeyedJobs = KeyedJobs-Fresh fleet.jobs (refl, (refl, (refl, tt)))

busy-KeyedJobs : KeyedJobs busy.jobs
unfolding count
busy-KeyedJobs = KeyedJobs-Fresh busy.jobs (refl, (refl, tt))

fleet-IsExclusive : IsExclusive fleet
unfolding count
fleet-IsExclusive w = ground arith

run-IsExclusive_example : IsExclusive (run settings day fleet)
run-IsExclusive_example = run-IsExclusive settings day fleet fleet-IsExclusive

run-Evolves_example : Evolves fleet.jobs (run settings day fleet).jobs
run-Evolves_example = run-Evolves settings day fleet

claim_job-Answer_example :
    Answer settings 5010 "node-a" true true fleet (claim_job settings 5010 "node-a" true true fleet)
claim_job-Answer_example = claim_job-Answer settings 5010 "node-a" true true fleet fleet-KeyedJobs

abbrev done : Job
done = record running { status = "succeeded"; output_json = some "done"; updated_at = 5013 }

abbrev idle : Catalog
idle = record fleet { jobs = done ∷ queued "job-2" "notes" "start" "node-a" 4990 ∷ [] }

completes_once :
    complete_job settings 5013 "job-1" "node-a" "succeeded" (text "done") busy ≡ (ok done, idle)
unfolding complete_job job_get count update find
completes_once = refl

complete_job_again_example :
    complete_job settings 5099 "job-1" "node-a" "succeeded" (text "done") idle ≡ (ok done, idle)
complete_job_again_example =
    complete_job_again settings "job-1" "node-a" "succeeded" (text "done") 5013 5099 busy idle done
      busy-KeyedJobs completes_once
