-- ===== src/Examples/Workers.antt =====
-- A worker that suspends the machine of a workspace, and one whose last report is refused twice.
use agentmom.Prelude.{ℕ, ◌+◌, String, Bool, true, false, none, some, [], leb}
use agentmom.Worker.Backup.{Restic}
use agentmom.Catalog.Exec.{Error}
use agentmom.Worker.Settled.{AtPeace, carry_out-AtPeace}
use agentmom.Machines.Vm.{Tools, untouched}
use agentmom.Worker.Completion.{Ended, complete_claimed_job, complete_claimed_job-Ended}
use agentmom.Worker.Site.{Site, WorkerApi}
use agentmom.Worker.Success.{Then}
use agentmom.Worker.Tasks.{Task, carry_out, Agreed, carry_out-Agreed}
use agentmom.Examples.Fleet.{settings, fleet, workspace}

abbrev busy_tools : Tools ℕ
busy_tools = record { perform = λ c n. (true, n + 1); is_active = λ n. some "active" }

abbrev worker : WorkerApi
worker = record {
  env = settings;
  tokens = record { per_node = []; shared = some "secret" };
  value = some "Bearer secret";
  now = 5000;
  node = "node-a";
}

abbrev site : Site ℕ
site = record {
  catalog = fleet;
  machine = record {
    world = 0;
    exists_dir = true;
    state = "running";
    snapshot = false;
    complete = false;
    phase = untouched;
    taken = [];
  };
}

carry_out-Agreed_example :
    Then busy_tools worker "notes"
      (Agreed busy_tools worker (workspace "ws-1" "notes" (some "node-a")) Task.suspends_it site)
      (carry_out busy_tools worker (workspace "ws-1" "notes" (some "node-a")) Task.suspends_it site)
carry_out-Agreed_example =
    carry_out-Agreed busy_tools worker (workspace "ws-1" "notes" (some "node-a")) Task.suspends_it
      site

abbrev third_time : ℕ → Bool
third_time n = leb 3 n

complete_claimed_job-Ended_example :
    Ended third_time (λ n. 1) 5600 0 (complete_claimed_job third_time (λ n. 1) 600 5000)
complete_claimed_job-Ended_example = complete_claimed_job-Ended third_time (λ n. 1) 600 5000

abbrev no_restic : Restic ℕ
no_restic = record {
  repository = none;
  installed = false;
  has_workspace_dir = λ n. true;
  backup = λ w n. (none, n);
}

abbrev message : Error → String
message e = "error"

carry_out-AtPeace_example :
    Then busy_tools worker "notes"
      (AtPeace busy_tools no_restic worker message
        (workspace "ws-1" "notes" (some "node-a"))
        "suspended")
      (carry_out busy_tools worker (workspace "ws-1" "notes" (some "node-a")) Task.suspends_it site)
carry_out-AtPeace_example =
    carry_out-AtPeace busy_tools no_restic worker message (workspace "ws-1" "notes" (some "node-a"))
      Task.suspends_it site
