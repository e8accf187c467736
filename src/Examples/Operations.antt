-- ===== src/Examples/Operations.antt =====
-- Placement, recovery, reports and scheduling in the small fleet.
use agentmom.Prelude.{
  subst, ◌≤◌, refl, inl, inr, false, none, some, List, [], ◌∷◌, arith, ◌==◌, eq_iff, Bool-cases,
  count, exists,
}
use agentmom.Json.{null}
use agentmom.Catalog.{Catalog, Workspace, Backup}
use agentmom.Workspaces.{workspace_upsert_pending_on_ready_node}
use agentmom.Workspaces.Capacity.{Placement, workspace_upsert-Placement}
use agentmom.Recovery.{recover_host_with_backups}
use agentmom.Recovery.Outcome.{Recovery, recover_host-Recovery}
use agentmom.Workspaces.{is_named}
use agentmom.Api.Worker.{api_worker_job_complete}
use agentmom.Api.Completion.{SameOthers, api_worker_job_complete-SameOthers}
use agentmom.Api.Elsewhere.{SameElsewhere, KeyedWorkspaces}
use agentmom.Api.Isolation.{receive-SameElsewhere}
use agentmom.Api.Tokens.{Tokens}
use agentmom.Api.Reports.{Report, workspace_event, receive, assigned_node, receive-Outcome}
use agentmom.Api.Reports
use agentmom.Recovery.Command.{fleet_recover_host, Outcome, fleet_recover_host-Outcome}
use agentmom.History.{run}
use agentmom.History.Nodes.{Withheld, run-Withheld}
use agentmom.Examples.Fleet.{settings, fleet, day, upsert, workspace, backup, node}

workspace_upsert-Placement_example :
    Placement settings 5016 upsert fleet
      (workspace_upsert_pending_on_ready_node settings 5016 upsert none fleet)
workspace_upsert-Placement_example = workspace_upsert-Placement settings 5016 upsert none fleet

abbrev plan : List (Workspace × Backup)
plan = (workspace "ws-1" "notes" (some "node-a"), backup) ∷ []

recover_host-Recovery_example :
    Recovery settings 5020 "node-a" "node-b" plan fleet
      (recover_host_with_backups settings 5020 (λ n. "job-5") "node-a" "node-b" plan fleet)
recover_host-Recovery_example =
    recover_host-Recovery settings 5020 "node-a" "node-b" (λ n. "job-5") plan fleet

abbrev tokens : Tokens
tokens = record { per_node = ("node-a", "secret") ∷ []; shared = none }

abbrev report : Report
report = workspace_event "notes" "workspace_started" "running" "started" null

receive-Outcome_example :
    Reports.Outcome settings tokens
      (some "Bearer secret")
      5020
      "node-a"
      (assigned_node report fleet)
      fleet
      (receive settings tokens (some "Bearer secret") 5020 "node-a" report fleet)
receive-Outcome_example =
    receive-Outcome settings tokens (some "Bearer secret") 5020 "node-a" report fleet

-- The first host is to be drained.
abbrev draining : Catalog
draining = record fleet {
  nodes = record (node "node-a") { status = "draining" } ∷ node "node-b" ∷ [];
}

draining-Withheld : Withheld "node-a" draining.nodes
unfolding exists count
draining-Withheld = record { registered = refl; none_free = refl }

run-Withheld_example : Withheld "node-a" (run settings day draining).nodes
run-Withheld_example =
    run-Withheld "node-a" settings day draining
      (refl, (refl, (refl, (refl, (refl, (refl, (refl, (refl, (refl, tt))))))))) draining-Withheld

fleet_recover_host-Outcome_example :
    Outcome 5020 false "node-a" "node-b" fleet
      (fleet_recover_host settings 5020 (λ n. "job-5") "node-a" "node-b" false fleet)
fleet_recover_host-Outcome_example =
    fleet_recover_host-Outcome settings 5020 (λ n. "job-5") "node-a" "node-b" false fleet

api_worker_job_complete-SameOthers_example :
    SameOthers "node-a" fleet
      (api_worker_job_complete settings tokens
        (some "Bearer secret")
        5020
        "node-a"
        "job-1"
        "succeeded"
        null
        fleet).1
api_worker_job_complete-SameOthers_example =
    api_worker_job_complete-SameOthers settings tokens (some "Bearer secret") 5020 "node-a" "job-1"
      "succeeded" null fleet

fleet-KeyedWorkspaces : KeyedWorkspaces fleet.workspaces
unfolding count
fleet-KeyedWorkspaces n = elim (Bool-cases ("notes" == n)) [
  | inr e ↦ ground (arith, e)
  | inl e ↦
      subst (λ m. count (is_named m) fleet.workspaces ≤ 1) ((eq_iff "notes" n).0 e) (omega arith)
]

receive-SameElsewhere_example :
    SameElsewhere "node-a" fleet
      (receive settings tokens (some "Bearer secret") 5020 "node-a" report fleet).1
receive-SameElsewhere_example =
    receive-SameElsewhere settings tokens (some "Bearer secret") 5020 "node-a" report fleet
      fleet-KeyedWorkspaces
