-- ===== src/Api/Completion.antt =====
-- A worker that reports a completion cannot touch the jobs of other nodes.
use agentmom.Prelude.{
  ℕ, String, ◌≡◌, refl, inl, inr, Bool, not, ◌&&◌, Option, List, [], ◌∷◌, arith, eqb, Bool-cases,
  is_some_of, count, keep, keep-update,
}
use agentmom.Json.{Json}
use agentmom.Settings.{Settings}
use agentmom.Catalog.{Catalog, Job}
use agentmom.Catalog.Exec.{Result-cases}
use agentmom.Jobs.Finish.{is_held, finished, complete_job, complete_cases}
use agentmom.Nodes.{is_node, node_touch, node_allows_worker_reports}
use agentmom.Api.Tokens.{Tokens, require_worker_node_token}
use agentmom.Api.Worker.{require_worker_report_allowed, api_worker_job_complete}

-- The rows that the node has not claimed.
abbrev pub unclaimed_by : String → Job → Bool
unclaimed_by node j = not (is_some_of j.claimed_by node)

abbrev pub SameOthers : String → Catalog → Catalog → Type 0
SameOthers node db db' =
    (keep (unclaimed_by node) db'.jobs ≡ keep (unclaimed_by node) db.jobs)
    × (db'.workspaces ≡ db.workspaces)

held_none :
    (id node : String) (js : List Job)
    → count (λ j. is_held id node j && unclaimed_by node j) js ≡ 0
unfolding count
held_none id node [] = refl
held_none id node (j ∷ js) = ground (arith, held_none id node js)

complete-SameOthers :
    (env : Settings) (now : ℕ) (id node status : String) (output : Json) (db : Catalog)
    → SameOthers node db (complete_job env now id node status output db).1
complete-SameOthers env now id node status output db =
    complete_cases (SameOthers node db) env now id node status output db (refl, refl)
      (λ t. (
        keep-update (unclaimed_by node) (is_held id node)
            (finished now status (env.to_string output)) db.jobs (held_none id node db.jobs)
            (λ x. refl),
        refl,
      ))

-- A report of a completion by a node, whether it is let through or not, changes no workspace and
-- leaves the jobs that the node has not claimed as they are, in their order.
pub api_worker_job_complete-SameOthers :
    (env : Settings) (tokens : Tokens) (value : Option String) (now : ℕ) (node id status : String)
    (output : Json) (db : Catalog)
    → SameOthers node db (api_worker_job_complete env tokens value now node id status output db).1
unfolding api_worker_job_complete require_worker_report_allowed node_touch
api_worker_job_complete-SameOthers env tokens value now node id status output db =
    elim (Result-cases (require_worker_node_token tokens value node)) [
      | inr (x, e) ↦ rw e (refl, refl)
      | inl (u, e) ↦ elim (Bool-cases (node_allows_worker_reports node db)) [
        | inr t ↦ rw (e, t) (refl, refl)
        | inl t ↦ elim (Bool-cases (eqb (count (is_node node) db.nodes) 0)) [
          | inl z ↦ rw (e, t, z) (refl, refl)
          | inr z ↦ rw (e, t, z) (complete-SameOthers env now id node status output _)
        ]
      ]
    ]
