-- ===== src/History/NodeRules.antt =====
-- The operations that leave the node table alone.
use agentmom.Prelude.{ℕ, String, ◌≡◌, refl, Bool, Option, arith}
use agentmom.Settings.{Settings}
use agentmom.Catalog.{Catalog}
use agentmom.Jobs.{CreateJobRequest, create_job, insert_job, claim_job, expire_stale_job_leases}
use agentmom.Jobs.Creation.{create_cases}
use agentmom.Jobs.Claims.{claim_cases}
use agentmom.Jobs.Leases.{expire_keeps}
use agentmom.Workspaces.{
  WorkspaceUpsert, workspace_upsert_pending_on_ready_node, workspace_update_from_worker,
  refuse_report, workspace_get,
}
use agentmom.Workspaces.Placing.{upsert_cases}

pub nodes-expire :
    (env : Settings) (now : ℕ) (db : Catalog)
    → (expire_stale_job_leases env now db).1.nodes ≡ db.nodes
nodes-expire env now db =
    expire_keeps (λ d. d.nodes ≡ db.nodes) env now (λ d c e. e) (λ d c e. e) db refl

pub nodes-claim :
    (env : Settings) (now : ℕ) (node : String) (c d : Bool) (db : Catalog)
    → (claim_job env now node c d db).1.nodes ≡ db.nodes
nodes-claim env now node c d db =
    claim_cases (λ r. r.1.nodes ≡ db.nodes) env now node c d db (λ e. refl)
      (λ e. nodes-expire env now db) (λ j row s one f. nodes-expire env now db)

pub nodes-create :
    (env : Settings) (id : String) (now : ℕ) (request : CreateJobRequest) (db : Catalog)
    → (create_job env id now request db).1.nodes ≡ db.nodes
unfolding insert_job
nodes-create env id now request db =
    create_cases (λ d. d.nodes ≡ db.nodes) env id now request db refl (λ name. ground arith)

pub nodes-report :
    (now : ℕ) (name node : String) (status desired : Option String) (touch mark : Bool)
    (db : Catalog)
    → (workspace_update_from_worker now name node status desired touch mark db).1.nodes ≡ db.nodes
unfolding workspace_update_from_worker refuse_report workspace_get
nodes-report now name node status desired touch mark db = ground arith

pub nodes-place :
    (env : Settings) (now : ℕ) (input : WorkspaceUpsert) (requested : Option String) (db : Catalog)
    → (workspace_upsert_pending_on_ready_node env now input requested db).1.nodes ≡ db.nodes
nodes-place env now input requested db =
    upsert_cases env now input db (λ r. r.1.nodes ≡ db.nodes) requested (λ e. refl)
      (λ cutoff node slug q p n c. refl)
