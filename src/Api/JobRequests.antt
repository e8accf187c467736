-- ===== src/Api/JobRequests.antt =====
-- What `api_create_job` lets through.
use agentmom.Accounts.Sessions.{AuthUser}
use agentmom.Prelude.{
  none, subst, ℕ, String, ◌≡◌, refl, sym, ◌∙◌, ◌⊎◌, inl, inr, true, false, ◌||◌, Option, some, List,
  [], ◌∷◌, ◌++◌, ◌==◌, eq_iff, Bool-cases, Option-cases, find, find_sound,
}
use agentmom.Json.{Json}
use agentmom.Settings.{Settings}
use agentmom.Catalog.{Catalog, Accounts, Workspace, Job, User}
use agentmom.Catalog.Exec.{◌>>◌, Error, Result, continue, ok, err, pure, ◌>>=◌, Exec}
use agentmom.Jobs.Creation.{outcome_cases}
use agentmom.Jobs.{CreateJobRequest, create_job}
use agentmom.Workspaces.{is_named, workspace_get}
use agentmom.Accounts.Sessions.{is_owned_by, authorize_workspace}
use agentmom.Api.Public.{
  is_public_kind, is_admin_kind, job_node, job_payload, api_create_job, admit_kind,
}
use agentmom.Api.Requests.{SessionOf, with_touched, authorize_cases, admin_cases}
use agentmom.Api.Creation.{Target, RestoreOf, job_node_cases, restore_cases}

-- Who may create a job of a kind: a user with a session, and for an administrator's kind an
-- administrator, else an administrator or the owner of the workspace.
abbrev pub Allowed : Settings → Option String → Accounts → Workspace → String → Type 0
Allowed env header a w kind =
    (u : User) × SessionOf env header a u
    × (((is_public_kind kind ≡ true) × ((u.role == "admin" || is_owned_by u.id w) ≡ true))
        ⊎ ((is_admin_kind kind ≡ true) × (u.role ≡ "admin")))

abbrev pub PayloadOf : Workspace → Catalog → CreateJobRequest → Json → Type 0
PayloadOf w db request payload =
    ((request.kind ≡ "restore") × RestoreOf w db request.payload payload)
    ⊎ (((request.kind == "restore") ≡ false) × (payload ≡ request.payload))

pub record Queued (env : Settings) (id : String) (now : ℕ) (header : Option String)
    (request : CreateJobRequest) (db : Catalog) (job : Job) (js : List Job) : Type 0 where
  pub workspace : Workspace
  pub found : find (is_named request.workspace_name) db.workspaces ≡ some workspace
  pub allowed : Allowed env header db.accounts workspace request.kind
  pub node : String
  pub target : Target env now workspace request.node_id db node
  pub payload : Json
  pub meant : PayloadOf workspace db request payload
  pub name : String
  pub same_name : name ≡ workspace.name
  pub row : job ≡ record {
    id = id;
    workspace_name = name;
    node_id = some node;
    kind = request.kind;
    status = "queued";
    payload_json = env.to_string payload;
    output_json = none;
    claimed_by = none;
    claimed_at = none;
    created_at = now;
    updated_at = now;
  }
  pub rows : js ≡ db.jobs ++ job ∷ []

abbrev pub JobRequest :
    Settings
    → String
    → ℕ
    → Option String
    → CreateJobRequest
    → Catalog
    → Result Job × Catalog
    → Type 0
JobRequest env id now header request db (err e, db') = db'.jobs ≡ db.jobs
JobRequest env id now header request db (ok job, db') =
    Queued env id now header request db job db'.jobs

module _ (env : Settings) (id : String) (now : ℕ) (header : Option String)
    (request : CreateJobRequest) (db : Catalog) where
  payload_cases {ℓ} :
      (P : Result Json × Catalog → Type ℓ) (w : Workspace) (d : Catalog)
      → ((e : Error) → P (err e, d))
      → ((payload : Json) → PayloadOf w d request payload → P (ok payload, d))
      → P (job_payload w request d)
  unfolding job_payload
  payload_cases P w d refused found = elim (Bool-cases (request.kind == "restore")) [
    | inr k ↦ rw k (found request.payload (inr (k, refl)))
    | inl k ↦ rw k (
        restore_cases env now w d P request.payload refused
          (λ payload r. found payload (inl ((eq_iff request.kind "restore").0 k, r))))
  ]

  -- The steps after the authorization, on a catalog that differs in the accounts only.
  queue_cases :
      (w : Workspace) (a : Accounts)
      → find (is_named request.workspace_name) db.workspaces ≡ some w
      → Allowed env header db.accounts w request.kind
      → JobRequest env id now header request db (
          (do
            node ← job_node env now w request.node_id
            payload ← job_payload w request
            create_job env id now (record request { node_id = node; payload = payload }))
            (with_touched a db))
  queue_cases w a f allowed =
      let d = with_touched a db in
      job_node_cases env now w d
        (λ r. JobRequest env id now header request db (
          continue r.0
            (λ node. do
              payload ← job_payload w request
              create_job env id now (record request { node_id = node; payload = payload }))
            r.1))
        request.node_id (λ e. refl)
        (λ node target.
          payload_cases
            (λ r. JobRequest env id now header request db (
              continue r.0
                (λ payload.
                  create_job env id now (record request { node_id = some node; payload = payload }))
                r.1))
            w d (λ e. refl)
            (λ payload meant.
              outcome_cases (JobRequest env id now header request db) env id now
                (record request { node_id = some node; payload = payload }) d (λ e. refl)
                (λ name same. record {
                  workspace = w;
                  found = f;
                  allowed = allowed;
                  node = node;
                  target = record {
                    cutoff = target.cutoff;
                    recent = target.recent;
                    chosen = target.chosen;
                    accepting = target.accepting;
                  };
                  payload = payload;
                  meant = meant;
                  name = name;
                  same_name =
                      same
                      ∙ sym (
                          (eq_iff w.name request.workspace_name).0
                            (find_sound _ db.workspaces w f).1);
                  row = refl;
                  rows = refl;
                })))

  -- A request for a job that fails leaves the jobs as they were. One that succeeds adds one queued
  -- job, with the name of the workspace of the request, which is there: its kind is a public one and the request carries the
  -- session of an administrator or of the owner of the workspace, or its kind is an
  -- administrator's and the session is of an administrator; its node is the one of the workspace,
  -- or for a workspace without a node the one that was asked for, and is registered, takes jobs
  -- and was seen recently; and a restore is of a backup of that workspace that succeeded.
  pub api_create_job-JobRequest :
      JobRequest env id now header request db (api_create_job env id now header request db)
  unfolding api_create_job admit_kind workspace_get
  api_create_job-JobRequest = elim (Bool-cases (is_public_kind request.kind)) [
    | inl k ↦ elim (Option-cases (find (is_named request.workspace_name) db.workspaces)) [
      | inl f ↦ rw (k, f) refl
      | inr (w, f) ↦
          let same = same_workspace w f in
          rw (k, f)
            (authorize_cases env now header db
              (λ r. JobRequest env id now header request db (continue r.0 (λ _. queue w) r.1))
              w.name (λ e a. refl)
              (λ u v a s g right. queue_cases w a f (
                u,
                s,
                inl (
                  k,
                  subst (λ x. (u.role == "admin" || is_owned_by u.id x) ≡ true)
                      (some_inj v w (sym g ∙ same)) right,
                ),
              )))
    ]
    | inr k ↦ elim (Bool-cases (is_admin_kind request.kind)) [
      | inr l ↦ rw (k, l) refl
      | inl l ↦
          rw (k, l)
            (admin_cases env now header db
              (λ r.
                JobRequest env id now header request db
                  (continue (passed r).0 (λ _. rest) (passed r).1))
              (λ e a. refl)
              (λ u a s admin.
                elim (Option-cases (find (is_named request.workspace_name) db.workspaces)) [
                  | inl f ↦ rw f refl
                  | inr (w, f) ↦ rw f (
                      authorize_cases env now header (with_touched a db)
                        (λ r.
                          JobRequest env id now header request db (continue r.0 (λ _. queue w) r.1))
                        w.name (λ e b. refl)
                        (λ v x b t g right. queue_cases w b f (u, s, inr (l, admin))))
                ]))
    ]
  ]
    where
      queue : Workspace → Exec Job
      queue w = do
        node ← job_node env now w request.node_id
        payload ← job_payload w request
        create_job env id now (record request { node_id = node; payload = payload })

      passed : Result AuthUser × Catalog → Result (Unit {0}) × Catalog
      passed r = continue r.0 (λ _. pure tt) r.1

      rest : Exec Job
      rest = do
        w ← workspace_get request.workspace_name
        authorize_workspace env now header w.name
        queue w

      same_workspace :
          (w : Workspace)
          → find (is_named request.workspace_name) db.workspaces ≡ some w
          → find (is_named w.name) db.workspaces ≡ some w
      same_workspace w f =
          let name : w.name ≡ request.workspace_name =
            (eq_iff w.name request.workspace_name).0 (find_sound _ db.workspaces w f).1 in
          subst (λ n. find (is_named n) db.workspaces ≡ some w) (sym name) f

      some_inj : (v w : Workspace) → some v ≡ some w → v ≡ w
      some_inj v w e = cc
