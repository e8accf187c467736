-- ===== src/Recovery/Command.antt =====
-- The command `agentmom fleet recover-host`: `fleet_recover_host` of src/main.rs, with
-- `workspaces_for_node` of src/db.rs.
use Prim.Native.String.{compare}
use text.Mathlib.Text.{is_lt}
use agentmom.Prelude.{
  keep-Has, ap, ◌∙◌, ◌⊎◌, Has, ◌≢◌, arith, eq_iff, subst, ℕ, String, ◌≡◌, refl, inl, inr, Bool,
  true, false, not, ◌&&◌, List, [], ◌∷◌, ◌==◌, ltb, if◌then◌else◌, Bool-cases, Option-cases,
  is_some_of, update, keep, exists, best, All, some,
}
use agentmom.Settings.{Settings}
use agentmom.Catalog.{Catalog, Workspace, Backup}
use agentmom.Catalog.Exec.{Result, ok, err, Exec, pure, query, Result-cases, ◌>>=◌, ◌>>◌}
use agentmom.Jobs.{cutoff_before}
use agentmom.Nodes.{require_ready_worker_node, node_mark_offline, is_node, is_ready}
use agentmom.Events.{is_restorable, latest_restic_backup}
use agentmom.Recovery.{recover_host_with_backups}
use agentmom.Recovery.Outcome.{Recovery, recover_host-Recovery}
use agentmom.Recovery.Rounds.{Settled}

-- ORDER BY name
unfoldable pub insert_by_name : Workspace → List Workspace → List Workspace
insert_by_name w [] = w ∷ []
insert_by_name w (x ∷ xs) =
    let rest = insert_by_name w xs in if is_lt (compare w.name x.name) then w ∷ x ∷ xs else x ∷ rest

unfoldable pub sort_by_name : List Workspace → List Workspace
sort_by_name [] = []
sort_by_name (w ∷ ws) = insert_by_name w (sort_by_name ws)

unfoldable pub workspaces_for_node : String → Catalog → List Workspace
workspaces_for_node node db =
    sort_by_name
      (keep (λ w. is_some_of w.node_id node && not (w.status == "removed")) db.workspaces)

-- The loop that looks up the backup of each workspace.
unfoldable pub plan_recovery : List Workspace → Exec (List (Workspace × Backup))
plan_recovery [] = pure []
plan_recovery (w ∷ ws) = do
  backup ← latest_restic_backup w.name
  rest ← plan_recovery ws
  pure ((w, backup) ∷ rest)

abbrev recover_unless_dry :
    Settings → ℕ → (ℕ → String) → String → String → Bool → List Workspace → Exec Unit
recover_unless_dry env now ids from to dry_run [] =
    if dry_run then pure tt else node_mark_offline now from
recover_unless_dry env now ids from to dry_run (w ∷ ws) = do
  plan ← plan_recovery (w ∷ ws)
  if dry_run then pure tt else recover_host_with_backups env now ids from to plan

unfoldable pub fleet_recover_host : Settings → ℕ → (ℕ → String) → String → String → Bool → Exec Unit
fleet_recover_host env now ids from to dry_run = do
  require_ready_worker_node env now to
  workspaces ← query (workspaces_for_node from)
  recover_unless_dry env now ids from to dry_run workspaces

plan_reads : (ws : List Workspace) (db : Catalog) → (plan_recovery ws db).1 ≡ db
unfolding plan_recovery latest_restic_backup best
plan_reads [] db = refl
plan_reads (w ∷ ws) db =
    elim (Option-cases
      (best (is_restorable w.name) (λ a b. ltb b.created_at a.created_at) db.backups)) [
        | inl n ↦ rw n refl
        | inr (b, f) ↦ elim (Result-cases (plan_recovery ws db).0) [
          | inl (rest, r) ↦ rw (f, r) (plan_reads ws db)
          | inr (x, r) ↦ rw (f, r) (plan_reads ws db)
        ]
      ]

-- A plan has the workspaces that it was made for.
abbrev Plans : (String → Type 0) → List Workspace → Result (List (Workspace × Backup)) → Type 0
Plans P ws (err e) = Unit
Plans P ws (ok plan) = All (λ i. P i.0.name) plan → All (λ w. P w.name) ws

plan_recovery-Plans :
    (P : String → Type 0) (ws : List Workspace) (db : Catalog) → Plans P ws (plan_recovery ws db).0
unfolding plan_recovery latest_restic_backup best
plan_recovery-Plans P [] db = λ a. tt
plan_recovery-Plans P (w ∷ ws) db =
    let later = plan_recovery-Plans P ws db in
    elim (Option-cases
      (best (is_restorable w.name) (λ a b. ltb b.created_at a.created_at) db.backups)) [
        | inl n ↦ rw n tt
        | inr (b, f) ↦ elim (Result-cases (plan_recovery ws db).0) [
          | inr (x, r) ↦ rw (f, r) tt
          | inl (rest, r) ↦ let q = rw r at later in rw (f, r) (λ a. (a.0, q a.1))
        ]
      ]

insert-Has :
    (w x : Workspace) (ws : List Workspace) → (w ≡ x) ⊎ Has x ws → Has x (insert_by_name w ws)
unfolding insert_by_name
insert-Has w x [] h = h
insert-Has w x (y ∷ ws) h = elim (Bool-cases (is_lt (compare w.name y.name))) [
  | inl e ↦ rw e h
  | inr e ↦ rw e (elim h [
    | inl q ↦ inr (insert-Has w x ws (inl q))
    | inr (inl q) ↦ inl q
    | inr (inr q) ↦ inr (insert-Has w x ws (inr q))
  ])
]

sort-Has : (x : Workspace) (ws : List Workspace) → Has x ws → Has x (sort_by_name ws)
unfolding sort_by_name
sort-Has x [] h = h
sort-Has x (w ∷ ws) (inl q) = insert-Has w x (sort_by_name ws) (inl q)
sort-Has x (w ∷ ws) (inr q) = insert-Has w x (sort_by_name ws) (inr (sort-Has x ws q))

All-Has : (P : Workspace → Type 0) (x : Workspace) (ws : List Workspace) → All P ws → Has x ws → P x
All-Has P x [] a h = absurd h
All-Has P x (w ∷ ws) a (inl q) = subst P q a.0
All-Has P x (w ∷ ws) a (inr q) = All-Has P x ws a.1 q

-- What holds of the rows that the query lists holds of every row on the node.
on_node :
    (P : Workspace → Type 0) (from : String) (db : Catalog) (ws : List Workspace)
    → workspaces_for_node from db ≡ ws
    → All P ws
    → (w : Workspace) → Has w db.workspaces
    → w.node_id ≡ some from
    → w.status ≢ "removed"
    → P w
unfolding workspaces_for_node
on_node P from db ws same all w has on kept =
    let there : is_some_of w.node_id from ≡ true =
      ap (λ o. is_some_of o from) on ∙ (eq_iff from from).1 refl in
    let left : (w.status == "removed") ≡ false = elim (Bool-cases (w.status == "removed")) [
      | inr e ↦ e
      | inl e ↦ absurd (kept ((eq_iff w.status "removed").0 e))
    ] in
    let fits : (is_some_of w.node_id from && not (w.status == "removed")) ≡ true =
      ground (arith, there, left) in
    All-Has P w ws all (subst (Has w) same (sort-Has w _ (keep-Has _ db.workspaces w fits has)))

-- What the command leaves behind.
abbrev pub Outcome : ℕ → Bool → String → String → Catalog → Result (Unit {0}) × Catalog → Type 0
Outcome now dry_run from to db (err e, db') = db' ≡ db
Outcome now true from to db (ok u, db') = db' ≡ db
Outcome now false from to db (ok u, db') =
    ((w : Workspace)
      → Has w db.workspaces
      → w.node_id ≡ some from
      → w.status ≢ "removed"
      → Settled to w.name db')
    × (db'.nodes
        ≡ update (is_node from) (λ n. record n { status = "offline"; last_seen_at = now }) db.nodes)

recovered_all :
    (env : Settings) (now : ℕ) (from to : String) (ws : List Workspace) (db : Catalog)
    (plan : List (Workspace × Backup)) (r : Result (Unit {0}) × Catalog)
    → workspaces_for_node from db ≡ ws
    → (plan_recovery ws db).0 ≡ ok plan
    → Recovery env now from to plan db r
    → Outcome now false from to db r
recovered_all env now from to ws db plan (err e, db') same p done = done
recovered_all env now from to ws db plan (ok u, db') same p done =
    let plans = rw p at (plan_recovery-Plans (λ name. Settled to name db') ws db) in
    (on_node (λ w. Settled to w.name db') from db ws same (plans done.settled), done.source_offline)

recover_unless_dry-Outcome :
    (env : Settings) (now : ℕ) (ids : ℕ → String) (from to : String) (dry_run : Bool)
    (ws : List Workspace) (db : Catalog)
    → workspaces_for_node from db ≡ ws
    → Outcome now dry_run from to db (recover_unless_dry env now ids from to dry_run ws db)
unfolding node_mark_offline
recover_unless_dry-Outcome env now ids from to true [] db same = refl
recover_unless_dry-Outcome env now ids from to false [] db same =
    (on_node (λ w. Settled to w.name (node_mark_offline now from db).1) from db [] same tt, refl)
recover_unless_dry-Outcome env now ids from to dry_run (w ∷ ws) db same =
    elim (Result-cases (plan_recovery (w ∷ ws) db).0) [
      | inr (x, r) ↦ rw r (plan_reads (w ∷ ws) db)
      | inl (plan, r) ↦ elim (Bool-cases dry_run) [
        | inl d ↦ rw (r, d) (plan_reads (w ∷ ws) db)
        | inr d ↦
            rw (r, d, plan_reads (w ∷ ws) db)
              (recovered_all env now from to (w ∷ ws) db plan _ same r
                (recover_host-Recovery env now from to ids plan db))
      ]
    ]

-- The command that recovers a host leaves the catalog as it was when it fails, and on a dry run.
-- When it succeeds otherwise, then for every row that was assigned to the host and not removed: the
-- workspace is in the catalog, each row of its name is on the target and waits for a restore, and
-- its one open job is a queued restore on the target. Of the node table only the host is changed,
-- which is offline.
pub fleet_recover_host-Outcome :
    (env : Settings) (now : ℕ) (ids : ℕ → String) (from to : String) (dry_run : Bool) (db : Catalog)
    → Outcome now dry_run from to db (fleet_recover_host env now ids from to dry_run db)
unfolding fleet_recover_host require_ready_worker_node
fleet_recover_host-Outcome env now ids from to dry_run db =
    elim (Result-cases (cutoff_before now env.node_stale_secs)) [
      | inr (x, c) ↦ rw c refl
      | inl (cutoff, c) ↦
          elim (Bool-cases (exists (λ n. is_node to n && is_ready cutoff n) db.nodes)) [
            | inr e ↦ rw (c, e) refl
            | inl e ↦
                rw (c, e)
                  (recover_unless_dry-Outcome env now ids from to dry_run
                    (workspaces_for_node from db) db refl)
          ]
    ]
