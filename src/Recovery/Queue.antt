-- ===== src/Recovery/Queue.antt =====
-- What a recovery does to the job table.
use agentmom.Prelude.{
  ℕ, String, inl, inr, ◌&&◌, List, [], ◌∷◌, ◌++◌, ◌==◌, Bool-cases, Option-cases, length, update,
  find, exists, ◌≡◌, false,
}
use agentmom.Settings.{Settings}
use agentmom.Catalog.{Catalog, Workspace, Backup, Job}
use agentmom.Catalog.Exec.{Result-cases}
use agentmom.Jobs.{cutoff_before, insert_job}
use agentmom.Events.{insert_event}
use agentmom.Nodes.{is_node, is_ready}
use agentmom.Recovery.{
  no_load, Move, gather, check_target, is_open_job, superseded, restore_job, reassign, reassign_all,
  recover, recover_host_with_backups,
}

-- A property of the job table that superseding the open jobs of a workspace keeps, and the
-- insertion of a restore job.
module _ {ℓ} (Q : List Job → Type ℓ) (env : Settings) (now : ℕ) (from to : String)
    (supersedes : (name : String) (js : List Job)
      → Q js
      → Q (update (is_open_job name) (superseded env now from to) js))
    (inserts : (id : String) (m : Move) (js : List Job)
      → exists (λ j. j.id == id) js ≡ false
      → Q js
      → Q (js ++ restore_job env now id from to m ∷ [])) where
  reassign_keeps :
      (id : String) (m : Move) (db : Catalog)
      → Q db.jobs
      → Q (reassign env now id from to m db).1.jobs
  unfolding reassign insert_event insert_job
  reassign_keeps id m db h =
      let js : List Job =
        update (is_open_job m.workspace.name) (superseded env now from to) db.jobs in
      let q = supersedes m.workspace.name db.jobs h in
      elim (Bool-cases (exists (λ j. j.id == id) js)) [
        | inl e ↦ rw e q
        | inr e ↦ rw e (inserts id m js e q)
      ]

  reassign_all_keeps :
      (ids : ℕ → String) (ms : List Move) (db : Catalog)
      → Q db.jobs
      → Q (reassign_all env now ids from to ms db).1.jobs
  unfolding reassign_all
  reassign_all_keeps ids [] db h = h
  reassign_all_keeps ids (m ∷ ms) db h =
      let id = ids (length ms) in
      let once = reassign_keeps id m db h in
      elim (Result-cases (reassign env now id from to m db).0) [
        | inl (u, e) ↦ rw e (reassign_all_keeps ids ms (reassign env now id from to m db).1 once)
        | inr (x, e) ↦ rw e once
      ]

  recover_keeps :
      (ids : ℕ → String) (cutoff : ℕ) (items : List (Workspace × Backup)) (db : Catalog)
      → Q db.jobs
      → Q (recover env now ids from to cutoff items db).1.jobs
  unfolding recover
  recover_keeps ids cutoff items db h = elim (Result-cases (gather from items no_load db)) [
    | inr (x, e) ↦ rw e h
    | inl (g, e) ↦ elim (Option-cases (find (λ n. is_node to n && is_ready cutoff n) db.nodes)) [
      | inl n ↦ rw (e, n) h
      | inr (n, f) ↦ elim (Result-cases (check_target to g.0 n db)) [
        | inr (x, c) ↦ rw (e, f, c) h
        | inl (u, c) ↦ elim (Result-cases (reassign_all env now ids from to g.1 db).0) [
          | inr (x, r) ↦ rw (e, f, c, r) (reassign_all_keeps ids g.1 db h)
          | inl (v, r) ↦ rw (e, f, c, r) (reassign_all_keeps ids g.1 db h)
        ]
      ]
    ]
  ]

  pub recover_host_keeps :
      (ids : ℕ → String) (items : List (Workspace × Backup)) (db : Catalog)
      → Q db.jobs
      → Q (recover_host_with_backups env now ids from to items db).1.jobs
  unfolding recover_host_with_backups
  recover_host_keeps ids items db h = elim (Bool-cases (from == to)) [
    | inl e ↦ rw e h
    | inr e ↦ elim (Result-cases (cutoff_before now env.node_stale_secs)) [
      | inr (x, c) ↦ rw (e, c) h
      | inl (cutoff, c) ↦
          let kept = recover_keeps ids cutoff items db h in
          elim (Result-cases (recover env now ids from to cutoff items db).0) [
            | inl (u, r) ↦ rw (e, c, r) kept
            | inr (x, r) ↦ rw (e, c, r) h
          ]
    ]
  ]
