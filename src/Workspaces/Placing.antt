-- ===== src/Workspaces/Placing.antt =====
-- The ways in which the placement of a new workspace ends, as a case rule.
use agentmom.Prelude.{
  ℕ, String, ◌≡◌, inl, inr, false, ◌&&◌, Option, none, some, [], ◌∷◌, ◌++◌, arith, leb, Bool-cases,
  i64_max, exists,
}
use agentmom.Settings.{Settings}
use agentmom.Catalog.{Catalog, Workspace}
use agentmom.Catalog.Exec.{Error, Result, Result-cases, ok, err, transaction, continue, pure}
use agentmom.Jobs.{cutoff_before}
use agentmom.Names.{workspace_slug_from_name}
use agentmom.Workspaces.{
  WorkspaceUpsert, pending, collides, is_named, insert_workspace, insert_workspace_pending, place,
  workspace_upsert_pending_on_ready_node,
}

place_reads :
    (cutoff : ℕ) (input : WorkspaceUpsert) (requested : Option String) (db : Catalog)
    → (place cutoff input requested db).1 ≡ db
unfolding place
place_reads cutoff input none db = ground arith
place_reads cutoff input (some n) db = ground arith

abbrev pub added : Workspace → Catalog → Catalog
added w db = record db { workspaces = db.workspaces ++ w ∷ [] }

module _ (env : Settings) (now : ℕ) (input : WorkspaceUpsert) (db : Catalog) where
  insert_cases {ℓ} :
      (P : Result Unit × Catalog → Type ℓ) (node : String)
      → ((e : Error) (db' : Catalog) → P (err e, db'))
      → ((slug : String)
          → let w = pending env now slug (some node) input in
            exists (is_named input.name) db.workspaces ≡ false
            → exists (collides w) db.workspaces ≡ false
            → P (ok tt, added w db))
      → P (insert_workspace_pending env now (some node) input db)
  unfolding insert_workspace_pending insert_workspace
  insert_cases P node failed inserted =
      elim (Result-cases (workspace_slug_from_name env input.name)) [
        | inr (x, e) ↦ rw e (failed x db)
        | inl (slug, e) ↦
            elim (Bool-cases
              (leb input.idle_timeout_secs i64_max && leb input.backup_interval_secs i64_max)) [
                | inr g ↦ rw (e, g) (failed _ db)
                | inl g ↦ elim (Bool-cases (exists (is_named input.name) db.workspaces)) [
                  | inl n ↦ rw (e, g, n) (failed _ db)
                  | inr n ↦
                      elim (Bool-cases (
                        exists (collides (pending env now slug (some node) input)) db.workspaces)) [
                          | inl c ↦ rw (e, g, n, c) (failed _ db)
                          | inr c ↦ rw (e, g, n, c) (inserted slug n c)
                        ]
                ]
              ]
      ]

  pub upsert_cases {ℓ} :
      (P : Result String × Catalog → Type ℓ) (requested : Option String)
      → ((e : Error) → P (err e, db))
      → ((cutoff : ℕ) (node slug : String)
          → let w = pending env now slug (some node) input in
            cutoff_before now env.node_stale_secs ≡ ok cutoff
            → (place cutoff input requested db).0 ≡ ok node
            → exists (is_named input.name) db.workspaces ≡ false
            → exists (collides w) db.workspaces ≡ false
            → P (ok node, added w db))
      → P (workspace_upsert_pending_on_ready_node env now input requested db)
  unfolding workspace_upsert_pending_on_ready_node
  upsert_cases P requested failed placed =
      elim (Result-cases (cutoff_before now env.node_stale_secs)) [
        | inr (x, e) ↦ rw e (failed x)
        | inl (cutoff, e) ↦ elim (Result-cases (place cutoff input requested db).0) [
          | inr (x, p) ↦ rw (e, p) (failed x)
          | inl (node, p) ↦
              rw (e, p, place_reads cutoff input requested db)
                (insert_cases (λ r. P (transaction (λ _. continue r.0 (λ _. pure node) r.1) db))
                  node (λ x db'. failed x) (λ slug n c. placed cutoff node slug e p n c))
        ]
      ]
