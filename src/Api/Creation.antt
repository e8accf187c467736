-- ===== src/Api/Creation.antt =====
-- The node and the payload of a job that `api_create_job` creates.
use agentmom.Prelude.{
  ℕ, String, ◌≡◌, refl, sym, ap, ◌∙◌, ◌⊎◌, inl, inr, Bool, true, ◌&&◌, ◌||◌, Option, none, some,
  List, [], ◌∷◌, arith, ◌==◌, eq_iff, leb, Bool-cases, Option-cases, is_some, find, exists, Has,
  find_sound,
}
use agentmom.Json.{Json, get, as_str}
use agentmom.Settings.{Settings}
use agentmom.Catalog.{Catalog, Workspace, Node, Backup}
use agentmom.Catalog.Exec.{Error, Result, Result-cases, continue, ok, err, pure}
use agentmom.Jobs.{cutoff_before, takes_jobs}
use agentmom.Nodes.{require_claimable_node, select_ready_node, is_node, is_open}
use agentmom.Events.{backup_record_get}
use agentmom.Api.Public.{canonical_json, or_default, canonical_restore_payload, job_node}

-- Registered, ready or cordoned, with a worker and not stale.
abbrev pub is_accepting : ℕ → String → Node → Bool
is_accepting cutoff node n =
    is_node node n && takes_jobs n && is_some n.worker_url && leb cutoff n.last_seen_at

-- The node of the workspace, or for a workspace without one the node that is asked for.
abbrev pub Chosen : Option String → Option String → String → Type 0
Chosen assigned requested node =
    (assigned ≡ some node) ⊎ ((assigned ≡ none) × (requested ≡ some node))

pub record Target (env : Settings) (now : ℕ) (w : Workspace) (requested : Option String)
    (db : Catalog) (node : String) : Type 0 where
  pub cutoff : ℕ
  pub recent : cutoff_before now env.node_stale_secs ≡ ok cutoff
  pub chosen : Chosen w.node_id requested node
  pub accepting : exists (is_accepting cutoff node) db.nodes ≡ true

-- The payload of a restore, which is that of a backup of the workspace; others are kept.
abbrev pub RestoreOf : Workspace → Catalog → Json → Json → Type 0
RestoreOf w db given payload =
    (b : Backup) × (desired : String) × (as_str (get given "backup_id") ≡ some b.id)
    × Has b db.backups
    × (b.kind ≡ "restic")
    × (b.status ≡ "succeeded")
    × (b.workspace_name ≡ w.name)
    × ((desired == "running" || desired == "stopped") ≡ true)
    × (payload ≡ canonical_json b desired)

open_accepting :
    (db : Catalog) (cutoff : ℕ) (node : String) (ns : List Node)
    → exists (λ n. is_open db cutoff n && is_node node n) ns ≡ true
    → exists (is_accepting cutoff node) ns ≡ true
unfolding exists
open_accepting db cutoff node [] h = h
open_accepting db cutoff node (n ∷ ns) h = ground (arith, open_accepting db cutoff node ns)

module _ (env : Settings) (now : ℕ) (w : Workspace) (db : Catalog) where
  claimable_cases {ℓ} :
      (P : Result (Unit {0}) × Catalog → Type ℓ) (node : String)
      → ((e : Error) → P (err e, db))
      → ((cutoff : ℕ)
          → cutoff_before now env.node_stale_secs ≡ ok cutoff
          → exists (is_accepting cutoff node) db.nodes ≡ true
          → P (ok tt, db))
      → P (require_claimable_node env now node db)
  unfolding require_claimable_node
  claimable_cases P node refused accepted =
      elim (Result-cases (cutoff_before now env.node_stale_secs)) [
        | inr (x, q) ↦ rw q (refused x)
        | inl (cutoff, q) ↦ elim (Bool-cases (exists (is_accepting cutoff node) db.nodes)) [
          | inr n ↦ rw (q, n) (refused _)
          | inl n ↦ rw (q, n) (accepted cutoff q n)
        ]
      ]

  pub job_node_cases {ℓ} :
      (P : Result (Option String) × Catalog → Type ℓ) (requested : Option String)
      → ((e : Error) → P (err e, db))
      → ((node : String) → Target env now w requested db node → P (ok (some node), db))
      → P (job_node env now w requested db)
  unfolding job_node select_ready_node
  job_node_cases P none refused placed = elim (Option-cases w.node_id) [
    | inl n ↦ rw n (refused _)
    | inr (assigned, n) ↦ rw n (
        claimable_cases (λ r. P (continue r.0 (λ _. pure (some assigned)) r.1)) assigned refused
          (λ cutoff q x.
            placed assigned
              (record { cutoff = cutoff; recent = q; chosen = inl n; accepting = x })))
  ]
  job_node_cases P (some node) refused placed = elim (Option-cases w.node_id) [
    | inr (assigned, n) ↦ elim (Bool-cases (node == assigned)) [
      | inr m ↦ rw (n, m) (refused _)
      | inl m ↦
          let same : node ≡ assigned = (eq_iff node assigned).0 m in
          let own : w.node_id ≡ some node = n ∙ ap some (sym same) in
          rw (n, m)
            (claimable_cases (λ r. P (continue r.0 (λ _. pure (some node)) r.1)) node refused
              (λ cutoff q x.
                placed node
                  (record { cutoff = cutoff; recent = q; chosen = inl own; accepting = x })))
    ]
    | inl n ↦ elim (Result-cases (cutoff_before now env.node_stale_secs)) [
      | inr (x, q) ↦ rw (n, q) (refused x)
      | inl (cutoff, q) ↦
          elim (Bool-cases (exists (λ m. is_open db cutoff m && is_node node m) db.nodes)) [
            | inr f ↦ rw (n, q, f) (refused _)
            | inl f ↦
                rw (n, q, f)
                  (placed node (record {
                    cutoff = cutoff;
                    recent = q;
                    chosen = inr (n, refl);
                    accepting = open_accepting db cutoff node db.nodes f;
                  }))
          ]
    ]
  ]

  pub restore_cases {ℓ} :
      (P : Result Json × Catalog → Type ℓ) (given : Json)
      → ((e : Error) → P (err e, db))
      → ((payload : Json) → RestoreOf w db given payload → P (ok payload, db))
      → P (canonical_restore_payload w given db)
  unfolding canonical_restore_payload backup_record_get
  restore_cases P given refused found = elim (Option-cases (as_str (get given "backup_id"))) [
    | inl i ↦ rw i (refused _)
    | inr (id, i) ↦ elim (Option-cases (find (λ (b : Backup). b.id == id) db.backups)) [
      | inl f ↦ rw (i, f) (refused _)
      | inr (b, f) ↦
          let (there, same) = find_sound (λ (c : Backup). c.id == id) db.backups b f in
          let own : b.id ≡ id = (eq_iff b.id id).0 same in
          elim (Bool-cases (b.kind == "restic")) [
            | inr k ↦ rw (i, f, k) (refused _)
            | inl k ↦ elim (Bool-cases (b.status == "succeeded")) [
              | inr s ↦ rw (i, f, k, s) (refused _)
              | inl s ↦ elim (Bool-cases (b.workspace_name == w.name)) [
                | inr n ↦ rw (i, f, k, s, n) (refused _)
                | inl n ↦
                    let desired = or_default (as_str (get given "desired_state")) w.desired_state in
                    elim (Bool-cases (desired == "running" || desired == "stopped")) [
                      | inr d ↦ rw (i, f, k, s, n, d) (refused _)
                      | inl d ↦
                          rw (i, f, k, s, n, d)
                            (found (canonical_json b desired) (
                              b,
                              desired,
                              i ∙ ap some (sym own),
                              there,
                              (eq_iff b.kind "restic").0 k,
                              (eq_iff b.status "succeeded").0 s,
                              (eq_iff b.workspace_name w.name).0 n,
                              d,
                              refl,
                            ))
                    ]
              ]
            ]
          ]
    ]
  ]
