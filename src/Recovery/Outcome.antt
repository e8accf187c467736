-- ===== src/Recovery/Outcome.antt =====
-- How a recovery ends: not at all, or with every workspace of the plan on the target.
use agentmom.Prelude.{
  exists-Has, ℕ, ◌-◌, String, ◌≡◌, refl, ap, inl, inr, true, false, ◌&&◌, List, [], ◌∷◌, arith,
  ◌==◌, eq_iff, if◌then◌else◌, Bool-cases, Option-cases, is_some_of, update, find, All, Has,
  find_sound,
}
use agentmom.Settings.{Settings}
use agentmom.Catalog.{Catalog, Workspace, Node, Backup}
use agentmom.Catalog.Exec.{Result, ok, err, Result-cases}
use agentmom.Jobs.{cutoff_before}
use agentmom.Nodes.{is_node, is_ready}
use agentmom.Workspaces.{is_named}
use agentmom.Workspaces.Capacity.{cutoff_value}
use agentmom.Recovery.{
  look_up, is_current, add_load, Load, no_load, Move, gather, check_target, reassign_all, recover,
  recover_host_with_backups,
}
use agentmom.Recovery.Rounds.{
  Settled, Lost, IsThere, reassign_all-Rounds, still_there, is_some_of-some, not_status,
}

module _ (env : Settings) (now : ℕ) (from to : String) where
  -- What a recovery leaves behind that succeeded.
  pub record Recovered (items : List (Workspace × Backup)) (db db' : Catalog) : Type 0 where
    pub distinct : (from == to) ≡ false
    pub target : Node
    pub registered : Has target db.nodes
    pub named : target.node_id ≡ to
    pub ready : is_ready (now - env.node_stale_secs) target ≡ true
    pub lost : All (λ i. Lost from i.0.name db) items
    pub settled : All (λ i. Settled to i.0.name db') items
    pub source_offline :
        db'.nodes
        ≡ update (is_node from) (λ n. record n { status = "offline"; last_seen_at = now }) db.nodes

  abbrev pub Recovery : List (Workspace × Backup) → Catalog → Result (Unit {0}) × Catalog → Type 0
  Recovery items db (err e, db') = db' ≡ db
  Recovery items db (ok u, db') = Recovered items db db'

  -- The plan holds the workspaces that it was gathered from.
  abbrev Plans : (String → Type 0) → List (Workspace × Backup) → Result (Load × List Move) → Type 0
  Plans P items (err e) = Unit
  Plans P items (ok (load, ms)) = All (λ m. P m.workspace.name) ms → All (λ i. P i.0.name) items

  -- What a plan was gathered from was lost.
  abbrev Gathered : Catalog → List (Workspace × Backup) → Result (Load × List Move) → Type 0
  Gathered db items (err e) = Unit
  Gathered db items (ok (load, ms)) =
      All (λ i. Lost from i.0.name db) items × All (λ m. Lost from m.workspace.name db) ms

  look_up-Lost :
      (w : Workspace) (db : Catalog) (desired : String)
      → look_up from w db ≡ ok desired
      → Lost from w.name db
  unfolding look_up
  look_up-Lost w db desired h = elim (Option-cases (find (is_current w.name) db.workspaces)) [
    | inl n ↦ absurd (cc (rw (look_up, n) at h))
    | inr (row, f) ↦ elim (Bool-cases (is_some_of row.node_id from)) [
      | inr k ↦ absurd (cc (rw (look_up, f, k) at h))
      | inl k ↦
          let (there, fit) = find_sound _ db.workspaces row f in
          (
            row,
            there,
            ground (arith, eq_iff row.name w.name),
            is_some_of-some row.node_id from k,
            not_status row.status "removed" (ground arith),
          )
    ]
  ]

  gather-Gathered :
      (items : List (Workspace × Backup)) (load : Load) (db : Catalog)
      → Gathered db items (gather from items load db)
  unfolding gather
  gather-Gathered [] load db = (tt, tt)
  gather-Gathered ((w, b) ∷ items) load db = elim (Result-cases (look_up from w db)) [
    | inr (x, e) ↦ rw e tt
    | inl (desired, e) ↦
        elim (Result-cases (if desired == "running" then add_load load w else ok load)) [
          | inr (x, f) ↦ rw (e, f) tt
          | inl (load', f) ↦
              let rest = gather-Gathered items load' db in
              elim (Result-cases (gather from items load' db)) [
                | inr (x, g) ↦ rw (e, f, g) tt
                | inl ((load'', ms), g) ↦
                    let q = rw g at rest in
                    let here = look_up-Lost w db desired e in
                    rw (e, f, g) ((here, q.0), (here, q.1))
              ]
        ]
  ]

  Lost-IsThere : (db : Catalog) (name : String) → Lost from name db → IsThere name db
  Lost-IsThere db name (w, has, same, on, kept) =
      exists-Has (is_named name) db.workspaces w has ((eq_iff w.name name).1 same)

  gather-Plans :
      (P : String → Type 0) (items : List (Workspace × Backup)) (load : Load) (db : Catalog)
      → Plans P items (gather from items load db)
  unfolding gather
  gather-Plans P [] load db = λ a. tt
  gather-Plans P ((w, b) ∷ items) load db = elim (Result-cases (look_up from w db)) [
    | inr (x, e) ↦ rw e tt
    | inl (desired, e) ↦
        elim (Result-cases (if desired == "running" then add_load load w else ok load)) [
          | inr (x, f) ↦ rw (e, f) tt
          | inl (load', f) ↦
              let rest = gather-Plans P items load' db in
              elim (Result-cases (gather from items load' db)) [
                | inr (x, g) ↦ rw (e, f, g) tt
                | inl ((load'', ms), g) ↦ let q = rw g at rest in rw (e, f, g) (λ a. (a.0, q a.1))
              ]
        ]
  ]

  recover-Recovered :
      (ids : ℕ → String) (cutoff : ℕ) (items : List (Workspace × Backup)) (db : Catalog)
      → (from == to) ≡ false
      → cutoff_before now env.node_stale_secs ≡ ok cutoff
      → (recover env now ids from to cutoff items db).0 ≡ ok tt
      → Recovered items db (recover env now ids from to cutoff items db).1
  unfolding recover
  recover-Recovered ids cutoff items db d c h = elim (Result-cases (gather from items no_load db)) [
    | inr (x, e) ↦ absurd (cc (rw e at h))
    | inl ((load, ms), e) ↦
        elim (Option-cases (find (λ n. is_node to n && is_ready cutoff n) db.nodes)) [
          | inl n ↦ absurd (cc (rw (e, n) at h))
          | inr (n, f) ↦ elim (Result-cases (check_target to load n db)) [
            | inr (x, k) ↦ absurd (cc (rw (e, f, k) at h))
            | inl (u, k) ↦ elim (Result-cases (reassign_all env now ids from to ms db).0) [
              | inr (x, r) ↦ absurd (cc (rw (e, f, k, r) at h))
              | inl (v, r) ↦
                  let (there, fit) = find_sound _ db.nodes n f in
                  let gathered = rw e at (gather-Gathered items no_load db) in
                  let rounds =
                    reassign_all-Rounds env now from to ids ms db
                      (still_there (Lost-IsThere db) ms gathered.1) r in
                  let plans = rw e at (
                    gather-Plans
                      (λ name. Settled to name (reassign_all env now ids from to ms db).1) items
                      no_load db) in
                  rw (e, f, k, r)
                    (record {
                      distinct = d;
                      target = n;
                      registered = there;
                      named = ground (arith, eq_iff n.node_id to);
                      ready = ground (arith, cutoff_value now env.node_stale_secs cutoff c);
                      lost = gathered.0;
                      settled = plans rounds.settled;
                      source_offline = ap (update (is_node from) _) rounds.nodes;
                    })
            ]
          ]
        ]
  ]

  -- A recovery that fails leaves the catalog as it was. One that succeeds is between two hosts,
  -- its target is a registered node that is ready, and every workspace of the plan had a row that
  -- was on the source and not removed. Afterwards each of them is in the catalog, each row of its
  -- name is on the target and waits for a restore, and it has one open job, which is a queued
  -- restore on the target. Of the node table only the source is changed, which is offline.
  pub recover_host-Recovery :
      (ids : ℕ → String) (items : List (Workspace × Backup)) (db : Catalog)
      → Recovery items db (recover_host_with_backups env now ids from to items db)
  unfolding recover_host_with_backups
  recover_host-Recovery ids items db = elim (Bool-cases (from == to)) [
    | inl e ↦ rw e refl
    | inr e ↦ elim (Result-cases (cutoff_before now env.node_stale_secs)) [
      | inr (x, c) ↦ rw (e, c) refl
      | inl (cutoff, c) ↦ elim (Result-cases (recover env now ids from to cutoff items db).0) [
        | inr (x, r) ↦ rw (e, c, r) refl
        | inl (u, r) ↦ rw (e, c, r) (recover-Recovered ids cutoff items db e c r)
      ]
    ]
  ]
