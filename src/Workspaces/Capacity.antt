-- ===== src/Workspaces/Capacity.antt =====
-- What a placement guarantees of the node it answers.
use agentmom.Prelude.{
  ℕ, ◌+◌, ◌-◌, ◌≤◌, String, ◌≡◌, refl, ◌⊎◌, inl, inr, true, false, ◌&&◌, ◌||◌, Option, none, some,
  List, [], ◌∷◌, ◌++◌, arith, eq_iff, ltb, leb, eqb, Bool-cases, Option-cases, count, sum_where,
  exists, best, Has, count-append, sum_where-append, some_existing, best_sound,
}
use agentmom.Settings.{Settings}
use agentmom.Catalog.{Catalog, Node, Workspace}
use agentmom.Catalog.Exec.{Result, ok, err}
use agentmom.Jobs.{holds_capacity, cutoff_before}
use agentmom.Nodes.{is_node, is_ready, choose_node, seen_later}
use agentmom.Workspaces.{
  WorkspaceUpsert, pending, is_named, has_room, place, workspace_upsert_pending_on_ready_node,
}
use agentmom.Workspaces.Placing.{added, upsert_cases}

-- A limit of 0 is no limit.
abbrev pub Keeps : ℕ → ℕ → Type 0
Keeps limit used = (limit ≡ 0) ⊎ (used ≤ limit)

-- The workspaces that are to run on a node keep its limits.
pub record IsWithin (n : Node) (ws : List Workspace) : Type 0 where
  pub active : Keeps n.max_active_workspaces (count (holds_capacity n.node_id) ws)
  pub cpus : Keeps n.cpus (sum_where (holds_capacity n.node_id) (λ w. w.cpus) ws)
  pub memory : Keeps n.memory_mib (sum_where (holds_capacity n.node_id) (λ w. w.memory_mib) ws)

Keeps-sum :
    (limit used more : ℕ)
    → (eqb limit 0 || leb (used + more) limit) ≡ true
    → Keeps limit (used + more)
Keeps-sum limit used more h = elim (Bool-cases (eqb limit 0)) [
  | inl e ↦ inl (ground arith)
  | inr e ↦ inr (ground arith)
]

Keeps-slot : (limit used : ℕ) → (eqb limit 0 || ltb used limit) ≡ true → Keeps limit (used + 1)
Keeps-slot limit used h = elim (Bool-cases (eqb limit 0)) [
  | inl e ↦ inl (ground arith)
  | inr e ↦ inr (ground arith)
]

-- The node of an answer, with the room it had.
abbrev Chosen : ℕ → WorkspaceUpsert → Catalog → String → Type 0
Chosen cutoff input db node =
    (n : Node) × Has n db.nodes × (has_room db cutoff input n ≡ true) × (n.node_id ≡ node)

place-Chosen :
    (cutoff : ℕ) (input : WorkspaceUpsert) (requested : Option String) (db : Catalog)
    (node : String)
    → (place cutoff input requested db).0 ≡ ok node
    → Chosen cutoff input db node
unfolding place choose_node
place-Chosen cutoff input (some r) db node h =
    elim (Bool-cases (exists (λ n. has_room db cutoff input n && is_node r n) db.nodes)) [
      | inr e ↦ absurd (cc (e, h))
      | inl e ↦
          let (n, there, room) = some_existing _ db.nodes e in
          (n, there, ground arith, ground (arith, eq_iff n.node_id r))
    ]
place-Chosen cutoff input none db node h =
    elim (Option-cases (best (has_room db cutoff input) seen_later db.nodes)) [
      | inl e ↦ absurd (ground arith)
      | inr (n, e) ↦
          let (there, room) = best_sound _ _ db.nodes n e in (n, there, room, ground arith)
    ]

-- What a placement answers, and the catalog that it leaves.
pub record Placed (env : Settings) (now : ℕ) (input : WorkspaceUpsert) (node : String)
    (db db' : Catalog) : Type 0 where
  pub host : Node
  pub workspace : Workspace
  pub registered : Has host db.nodes
  pub named : host.node_id ≡ node
  pub ready : is_ready (now - env.node_stale_secs) host ≡ true
  pub new : exists (is_named input.name) db.workspaces ≡ false
  pub name : workspace.name ≡ input.name
  pub assigned : workspace.node_id ≡ some node
  pub only_change : db' ≡ added workspace db
  pub within : IsWithin host db'.workspaces

abbrev pub Placement : Settings → ℕ → WorkspaceUpsert → Catalog → Result String × Catalog → Type 0
Placement env now input db (err e, db') = db' ≡ db
Placement env now input db (ok node, db') = Placed env now input node db db'

pub cutoff_value :
    (now timeout cutoff : ℕ) → cutoff_before now timeout ≡ ok cutoff → now - timeout ≡ cutoff
unfolding cutoff_before
cutoff_value now timeout cutoff h = ground arith

added-IsWithin :
    (cutoff : ℕ) (input : WorkspaceUpsert) (n : Node) (w : Workspace) (db : Catalog)
    → has_room db cutoff input n ≡ true
    → holds_capacity n.node_id w ≡ true
    → w.cpus ≡ input.cpus
    → w.memory_mib ≡ input.memory_mib
    → IsWithin n (db.workspaces ++ w ∷ [])
unfolding count sum_where
added-IsWithin cutoff input n w db room h c m =
    let holds = holds_capacity n.node_id in
    let number : count holds (db.workspaces ++ w ∷ []) ≡ count holds db.workspaces + 1 =
      ground (arith, h, count-append holds db.workspaces (w ∷ [])) in
    let cores : sum_where holds (λ w. w.cpus) (db.workspaces ++ w ∷ [])
        ≡ sum_where holds (λ w. w.cpus) db.workspaces + input.cpus =
      ground (arith, h, sum_where-append holds (λ w. w.cpus) db.workspaces (w ∷ [])) in
    let memory : sum_where holds (λ w. w.memory_mib) (db.workspaces ++ w ∷ [])
        ≡ sum_where holds (λ w. w.memory_mib) db.workspaces + input.memory_mib =
      ground (arith, h, sum_where-append holds (λ w. w.memory_mib) db.workspaces (w ∷ [])) in
    record {
      active = rw number (Keeps-slot n.max_active_workspaces _ (ground arith));
      cpus = rw cores (Keeps-sum n.cpus _ input.cpus (ground arith));
      memory = rw memory (Keeps-sum n.memory_mib _ input.memory_mib (ground arith));
    }

-- A placement that fails leaves the catalog as it was. One that succeeds answers a registered
-- node that is ready, the name was free, and the only change is one new row, of that name and on
-- that node, with which the workspaces that are to run on the node keep its limits on their
-- number, their CPUs and their memory, where a limit of 0 is no limit.
pub workspace_upsert-Placement :
    (env : Settings) (now : ℕ) (input : WorkspaceUpsert) (requested : Option String) (db : Catalog)
    → Placement env now input db (workspace_upsert_pending_on_ready_node env now input requested db)
workspace_upsert-Placement env now input requested db =
    upsert_cases env now input db (Placement env now input db) requested (λ e. refl)
      (λ cutoff node slug q p free c.
        let (n, there, room, same) = place-Chosen cutoff input requested db node p in
        record {
          host = n;
          workspace = pending env now slug (some node) input;
          registered = there;
          named = same;
          ready = ground (arith, cutoff_value now env.node_stale_secs cutoff q);
          new = free;
          name = refl;
          assigned = refl;
          only_change = refl;
          within =
              added-IsWithin cutoff input n _ db room (ground (arith, eq_iff node n.node_id)) refl
                refl;
        })
