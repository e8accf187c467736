-- ===== src/Nodes.antt =====
-- The node registry of src/db.rs: registration, scheduling states and the checks on a node.
pub mod Selection
use agentmom.Prelude.{
  ℕ, String, Bool, false, not, ◌&&◌, ◌||◌, Option, none, some, List, [], ◌∷◌, ◌++◌, ◌==◌, ltb, leb,
  eqb, is_some, i64_max, count, find, exists, best, if◌then◌else◌, update,
}
use agentmom.Settings.{Settings}
use agentmom.Catalog.{Catalog, Node}
use agentmom.Catalog.Exec.{
  too_large, node_missing, node_not_ready, node_not_claimable, node_not_recovery_ready,
  no_ready_nodes, invalid_node_status, ok, Exec, pure, lift, query, ok_or, guard, update_nodes,
  ◌>>=◌, ◌>>◌,
}
use agentmom.Jobs.{cutoff_before, holds_capacity, takes_jobs}
use agentmom.WorkerUrl.{validate_given}

pub record NodeCapacity : Type 0 where
  pub cpus : ℕ
  pub memory_mib : ℕ
  pub max_active_workspaces : ℕ
  pub disk_reserve_mib : ℕ

-- Statuses that only an administrator sets, or a recovery.
abbrev pub is_held_status : String → Bool
is_held_status s =
    s == "offline"
    || s == "disabled"
    || s == "quarantined"
    || s == "cordoned"
    || s == "draining"
    || s == "maintenance"
    || s == "retired"

abbrev pub coalesce {ℓ} : {A : Type ℓ} → Option A → Option A → Option A
coalesce none b = b
coalesce (some a) b = some a

-- ON CONFLICT(node_id) DO UPDATE SET …
abbrev pub reregistered : NodeCapacity → Option String → ℕ → Node → Node
reregistered capacity url now n = record n {
  worker_url = coalesce url n.worker_url;
  cpus = capacity.cpus;
  memory_mib = capacity.memory_mib;
  max_active_workspaces = capacity.max_active_workspaces;
  disk_reserve_mib = capacity.disk_reserve_mib;
  last_seen_at = now;
  status = if is_held_status n.status then n.status else "ready";
}

abbrev pub registered : String → NodeCapacity → Option String → ℕ → Node
registered node capacity url now = record {
  node_id = node;
  worker_url = url;
  cpus = capacity.cpus;
  memory_mib = capacity.memory_mib;
  max_active_workspaces = capacity.max_active_workspaces;
  disk_reserve_mib = capacity.disk_reserve_mib;
  last_seen_at = now;
  status = "ready";
}

abbrev pub is_node : String → Node → Bool
is_node node n = n.node_id == node

unfoldable pub upsert_node : String → NodeCapacity → Option String → ℕ → Exec Unit
upsert_node node capacity url now db =
    if exists (is_node node) db.nodes
    then (
      ok tt,
      record db { nodes = update (is_node node) (reregistered capacity url now) db.nodes },
    )
    else (ok tt, record db { nodes = db.nodes ++ registered node capacity url now ∷ [] })

unfoldable pub register_node : Settings → ℕ → String → NodeCapacity → Option String → Exec Unit
register_node env now node capacity url = do
  lift (validate_given env url)
  guard (leb capacity.memory_mib i64_max && leb capacity.disk_reserve_mib i64_max) too_large
  upsert_node node capacity url now

-- `ready`, `cordoned`, `draining`, `maintenance` and `retired` may be set by hand.
abbrev pub is_settable : String → Bool
is_settable s =
    s == "ready" || s == "cordoned" || s == "draining" || s == "maintenance" || s == "retired"

-- A node that is made ready is stale until its worker reports.
abbrev pub rescheduled : String → Node → Node
rescheduled status n =
    if status == "ready"
    then record n { status = status; last_seen_at = 0 }
    else record n { status = status }

unfoldable pub node_set_status : String → String → Exec Unit
node_set_status node status = do
  guard (is_settable status) invalid_node_status
  changed ← update_nodes (is_node node) (rescheduled status)
  guard (not (eqb changed 0)) (node_missing node)

unfoldable pub node_touch : ℕ → String → Exec Unit
node_touch now node = do
  changed ← update_nodes (is_node node) (λ n. record n { last_seen_at = now })
  guard (not (eqb changed 0)) (node_missing node)

unfoldable pub node_mark_offline : ℕ → String → Exec Unit
node_mark_offline now node = do
  update_nodes (is_node node) (λ n. record n { status = "offline"; last_seen_at = now })
  pure tt

unfoldable pub node_get : String → Exec Node
node_get node db = (ok_or (find (is_node node) db.nodes) (node_missing node), db)

abbrev node_status : Option Node → Option String
node_status none = none
node_status (some n) = some n.status

abbrev one_of : String → List String → Bool
one_of s [] = false
one_of s (t ∷ ts) = t == s || one_of s ts

-- status.is_some_and(|status| allowed.contains(status))
unfoldable pub node_has_status : String → List String → Catalog → Bool
node_has_status node allowed db = elim (node_status (find (is_node node) db.nodes)) [
  | none ↦ false
  | some s ↦ one_of s allowed
]

unfoldable pub node_allows_worker_reports : String → Catalog → Bool
unfolding node_has_status
node_allows_worker_reports node = node_has_status node ("ready" ∷ "cordoned" ∷ "draining" ∷ [])

unfoldable pub node_allows_worker_claims : String → Catalog → Bool
unfolding node_has_status
node_allows_worker_claims node = node_has_status node ("ready" ∷ "cordoned" ∷ [])

-- status = 'ready' AND worker_url IS NOT NULL AND last_seen_at >= cutoff
abbrev pub is_ready : ℕ → Node → Bool
is_ready cutoff n = n.status == "ready" && is_some n.worker_url && leb cutoff n.last_seen_at

unfoldable pub require_claimable_node : Settings → ℕ → String → Exec Unit
require_claimable_node env now node = do
  cutoff ← lift (cutoff_before now env.node_stale_secs)
  found ← query (λ db.
      exists
        (λ n. is_node node n && takes_jobs n && is_some n.worker_url && leb cutoff n.last_seen_at)
        db.nodes)
  guard found (node_not_claimable node)

unfoldable pub require_ready_worker_node : Settings → ℕ → String → Exec Unit
require_ready_worker_node env now node = do
  cutoff ← lift (cutoff_before now env.node_stale_secs)
  found ← query (λ db. exists (λ n. is_node node n && is_ready cutoff n) db.nodes)
  guard found (node_not_recovery_ready node)

-- NODE_HAS_CAPACITY_SQL
abbrev pub has_slot : Catalog → Node → Bool
has_slot db n =
    eqb n.max_active_workspaces 0
    || ltb (count (holds_capacity n.node_id) db.workspaces) n.max_active_workspaces

-- ready_node_query
abbrev pub is_open : Catalog → ℕ → Node → Bool
is_open db cutoff n = is_ready cutoff n && has_slot db n

-- ORDER BY last_seen_at DESC LIMIT 1
abbrev pub seen_later : Node → Node → Bool
seen_later a b = ltb b.last_seen_at a.last_seen_at

unfoldable pub choose_node : (Node → Bool) → Catalog → Option String
choose_node p db = elim (best p seen_later db.nodes) [ none ↦ none | some n ↦ some n.node_id ]

unfoldable pub select_ready_node : Settings → ℕ → Option String → Exec String
select_ready_node env now (some node) = do
  cutoff ← lift (cutoff_before now env.node_stale_secs)
  found ← query (λ db. exists (λ n. is_open db cutoff n && is_node node n) db.nodes)
  guard found (node_not_ready node)
  pure node
select_ready_node env now none = do
  cutoff ← lift (cutoff_before now env.node_stale_secs)
  chosen ← query (λ db. choose_node (is_open db cutoff) db)
  lift (ok_or chosen no_ready_nodes)
