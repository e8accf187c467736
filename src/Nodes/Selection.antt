-- ===== src/Nodes/Selection.antt =====
-- Which node a selection answers.
use agentmom.Prelude.{
  ℕ, ◌-◌, ◌≤◌, String, ◌≡◌, refl, inl, inr, Bool, true, false, ◌&&◌, Option, none, some, arith,
  eq_iff, ltb, Bool-cases, Option-cases, i64_max, exists, best, Has, some_existing, best-greatest,
  best_sound, best-none,
}
use agentmom.Settings.{Settings}
use agentmom.Catalog.{Catalog, Node}
use agentmom.Catalog.Exec.{Result, ok, err}
use agentmom.Jobs.{cutoff_before}
use agentmom.Nodes.{is_node, is_open, seen_later, choose_node, select_ready_node}

-- The nodes that a request may be answered with.
abbrev pub is_candidate : Catalog → ℕ → Option String → Node → Bool
is_candidate db cutoff none n = is_open db cutoff n
is_candidate db cutoff (some node) n = is_open db cutoff n && is_node node n

abbrev pub SeenLast : Option String → Catalog → ℕ → Node → Type 0
SeenLast (some node) db cutoff n = n.node_id ≡ node
SeenLast none db cutoff n =
    (m : Node) → Has m db.nodes → is_open db cutoff m ≡ true → m.last_seen_at ≤ n.last_seen_at

abbrev pub Selection : ℕ → Option String → Catalog → Result String × Catalog → Type 0
Selection cutoff requested db (err e, db') =
    (db' ≡ db) × (exists (is_candidate db cutoff requested) db.nodes ≡ false)
Selection cutoff requested db (ok node, db') =
    (n : Node) × (db' ≡ db)
    × Has n db.nodes
    × (n.node_id ≡ node)
    × (is_open db cutoff n ≡ true)
    × SeenLast requested db cutoff n

-- Where the seconds after which a node counts as stale fit into an i64: a selection changes nothing.
-- It answers a registered node that is ready and has a free slot:
-- the requested one, or without a request one that no such node was seen later than. It fails
-- only where there is no such node.
pub select_ready_node-Selection :
    (env : Settings) (now : ℕ) (requested : Option String) (db : Catalog)
    → env.node_stale_secs ≤ i64_max
    → Selection (now - env.node_stale_secs) requested db (select_ready_node env now requested db)
unfolding select_ready_node cutoff_before choose_node best
select_ready_node-Selection env now (some node) db fits =
    elim (Bool-cases
      (exists (λ n. is_open db (now - env.node_stale_secs) n && is_node node n) db.nodes)) [
        | inr e ↦ rw (small, e) (refl, e)
        | inl e ↦
            let (n, there, free) = some_existing _ db.nodes e in
            let same : n.node_id ≡ node = ground (arith, eq_iff n.node_id node) in
            rw (small, e) (n, refl, there, same, ground arith, same)
      ]
  where
    small : ltb i64_max env.node_stale_secs ≡ false
    small = ground arith
select_ready_node-Selection env now none db fits =
    elim (Option-cases (best (is_open db (now - env.node_stale_secs)) seen_later db.nodes)) [
      | inl e ↦ rw (small, e) (refl, best-none _ _ db.nodes e)
      | inr (n, e) ↦
          let (there, free) = best_sound _ _ db.nodes n e in
          rw (small, e)
            (
              n,
              refl,
              there,
              refl,
              free,
              λ m has open_m. best-greatest _ (λ x. x.last_seen_at) db.nodes n m e has open_m,
            )
    ]
  where
    small : ltb i64_max env.node_stale_secs ≡ false
    small = ground arith
