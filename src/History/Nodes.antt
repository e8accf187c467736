-- ===== src/History/Nodes.antt =====
-- What holds of the nodes after any history of the catalog.
use mathlib.Core.Bool.{false≢true}
use agentmom.Prelude.{
  subst, ℕ, String, ◌≡◌, refl, sym, ap, ◌∙◌, inl, inr, Bool, true, false, not, ◌&&◌, ◌||◌, Option,
  List, [], ◌∷◌, ◌++◌, arith, ◌==◌, eq_iff, leb, eqb, Bool-cases, apart, i64_max, count, update,
  exists, All, count-append, count-update_mono,
}
use agentmom.Settings.{Settings}
use agentmom.Catalog.{Catalog, Node, Workspace, Backup}
use agentmom.Catalog.Exec.{Result, ok, err, Result-cases}
use agentmom.Jobs.Finish.{running_cases, complete_cases}
use agentmom.Nodes.{
  is_settable, NodeCapacity, is_node, is_held_status, reregistered, registered, rescheduled,
  upsert_node, register_node, node_set_status, node_touch, node_mark_offline,
}
use agentmom.WorkerUrl.{validate_given}
use agentmom.Workspaces.{workspace_set_desired, workspace_mark_status}
use agentmom.Recovery.Outcome.{Recovery, recover_host-Recovery}
use agentmom.History.{
  Operation, step, run, schedules, creates_job, registers, touches, goes_offline, places, reports,
  sets_desired, marks_status, registers, schedules, touches, goes_offline, places, reports,
  creates_job,
}
use agentmom.History.NodeRules.{nodes-claim, nodes-create, nodes-report, nodes-place}

abbrev is_free : String → Node → Bool
is_free node n = is_node node n && not (is_held_status n.status)

-- The node is registered, with a status that only an administrator or a recovery sets.
pub record Withheld (node : String) (ns : List Node) : Type 0 where
  pub registered : exists (is_node node) ns ≡ true
  pub none_free : count (is_free node) ns ≡ 0

exists-update :
    {A : Type 0} (p q : A → Bool) (f : A → A) (xs : List A)
    → ((x : A) → p (f x) ≡ p x)
    → exists p (update q f xs) ≡ exists p xs
unfolding exists update
exists-update p q f [] h = refl
exists-update p q f (x ∷ xs) h = ground (arith, h x, exists-update p q f xs h)

exists-append :
    {A : Type 0} (p : A → Bool) (xs ys : List A)
    → exists p (xs ++ ys) ≡ (exists p xs || exists p ys)
unfolding exists
exists-append p [] ys = refl
exists-append p (x ∷ xs) ys = ground (arith, exists-append p xs ys)

-- An update that keeps the id and frees no node.
update-Withheld :
    (node : String) (q : Node → Bool) (f : Node → Node) (ns : List Node)
    → ((n : Node) → (f n).node_id ≡ n.node_id)
    → ((n : Node) → q n ≡ true → is_free node (f n) ≡ true → is_free node n ≡ true)
    → Withheld node ns
    → Withheld node (update q f ns)
update-Withheld node q f ns same frees h = record {
  registered =
      exists-update (is_node node) q f ns (λ n. ap (λ (i : String). i == node) (same n))
      ∙ h.registered;
  none_free = omega (arith, h.none_free, count-update_mono (is_free node) q f ns frees);
}

reregistered-free :
    (c : NodeCapacity) (url : Option String) (now : ℕ) (node : String) (n : Node)
    → is_free node (reregistered c url now n) ≡ true
    → is_free node n ≡ true
reregistered-free c url now node n h = elim (Bool-cases (is_held_status n.status)) [
  | inl e ↦ ground (arith, rw e at h)
  | inr e ↦ ground arith
]

module _ (node : String) where
  -- No step makes the node ready by hand, or gives it another status by hand.
  abbrev leaves_alone : Operation → Bool
  leaves_alone (schedules n status) = not (n == node)
  leaves_alone _ = true

  abbrev pub Unscheduled : List (ℕ × Operation) → Type 0
  Unscheduled os = All (λ o. leaves_alone o.1 ≡ true) os

  append-Withheld :
      (n : Node) (ns : List Node)
      → (n.node_id == node) ≡ false
      → Withheld node ns
      → Withheld node (ns ++ n ∷ [])
  unfolding exists count
  append-Withheld n ns e h = record {
    registered = ground (arith, h.registered, exists-append (is_node node) ns (n ∷ []));
    none_free = ground (arith, e, h.none_free, count-append (is_free node) ns (n ∷ []));
  }

  unlike :
      (other : String) (ns : List Node)
      → exists (is_node other) ns ≡ false
      → exists (is_node node) ns ≡ true
      → (other == node) ≡ false
  unlike other ns e h = elim (Bool-cases (other == node)) [
    | inr n ↦ n
    | inl y ↦
        let same : other ≡ node = (eq_iff other node).0 y in
        absurd (false≢true (sym (subst (λ i. exists (is_node i) ns ≡ false) same e) ∙ h))
  ]

  upsert-Withheld :
      (other : String) (c : NodeCapacity) (url : Option String) (now : ℕ) (db : Catalog)
      → Withheld node db.nodes
      → Withheld node (upsert_node other c url now db).1.nodes
  unfolding upsert_node
  upsert-Withheld other c url now db h = elim (Bool-cases (exists (is_node other) db.nodes)) [
    | inl e ↦ rw e (
        update-Withheld node (is_node other) (reregistered c url now) db.nodes (λ n. refl)
          (λ n s f. reregistered-free c url now node n f) h)
    | inr e ↦ rw e (
        append-Withheld (registered other c url now) db.nodes (unlike other db.nodes e h.registered)
          h)
  ]

  register-Withheld :
      (env : Settings) (now : ℕ) (other : String) (c : NodeCapacity) (url : Option String)
      (db : Catalog)
      → Withheld node db.nodes
      → Withheld node (register_node env now other c url db).1.nodes
  unfolding register_node
  register-Withheld env now other c url db h = elim (Result-cases (validate_given env url)) [
    | inr (x, e) ↦ rw e h
    | inl (u, e) ↦ elim (Bool-cases (leb c.memory_mib i64_max && leb c.disk_reserve_mib i64_max)) [
      | inr g ↦ rw (e, g) h
      | inl g ↦ rw (e, g) (upsert-Withheld other c url now db h)
    ]
  ]

  rescheduled_id : (status : String) (n : Node) → (rescheduled status n).node_id ≡ n.node_id
  rescheduled_id status n = elim (Bool-cases (status == "ready")) [
    | inl e ↦ rw e refl
    | inr e ↦ rw e refl
  ]

  rescheduled_apart :
      (other status : String) (n : Node)
      → (other == node) ≡ false
      → is_node other n ≡ true
      → is_node node (rescheduled status n) ≡ false
  rescheduled_apart other status n e s =
      ap (λ (i : String). i == node) (rescheduled_id status n) ∙ apart n.node_id other node e s

  schedule-Withheld :
      (other status : String) (db : Catalog)
      → (other == node) ≡ false
      → Withheld node db.nodes
      → Withheld node (node_set_status other status db).1.nodes
  unfolding node_set_status
  schedule-Withheld other status db n h =
      let after =
        update-Withheld node (is_node other) (rescheduled status) db.nodes (rescheduled_id status)
          (λ x s f.
            absurd (false≢true (sym (rescheduled_apart other status x n s) ∙ ground (arith, f))))
          h in
      elim (Bool-cases (is_settable status)) [
        | inr g ↦ rw g h
        | inl g ↦ elim (Bool-cases (eqb (count (is_node other) db.nodes) 0)) [
          | inl e ↦ rw (g, e) after
          | inr e ↦ rw (g, e) after
        ]
      ]

  touch-Withheld :
      (now : ℕ) (other : String) (db : Catalog)
      → Withheld node db.nodes
      → Withheld node (node_touch now other db).1.nodes
  unfolding node_touch
  touch-Withheld now other db h =
      let after =
        update-Withheld node (is_node other) (λ n. record n { last_seen_at = now }) db.nodes
          (λ n. refl) (λ n s f. f) h in
      elim (Bool-cases (eqb (count (is_node other) db.nodes) 0)) [
        | inl e ↦ rw e after
        | inr e ↦ rw e after
      ]

  offline-Withheld :
      (now : ℕ) (other : String) (ns : List Node)
      → Withheld node ns
      → Withheld node
          (update (is_node other) (λ n. record n { status = "offline"; last_seen_at = now }) ns)
  offline-Withheld now other ns h =
      update-Withheld node (is_node other) _ ns (λ n. refl) (λ n s f. ground arith) h

  recover-Withheld :
      (env : Settings) (now : ℕ) (from to : String) (items : List (Workspace × Backup))
      (db : Catalog) (r : Result (Unit {0}) × Catalog)
      → Recovery env now from to items db r
      → Withheld node db.nodes
      → Withheld node r.1.nodes
  recover-Withheld env now from to items db (err e, db') same h =
      subst (λ d. Withheld node d.nodes) (sym same) h
  recover-Withheld env now from to items db (ok u, db') done h =
      subst (Withheld node) (sym done.source_offline) (offline-Withheld now from db.nodes h)

  step-Withheld :
      (env : Settings) (now : ℕ) (o : Operation) (db : Catalog)
      → leaves_alone o ≡ true
      → Withheld node db.nodes
      → Withheld node (step env (now, o) db).nodes
  unfolding step
  step-Withheld env now (creates_job id request) db l h = rw (nodes-create env id now request db) h
  step-Withheld env now (Operation.claims other c d) db l h =
      rw (nodes-claim env now other c d db) h
  step-Withheld env now (Operation.starts id other) db l h =
      running_cases (λ d. Withheld node d.nodes) now id other db h
  step-Withheld env now (Operation.completes id other status output) db l h =
      complete_cases (λ d. Withheld node d.nodes) env now id other status output db h (λ t. h)
  step-Withheld env now (Operation.recovers ids from to items) db l h =
      recover-Withheld env now from to items db _
        (recover_host-Recovery env now from to ids items db) h
  step-Withheld env now (registers other c url) db l h = register-Withheld env now other c url db h
  step-Withheld env now (schedules other status) db l h =
      schedule-Withheld other status db (ground arith) h
  step-Withheld env now (touches other) db l h = touch-Withheld now other db h
  step-Withheld env now (goes_offline other) db l h =
      unfold node_mark_offline in offline-Withheld now other db.nodes h
  step-Withheld env now (places input requested) db l h =
      rw (nodes-place env now input requested db) h
  step-Withheld env now (reports name other status desired touch mark) db l h =
      rw (nodes-report now name other status desired touch mark db) h
  step-Withheld env now (sets_desired name desired) db l h = unfold workspace_set_desired in h
  step-Withheld env now (marks_status name status) db l h = unfold workspace_mark_status in h

  -- A registered node that has the status offline, disabled, quarantined, cordoned, draining,
  -- maintenance or retired in all its rows still has one of them after any history in which nobody
  -- sets the status of that node by hand, whatever its worker registers and reports.
  pub run-Withheld :
      (env : Settings) (os : List (ℕ × Operation)) (db : Catalog)
      → Unscheduled os
      → Withheld node db.nodes
      → Withheld node (run env os db).nodes
  unfolding run
  run-Withheld env [] db l h = h
  run-Withheld env ((now, o) ∷ os) db l h =
      run-Withheld env os (step env (now, o) db) l.1 (step-Withheld env now o db l.0 h)
