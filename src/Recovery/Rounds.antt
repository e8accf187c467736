-- ===== src/Recovery/Rounds.antt =====
-- The rounds of a recovery: what they leave of the jobs and of the workspaces.
use mathlib.Core.Bool.{false≢true}
use agentmom.Prelude.{
  Option, sym, ◌≢◌, some, none, subst, ℕ, String, ◌≡◌, refl, ap, ◌∙◌, inl, inr, Bool, true, false,
  not, ◌&&◌, List, [], ◌∷◌, ◌++◌, arith, ◌==◌, eq_iff, eq_refl, Bool-cases, apart, is_some_of,
  length, count, update, exists, All, Has, count-append, count-update_where, count-update_self,
  count-update_ends,
}
use agentmom.Settings.{Settings}
use agentmom.Catalog.{Catalog, Workspace, Job}
use agentmom.Catalog.Exec.{ok, Result-cases}
use agentmom.Jobs.{insert_job}
use agentmom.Workspaces.{is_named}
use agentmom.Events.{insert_event}
use agentmom.Recovery.{Move, is_open_job, superseded, moved, restore_job, reassign, reassign_all}

abbrev is_restore_on : String → String → Job → Bool
is_restore_on to name j =
    j.workspace_name == name
    && j.status == "queued"
    && j.kind == "restore"
    && is_some_of j.node_id to

abbrev is_unmoved : String → String → Workspace → Bool
is_unmoved to name w =
    w.name == name && not (is_some_of w.node_id to && w.status == "restore-queued")

-- A workspace is in the catalog, its row is on the target and waits for a restore, and its one open
-- job is a queued restore there.
pub record OnTarget (to name : String) (js : List Job) (ws : List Workspace) : Type 0 where
  pub one_open : count (is_open_job name) js ≡ 1
  pub one_restore : count (is_restore_on to name) js ≡ 1
  pub there : exists (is_named name) ws ≡ true
  pub none_unmoved : count (is_unmoved to name) ws ≡ 0

abbrev pub Settled : String → String → Catalog → Type 0
Settled to name db = OnTarget to name db.jobs db.workspaces

-- Before the recovery: a row of the workspace that is on the source and not removed.
abbrev pub Lost : String → String → Catalog → Type 0
Lost from name db =
    (w : Workspace) × Has w db.workspaces
    × (w.name ≡ name)
    × (w.node_id ≡ some from)
    × (w.status ≢ "removed")

abbrev pub IsThere : String → Catalog → Type 0
IsThere name db = exists (is_named name) db.workspaces ≡ true

pub is_some_of-some : (o : Option String) (s : String) → is_some_of o s ≡ true → o ≡ some s
is_some_of-some none s h = absurd (false≢true h)
is_some_of-some (some a) s h = ap some ((eq_iff a s).0 h)

pub not_status : (a b : String) → (a == b) ≡ false → a ≢ b
not_status a b h e = false≢true (sym h ∙ (eq_iff a b).1 e)

exists-moved :
    (now : ℕ) (to other name : String) (ws : List Workspace)
    → exists (is_named name) (update (is_named other) (moved now to) ws) ≡ exists (is_named name) ws
unfolding exists update
exists-moved now to other name [] = refl
exists-moved now to other name (w ∷ ws) = elim (Bool-cases (is_named other w)) [
  | inl e ↦ rw (e, exists-moved now to other name ws) refl
  | inr e ↦ rw (e, exists-moved now to other name ws) refl
]

pub still_there :
    {P Q : String → Type 0}
    → ((n : String) → P n → Q n)
    → (ms : List Move) → All (λ m. P m.workspace.name) ms
    → All (λ m. Q m.workspace.name) ms
still_there f [] h = tt
still_there f (m ∷ ms) h = (f m.workspace.name h.0, still_there f ms h.1)

module _ (env : Settings) (now : ℕ) (from to : String) where
  closed : (x : Job) → (name : String) → is_open_job name (superseded env now from to x) ≡ false
  closed x name = elim (Bool-cases (x.status == "queued")) [
    | inl e ↦ rw e (ground arith)
    | inr e ↦ rw e (ground arith)
  ]

  -- The catalog after a round that succeeds.
  record Round (id : String) (m : Move) (db db' : Catalog) : Type 0 where
    jobs :
        db'.jobs
        ≡ update (is_open_job m.workspace.name) (superseded env now from to) db.jobs
          ++ restore_job env now id from to m ∷ []
    workspaces : db'.workspaces ≡ update (is_named m.workspace.name) (moved now to) db.workspaces
    nodes : db'.nodes ≡ db.nodes

  reassign-Round :
      (id : String) (m : Move) (db : Catalog)
      → (reassign env now id from to m db).0 ≡ ok tt
      → Round id m db (reassign env now id from to m db).1
  unfolding reassign insert_event insert_job
  reassign-Round id m db h =
      elim (Bool-cases (
        exists (λ j. j.id == id)
          (update (is_open_job m.workspace.name) (superseded env now from to) db.jobs))) [
            | inl e ↦ absurd (cc (rw e at h))
            | inr e ↦ rw e (record { jobs = refl; workspaces = refl; nodes = refl })
          ]

  abbrev rest : Move → Catalog → List Job
  rest m db = update (is_open_job m.workspace.name) (superseded env now from to) db.jobs

  Round-Settled :
      (id : String) (m : Move) (db db' : Catalog)
      → Round id m db db'
      → IsThere m.workspace.name db
      → Settled to m.workspace.name db'
  unfolding count
  Round-Settled id m db db' r known = record {
    one_open = rw r.jobs (
        ground (
          arith,
          eq_refl m.workspace.name,
          count-append (is_open_job m.workspace.name) (rest m db)
              (restore_job env now id from to m ∷ []),
          count-update_self (is_open_job m.workspace.name) (superseded env now from to) db.jobs
              (λ x. closed x m.workspace.name),
        ));
    one_restore = rw r.jobs (
        ground (
          arith,
          eq_refl m.workspace.name,
          eq_refl to,
          count-append (is_restore_on to m.workspace.name) (rest m db)
              (restore_job env now id from to m ∷ []),
          count-update_ends (is_restore_on to m.workspace.name) (is_open_job m.workspace.name)
              (superseded env now from to) db.jobs (λ x h. ground arith)
              (λ x. ground (arith, closed x m.workspace.name)),
        ));
    there =
        rw (r.workspaces, exists-moved now to m.workspace.name m.workspace.name db.workspaces)
          known;
    none_unmoved = rw r.workspaces (
        count-update_ends (is_unmoved to m.workspace.name) (is_named m.workspace.name)
          (moved now to) db.workspaces (λ x h. ground arith) (λ x. ground (arith, eq_refl to)));
  }

  Settled-Round :
      (id name : String) (m : Move) (db db' : Catalog)
      → Round id m db db'
      → Settled to name db
      → Settled to name db'
  unfolding count
  Settled-Round id name m db db' r s = elim (Bool-cases (m.workspace.name == name)) [
    | inl e ↦
        subst (λ n. Settled to n db') ((eq_iff m.workspace.name name).0 e)
          (Round-Settled id m db db' r
            (subst (λ n. IsThere n db) (sym ((eq_iff m.workspace.name name).0 e)) s.there))
    | inr e ↦ record {
      one_open = rw r.jobs (
          ground (
            arith,
            e,
            s.one_open,
            count-append (is_open_job name) (rest m db) (restore_job env now id from to m ∷ []),
            count-update_where (is_open_job name) (is_open_job m.workspace.name)
                (superseded env now from to) db.jobs
                (λ x h. ground (arith, apart x.workspace_name m.workspace.name name e)),
          ));
      one_restore = rw r.jobs (
          ground (
            arith,
            e,
            s.one_restore,
            count-append (is_restore_on to name) (rest m db)
                (restore_job env now id from to m ∷ []),
            count-update_where (is_restore_on to name) (is_open_job m.workspace.name)
                (superseded env now from to) db.jobs
                (λ x h. ground (arith, apart x.workspace_name m.workspace.name name e)),
          ));
      there = rw (r.workspaces, exists-moved now to m.workspace.name name db.workspaces) s.there;
      none_unmoved = rw r.workspaces (
          count-update_where (is_unmoved to name) (is_named m.workspace.name) (moved now to)
            db.workspaces (λ x h. ground (arith, apart x.name m.workspace.name name e))
          ∙ s.none_unmoved);
    }
  ]

  -- After all rounds.
  pub record Rounds (ms : List Move) (db db' : Catalog) : Type 0 where
    pub settled : All (λ m. Settled to m.workspace.name db') ms
    pub stays : (name : String) → Settled to name db → Settled to name db'
    pub nodes : db'.nodes ≡ db.nodes

  pub reassign_all-Rounds :
      (ids : ℕ → String) (ms : List Move) (db : Catalog)
      → All (λ m. IsThere m.workspace.name db) ms
      → (reassign_all env now ids from to ms db).0 ≡ ok tt
      → Rounds ms db (reassign_all env now ids from to ms db).1
  unfolding reassign_all
  reassign_all-Rounds ids [] db known h = record { settled = tt; stays = λ name s. s; nodes = refl }
  reassign_all-Rounds ids (m ∷ ms) db known h =
      let id = ids (length ms) in
      let db' = (reassign env now id from to m db).1 in
      elim (Result-cases (reassign env now id from to m db).0) [
        | inr (x, e) ↦ absurd (cc (rw e at h))
        | inl (u, e) ↦
            let once = reassign-Round id m db e in
            let later : All (λ m. IsThere m.workspace.name db') ms =
              still_there {P = λ n. IsThere n db} {Q = λ n. IsThere n db'}
                (λ n k.
                  rw (once.workspaces, exists-moved now to m.workspace.name n db.workspaces) k)
                ms known.1 in
            let others = reassign_all-Rounds ids ms db' later (rw e at h) in
            rw e (record {
              settled = (
                others.stays m.workspace.name (Round-Settled id m db db' once known.0),
                others.settled,
              );
              stays = λ name s. others.stays name (Settled-Round id name m db db' once s);
              nodes = others.nodes ∙ once.nodes;
            })
      ]
