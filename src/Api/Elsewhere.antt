-- ===== src/Api/Elsewhere.antt =====
-- What the statements of a report do to the workspaces of other nodes.
use agentmom.Prelude.{
  ℕ, ◌≤◌, String, ◌≡◌, refl, ap, ◌∙◌, inl, inr, Bool, true, not, ◌&&◌, Option, none, some, List, [],
  ◌∷◌, arith, ◌==◌, eqb, Bool-cases, is_some_of, count, update, keep, find, count-update_same,
  keep-update, count-split, Has-count, find_sound,
}
use agentmom.Catalog.{Catalog, Workspace}
use agentmom.Text.{trim}
use agentmom.Workspaces.{
  is_named, is_assigned, reported, refuse_report, workspace_get, workspace_mark_vm_version,
  workspace_update_from_worker,
}
use agentmom.Api.Worker.{mark_version}

-- The workspaces of other nodes.
abbrev pub is_elsewhere : String → Workspace → Bool
is_elsewhere node w = not (is_some_of w.node_id node)

abbrev pub SameElsewhere : String → Catalog → Catalog → Type 0
SameElsewhere node db db' =
    keep (is_elsewhere node) db'.workspaces ≡ keep (is_elsewhere node) db.workspaces

-- No two rows have one name.
abbrev pub KeyedWorkspaces : List Workspace → Type 0
KeyedWorkspaces ws = (name : String) → count (is_named name) ws ≤ 1

assigned_none :
    (name node : String) (ws : List Workspace)
    → count (λ w. is_assigned name node w && is_elsewhere node w) ws ≡ 0
unfolding count
assigned_none name node [] = refl
assigned_none name node (w ∷ ws) = ground (arith, assigned_none name node ws)

-- Where the one row of a name is assigned to the node, no row of the name is elsewhere.
pub named_none :
    (name node : String) (ws : List Workspace) (row : Workspace)
    → KeyedWorkspaces ws
    → find (is_named name) ws ≡ some row
    → is_some_of row.node_id node ≡ true
    → count (λ w. is_named name w && is_elsewhere node w) ws ≡ 0
named_none name node ws row keyed f a =
    let (there, named) = find_sound (is_named name) ws row f in
    omega (
      arith,
      keyed name,
      count-split (is_named name) (λ w. is_some_of w.node_id node) ws,
      Has-count (λ w. is_named name w && is_some_of w.node_id node) row ws there
          (rw (named, a) refl),
    )

pub mark_version-SameElsewhere :
    (now : ℕ) (node name : String) (version : Option String) (db : Catalog)
    → count (λ w. is_named name w && is_elsewhere node w) db.workspaces ≡ 0
    → SameElsewhere node db (mark_version now name version db).1
unfolding workspace_mark_vm_version
mark_version-SameElsewhere now node name none db h = refl
mark_version-SameElsewhere now node name (some version) db h =
    let kept =
      keep-update (is_elsewhere node) (is_named name)
        (λ w. record w { vm_version = trim version; updated_at = now }) db.workspaces h
        (λ w. refl) in
    elim (Bool-cases (trim version == "")) [
      | inl e ↦ rw e refl
      | inr e ↦ elim (Bool-cases (eqb (count (is_named name) db.workspaces) 0)) [
        | inl z ↦ rw (e, z) kept
        | inr z ↦ rw (e, z) kept
      ]
    ]

refuse_reads : (name : String) (db : Catalog) → (refuse_report name db).1 ≡ db
unfolding refuse_report workspace_get
refuse_reads name db = ground arith

module _ (now : ℕ) (name node : String) (status desired : Option String) (touch mark : Bool)
    (db : Catalog) where
  abbrev after : Catalog
  after = (workspace_update_from_worker now name node status desired touch mark db).1

  update_table :
      after.workspaces
      ≡ update (is_assigned name node) (reported now status desired touch mark) db.workspaces
  unfolding workspace_update_from_worker
  update_table = elim (Bool-cases (eqb (count (is_assigned name node) db.workspaces) 0)) [
    | inl z ↦ rw (z, after) (ap (λ (d : Catalog). d.workspaces) (refuse_reads name _))
    | inr z ↦ rw (z, after) refl
  ]

  pub update-SameElsewhere : SameElsewhere node db after
  update-SameElsewhere =
      ap (keep (is_elsewhere node)) update_table
      ∙ keep-update (is_elsewhere node) (is_assigned name node)
          (reported now status desired touch mark) db.workspaces
          (assigned_none name node db.workspaces) (λ w. refl)

  pub still_none :
      count (λ w. is_named name w && is_elsewhere node w) db.workspaces ≡ 0
      → count (λ w. is_named name w && is_elsewhere node w) after.workspaces ≡ 0
  still_none h =
      ap (count (λ w. is_named name w && is_elsewhere node w)) update_table
      ∙ count-update_same (λ w. is_named name w && is_elsewhere node w) (is_assigned name node)
          (reported now status desired touch mark) db.workspaces (λ w. refl)
      ∙ h
