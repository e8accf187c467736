-- ===== src/Jobs/Lifecycle.antt =====
-- The states of a job and how a row may change from one table to the next.
use agentmom.Prelude.{
  ◌≡◌, refl, ◌∙◌, String, Bool, true, ◌||◌, inl, inr, List, [], ◌∷◌, ◌++◌, ◌==◌, Bool-cases, update,
  All,
}
use agentmom.Catalog.{Job}
use agentmom.Jobs.Finish.{is_terminal}

-- One change of a status. `end` is any change of a job in the hands of a worker to a final status.
pub data Edge : String → String → Type 0 where
  claim : Edge "queued" "claimed"
  release : Edge "claimed" "queued"
  start : {s : String} → (s == "claimed" || s == "running") ≡ true → Edge s "running"
  finish :
      {s t : String} → (s == "claimed" || s == "running") ≡ true → is_terminal t ≡ true → Edge s t
  cancel : Edge "queued" "canceled"

pub data Reaches (s : String) : String → Type 0 where
  here : Reaches s s
  next : {t u : String} → Reaches s t → Edge t u → Reaches s u

pub Reaches-trans : {s t u : String} → Reaches s t → Reaches t u → Reaches s u
Reaches-trans r here = r
Reaches-trans r (next q e) = next (Reaches-trans r q) e

-- What stays of a job, how its status moves, and that a finished job is not touched.
pub record Advances (x y : Job) : Type 0 where
  pub id : y.id ≡ x.id
  pub workspace : y.workspace_name ≡ x.workspace_name
  pub node : y.node_id ≡ x.node_id
  pub kind : y.kind ≡ x.kind
  pub payload : y.payload_json ≡ x.payload_json
  pub created : y.created_at ≡ x.created_at
  pub path : Reaches x.status y.status
  pub frozen : is_terminal x.status ≡ true → y ≡ x

pub Advances-refl : (x : Job) → Advances x x
Advances-refl x = record {
  id = refl;
  workspace = refl;
  node = refl;
  kind = refl;
  payload = refl;
  created = refl;
  path = here;
  frozen = λ _. refl;
}

pub Advances-trans : (x y z : Job) → Advances x y → Advances y z → Advances x z
Advances-trans x y z a b = record {
  id = b.id ∙ a.id;
  workspace = b.workspace ∙ a.workspace;
  node = b.node ∙ a.node;
  kind = b.kind ∙ a.kind;
  payload = b.payload ∙ a.payload;
  created = b.created ∙ a.created;
  path = Reaches-trans a.path b.path;
  frozen = λ t. b.frozen (rw (a.frozen t) t) ∙ a.frozen t;
}

-- A row that was inserted since: it started in the queue.
abbrev pub IsNew : Job → Type 0
IsNew y = Reaches "queued" y.status

-- Row by row the new table continues the old one; the rows behind them are new.
abbrev pub Evolves : List Job → List Job → Type 0
Evolves [] ys = All IsNew ys
Evolves (x ∷ xs) [] = ⊥
Evolves (x ∷ xs) (y ∷ ys) = Advances x y × Evolves xs ys

pub Evolves-refl : (xs : List Job) → Evolves xs xs
Evolves-refl [] = tt
Evolves-refl (x ∷ xs) = (Advances-refl x, Evolves-refl xs)

pub Evolves-update :
    (p : Job → Bool) (f : Job → Job) (xs : List Job)
    → ((x : Job) → p x ≡ true → Advances x (f x))
    → Evolves xs (update p f xs)
unfolding update
Evolves-update p f [] h = tt
Evolves-update p f (x ∷ xs) h = elim (Bool-cases (p x)) [
  | inl e ↦ (rw e (h x e), Evolves-update p f xs h)
  | inr e ↦ (rw e (Advances-refl x), Evolves-update p f xs h)
]

pub Evolves-append : (xs : List Job) (y : Job) → y.status ≡ "queued" → Evolves xs (xs ++ y ∷ [])
Evolves-append [] y h = (rw h here, tt)
Evolves-append (x ∷ xs) y h = (Advances-refl x, Evolves-append xs y h)

IsNew-rows : (ys zs : List Job) → All IsNew ys → Evolves ys zs → All IsNew zs
IsNew-rows [] zs h e = e
IsNew-rows (y ∷ ys) [] h e = absurd e
IsNew-rows (y ∷ ys) (z ∷ zs) h e = (Reaches-trans h.0 e.0.path, IsNew-rows ys zs h.1 e.1)

pub Evolves-trans : (xs ys zs : List Job) → Evolves xs ys → Evolves ys zs → Evolves xs zs
Evolves-trans [] ys zs a b = IsNew-rows ys zs a b
Evolves-trans (x ∷ xs) [] zs a b = absurd a
Evolves-trans (x ∷ xs) (y ∷ ys) [] a b = absurd b
Evolves-trans (x ∷ xs) (y ∷ ys) (z ∷ zs) a b =
    (Advances-trans x y z a.0 b.0, Evolves-trans xs ys zs a.1 b.1)
