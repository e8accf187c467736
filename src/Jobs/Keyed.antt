-- ===== src/Jobs/Keyed.antt =====
-- The primary key of the job table, and what lookups by it return.
use agentmom.Prelude.{
  ◌≤◌, String, ◌≡◌, ap, inl, inr, Bool, List, [], ◌∷◌, arith, ◌==◌, eq_iff, Bool-cases, count,
  update, count-update_same,
}
use agentmom.Catalog.{Job}

abbrev pub has_id : String → Job → Bool
has_id id j = j.id == id

-- No two rows have one id.
abbrev pub KeyedJobs : List Job → Type 0
KeyedJobs js = (id : String) → count (has_id id) js ≤ 1

-- An update that leaves the id alone.
pub update-KeyedJobs :
    (p : Job → Bool) (f : Job → Job) (js : List Job)
    → ((x : Job) → (f x).id ≡ x.id)
    → KeyedJobs js
    → KeyedJobs (update p f js)
update-KeyedJobs p f js same h id =
    rw (count-update_same (has_id id) p f js (λ x. ap (λ (s : String). s == id) (same x))) (h id)

-- A row in front whose id is new.
cons-KeyedJobs :
    (job : Job) (js : List Job) → count (has_id job.id) js ≡ 0 → KeyedJobs js → KeyedJobs (job ∷ js)
unfolding count
cons-KeyedJobs job js new h id = elim (Bool-cases (job.id == id)) [
  | inr n ↦ ground (arith, h id)
  | inl y ↦
      let same : job.id ≡ id = (eq_iff job.id id).0 y in
      let none_yet : count (has_id id) js ≡ 0 = rw same at new in ground (arith, none_yet)
]

-- Each id is new to the rows behind it.
abbrev pub Fresh : List Job → Type 0
Fresh [] = Unit
Fresh (j ∷ js) = (count (has_id j.id) js ≡ 0) × Fresh js

pub KeyedJobs-Fresh : (js : List Job) → Fresh js → KeyedJobs js
unfolding count
KeyedJobs-Fresh [] f = λ id. omega arith
KeyedJobs-Fresh (j ∷ js) f = cons-KeyedJobs j js f.0 (KeyedJobs-Fresh js f.1)
