-- ===== src/Jobs/Listed.antt =====
-- The list of jobs without a limit leaves no job out (internal/jobengine/store.go, ListJobs).
use meshium.Prelude.{
  ◌≡◌, refl, true, leb, Option, none, some, List, [], ◌∷◌, ◌⊎◌, inl, inr, Bool-cases,
}
use meshium.Jobs.{Job, JobJson}
use meshium.Jobs.Store.{
  JobRow, JobFilter, StoreError, matches, insert_newest, newest_first, selected, cons_job,
  decode_all,
}

-- Some element of a list has the property.
abbrev pub Exists : {A : Type 0} → (A → Type 0) → List A → Type 0
Exists P [] = ⊥
Exists P (x ∷ xs) = P x ⊎ Exists P xs

module _ (P : JobRow → Type 0) where
  insert_newest-Exists :
      (r : JobRow) (rows : List JobRow) → P r ⊎ Exists P rows → Exists P (insert_newest r rows)
  insert_newest-Exists r [] h = h
  insert_newest-Exists r (s ∷ rest) h = elim (Bool-cases (leb s.created_at r.created_at)) [
    | inl e ↦ rw e h
    | inr e ↦ rw e (elim h [
      | inl p ↦ inr (insert_newest-Exists r rest (inl p))
      | inr (inl q) ↦ inl q
      | inr (inr q) ↦ inr (insert_newest-Exists r rest (inr q))
    ])
  ]

  newest_first-Exists : (rows : List JobRow) → Exists P rows → Exists P (newest_first rows)
  newest_first-Exists [] h = h
  newest_first-Exists (r ∷ rows) h =
      insert_newest-Exists r (newest_first rows)
        (elim h [ inl p ↦ inl p | inr q ↦ inr (newest_first-Exists rows q) ])

-- The row encodes the job.
abbrev pub Encodes : JobJson → Job → JobRow → Type 0
Encodes json job r = json.unmarshal r.job ≡ some job

selected-Exists :
    (P : JobRow → Type 0) (filter : JobFilter) (rows : List JobRow)
    → Exists (λ r. P r × (matches filter r ≡ true)) rows
    → Exists P (selected filter rows)
unfolding selected
selected-Exists P filter [] h = h
selected-Exists P filter (r ∷ rows) h = elim (Bool-cases (matches filter r)) [
  | inl e ↦
      rw e (elim h [ inl (p, m) ↦ inl p | inr later ↦ inr (selected-Exists P filter rows later) ])
  | inr e ↦ rw e (elim h [ inl (p, m) ↦ cc | inr later ↦ selected-Exists P filter rows later ])
]

cons_job-inr :
    (o : Option Job) (l : StoreError ⊎ List Job) (jobs : List Job)
    → cons_job o l ≡ inr jobs
    → (job : Job) × (rest : List Job) × (o ≡ some job) × (l ≡ inr rest) × (jobs ≡ job ∷ rest)
cons_job-inr none l jobs h = absurd (cc)
cons_job-inr (some job) (inl e) jobs h = absurd (cc)
cons_job-inr (some job) (inr rest) jobs h = (job, rest, refl, refl, cc)

decode_all-Exists :
    (json : JobJson) (job : Job) (rows : List JobRow) (jobs : List Job)
    → decode_all json rows ≡ inr jobs
    → Exists (Encodes json job) rows
    → Exists (λ j. j ≡ job) jobs
decode_all-Exists json job [] jobs h x = elim x [ ]
decode_all-Exists json job (r ∷ rows) jobs h x =
    let (first, rest, text, more, both) =
      cons_job-inr (json.unmarshal r.job) (decode_all json rows) jobs h in
    rw both (elim x [
      | inl e ↦ inl (cc)
      | inr later ↦ inr (decode_all-Exists json job rows rest more later)
    ])

-- Without a limit, a job of a row that the filter asks for is in the list.
pub listed-Exists :
    (json : JobJson) (filter : JobFilter) (job : Job) (rows : List JobRow) (jobs : List Job)
    → decode_all json (newest_first (selected filter rows)) ≡ inr jobs
    → Exists (λ r. Encodes json job r × (matches filter r ≡ true)) rows
    → Exists (λ j. j ≡ job) jobs
listed-Exists json filter job rows jobs h x =
    decode_all-Exists json job (newest_first (selected filter rows)) jobs h (
      newest_first-Exists (Encodes json job) (selected filter rows)
        (selected-Exists (Encodes json job) filter rows x))
