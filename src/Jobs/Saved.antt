-- ===== src/Jobs/Saved.antt =====
-- What the store of the job engine (internal/jobengine/store.go) gives back of what it was given.
use meshium.Prelude.{
  ◌≡◌, ◌≢◌, refl, sym, ◌∙◌, ap, subst, false, if◌then◌else◌, some, String, List, [], ◌∷◌, inl, inr,
  Bool-cases, Option-cases, str_eq_sym, arith,
}
use text.Mathlib.Text.{◌==◌ as str_eq}
use text.Mathlib.TextEquality.{eq_iff}
use meshium.Jobs.{Job, JobJson, Call, good_call}
use meshium.Jobs.Store.{JobRow, row_of, upsert, text_of, save_job, load_job}

text_of-upsert :
    (row : JobRow) (id : String) (rows : List JobRow)
    → text_of id (upsert row rows) ≡ (if str_eq row.id id then some row.job else text_of id rows)
text_of-upsert row id [] = refl
text_of-upsert row id (r ∷ rows) = elim (Bool-cases (str_eq r.id row.id)) [
  | inl e ↦ let same = (eq_iff r.id row.id).0 e in ground (arith, e, ap (λ i. str_eq i id) same)
  | inr e ↦ elim (Bool-cases (str_eq r.id id)) [
    | inl f ↦
        let other : str_eq row.id id ≡ false =
          subst (λ i. str_eq row.id i ≡ false) ((eq_iff r.id id).0 f)
            (sym (str_eq_sym r.id row.id) ∙ e) in
        ground (arith, e, f, other)
    | inr f ↦ ground (arith, e, f, text_of-upsert row id rows)
  ]
]

pub save_job-reads :
    (json : JobJson) (call : Call) (job : Job) (rows : List JobRow)
    → (save_job json call (some job) rows).0 ≡ inr tt
    → (t : String) × (json.marshal job ≡ some t)
      × ((save_job json call (some job) rows).1 ≡ upsert (row_of job t) rows)
unfolding save_job
save_job-reads json call job rows h = elim (Option-cases (json.marshal job)) [
  | inl p ↦ absurd (ground (arith, h, p))
  | inr (t, p) ↦ (t, p, ground (arith, h, p))
]

pub save_job-keeps :
    (json : JobJson) (call : Call) (job : Job) (rows : List JobRow)
    → (save_job json call (some job) rows).0 ≢ inr tt
    → (save_job json call (some job) rows).1 ≡ rows
unfolding save_job
save_job-keeps json call job rows h = elim (Option-cases (json.marshal job)) [
  | inl p ↦ ground (arith, h, p)
  | inr (t, p) ↦ ground (arith, h, p)
]

load_job-upsert :
    (json : JobJson) (job : Job) (text : String) (id : String) (rows : List JobRow)
    → json.unmarshal text ≡ some job
    → load_job json good_call id (upsert (row_of job text) rows)
      ≡ (if str_eq job.id id then inr job else load_job json good_call id rows)
unfolding load_job
load_job-upsert json job text id rows p = elim (Bool-cases (str_eq job.id id)) [
  | inl e ↦ ground (arith, e, p, text_of-upsert (row_of job text) id rows)
  | inr e ↦ ground (arith, e, text_of-upsert (row_of job text) id rows)
]

-- When a job is saved, loading its id gives that job and loading any other id gives what it gave
-- before; when saving it fails, the table stays as it was.
pub save_job-load_job :
    (json : JobJson) (call : Call) (job : Job) (rows : List JobRow) (id : String)
    → ((save_job json call (some job) rows).0 ≡ inr tt
        → load_job json good_call id (save_job json call (some job) rows).1
          ≡ (if str_eq job.id id then inr job else load_job json good_call id rows))
      × ((save_job json call (some job) rows).0 ≢ inr tt
          → (save_job json call (some job) rows).1 ≡ rows)
save_job-load_job json call job rows id = (
  λ h.
      let (t, p, saved) = save_job-reads json call job rows h in
      ap (load_job json good_call id) saved
      ∙ load_job-upsert json job t id rows (json.unmarshal-marshal job t p),
  save_job-keeps json call job rows,
)
