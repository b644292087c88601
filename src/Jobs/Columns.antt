-- ===== src/Jobs/Columns.antt =====
-- The columns of the table jobs (internal/jobengine/store.go) and the jobs in it, and the lists of
-- jobs by type and status.
use meshium.Prelude.{
  if-cases, ℕ, zero, suc, ◌≡◌, refl, sym, ◌∙◌, ap, subst₂, Bool, true, ◌||◌, ◌&&◌, if◌then◌else◌,
  leb, ◌==◌, Option, none, some, String, List, [], ◌∷◌, All, ◌⊎◌, inl, inr, arith,
}
use text.Mathlib.Text.{◌==◌ as str_eq}
use text.Mathlib.TextEquality.{eq_iff}
use meshium.Jobs.{Job, JobProgress, JobJson, Call, good_call}
use meshium.Jobs.Listed.{Exists, Encodes, listed-Exists}
use meshium.Jobs.Store.{
  StoreError, JobRow, JobFilter, row_of, upsert, text_of, set_text, save_text, save_job, load_job,
  with_progress, write_text, write_progress, update_progress, has_status, matches, newest_first,
  insert_newest, selected, limited, cons_job, decode_all, list_jobs,
}

-- The columns of a row agree with the job that its text encodes.
abbrev pub IsRow : JobJson → JobRow → Type 0
IsRow json r =
    (job : Job) × (json.unmarshal r.job ≡ some job)
    × (r.id ≡ job.id)
    × (r.kind ≡ job.kind)
    × (r.status ≡ job.status)

abbrev pub IsTable : JobJson → List JobRow → Type 0
IsTable json rows = All (IsRow json) rows

abbrev IsTableAfter : JobJson → (StoreError ⊎ Unit {0}) × List JobRow → Type 0
IsTableAfter json after = IsTable json after.1

upsert-IsTable :
    (json : JobJson) (row : JobRow) (rows : List JobRow)
    → IsRow json row
    → IsTable json rows
    → IsTable json (upsert row rows)
upsert-IsTable json row [] new old = (new, tt)
upsert-IsTable json row (r ∷ rows) (job, text, same, kind, status) (first, rest) =
    if-cases (IsTable json) (str_eq r.id row.id)
      (λ e. ((job, text, (eq_iff r.id row.id).0 e ∙ same, kind, status), rest))
      (λ e. (first, upsert-IsTable json row rows (job, text, same, kind, status) rest))

set_text-IsTable :
    (json : JobJson) (id new : String) (job : Job) (rows : List JobRow)
    → json.unmarshal new ≡ some job
    → ((old : String) (before : Job)
        → text_of id rows ≡ some old
        → json.unmarshal old ≡ some before
        → (before.id ≡ job.id) × (before.kind ≡ job.kind) × (before.status ≡ job.status))
    → IsTable json rows
    → IsTable json (set_text id new rows)
set_text-IsTable json id new job [] text source h = tt
set_text-IsTable json id new job (r ∷ rows) text source ((j, was, same, kind, status), rest) =
    if-cases (IsTable json) (str_eq r.id id)
      (λ e.
        let (id', kind', status') = source r.job j (ground (arith, e)) was in
        ((job, text, same ∙ id', kind ∙ kind', status ∙ status'), rest))
      (λ e. (
        (j, was, same, kind, status),
        set_text-IsTable json id new job rows text
            (λ old before at. source old before (ground (arith, e, at))) rest,
      ))

save_text-IsTable :
    (json : JobJson) (call : Call) (job : Job) (text : Option String) (rows : List JobRow)
    → json.marshal job ≡ text
    → IsTable json rows
    → IsTable json (save_text call job text rows).1
save_text-IsTable json call job none rows p h = h
save_text-IsTable json call job (some t) rows p h =
    if-cases (IsTableAfter json) call.exec_fails (λ e. h)
      (λ e.
        upsert-IsTable json (row_of job t) rows
          (job, json.unmarshal-marshal job t p, refl, refl, refl) h)

pub save_job-IsTable :
    (json : JobJson) (call : Call) (job : Job) (rows : List JobRow)
    → IsTable json rows
    → IsTable json (save_job json call (some job) rows).1
unfolding save_job
save_job-IsTable json call job rows h =
    if-cases (IsTableAfter json) (str_eq job.id "") (λ e. h)
      (λ e.
        if-cases (IsTableAfter json) call.ctx_done (λ d. h)
          (λ d. save_text-IsTable json call job (json.marshal job) rows refl h))

write_text-IsTable :
    (json : JobJson) (call : Call) (id : String) (job : Job) (progress : JobProgress)
    (text : Option String) (rows : List JobRow)
    → json.marshal (with_progress job progress) ≡ text
    → ((old : String) (before : Job)
        → text_of id rows ≡ some old
        → json.unmarshal old ≡ some before
        → (before.id ≡ job.id) × (before.kind ≡ job.kind) × (before.status ≡ job.status))
    → IsTable json rows
    → IsTable json (write_text call id text rows).1
write_text-IsTable json call id job progress none rows p source h = h
write_text-IsTable json call id job progress (some t) rows p source h =
    if-cases (IsTableAfter json) call.exec_fails (λ e. h)
      (λ e.
        set_text-IsTable json id t (with_progress job progress) rows
          (json.unmarshal-marshal (with_progress job progress) t p) source h)

write_progress-IsTable :
    (json : JobJson) (call : Call) (id : String) (progress : JobProgress) (found : StoreError ⊎ Job)
    (rows : List JobRow)
    → ((job : Job)
        → found ≡ inr job
        → (old : String) (before : Job) → text_of id rows ≡ some old
        → json.unmarshal old ≡ some before
        → (before.id ≡ job.id) × (before.kind ≡ job.kind) × (before.status ≡ job.status))
    → IsTable json rows
    → IsTable json (write_progress json call id progress found rows).1
write_progress-IsTable json call id progress (inl e) rows source h = h
write_progress-IsTable json call id progress (inr job) rows source h =
    write_text-IsTable json call id job progress (json.marshal (with_progress job progress)) rows
      refl (source job refl) h

pub update_progress-IsTable :
    (json : JobJson) (call : Call) (id : String) (progress : JobProgress) (rows : List JobRow)
    → IsTable json rows
    → IsTable json (update_progress json call id progress rows).1
unfolding update_progress load_job
update_progress-IsTable json call id progress rows h =
    write_progress-IsTable json call id progress (load_job json call id rows) rows
      (λ job found old before at was.
        let same : before ≡ job = ground (arith, found, at, was) in
        (ap (λ j. j.id) same, ap (λ j. j.kind) same, ap (λ j. j.status) same))
      h

insert_newest-All :
    (P : JobRow → Type 0) (r : JobRow) (rows : List JobRow)
    → P r
    → All P rows
    → All P (insert_newest r rows)
insert_newest-All P r [] first rest = (first, tt)
insert_newest-All P r (s ∷ rows) first (second, rest) =
    if-cases (All P) (leb s.created_at r.created_at) (λ e. (first, (second, rest)))
      (λ e. (second, insert_newest-All P r rows first rest))

newest_first-All :
    (P : JobRow → Type 0) (rows : List JobRow) → All P rows → All P (newest_first rows)
newest_first-All P [] h = tt
newest_first-All P (r ∷ rows) (first, rest) =
    insert_newest-All P r (newest_first rows) first (newest_first-All P rows rest)

limited-All :
    (P : JobRow → Type 0) (n : ℕ) (rows : List JobRow) → All P rows → All P (limited n rows)
limited-All P n [] h = tt
limited-All P zero (r ∷ rows) h = tt
limited-All P (suc n) (r ∷ rows) (first, rest) = (first, limited-All P n rows rest)

-- What ListJobs is asked for.
abbrev pub job_matches : JobFilter → Job → Bool
job_matches filter job =
    (str_eq filter.kind "" || str_eq job.kind filter.kind) && has_status filter.status job.status

-- A row whose text encodes a job that the filter asks for.
abbrev IsFound : JobJson → JobFilter → JobRow → Type 0
IsFound json filter r =
    (job : Job) × (json.unmarshal r.job ≡ some job) × (job_matches filter job ≡ true)

selected-IsFound :
    (json : JobJson) (filter : JobFilter) (rows : List JobRow)
    → IsTable json rows
    → All (IsFound json filter) (selected filter rows)
unfolding selected matches
selected-IsFound json filter [] h = tt
selected-IsFound json filter (r ∷ rows) ((job, text, same, kind, status), rest) =
    if-cases (All (IsFound json filter)) (matches filter r)
      (λ e. (
        (
          job,
          text,
          subst₂
              (λ k s.
                (str_eq filter.kind "" || str_eq k filter.kind) && has_status filter.status s
                ≡ true)
              kind status e,
        ),
        selected-IsFound json filter rows rest,
      ))
      (λ e. selected-IsFound json filter rows rest)

decode_all-IsFound :
    (json : JobJson) (filter : JobFilter) (rows : List JobRow)
    → All (IsFound json filter) rows
    → (jobs : List Job) × (decode_all json rows ≡ inr jobs)
      × All (λ j. job_matches filter j ≡ true) jobs
decode_all-IsFound json filter [] h = ([], refl, tt)
decode_all-IsFound json filter (r ∷ rows) ((job, text, fits), rest) =
    let (jobs, same, all) = decode_all-IsFound json filter rows rest in
    (
      job ∷ jobs,
      subst₂ (λ o l. cons_job o l ≡ inr (job ∷ jobs)) (sym text) (sym same) refl,
      (fits, all),
    )

matching :
    (json : JobJson) (filter : JobFilter) (job : Job) (rows : List JobRow)
    → IsTable json rows
    → job_matches filter job ≡ true
    → Exists (Encodes json job) rows
    → Exists (λ r. Encodes json job r × (matches filter r ≡ true)) rows
unfolding matches
matching json filter job [] h fits x = x
matching json filter job (r ∷ rows) ((other, text, same, kind, status), rest) fits x = elim x [
  | inl e ↦
      let is_job : other ≡ job = cc (text, e) in
      inl (
        e,
        subst₂
            (λ k s.
              (str_eq filter.kind "" || str_eq k filter.kind) && has_status filter.status s ≡ true)
            (sym (kind ∙ ap (λ j. j.kind) is_job)) (sym (status ∙ ap (λ j. j.status) is_job)) fits,
      )
  | inr later ↦ inr (matching json filter job rows rest fits later)
]

-- In a table whose columns agree with its jobs, a list of jobs that the database serves, in a context that
-- is not done, does not fail; it has only jobs of the type and the status that were asked for and,
-- without a limit, every such job that a row holds. Saving a job and updating a progress keep the
-- columns in agreement, whether they succeed or not.
pub list_jobs-IsTable :
    (json : JobJson) (filter : JobFilter) (call : Call) (job : Job) (id : String)
    (progress : JobProgress) (rows : List JobRow)
    → IsTable json rows
    → ((jobs : List Job) × (list_jobs json good_call filter rows ≡ inr jobs)
        × All (λ j. job_matches filter j ≡ true) jobs
        × (filter.limit ≡ 0
            → (listed : Job) → job_matches filter listed ≡ true
            → Exists (Encodes json listed) rows
            → Exists (λ j. j ≡ listed) jobs))
      × IsTable json (save_job json call (some job) rows).1
      × IsTable json (update_progress json call id progress rows).1
unfolding list_jobs
list_jobs-IsTable json filter call job id progress rows h =
    let found =
      newest_first-All (IsFound json filter) (selected filter rows)
        (selected-IsFound json filter rows h) in
    let (jobs, listing, only) =
      decode_all-IsFound json filter
        (if filter.limit == 0
          then newest_first (selected filter rows)
          else limited filter.limit (newest_first (selected filter rows)))
        (if-cases (All (IsFound json filter)) (filter.limit == 0) (λ e. found)
          (λ e.
            limited-All (IsFound json filter) filter.limit (newest_first (selected filter rows))
              found)) in
    (
      (
        jobs,
        listing,
        only,
        λ unlimited listed fits there.
            listed-Exists json filter listed rows jobs
              (ap
                  (λ n. decode_all json (
                    if n == 0
                    then newest_first (selected filter rows)
                    else limited n (newest_first (selected filter rows))))
                  (sym unlimited)
                ∙ listing)
              (matching json filter listed rows h fits there),
      ),
      save_job-IsTable json call job rows h,
      update_progress-IsTable json call id progress rows h,
    )
