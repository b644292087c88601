-- ===== src/Samples/Encoding.antt =====
-- Concrete jobs of the job engine (internal/jobengine/job.go), and an encoding of them.
use meshium.Prelude.{
  ℕ, ◌≡◌, refl, sym, ◌∙◌, ap, subst, inl, inr, Bool, true, false, ◌&&◌, if◌then◌else◌, ◌==◌, String,
  List, [], ◌∷◌, Option, some, none, All, ==_iff, Bool-cases, arith,
}
use text.Mathlib.Text.{◌==◌ as str_eq}
use text.Mathlib.TextEquality.{eq_iff}
use meshium.Jobs.{
  Job, JobStatus, JobProgress, JobLog, JobJson, queued, running, paused, done, failed, cancelled,
}
use meshium.Jobs.Store.{status_eq}
use meshium.Jobs.Engine.{no_progress}
use meshium.Jobs.Engine.Work.{hundred}

abbrev pub job_with : String → JobStatus → Job
job_with id status = record {
  id = id;
  kind = "migration";
  status = status;
  created_at = 7;
  started_at = none;
  finished_at = none;
  plan_id = "plan";
  migration_id = 1;
  source_id = 1;
  target_id = 2;
  progress = no_progress;
  logs = [];
  error = "";
}

abbrev same_option : Option ℕ → Option ℕ → Bool
same_option none none = true
same_option (some a) (some b) = a == b
same_option none (some b) = false
same_option (some a) none = false

abbrev no_logs : List JobLog → Bool
no_logs [] = true
no_logs (log ∷ logs) = false

abbrev same_progress : JobProgress → JobProgress → Bool
same_progress a b =
    a.current_step == b.current_step
    && a.total_steps == b.total_steps
    && str_eq a.current_name b.current_name
    && a.percentage == b.percentage
    && a.bytes_done == b.bytes_done
    && a.bytes_total == b.bytes_total
    && a.speed_bps == b.speed_bps
    && a.eta == b.eta

abbrev every : List Bool → Bool
every [] = true
every (b ∷ rest) = b && every rest

every-All : (l : List Bool) → every l ≡ true → All (λ b. b ≡ true) l
every-All [] h = tt
every-All (true ∷ rest) h = (refl, every-All rest h)
every-All (false ∷ rest) h = absurd (cc)

abbrev fields : Job → Job → List Bool
fields a b =
    str_eq a.id b.id
    ∷ str_eq a.kind b.kind
    ∷ status_eq a.status b.status
    ∷ (a.created_at == b.created_at)
    ∷ same_option a.started_at b.started_at
    ∷ same_option a.finished_at b.finished_at
    ∷ str_eq a.plan_id b.plan_id
    ∷ (a.migration_id == b.migration_id)
    ∷ (a.source_id == b.source_id)
    ∷ (a.target_id == b.target_id)
    ∷ same_progress a.progress b.progress
    ∷ no_logs a.logs
    ∷ no_logs b.logs
    ∷ str_eq a.error b.error
    ∷ []

-- Whether a job is one without logs and with the same fields.
abbrev same_job : Job → Job → Bool
same_job a b = every (fields a b)

status_eq_path : (s t : JobStatus) → status_eq s t ≡ true → s ≡ t
unfolding status_eq
status_eq_path queued queued h = refl
status_eq_path running running h = refl
status_eq_path paused paused h = refl
status_eq_path done done h = refl
status_eq_path failed failed h = refl
status_eq_path cancelled cancelled h = refl
status_eq_path _ _ h = cc

same_option_path : (a b : Option ℕ) → same_option a b ≡ true → a ≡ b
same_option_path none none h = refl
same_option_path (some a) (some b) h = ap some (ground (arith, h))
same_option_path none (some b) h = cc
same_option_path (some a) none h = cc

no_logs_path : (a b : List JobLog) → no_logs a ≡ true → no_logs b ≡ true → a ≡ b
no_logs_path [] [] h k = refl
no_logs_path [] (log ∷ b) h k = cc
no_logs_path (log ∷ a) b h k = cc

same_progress_path : (a b : JobProgress) → same_progress a b ≡ true → a ≡ b
same_progress_path a b h =
    let step : a.current_step ≡ b.current_step = ground (arith, h) in
    let steps : a.total_steps ≡ b.total_steps = ground (arith, h) in
    let name : a.current_name ≡ b.current_name =
      (eq_iff a.current_name b.current_name).0 (ground (arith, h)) in
    let share : a.percentage ≡ b.percentage = ground (arith, h) in
    let bytes : a.bytes_done ≡ b.bytes_done = ground (arith, h) in
    let total : a.bytes_total ≡ b.bytes_total = ground (arith, h) in
    let speed : a.speed_bps ≡ b.speed_bps = ground (arith, h) in
    let eta : a.eta ≡ b.eta = ground (arith, h) in
    λ i. record {
      current_step = step i;
      total_steps = steps i;
      current_name = name i;
      percentage = share i;
      bytes_done = bytes i;
      bytes_total = total i;
      speed_bps = speed i;
      eta = eta i;
    }

same_job_path : (a b : Job) → same_job a b ≡ true → a ≡ b
same_job_path a b h =
    let (e1, (e2, (e3, (e4, (e5, (e6, (e7, (e8, (e9, (e10, (e11, (e12, (e13, (e14, _)))))))))))))) =
      every-All (fields a b) h in
    let id = (eq_iff a.id b.id).0 e1 in
    let kind = (eq_iff a.kind b.kind).0 e2 in
    let status = status_eq_path a.status b.status e3 in
    let created = (==_iff a.created_at b.created_at).0 e4 in
    let started = same_option_path a.started_at b.started_at e5 in
    let finished = same_option_path a.finished_at b.finished_at e6 in
    let plan = (eq_iff a.plan_id b.plan_id).0 e7 in
    let moved = (==_iff a.migration_id b.migration_id).0 e8 in
    let source = (==_iff a.source_id b.source_id).0 e9 in
    let target = (==_iff a.target_id b.target_id).0 e10 in
    let progress = same_progress_path a.progress b.progress e11 in
    let logs = no_logs_path a.logs b.logs e12 e13 in
    let error = (eq_iff a.error b.error).0 e14 in
    λ i. record {
      id = id i;
      kind = kind i;
      status = status i;
      created_at = created i;
      started_at = started i;
      finished_at = finished i;
      plan_id = plan i;
      migration_id = moved i;
      source_id = source i;
      target_id = target i;
      progress = progress i;
      logs = logs i;
      error = error i;
    }

abbrev begun_job : Job
begun_job = record (job_with "job-1" queued) { status = running; started_at = some 8 }

abbrev ended_job : Job
ended_job = record begun_job {
  finished_at = some 9;
  status = done;
  progress = record no_progress { percentage = hundred };
}

abbrev dropped_job : Job
dropped_job = record (job_with "job-1" queued) { finished_at = some 5; status = cancelled }

abbrev text_jobs : List (String × Job)
text_jobs =
    ("waiting", job_with "job-1" queued)
    ∷ ("other", job_with "job-2" queued)
    ∷ ("working", job_with "job-1" running)
    ∷ ("resting", job_with "job-1" paused)
    ∷ ("begun", begun_job)
    ∷ ("ended", ended_job)
    ∷ ("dropped", dropped_job)
    ∷ []

abbrev text_for : Job → List (String × Job) → Option String
text_for job [] = none
text_for job ((text, j) ∷ rest) = if same_job j job then some text else text_for job rest

abbrev job_for : String → List (String × Job) → Option Job
job_for text [] = none
job_for text ((t, j) ∷ rest) = if str_eq t text then some j else job_for text rest

-- No text is twice in the list.
abbrev IsTexts : List (String × Job) → Type 0
IsTexts [] = Unit
IsTexts ((t, j) ∷ rest) = (job_for t rest ≡ none) × IsTexts rest

some_path : {A : Type 0} (a b : A) → some a ≡ some b → a ≡ b
some_path a b h = ap (λ o. elim o [ none ↦ a | some x ↦ x ]) h

none-some : {A : Type 0} (a : A) → none ≡ some a → ⊥
none-some a h = cc

pub job_for-text_for :
    (l : List (String × Job))
    → IsTexts l
    → (job : Job) (text : String) → text_for job l ≡ some text
    → job_for text l ≡ some job
job_for-text_for [] h job text found = absurd (none-some text found)
job_for-text_for ((t, j) ∷ rest) (once, h) job text found = elim (Bool-cases (same_job j job)) [
  | inl e ↦
      let here =
        some_path t text
          (subst (λ b. (if b then some t else text_for job rest) ≡ some text) e found) in
      ap (λ b. if b then some j else job_for text rest) ((eq_iff t text).1 here)
      ∙ ap some (same_job_path j job e)
  | inr e ↦
      let later =
        job_for-text_for rest h job text
          (subst (λ b. (if b then some t else text_for job rest) ≡ some text) e found) in
      elim (Bool-cases (str_eq t text)) [
        | inl f ↦
            absurd
              (none-some job (sym once ∙ ap (λ u. job_for u rest) ((eq_iff t text).0 f) ∙ later))
        | inr f ↦ ap (λ b. if b then some j else job_for text rest) f ∙ later
      ]
]

-- An encoding of these jobs; it fails on all others.
abbrev pub few_jobs : JobJson
few_jobs = record {
  marshal = λ job. text_for job text_jobs;
  unmarshal = λ text. job_for text text_jobs;
  unmarshal-marshal =
      job_for-text_for text_jobs (refl, (refl, (refl, (refl, (refl, (refl, (refl, tt)))))));
}
