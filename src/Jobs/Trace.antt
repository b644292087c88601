-- ===== src/Jobs/Trace.antt =====
-- Sequences of operations on the two queues of internal/jobengine/queue.go.
use meshium.Prelude.{
  Option-cases, str_eq_self, ℕ, ◌≡◌, ◌≢◌, refl, sym, ◌∙◌, ap, subst, subst₂, false, if◌then◌else◌,
  Option, none, some, String, List, [], ◌∷◌, ◌++◌, ◌⊎◌, inl, inr, arith,
}
use text.Mathlib.Text.{◌==◌ as str_eq}
use meshium.Jobs.{Job, JobJson, good_call}
use meshium.Jobs.Queue.{
  QueueError, QueueRow, max_position, delete_row, next_position, enqueue, parsed, insert_row,
  dequeue_row, peek_row, dequeue, peek, size, remove, memory_enqueue, memory_dequeue, memory_peek,
  memory_size, memory_remove,
}
use meshium.Jobs.Fifo.{
  IsQueueOf, has_job, has_row-has_job, length-rows, delete-absent, front-IsQueueOf, snoc-IsQueueOf,
  next_position-IsUnder, delete_IsQueueOf,
}

-- A call of the interface JobQueue; the number is the time of the call.
pub data QueueOp : Type 0 where
  do_enqueue : ℕ → Option Job → QueueOp
  do_dequeue : QueueOp
  do_peek : QueueOp
  do_size : QueueOp
  do_remove : String → QueueOp

pub data QueueReply : Type 0 where
  of_unit : QueueError ⊎ Unit {0} → QueueReply
  of_job : QueueError ⊎ Option Job → QueueReply
  of_size : QueueError ⊎ ℕ → QueueReply

abbrev pub sql_step : JobJson → QueueOp → List QueueRow → QueueReply × List QueueRow
sql_step json (do_enqueue now job) rows =
    let (reply, after) = enqueue json good_call now job rows in (of_unit reply, after)
sql_step json do_dequeue rows =
    let (reply, after) = dequeue json good_call rows in (of_job reply, after)
sql_step json do_peek rows = (of_job (peek json good_call rows), rows)
sql_step json do_size rows = (of_size (size good_call rows), rows)
sql_step json (do_remove id) rows =
    let (reply, after) = remove good_call id rows in (of_unit reply, after)

abbrev pub memory_step : QueueOp → List Job → QueueReply × List Job
memory_step (do_enqueue now job) jobs =
    let (reply, after) = memory_enqueue job jobs in (of_unit reply, after)
memory_step do_dequeue jobs = let (reply, after) = memory_dequeue jobs in (of_job reply, after)
memory_step do_peek jobs = (of_job (memory_peek jobs), jobs)
memory_step do_size jobs = (of_size (memory_size jobs), jobs)
memory_step (do_remove id) jobs =
    let (reply, after) = memory_remove id jobs in (of_unit reply, after)

abbrev pub sql_replies : JobJson → List QueueOp → List QueueRow → List QueueReply
sql_replies json [] rows = []
sql_replies json (op ∷ ops) rows =
    let (reply, after) = sql_step json op rows in reply ∷ sql_replies json ops after

abbrev pub memory_replies : List QueueOp → List Job → List QueueReply
memory_replies [] jobs = []
memory_replies (op ∷ ops) jobs =
    let (reply, after) = memory_step op jobs in reply ∷ memory_replies ops after

-- A job that is put into the queue has an id, can be encoded, and is not in the queue yet.
abbrev pub IsFresh : JobJson → QueueOp → List Job → Type 0
IsFresh json (do_enqueue now none) jobs = Unit
IsFresh json (do_enqueue now (some job)) jobs =
    (str_eq job.id "" ≡ false) × (json.marshal job ≢ none) × (has_job job.id jobs ≡ false)
IsFresh json do_dequeue jobs = Unit
IsFresh json do_peek jobs = Unit
IsFresh json do_size jobs = Unit
IsFresh json (do_remove id) jobs = Unit

abbrev pub IsFreshRun : JobJson → List QueueOp → List Job → Type 0
IsFreshRun json [] jobs = Unit
IsFreshRun json (op ∷ ops) jobs = IsFresh json op jobs × IsFreshRun json ops (memory_step op jobs).1

-- The two queues give one reply and stay the same queue.
abbrev pub AgreeOn : JobJson → QueueOp → List QueueRow → List Job → Type 0
AgreeOn json op rows jobs =
    ((sql_step json op rows).0 ≡ (memory_step op jobs).0)
    × IsQueueOf json (sql_step json op rows).1 (memory_step op jobs).1

pub enqueue-AgreeOn :
    (json : JobJson) (now : ℕ) (job : Job) (rows : List QueueRow) (jobs : List Job)
    → IsQueueOf json rows jobs
    → IsFresh json (do_enqueue now (some job)) jobs
    → AgreeOn json (do_enqueue now (some job)) rows jobs
unfolding enqueue insert_row memory_enqueue
enqueue-AgreeOn json now job rows jobs h (named, encoded, new) =
    elim (Option-cases (json.marshal job)) [
      | inl p ↦ absurd (encoded p)
      | inr (text, p) ↦
          let absent = has_row-has_job json job.id rows jobs h ∙ new in
          let row : QueueRow = record {
            id = job.id;
            job = text;
            position = next_position (max_position rows);
            queued_at = now;
          } in
          let kept =
            snoc-IsQueueOf json rows jobs row job h (json.unmarshal-marshal job text p) refl
              (next_position-IsUnder rows) absent in
          let inserted : enqueue json good_call now (some job) rows ≡ (inr tt, rows ++ row ∷ []) =
            ground (arith, named, p, absent) in
          subst (λ q. (of_unit q.0 ≡ of_unit (inr tt)) × IsQueueOf json q.1 (jobs ++ job ∷ []))
            (sym inserted) (refl, kept)
    ]

dequeue-AgreeOn :
    (json : JobJson) (rows : List QueueRow) (jobs : List Job)
    → IsQueueOf json rows jobs
    → AgreeOn json do_dequeue rows jobs
unfolding dequeue dequeue_row memory_dequeue
dequeue-AgreeOn json [] [] h = (refl, tt)
dequeue-AgreeOn json [] (job ∷ jobs) h = absurd h
dequeue-AgreeOn json (r ∷ rows) [] h = absurd h
dequeue-AgreeOn json (r ∷ rows) (job ∷ jobs) h =
    let (text, same, below, once, rest) = h in
    let first = front-IsQueueOf json r rows (job ∷ jobs) h in
    let behind : delete_row r.id (r ∷ rows) ≡ rows =
      subst (λ b. (if b then delete_row r.id rows else r ∷ delete_row r.id rows) ≡ rows)
        (sym (str_eq_self r.id)) (delete-absent r.id rows once) in
    subst
      (λ o.
        (of_job (dequeue_row json good_call o (r ∷ rows)).0 ≡ of_job (inr (some job)))
        × IsQueueOf json (dequeue_row json good_call o (r ∷ rows)).1 jobs)
      (sym first)
      (ap (λ j. of_job (parsed j)) text, subst (λ l. IsQueueOf json l jobs) (sym behind) rest)

peek-AgreeOn :
    (json : JobJson) (rows : List QueueRow) (jobs : List Job)
    → IsQueueOf json rows jobs
    → AgreeOn json do_peek rows jobs
unfolding peek memory_peek
peek-AgreeOn json [] [] h = (refl, tt)
peek-AgreeOn json [] (job ∷ jobs) h = absurd h
peek-AgreeOn json (r ∷ rows) [] h = absurd h
peek-AgreeOn json (r ∷ rows) (job ∷ jobs) h =
    let (text, same, below, once, rest) = h in
    let first = front-IsQueueOf json r rows (job ∷ jobs) h in
    (
      subst (λ o. of_job (peek_row json o) ≡ of_job (inr (some job))) (sym first)
          (ap (λ j. of_job (parsed j)) text),
      h,
    )

step-AgreeOn :
    (json : JobJson) (op : QueueOp) (rows : List QueueRow) (jobs : List Job)
    → IsQueueOf json rows jobs
    → IsFresh json op jobs
    → AgreeOn json op rows jobs
unfolding enqueue memory_enqueue size memory_size remove
step-AgreeOn json (do_enqueue now none) rows jobs h fresh = (refl, h)
step-AgreeOn json (do_enqueue now (some job)) rows jobs h fresh =
    enqueue-AgreeOn json now job rows jobs h fresh
step-AgreeOn json do_dequeue rows jobs h fresh = dequeue-AgreeOn json rows jobs h
step-AgreeOn json do_peek rows jobs h fresh = peek-AgreeOn json rows jobs h
step-AgreeOn json do_size rows jobs h fresh =
    (ap (λ n. of_size (inr n)) (length-rows json rows jobs h), h)
step-AgreeOn json (do_remove id) rows jobs h fresh =
    let (reply, kept) = delete_IsQueueOf json id rows jobs h in (ap of_unit (sym reply), kept)

-- When rows stand for a list of jobs, and no job that is put into the queue is in it then, has an
-- empty id or fails to be encoded, any sequence of calls that the database serves gives the replies
-- that the queue in memory gives: the table is a queue that is first in, first out.
pub sqlite_refines_memory :
    (json : JobJson) (ops : List QueueOp) (rows : List QueueRow) (jobs : List Job)
    → IsQueueOf json rows jobs
    → IsFreshRun json ops jobs
    → sql_replies json ops rows ≡ memory_replies ops jobs
sqlite_refines_memory json [] rows jobs h fresh = refl
sqlite_refines_memory json (op ∷ ops) rows jobs h (now, later) =
    let (same, kept) = step-AgreeOn json op rows jobs h now in
    let rest =
      sqlite_refines_memory json ops (sql_step json op rows).1 (memory_step op jobs).1 kept later in
    subst₂ (λ r l. r ∷ l ≡ memory_replies (op ∷ ops) jobs) (sym same) (sym rest) refl
