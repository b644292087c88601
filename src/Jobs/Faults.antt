-- ===== src/Jobs/Faults.antt =====
-- Calls of the queue in SQLite (internal/jobengine/queue.go) that fail.
use meshium.Prelude.{
  ℕ, ◌≡◌, refl, ap, false, if◌then◌else◌, Option, none, some, String, List, [], ◌∷◌, ◌⊎◌, inl, inr,
  Bool-cases, Option-cases, arith,
}
use mathlib.Core.List.{foldr}
use text.Mathlib.Text.{◌==◌ as str_eq}
use meshium.Jobs.{Job, JobJson, Call}
use meshium.Jobs.Queue.{
  QueueError, QueueRow, front, insert_row, enqueue, dequeue, dequeue_row, remove, unmarshal_failed,
  delete_row,
}
use meshium.Jobs.Fifo.{delete-absent}

insert_row-keeps :
    (call : Call) (job : Job) (now : ℕ) (text : Option String) (rows : List QueueRow)
    (e : QueueError)
    → (insert_row call job now text rows).0 ≡ inl e
    → (insert_row call job now text rows).1 ≡ rows
unfolding insert_row
insert_row-keeps call job now none rows e h = refl
insert_row-keeps call job now (some text) rows e h = ground (arith, h)

enqueue-keeps :
    (json : JobJson) (call : Call) (now : ℕ) (job : Option Job) (rows : List QueueRow)
    (e : QueueError)
    → (enqueue json call now job rows).0 ≡ inl e
    → (enqueue json call now job rows).1 ≡ rows
unfolding enqueue
enqueue-keeps json call now none rows e h = refl
enqueue-keeps json call now (some job) rows e h =
    ground (arith, h, insert_row-keeps call job now (json.marshal job) rows e)

-- The rows under other ids, in their order.
abbrev pub others : String → List QueueRow → List QueueRow
others id rows = foldr (λ r rest. if str_eq r.id id then rest else r ∷ rest) [] rows

delete_row-others : (id : String) (rows : List QueueRow) → delete_row id rows ≡ others id rows
delete_row-others id [] = refl
delete_row-others id (r ∷ rows) =
    ap (λ rest. if str_eq r.id id then rest else r ∷ rest) (delete_row-others id rows)

dequeue_row-keeps :
    (json : JobJson) (call : Call) (row : Option QueueRow) (rows : List QueueRow) (e : QueueError)
    → (dequeue_row json call row rows).0 ≡ inl e
    → ((dequeue_row json call row rows).1 ≡ rows)
      ⊎ ((e ≡ unmarshal_failed)
          × ((r : QueueRow) × (row ≡ some r)
              × ((dequeue_row json call row rows).1 ≡ others r.id rows)))
unfolding dequeue_row
dequeue_row-keeps json call none rows e h = inl refl
dequeue_row-keeps json call (some r) rows e h = elim (Option-cases (json.unmarshal r.job)) [
  | inl p ↦ elim (Bool-cases call.exec_fails) [
    | inl x ↦ rw x (inl refl)
    | inr x ↦ elim (Bool-cases call.commit_fails) [
      | inl c ↦ rw (x, c) (inl refl)
      | inr c ↦ rw (x, c) (inr (unreadable p x c, (r, refl, delete_row-others r.id rows)))
    ]
  ]
  | inr (job, p) ↦ ground (arith, h, p)
]
  where
    unreadable :
        json.unmarshal r.job ≡ none
        → call.exec_fails ≡ false
        → call.commit_fails ≡ false
        → e ≡ unmarshal_failed
    unreadable p x c = ground (arith, h, p, x, c)

dequeue-keeps :
    (json : JobJson) (call : Call) (rows : List QueueRow) (e : QueueError)
    → (dequeue json call rows).0 ≡ inl e
    → ((dequeue json call rows).1 ≡ rows)
      ⊎ ((e ≡ unmarshal_failed)
          × ((r : QueueRow) × (front rows ≡ some r)
              × ((dequeue json call rows).1 ≡ others r.id rows)))
unfolding dequeue
dequeue-keeps json call rows e = elim (Bool-cases call.ctx_done) [
  | inl c ↦ rw c (λ h. inl refl)
  | inr c ↦ elim (Bool-cases call.begin_fails) [
    | inl b ↦ rw (c, b) (λ h. inl refl)
    | inr b ↦ elim (Bool-cases call.query_fails) [
      | inl q ↦ rw (c, b, q) (λ h. inl refl)
      | inr q ↦ rw (c, b, q) (dequeue_row-keeps json call (front rows) rows e)
    ]
  ]
]

-- A call of the queue that fails leaves the rows as they were, whatever the context and the database
-- do, but for one case: Dequeue that cannot decode the job in front has removed that job's row, and
-- leaves the rows under other ids as they were.
pub queue_errors_keep :
    (json : JobJson) (call : Call) (now : ℕ) (job : Option Job) (id : String) (rows : List QueueRow)
    (e : QueueError)
    → ((enqueue json call now job rows).0 ≡ inl e → (enqueue json call now job rows).1 ≡ rows)
      × ((dequeue json call rows).0 ≡ inl e
          → ((dequeue json call rows).1 ≡ rows)
            ⊎ ((e ≡ unmarshal_failed)
                × ((r : QueueRow) × (front rows ≡ some r)
                    × ((dequeue json call rows).1 ≡ others r.id rows))))
      × ((remove call id rows).0 ≡ inl e → (remove call id rows).1 ≡ rows)
unfolding remove
queue_errors_keep json call now job id rows e = (
  enqueue-keeps json call now job rows e,
  dequeue-keeps json call rows e,
  λ h. ground (arith, h, delete-absent id rows),
)
