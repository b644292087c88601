-- ===== src/Concurrency.antt =====
-- The guards that keep two runs of the pipeline apart
-- (internal/mod/migration/pipeline_concurrency.go): the running migrations, the slots and the locks
-- on servers.
pub mod Counts
pub mod Runs
pub mod Exclusion
pub mod Slots
use meshium.Prelude.{
  ℕ, suc, ◌-◌, Bool, true, false, ◌||◌, ◌&&◌, not, if◌then◌else◌, ltb, ◌==◌, Option, none, some,
  List, [], ◌∷◌,
}

-- A Go map with numbers for keys; a missing key reads as zero.
abbrev pub assign {ℓ} : {A : Type ℓ} → (ℕ → A) → ℕ → A → ℕ → A
assign f k v i = if i == k then v else f i

-- runningPipelines: LoadOrStore, which says whether the migration was free, and Delete.
unfoldable pub try_acquire : ℕ → (ℕ → Bool) → Bool × (ℕ → Bool)
try_acquire id running = (not (running id), assign running id true)

unfoldable pub release : ℕ → (ℕ → Bool) → ℕ → Bool
release id running = assign running id false

-- Whether none of the servers is held; server 0 stands for none.
unfoldable pub can_acquire_resource : List ℕ → (ℕ → ℕ) → Bool
can_acquire_resource [] locks = true
can_acquire_resource (s ∷ rest) locks =
    if not (s == 0) && ltb 0 (locks s) then false else can_acquire_resource rest locks

-- The claimed servers and the counts after claiming them.
unfoldable pub acquire_resource_locks : List ℕ → (ℕ → ℕ) → List ℕ × (ℕ → ℕ)
acquire_resource_locks [] locks = ([], locks)
acquire_resource_locks (s ∷ rest) locks =
    if s == 0
    then acquire_resource_locks rest locks
    else (let (claimed, locks') = acquire_resource_locks rest (assign locks s (suc (locks s))) in
        (s ∷ claimed, locks'))

-- The check and the claim in one critical section; nothing is claimed when a server is held.
unfoldable pub try_acquire_resource : List ℕ → (ℕ → ℕ) → Option (List ℕ) × (ℕ → ℕ)
unfolding can_acquire_resource acquire_resource_locks
try_acquire_resource servers locks =
    if can_acquire_resource servers locks
    then (let (claimed, locks') = acquire_resource_locks servers locks in (some claimed, locks'))
    else (none, locks)

unfoldable pub release_resource_locks : List ℕ → (ℕ → ℕ) → ℕ → ℕ
release_resource_locks [] locks = locks
release_resource_locks (s ∷ rest) locks =
    release_resource_locks rest
      (if ltb 1 (locks s) then assign locks s (locks s - 1) else assign locks s 0)

-- The semaphore: a channel with a capacity and the number of values in it.
pub record Semaphore : Type 0 where
  pub capacity : ℕ
  pub taken : ℕ

unfoldable pub set_max_concurrent : ℕ → Semaphore → Semaphore
set_max_concurrent n sem = if ltb n 1 then sem else record { capacity = n; taken = 0 }

-- A send: none where it would block.
unfoldable pub acquire_slot : Semaphore → Option Semaphore
acquire_slot sem =
    if ltb sem.taken sem.capacity then some (record sem { taken = suc sem.taken }) else none

-- A receive: none where it would block.
unfoldable pub release_slot : Semaphore → Option Semaphore
release_slot sem = if ltb 0 sem.taken then some (record sem { taken = sem.taken - 1 }) else none
