-- ===== src/Concurrency/Counts.antt =====
-- What the locks on servers (internal/mod/migration/pipeline_concurrency.go) count.
use meshium.Prelude.{ℕ, suc, ◌+◌, ◌-◌, true, ◌≡◌, ◌≢◌, if◌then◌else◌, ◌==◌, List, [], ◌∷◌, arith}
use meshium.Concurrency.{
  assign, can_acquire_resource, acquire_resource_locks, release_resource_locks,
}

-- How often a server is in a list.
abbrev pub count : ℕ → List ℕ → ℕ
count s [] = 0
count s (t ∷ rest) = if s == t then suc (count s rest) else count s rest

pub claims_counted :
    (servers : List ℕ) (locks : ℕ → ℕ) (s : ℕ)
    → (acquire_resource_locks servers locks).1 s
      ≡ locks s + count s (acquire_resource_locks servers locks).0
unfolding acquire_resource_locks
claims_counted [] locks s = omega arith
claims_counted (t ∷ rest) locks s =
    ground
      (arith, claims_counted rest locks s, claims_counted rest (assign locks t (suc (locks t))) s)

pub claimed_count :
    (servers : List ℕ) (locks : ℕ → ℕ) (s : ℕ)
    → count s (acquire_resource_locks servers locks).0 ≡ (if s == 0 then 0 else count s servers)
unfolding acquire_resource_locks
claimed_count [] locks s = ground arith
claimed_count (t ∷ rest) locks s =
    ground
      (arith, claimed_count rest locks s, claimed_count rest (assign locks t (suc (locks t))) s)

pub releases_counted :
    (held : List ℕ) (locks : ℕ → ℕ) (s : ℕ)
    → release_resource_locks held locks s ≡ locks s - count s held
unfolding release_resource_locks
releases_counted [] locks s = omega arith
releases_counted (t ∷ rest) locks s = ground (
  arith,
  releases_counted rest (assign locks t (locks t - 1)) s,
  releases_counted rest (assign locks t 0) s,
)

pub free_unclaimed :
    (servers : List ℕ) (locks : ℕ → ℕ) (s : ℕ)
    → can_acquire_resource servers locks ≡ true
    → s ≢ 0
    → count s servers ≢ 0
    → locks s ≡ 0
unfolding can_acquire_resource
free_unclaimed [] locks s h n c = ground arith
free_unclaimed (t ∷ rest) locks s h n c = ground (arith, free_unclaimed rest locks s)
