-- ===== src/Fencing.antt =====
-- The durable lease that fences a cutover: FencingAuthority (internal/mod/migration/fencing_authority.go)
-- over the lease table (pipeline_repo_stages.go), for the row of one migration.
pub mod Tokens
pub mod Stale
use meshium.Prelude.{
  ℕ, suc, ◌+◌, ◌≡◌, Bool, true, false, not, ◌&&◌, ◌||◌, if◌then◌else◌, ltb, leb, ◌==◌, Option, none,
  some, String,
}
use text.Mathlib.Text.{◌==◌ as str_eq}

-- A row of migration_fence_leases, less the migration's number.
pub record FenceLease : Type 0 where
  pub id : ℕ
  pub holder : String
  pub fence_token : ℕ
  pub state : String
  pub acquired_at : String
  pub expires_at : String
  pub renewed_at : Option String
  pub released_at : Option String

pub data FenceError : Type 0 where
  lease_not_held lease_conflict lease_stale repo_failed : FenceError

pub data Answer {ℓ} (A : Type ℓ) : Type ℓ where
  granted : A → Answer A
  refused : FenceError → Answer A

-- The row, if there is one: UNIQUE(migration_id).
abbrev pub Table : Type 0
Table = Option FenceLease

abbrev column_text : Option String → String
column_text none = ""
column_text (some s) = s

abbrev pub is_released : FenceLease → Bool
is_released l = not (str_eq (column_text l.released_at) "")

abbrev is_null : Option String → Bool
is_null none = true
is_null (some s) = false

-- The condition `id = ? AND holder = ? AND fence_token = ? AND released_at IS NULL`.
abbrev pub is_of : FenceLease → FenceLease → Bool
is_of lease row =
    row.id == lease.id
    && (str_eq row.holder lease.holder
        && (row.fence_token == lease.fence_token && is_null row.released_at))

-- What the authority does not decide: the text of a time and its reading, the text of
-- CURRENT_TIMESTAMP, and the lifetime of a lease.
pub record Times : Type 0 where
  pub parse_time : String → Option ℕ
  pub format : ℕ → String
  pub stamp : String
  pub ttl : ℕ

-- Whether the reads and the writes of the table fail in a call, and the clock.
pub record Call : Type 0 where
  pub read_fails : Bool
  pub write_fails : Bool
  pub now : ℕ
  pub next_id : ℕ

module _ (times : Times) where
  -- `expires.After(now)`; a text that is no time counts as expired.
  abbrev live_until : ℕ → Option ℕ → Bool
  live_until now none = false
  live_until now (some t) = ltb now t

  abbrev pub is_live : ℕ → FenceLease → Bool
  is_live now l = live_until now (times.parse_time l.expires_at)

  abbrev pub next_token : Table → ℕ
  next_token none = 1
  next_token (some l) = if leb 1 l.fence_token then suc l.fence_token else 1

  abbrev pub fresh : Call → String → String → ℕ → ℕ → FenceLease
  fresh c holder state id token = record {
    id = id;
    holder = holder;
    fence_token = token;
    state = state;
    acquired_at = times.format c.now;
    expires_at = times.format (c.now + times.ttl);
    renewed_at = none;
    released_at = none;
  }

  -- A new lease, in a new row or in the released one.
  unfoldable pub take_lease : Call → String → String → Table → Answer FenceLease × Table
  take_lease c holder state none =
      if c.write_fails
      then (refused lease_conflict, none)
      else (let l = fresh c holder state c.next_id 1 in (granted l, some l))
  take_lease c holder state (some row) =
      if c.write_fails
      then (refused repo_failed, some row)
      else (let l = fresh c holder state row.id (next_token (some row)) in (granted l, some l))

  -- What Acquire does with the row that it finds.
  unfoldable pub acquire_from : Call → String → String → Table → Answer FenceLease × Table
  unfolding take_lease
  acquire_from c holder state none = take_lease c holder state none
  acquire_from c holder state (some row) =
      if is_released row
      then take_lease c holder state (some row)
      else if is_live c.now row
      then (if str_eq row.holder holder
          then (granted row, some row)
          else (refused lease_conflict, some row))
      else (refused lease_stale, some row)

  unfoldable pub acquire : Call → String → String → Table → Answer FenceLease × Table
  unfolding acquire_from
  acquire c holder state table =
      if c.read_fails then (refused repo_failed, table) else acquire_from c holder state table

  -- An UPDATE of the row where it matches the lease; no row means that the lease is not held.
  abbrev update_matching :
      Bool → FenceLease → (FenceLease → FenceLease) → Table → Answer (Unit {0}) × Table
  update_matching true lease f table = (refused repo_failed, table)
  update_matching false lease f none = (refused lease_not_held, none)
  update_matching false lease f (some row) =
      if is_of lease row then (granted tt, some (f row)) else (refused lease_not_held, some row)

  -- Renew, Release and SetState of a lease that is nil are refused; these are the others.
  unfoldable pub renew : Call → FenceLease → Table → Answer (Unit {0}) × Table
  renew c lease table =
      update_matching c.write_fails lease
        (λ row. record row {
          expires_at = times.format (c.now + times.ttl);
          renewed_at = some times.stamp;
        })
        table

  unfoldable pub release : Call → FenceLease → Table → Answer (Unit {0}) × Table
  release c lease table =
      update_matching c.write_fails lease (λ row. record row { released_at = some times.stamp })
        table

  abbrev set_row : String → FenceLease → Table → Table
  set_row state lease none = none
  set_row state lease (some row) =
      if row.id == lease.id then some (record row { state = state }) else some row

  unfoldable pub set_state : Call → FenceLease → String → Table → Answer (Unit {0}) × Table
  set_state c lease state table =
      if c.write_fails
      then (refused repo_failed, table)
      else (granted tt, set_row state lease table)

  -- The checks of AssertHolds, in their order.
  unfoldable pub check_row : ℕ → String → ℕ → String → FenceLease → Answer FenceLease
  check_row now holder token expected row =
      if is_released row
      then refused lease_not_held
      else if not (str_eq row.holder holder) || not (row.fence_token == token)
      then refused lease_conflict
      else if is_live now row
      then (if not (str_eq expected "") && not (str_eq row.state expected)
          then refused lease_not_held
          else granted row)
      else refused lease_stale

  unfoldable pub assert_holds : Call → String → ℕ → String → Table → Answer FenceLease
  unfolding check_row
  assert_holds c holder token expected none =
      refused (if c.read_fails then repo_failed else lease_not_held)
  assert_holds c holder token expected (some row) =
      if c.read_fails then refused repo_failed else check_row c.now holder token expected row

  -- Load: the lease, and whether it is stale.
  unfoldable pub load : Call → Table → Answer (Option FenceLease × Bool)
  load c none = if c.read_fails then refused repo_failed else granted (none, false)
  load c (some row) =
      if c.read_fails
      then refused repo_failed
      else granted (some row, if is_released row then false else not (is_live c.now row))
