-- ===== src/Fencing/Tokens.antt =====
-- Fence tokens only grow (internal/mod/migration/fencing_authority.go): a holder that was superseded
-- never passes the fence again.
use meshium.Prelude.{
  ℕ, ◌≡◌, ◌≢◌, ◌≤◌, ◌<◌, ◌↔◌, ap, true, false, ◌⊎◌, none, some, String, List, [], ◌∷◌, arith,
}
use text.Mathlib.TextEquality.{eq_iff}
use meshium.Fencing.{
  FenceLease, granted, Table, Times, Call, is_released, is_live, take_lease, acquire_from, acquire,
  renew, release, set_state, check_row, assert_holds,
}

-- The calls on the row of one migration, by any callers.
pub data Request : Type 0 where
  acquiring : Call → String → String → Request
  renewing releasing : Call → FenceLease → Request
  setting : Call → FenceLease → String → Request

-- The token of the row, or zero.
abbrev pub current_token : Table → ℕ
current_token none = 0
current_token (some row) = row.fence_token

module _ (times : Times) where
  unfoldable pub serve : Request → Table → Table
  serve (acquiring c holder state) table = (acquire times c holder state table).1
  serve (renewing c lease) table = (renew times c lease table).1
  serve (releasing c lease) table = (release times c lease table).1
  serve (setting c lease state) table = (set_state times c lease state table).1

  unfoldable pub serve_all : List Request → Table → Table
  unfolding serve
  serve_all [] table = table
  serve_all (r ∷ rest) table = serve_all rest (serve r table)

  serve-token : (r : Request) (table : Table) → current_token table ≤ current_token (serve r table)
  unfolding serve acquire acquire_from take_lease renew release set_state
  serve-token (acquiring c holder state) none = ground arith
  serve-token (acquiring c holder state) (some row) = ground arith
  serve-token (renewing c lease) none = ground arith
  serve-token (renewing c lease) (some row) = ground arith
  serve-token (releasing c lease) none = ground arith
  serve-token (releasing c lease) (some row) = ground arith
  serve-token (setting c lease state) none = ground arith
  serve-token (setting c lease state) (some row) = ground arith

  serve_all-token :
      (l : List Request) (table : Table) → current_token table ≤ current_token (serve_all l table)
  unfolding serve_all
  serve_all-token [] table = omega arith
  serve_all-token (r ∷ rest) table =
      omega (arith, serve-token r table, serve_all-token rest (serve r table))

  -- A granted Acquire either confirms the caller's own live lease or gives a token above every earlier
  -- one, in a fresh lease in the caller's name and the asked state; the row is that lease.
  pub acquire-granted :
      (c : Call) (holder state : String) (table : Table) (l : FenceLease)
      → (acquire times c holder state table).0 ≡ granted l
      → ((acquire times c holder state table).1 ≡ some l)
        × (l.holder ≡ holder)
        × (((table ≡ some l) × (is_released l ≡ false) × (is_live times c.now l ≡ true))
            ⊎ ((current_token table < l.fence_token) × (l.state ≡ state) × (l.released_at ≡ none)))
  unfolding acquire acquire_from take_lease
  acquire-granted c holder state none l h = ground arith
  acquire-granted c holder state (some row) l h = ground (arith, (eq_iff row.holder holder).0)

  -- AssertHolds passes exactly when the read works and the row is a lease that is not released, has
  -- the caller's holder and token, has not expired, and is in the expected state if one is asked for.
  pub assert_holds_iff :
      (c : Call) (holder : String) (token : ℕ) (expected : String) (table : Table) (l : FenceLease)
      → (assert_holds times c holder token expected table ≡ granted l) ↔ (
          (c.read_fails ≡ false)
          × (table ≡ some l)
          × (is_released l ≡ false)
          × (l.holder ≡ holder)
          × (l.fence_token ≡ token)
          × (is_live times c.now l ≡ true)
          × ((expected ≡ "") ⊎ (l.state ≡ expected)))
  unfolding assert_holds check_row
  assert_holds_iff c holder token expected none l = ground arith
  assert_holds_iff c holder token expected (some row) l =
      ground (arith, eq_iff row.holder holder, eq_iff expected "", eq_iff row.state expected)

  -- Once a later lease has been given, no caller with an earlier token passes AssertHolds again,
  -- whatever calls come in between.
  pub superseded :
      (l : List Request) (table : Table) (c : Call) (holder : String) (token : ℕ)
      (expected : String) (lease : FenceLease)
      → token < current_token table
      → assert_holds times c holder token expected (serve_all l table) ≢ granted lease
  superseded l table c holder token expected lease h e =
      let (_, found, _, _, same, _, _) =
        (assert_holds_iff c holder token expected (serve_all l table) lease).0 e in
      ground (arith, h, serve_all-token l table, ap current_token found, same)
