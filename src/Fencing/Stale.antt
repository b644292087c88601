-- ===== src/Fencing/Stale.antt =====
-- Who can change a lease that is not released, and what becomes of an expired one
-- (internal/mod/migration/fencing_authority.go).
use meshium.Prelude.{
  ℕ, ◌+◌, ◌<◌, ◌≡◌, ◌≢◌, refl, true, false, inr, none, some, String, List, [], ◌∷◌, All, arith,
  lt→ltb, ==_self,
}
use text.Mathlib.TextEquality.{eq_iff}
use meshium.Fencing.{
  FenceLease, granted, refused, Times, Call, is_released, is_of, is_live, take_lease, fresh,
  next_token, acquire_from, acquire, renew, release, set_state, check_row, assert_holds,
  lease_not_held,
}
use meshium.Fencing.Tokens.{
  Request, acquiring, renewing, releasing, setting, serve, serve_all, assert_holds_iff,
}

-- A request that is not made with the row's own lease.
abbrev pub Foreign : FenceLease → Request → Type 0
Foreign row (acquiring c holder state) = Unit {0}
Foreign row (renewing c lease) = is_of lease row ≡ false
Foreign row (releasing c lease) = is_of lease row ≡ false
Foreign row (setting c lease state) = row.id ≢ lease.id

-- A call in which the table works.
abbrev pub working : ℕ → Call
working now = record { read_fails = false; write_fails = false; now = now; next_id = 0 }

module _ (times : Times) where
  serve-Foreign :
      (r : Request) (row : FenceLease)
      → is_released row ≡ false
      → Foreign row r
      → serve times r (some row) ≡ some row
  unfolding serve acquire acquire_from renew release set_state
  serve-Foreign (acquiring c holder state) row u f = ground arith
  serve-Foreign (renewing c lease) row u f = ground arith
  serve-Foreign (releasing c lease) row u f = ground arith
  serve-Foreign (setting c lease state) row u f = ground arith

  -- A lease that is not released, live or expired, stays as it is through any calls of others: any
  -- Acquire at any time, and the Renew, Release and SetState of other leases.
  pub unreleased_kept :
      (l : List Request) (row : FenceLease)
      → is_released row ≡ false
      → All (Foreign row) l
      → serve_all times l (some row) ≡ some row
  unfolding serve_all
  unreleased_kept [] row u a = refl
  unreleased_kept (r ∷ rest) row u (f, a) =
      rw (serve-Foreign r row u f) (unreleased_kept rest row u a)

  -- No Acquire, by whichever holder, gets past a lease that has expired without a release.
  pub stale_refused :
      (l : List Request) (row : FenceLease) (c : Call) (holder state : String) (lease : FenceLease)
      → is_released row ≡ false
      → All (Foreign row) l
      → is_live times c.now row ≡ false
      → (acquire times c holder state (serve_all times l (some row))).0 ≢ granted lease
  unfolding acquire acquire_from
  stale_refused l row c holder state lease u a d =
      rw (unreleased_kept l row u a) (ground (arith, u, d))

  is_of_self : (row : FenceLease) → row.released_at ≡ none → is_of row row ≡ true
  is_of_self row n =
      ground
        (arith, (eq_iff row.holder row.holder).1 refl, ==_self row.id, ==_self row.fence_token, n)

  pub fresh_live :
      (now : ℕ) (l : FenceLease)
      → 0 < times.ttl
      → ((t : ℕ) → times.parse_time (times.format t) ≡ some t)
      → l.expires_at ≡ times.format (now + times.ttl)
      → is_live times now l ≡ true
  fresh_live now l t p e =
      rw (e, p (now + times.ttl)) (lt→ltb now (now + times.ttl) (omega (arith, t)))

  -- Renew does not ask whether the lease has expired: a lease that its holder has let expire is live
  -- again after a Renew, and passes AssertHolds.
  pub renew_revives :
      (row : FenceLease) (now : ℕ)
      → is_released row ≡ false
      → row.released_at ≡ none
      → is_live times now row ≡ false
      → 0 < times.ttl
      → ((t : ℕ) → times.parse_time (times.format t) ≡ some t)
      → (lease : FenceLease) × (assert_holds times
            (working now)
            row.holder
            row.fence_token
            row.state
            (renew times (working now) row (some row)).1
          ≡ granted lease)
  unfolding renew
  renew_revives row now u n d t p =
      let l : FenceLease = record row {
        expires_at = times.format (now + times.ttl);
        renewed_at = some times.stamp;
      } in
      rw (is_of_self row n) (
        l,
        (assert_holds_iff times (working now) row.holder row.fence_token row.state (some l) l).1
            (refl, refl, u, refl, refl, fresh_live now l t p refl, inr refl),
      )

  -- A holder that has released its lease and was followed by another can still set the state of the
  -- follower's lease, since the row is the same one; the follower then fails AssertHolds in its own state.
  pub superseded_set_state :
      (row : FenceLease) (now : ℕ) (holder state : String)
      → is_released row ≡ true
      → state ≢ ""
      → row.state ≢ state
      → 0 < times.ttl
      → ((t : ℕ) → times.parse_time (times.format t) ≡ some t)
      → (lease : FenceLease) × ((acquire times (working now) holder state (some row)).0
          ≡ granted lease)
        × (assert_holds times
              (working now)
              holder
              lease.fence_token
              state
              (set_state times
                (working now)
                row
                row.state
                (acquire times (working now) holder state (some row)).1).1
            ≡ refused lease_not_held)
  unfolding acquire acquire_from take_lease set_state assert_holds check_row
  superseded_set_state row now holder state u e n t p =
      let l = fresh times (working now) holder state row.id (next_token times (some row)) in
      rw (u, ==_self row.id)
        (
          l,
          refl,
          ground (
            arith,
            eq_iff holder holder,
            ==_self l.fence_token,
            eq_iff state "",
            eq_iff row.state state,
            fresh_live now l t p refl,
            e,
            n,
          ),
        )
