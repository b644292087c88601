-- ===== src/Transfer/Reconciled.antt =====
-- What a verdict of Reconcile (internal/mod/transfer/checkpoint.go) tells of the checkpoint.
use meshium.Prelude.{◌≡◌, ◌≢◌, true, false, Option, none, some, String, ◌↔◌, ◌⊎◌, inl, inr, arith}
use text.Mathlib.Text.{◌==◌ as str_eq}
use text.Mathlib.TextEquality.{eq_iff}
use meshium.Transfer.{
  TransferCheckpoint, ReconcileEvidence, reconcile, resume, fresh_start, manual_intervention,
  differs,
}

-- Of two fingerprints one is unknown, or they are the same.
abbrev pub Agree : String → String → Type 0
Agree old current = (old ≡ "") ⊎ ((current ≡ "") ⊎ (old ≡ current))

known_same :
    (old current : String)
    → differs old current ≡ false
    → (str_eq old "" ≡ true) ⊎ ((str_eq current "" ≡ true) ⊎ (str_eq old current ≡ true))
known_same old current h = ground (arith, h)

differs_iff : (old current : String) → (differs old current ≡ false) ↔ Agree old current
differs_iff old current = (
  λ h. elim (known_same old current h) [
    | inl e ↦ inl ((eq_iff old "").0 e)
    | inr (inl e) ↦ inr (inl ((eq_iff current "").0 e))
    | inr (inr e) ↦ inr (inr ((eq_iff old current).0 e))
  ],
  λ a. elim a [
    | inl e ↦ let h = (eq_iff old "").1 e in ground (arith, h)
    | inr (inl e) ↦ let h = (eq_iff current "").1 e in ground (arith, h)
    | inr (inr e) ↦ let h = (eq_iff old current).1 e in ground (arith, h)
  ],
)

-- There is a checkpoint, and nothing is known that speaks against it.
abbrev pub IsResumable : Option TransferCheckpoint → ReconcileEvidence → Type 0
IsResumable none ev = ⊥
IsResumable (some cp) ev =
    (ev.strategy_still_valid ≡ true)
    × (ev.partial_target_exists ≡ true)
    × Agree cp.source_snapshot ev.current_source_snapshot
    × Agree cp.target_partial_state ev.current_target_partial_state

-- A transfer is resumed exactly when there is a checkpoint, its strategy is still valid, its partial
-- target is there, and for the source and for the partial target the old and the current fingerprint
-- are the same or one of them is unknown.
pub reconcile-resume :
    (o : Option TransferCheckpoint) (ev : ReconcileEvidence)
    → ((reconcile o ev).0 ≡ resume) ↔ IsResumable o ev
unfolding reconcile
reconcile-resume none ev = (λ h. cc, λ b. elim b [ ])
reconcile-resume (some cp) ev =
    let x = differs_iff cp.source_snapshot ev.current_source_snapshot in
    let y = differs_iff cp.target_partial_state ev.current_target_partial_state in
    (
      λ h. let (v, p, a, b) = tests h in (v, p, x.0 a, y.0 b),
      λ (v, p, a, b). let d = x.1 a in let e = y.1 b in ground (arith, v, p, d, e),
    )
  where
    tests :
        (reconcile (some cp) ev).0 ≡ resume
        → (ev.strategy_still_valid ≡ true)
          × (ev.partial_target_exists ≡ true)
          × (differs cp.source_snapshot ev.current_source_snapshot ≡ false)
          × (differs cp.target_partial_state ev.current_target_partial_state ≡ false)
    tests h = ground (arith, h)

-- A transfer for which there is a checkpoint starts afresh only when there is no partial target and no
-- byte was transferred; and an operator is asked for exactly when the verdict comes with an error.
pub reconcile_otherwise :
    (cp : TransferCheckpoint) (ev : ReconcileEvidence)
    → ((reconcile (some cp) ev).0 ≡ fresh_start
        → (ev.partial_target_exists ≡ false) × (cp.bytes_transferred ≡ 0))
      × (((reconcile (some cp) ev).0 ≡ manual_intervention) ↔ ((reconcile (some cp) ev).1 ≢ none))
unfolding reconcile
reconcile_otherwise cp ev =
    (λ h. ground (arith, h), (λ h. ground (arith, h), λ h. ground (arith, h)))
