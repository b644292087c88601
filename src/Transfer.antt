-- ===== src/Transfer.antt =====
-- The checkpoints of transfers (internal/mod/transfer/checkpoint.go): how a restart decides what to do
-- with one, and the table that keeps them.
pub mod Reconciled
pub mod Checkpoints
use meshium.Prelude.{
  ℕ, Bool, true, false, not, ◌&&◌, if◌then◌else◌, ◌==◌, Option, none, some, String, List, [], ◌∷◌,
  ◌⊎◌, inl, inr,
}
use text.Mathlib.Text.{◌==◌ as str_eq}

pub data ReconcileVerdict : Type 0 where
  resume : ReconcileVerdict
  fresh_start : ReconcileVerdict
  manual_intervention : ReconcileVerdict

pub record TransferCheckpoint : Type 0 where
  pub id : ℕ
  pub transfer_id : String
  pub migration_id : ℕ
  pub category : String
  pub file_name : String
  pub strategy : String
  pub mode : String
  pub source_host : String
  pub source_path : String
  pub target_host : String
  pub target_path : String
  pub total_bytes : ℕ
  pub bytes_transferred : ℕ
  pub resumable : Bool
  pub source_snapshot : String
  pub target_partial_state : String
  pub checksum_source : String
  pub checksum_target : String
  pub last_verified_phase : String
  pub started_at : String
  pub updated_at : String

pub record ReconcileEvidence : Type 0 where
  pub current_source_snapshot : String
  pub partial_target_exists : Bool
  pub current_target_partial_state : String
  pub strategy_still_valid : Bool

-- The error ErrTransferReconcileFailed by its reason.
pub data ReconcileError : Type 0 where
  strategy_invalid : ReconcileError
  source_changed : ReconcileError
  partial_mismatch : ReconcileError
  partial_missing : ReconcileError

-- Both fingerprints are known and they differ.
abbrev pub differs : String → String → Bool
differs old current = not (str_eq old "") && not (str_eq current "") && not (str_eq old current)

-- Reconcile; none is the nil checkpoint or the nil error.
unfoldable pub reconcile :
    Option TransferCheckpoint → ReconcileEvidence → ReconcileVerdict × Option ReconcileError
reconcile none ev = (fresh_start, none)
reconcile (some cp) ev =
    if not ev.strategy_still_valid
    then (manual_intervention, some strategy_invalid)
    else if differs cp.source_snapshot ev.current_source_snapshot
    then (manual_intervention, some source_changed)
    else if not ev.partial_target_exists && cp.bytes_transferred == 0
    then (fresh_start, none)
    else if ev.partial_target_exists
        && differs cp.target_partial_state ev.current_target_partial_state
    then (manual_intervention, some partial_mismatch)
    else if ev.partial_target_exists
    then (resume, none)
    else (manual_intervention, some partial_missing)

abbrev pub is_at : String → String → TransferCheckpoint → Bool
is_at transfer_id file_name cp = str_eq cp.transfer_id transfer_id && str_eq cp.file_name file_name

-- `ON CONFLICT(transfer_id, file_name) DO UPDATE`: the columns that the statement sets.
abbrev pub updated : TransferCheckpoint → TransferCheckpoint → TransferCheckpoint
updated old new = record old {
  strategy = new.strategy;
  mode = new.mode;
  total_bytes = new.total_bytes;
  bytes_transferred = new.bytes_transferred;
  resumable = new.resumable;
  source_snapshot = new.source_snapshot;
  target_partial_state = new.target_partial_state;
  checksum_source = new.checksum_source;
  checksum_target = new.checksum_target;
  last_verified_phase = new.last_verified_phase;
  updated_at = new.updated_at;
}

abbrev pub upsert : TransferCheckpoint → List TransferCheckpoint → List TransferCheckpoint
upsert new [] = new ∷ []
upsert new (cp ∷ rest) =
    if is_at new.transfer_id new.file_name cp then updated cp new ∷ rest else cp ∷ upsert new rest

-- SaveCheckpoint at the time `now`, with the id that a new row gets; the Boolean says whether the
-- database refuses the write.
unfoldable pub save_checkpoint :
    Bool
    → String
    → ℕ
    → TransferCheckpoint
    → List TransferCheckpoint
    → Bool × List TransferCheckpoint
save_checkpoint fails now id cp rows =
    let started = if str_eq cp.started_at "" then now else cp.started_at in
    if fails
    then (false, rows)
    else (true, upsert (record cp { id = id; started_at = started; updated_at = now }) rows)

-- GetCheckpoint; none is the error of a missing row.
unfoldable pub get_checkpoint :
    String → String → List TransferCheckpoint → Option TransferCheckpoint
get_checkpoint transfer_id file_name [] = none
get_checkpoint transfer_id file_name (cp ∷ rest) =
    if is_at transfer_id file_name cp then some cp else get_checkpoint transfer_id file_name rest

unfoldable pub delete_checkpoint :
    String → String → List TransferCheckpoint → List TransferCheckpoint
delete_checkpoint transfer_id file_name [] = []
delete_checkpoint transfer_id file_name (cp ∷ rest) =
    let kept = delete_checkpoint transfer_id file_name rest in
    if is_at transfer_id file_name cp then kept else cp ∷ kept

unfoldable pub delete_checkpoints : String → List TransferCheckpoint → List TransferCheckpoint
delete_checkpoints transfer_id [] = []
delete_checkpoints transfer_id (cp ∷ rest) =
    let kept = delete_checkpoints transfer_id rest in
    if str_eq cp.transfer_id transfer_id then kept else cp ∷ kept
