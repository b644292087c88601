-- ===== src/Transfer/Checkpoints.antt =====
-- The table of checkpoints (internal/mod/transfer/checkpoint.go): what is read back of what is saved.
use meshium.Prelude.{
  ℕ, ◌≡◌, refl, sym, ap, subst₂, true, false, ◌&&◌, if◌then◌else◌, Option, none, some, String, List,
  [], ◌∷◌, inl, inr, str_eq_self, Bool-cases, arith,
}
use text.Mathlib.Text.{◌==◌ as str_eq}
use text.Mathlib.TextEquality.{eq_iff}
use meshium.Transfer.{
  TransferCheckpoint, upsert, is_at, save_checkpoint, get_checkpoint, delete_checkpoint,
}

-- The checkpoint that is found after `new` was put on what was found before: of an old row, its id, its
-- key, the migration, the category, the hosts, the paths and the start remain.
abbrev pub put_on : TransferCheckpoint → Option TransferCheckpoint → TransferCheckpoint
put_on new none = new
put_on new (some old) = record {
  id = old.id;
  transfer_id = old.transfer_id;
  migration_id = old.migration_id;
  category = old.category;
  file_name = old.file_name;
  strategy = new.strategy;
  mode = new.mode;
  source_host = old.source_host;
  source_path = old.source_path;
  target_host = old.target_host;
  target_path = old.target_path;
  total_bytes = new.total_bytes;
  bytes_transferred = new.bytes_transferred;
  resumable = new.resumable;
  source_snapshot = new.source_snapshot;
  target_partial_state = new.target_partial_state;
  checksum_source = new.checksum_source;
  checksum_target = new.checksum_target;
  last_verified_phase = new.last_verified_phase;
  started_at = old.started_at;
  updated_at = new.updated_at;
}

get_checkpoint-upsert :
    (new : TransferCheckpoint) (rows : List TransferCheckpoint)
    → get_checkpoint new.transfer_id new.file_name (upsert new rows)
      ≡ some (put_on new (get_checkpoint new.transfer_id new.file_name rows))
unfolding get_checkpoint
get_checkpoint-upsert new [] =
    ground (arith, str_eq_self new.transfer_id, str_eq_self new.file_name)
get_checkpoint-upsert new (cp ∷ rows) = elim (Bool-cases (is_at new.transfer_id new.file_name cp)) [
  | inl e ↦ rw e (rw e refl)
  | inr e ↦ rw e (rw e (get_checkpoint-upsert new rows))
]

other_key :
    (t f : String) (new cp : TransferCheckpoint)
    → is_at new.transfer_id new.file_name cp ≡ true
    → is_at t f new ≡ false
    → is_at t f cp ≡ false
other_key t f new cp e h =
    let (tid, file) = split e in
    subst₂ (λ a b. (str_eq a t && str_eq b f) ≡ false) (sym tid) (sym file) h
  where
    split :
        is_at new.transfer_id new.file_name cp ≡ true
        → (cp.transfer_id ≡ new.transfer_id) × (cp.file_name ≡ new.file_name)
    split h = (
      (eq_iff cp.transfer_id new.transfer_id).0 (ground (arith, h)),
      (eq_iff cp.file_name new.file_name).0 (ground (arith, h)),
    )

get_checkpoint-other :
    (t f : String) (new : TransferCheckpoint) (rows : List TransferCheckpoint)
    → is_at t f new ≡ false
    → get_checkpoint t f (upsert new rows) ≡ get_checkpoint t f rows
unfolding get_checkpoint
get_checkpoint-other t f new [] h = rw h refl
get_checkpoint-other t f new (cp ∷ rows) h =
    elim (Bool-cases (is_at new.transfer_id new.file_name cp)) [
      | inl e ↦ let away = other_key t f new cp e h in rw e (rw away refl)
      | inr e ↦
          rw e (ap (λ o. if is_at t f cp then some cp else o) (get_checkpoint-other t f new rows h))
    ]

get_checkpoint-delete :
    (t f : String) (rows : List TransferCheckpoint)
    → get_checkpoint t f (delete_checkpoint t f rows) ≡ none
unfolding get_checkpoint delete_checkpoint
get_checkpoint-delete t f [] = refl
get_checkpoint-delete t f (cp ∷ rows) = elim (Bool-cases (is_at t f cp)) [
  | inl e ↦ rw e (get_checkpoint-delete t f rows)
  | inr e ↦ rw e (rw e (get_checkpoint-delete t f rows))
]

keys_differ :
    (t f u g : String) (cp : TransferCheckpoint)
    → (str_eq t u && str_eq f g) ≡ false
    → is_at t f cp ≡ true
    → is_at u g cp ≡ false
keys_differ t f u g cp h e =
    subst₂ (λ a b. (str_eq a u && str_eq b g) ≡ false)
      (sym ((eq_iff cp.transfer_id t).0 (ground (arith, e))))
      (sym ((eq_iff cp.file_name f).0 (ground (arith, e)))) h

get_checkpoint-delete_other :
    (t f u g : String) (rows : List TransferCheckpoint)
    → (str_eq t u && str_eq f g) ≡ false
    → get_checkpoint u g (delete_checkpoint t f rows) ≡ get_checkpoint u g rows
unfolding get_checkpoint delete_checkpoint
get_checkpoint-delete_other t f u g [] h = refl
get_checkpoint-delete_other t f u g (cp ∷ rows) h = elim (Bool-cases (is_at t f cp)) [
  | inl e ↦
      let away = keys_differ t f u g cp h e in
      rw e (rw away (get_checkpoint-delete_other t f u g rows h))
  | inr e ↦
      rw e
        (ap (λ o. if is_at u g cp then some cp else o) (get_checkpoint-delete_other t f u g rows h))
]

-- The row that SaveCheckpoint writes when there is none yet.
abbrev pub stamped : String → ℕ → TransferCheckpoint → TransferCheckpoint
stamped now id cp = record cp {
  id = id;
  started_at = (if str_eq cp.started_at "" then now else cp.started_at);
  updated_at = now;
}

-- A checkpoint that is saved without an error is read back under its key: as it was given, with its times
-- and the new id, when the key is new, and otherwise with the id, hosts, paths, category, migration and
-- start of the row that was there and with all else as it was given; other keys read what they read
-- before. A checkpoint that is deleted is not found, and other keys then read what they read before.
pub save_checkpoint-get_checkpoint :
    (now : String) (id : ℕ) (cp : TransferCheckpoint) (rows : List TransferCheckpoint)
    (t f : String)
    → (get_checkpoint cp.transfer_id cp.file_name (save_checkpoint false now id cp rows).1
        ≡ some (put_on (stamped now id cp) (get_checkpoint cp.transfer_id cp.file_name rows)))
      × (is_at t f cp ≡ false
          → get_checkpoint t f (save_checkpoint false now id cp rows).1 ≡ get_checkpoint t f rows)
      × (get_checkpoint t f (delete_checkpoint t f rows) ≡ none)
      × ((u g : String)
          → (str_eq t u && str_eq f g) ≡ false
          → get_checkpoint u g (delete_checkpoint t f rows) ≡ get_checkpoint u g rows)
unfolding save_checkpoint
save_checkpoint-get_checkpoint now id cp rows t f = (
  get_checkpoint-upsert (stamped now id cp) rows,
  get_checkpoint-other t f (stamped now id cp) rows,
  get_checkpoint-delete t f rows,
  λ u g h. get_checkpoint-delete_other t f u g rows h,
)
