-- ===== src/Samples/Risks.antt =====
-- Concrete inputs for the risk engine (internal/mod/migration/risk_engine.go) and for the checkpoints of
-- transfers (internal/mod/transfer/checkpoint.go).
use meshium.Prelude.{◌≤◌, ◌≡◌, ◌↔◌, refl, true, false, ◌&&◌, String, [], some, none, arith}
use text.Mathlib.Text.{◌==◌ as str_eq}
use meshium.Risk.{
  RiskInput, calculate_score, data_points, database_points, container_points, volume_points,
  queue_points, network_points, resource_points, issue_points, capped_score, seconds,
  estimate_downtime,
}
use meshium.Risk.Score.{calculate_score-IsLighter}
use meshium.Transfer.{
  TransferCheckpoint, ReconcileEvidence, reconcile, resume, is_at, save_checkpoint, get_checkpoint,
  delete_checkpoint,
}
use meshium.Transfer.Reconciled.{IsResumable, reconcile-resume}
use meshium.Transfer.Checkpoints.{put_on, stamped, save_checkpoint-get_checkpoint}

abbrev small_move : RiskInput
small_move = record {
  data_size_bytes = 1000;
  database_size_bytes = 1000;
  container_count = 2;
  volume_count = 1;
  queue_count = 0;
  replication_available = true;
  network_speed_mbps = 1000;
  source_cpu = 4;
  target_cpu = 4;
  source_ram_mb = 8192;
  target_ram_mb = 8192;
  compatibility_issues = 0;
  critical_issues = 0;
}

abbrev blocked_move : RiskInput
blocked_move = record small_move { container_count = 12; critical_issues = 1 }

score_test : (calculate_score small_move ≡ 20) × (calculate_score blocked_move ≡ 170)
unfolding calculate_score data_points database_points container_points volume_points queue_points
    network_points resource_points issue_points capped_score
score_test = (refl, refl)

downtime_test : estimate_downtime (λ i. "") small_move ≡ seconds 7
unfolding estimate_downtime
downtime_test = refl

calculate_score-IsLighter_example :
    (calculate_score small_move ≤ calculate_score blocked_move)
    × (calculate_score blocked_move ≤ 200)
calculate_score-IsLighter_example = calculate_score-IsLighter small_move blocked_move (record {
  bytes = omega arith;
  database_bytes = omega arith;
  containers = omega arith;
  volumes = omega arith;
  queues = omega arith;
  replication = λ e. e;
  network = omega arith;
  source_cpu = omega arith;
  target_cpu = omega arith;
  source_ram = omega arith;
  target_ram = omega arith;
  compatibility = omega arith;
  criticals = omega arith;
})

abbrev half_copy : TransferCheckpoint
half_copy = record {
  id = 0;
  transfer_id = "t1";
  migration_id = 3;
  category = "configs";
  file_name = "app.conf";
  strategy = "rsync";
  mode = "direct";
  source_host = "a";
  source_path = "/etc";
  target_host = "b";
  target_path = "/etc";
  total_bytes = 100;
  bytes_transferred = 50;
  resumable = true;
  source_snapshot = "s1";
  target_partial_state = "p1";
  checksum_source = "";
  checksum_target = "";
  last_verified_phase = "transferred";
  started_at = "";
  updated_at = "";
}

abbrev same_evidence : ReconcileEvidence
same_evidence = record {
  current_source_snapshot = "s1";
  partial_target_exists = true;
  current_target_partial_state = "p1";
  strategy_still_valid = true;
}

reconcile-resume_example :
    ((reconcile (some half_copy) same_evidence).0 ≡ resume)
    ↔ IsResumable (some half_copy) same_evidence
reconcile-resume_example = reconcile-resume (some half_copy) same_evidence

save_checkpoint-get_checkpoint_example :
    (get_checkpoint "t1" "app.conf" (save_checkpoint false "now" 1 half_copy []).1
      ≡ some (put_on (stamped "now" 1 half_copy) (get_checkpoint "t1" "app.conf" [])))
    × (is_at "t2" "app.conf" half_copy ≡ false
        → get_checkpoint "t2" "app.conf" (save_checkpoint false "now" 1 half_copy []).1
          ≡ get_checkpoint "t2" "app.conf" [])
    × (get_checkpoint "t2" "app.conf" (delete_checkpoint "t2" "app.conf" []) ≡ none)
    × ((u g : String)
        → (str_eq "t2" u && str_eq "app.conf" g) ≡ false
        → get_checkpoint u g (delete_checkpoint "t2" "app.conf" []) ≡ get_checkpoint u g [])
save_checkpoint-get_checkpoint_example =
    save_checkpoint-get_checkpoint "now" 1 half_copy [] "t2" "app.conf"
