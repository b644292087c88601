-- ===== src/Risk/Score.antt =====
-- The score of the risk engine (internal/mod/migration/risk_engine.go): its range, its order and its
-- classes.
use meshium.Prelude.{
  ℕ, ◌≤◌, ◌≡◌, ◌≢◌, refl, ap, Bool, true, false, if◌then◌else◌, some, String, [], ◌∷◌, ◌++◌, inr,
  ==_self, ◌∙◌, arith,
}
use meshium.Risk.{
  RiskInput, data_points, database_points, container_points, volume_points, queue_points,
  network_points, resource_points, issue_points, capped_score, calculate_score, critical,
  classify_risk, complexity, assess_rollback_complexity, very_complex, zero_downtime,
  estimate_downtime, RiskReport, RiskTables, risk_report, store_risk, assess_risk,
}

data_points_mono : (a b : ℕ) → a ≤ b → data_points a ≤ data_points b
unfolding data_points
data_points_mono a b h = ground (arith, h)

database_points_mono : (a b : ℕ) → a ≤ b → database_points a ≤ database_points b
unfolding database_points
database_points_mono a b h = ground (arith, h)

container_points_mono : (a b : ℕ) → a ≤ b → container_points a ≤ container_points b
unfolding container_points
container_points_mono a b h = ground (arith, h)

volume_points_mono : (a b : ℕ) → a ≤ b → volume_points a ≤ volume_points b
unfolding volume_points
volume_points_mono a b h = ground (arith, h)

queue_points_mono : (a b : ℕ) → a ≤ b → queue_points a ≤ queue_points b
unfolding queue_points
queue_points_mono a b h = ground (arith, h)

network_points_mono : (a b : ℕ) → b ≤ a → network_points a ≤ network_points b
unfolding network_points
network_points_mono a b h = ground (arith, h)

issue_points_mono : (a b : ℕ) → a ≤ b → issue_points a ≤ issue_points b
unfolding issue_points
issue_points_mono a b h = ground (arith, h)

capped_score_mono : (a b s t : ℕ) → a ≤ b → s ≤ t → capped_score a s ≤ capped_score b t
unfolding capped_score
capped_score_mono a b s t h k = ground (arith, h, k)

capped_score_critical : (a s : ℕ) → a ≢ 0 → 170 ≤ capped_score a s
unfolding capped_score
capped_score_critical a s h = ground (arith, h)

capped_score_le : (a s : ℕ) → capped_score a s ≤ 200
unfolding capped_score
capped_score_le a s = ground arith

-- A migration is at most as heavy as another when none of its sizes, counts, issues and lacks of
-- resources is larger, its network is not slower, and it has replication if the other has.
pub record IsLighter (a b : RiskInput) : Type 0 where
  pub bytes : a.data_size_bytes ≤ b.data_size_bytes
  pub database_bytes : a.database_size_bytes ≤ b.database_size_bytes
  pub containers : a.container_count ≤ b.container_count
  pub volumes : a.volume_count ≤ b.volume_count
  pub queues : a.queue_count ≤ b.queue_count
  pub replication : b.replication_available ≡ true → a.replication_available ≡ true
  pub network : b.network_speed_mbps ≤ a.network_speed_mbps
  pub source_cpu : a.source_cpu ≤ b.source_cpu
  pub target_cpu : b.target_cpu ≤ a.target_cpu
  pub source_ram : a.source_ram_mb ≤ b.source_ram_mb
  pub target_ram : b.target_ram_mb ≤ a.target_ram_mb
  pub compatibility : a.compatibility_issues ≤ b.compatibility_issues
  pub criticals : a.critical_issues ≤ b.critical_issues

resource_points_mono : (a b : RiskInput) → IsLighter a b → resource_points a ≤ resource_points b
unfolding resource_points
resource_points_mono a b h = ground (arith, h.source_cpu, h.target_cpu, h.source_ram, h.target_ram)

replication_mono :
    (x y : Bool) → (y ≡ true → x ≡ true) → (if x then 0 else 20) ≤ (if y then 0 else 20)
replication_mono x y h = ground (arith, h)

-- A migration that is no heavier than another has no higher score, and a score is at most 100 points,
-- which is 200 half points.
pub calculate_score-IsLighter :
    (a b : RiskInput)
    → IsLighter a b
    → (calculate_score a ≤ calculate_score b) × (calculate_score b ≤ 200)
unfolding calculate_score
calculate_score-IsLighter a b h = (
  capped_score_mono a.critical_issues b.critical_issues _ _ h.criticals (
      omega (
        arith,
        data_points_mono a.data_size_bytes b.data_size_bytes h.bytes,
        database_points_mono a.database_size_bytes b.database_size_bytes h.database_bytes,
        container_points_mono a.container_count b.container_count h.containers,
        volume_points_mono a.volume_count b.volume_count h.volumes,
        queue_points_mono a.queue_count b.queue_count h.queues,
        replication_mono a.replication_available b.replication_available h.replication,
        network_points_mono a.network_speed_mbps b.network_speed_mbps h.network,
        resource_points_mono a b h,
        issue_points_mono a.compatibility_issues b.compatibility_issues h.compatibility,
      )),
  capped_score_le b.critical_issues _,
)

classify_risk_critical : (score : ℕ) → 170 ≤ score → classify_risk score ≡ critical
unfolding classify_risk
classify_risk_critical score h = ground (arith, h)

store_risk-ok :
    (id : ℕ) (report : RiskReport) (tables : RiskTables)
    → let after = store_risk false false id report tables in
      (after.0 ≡ inr report)
      × (after.1.reports ≡ tables.reports ++ report ∷ [])
      × (after.1.migration_risk id ≡ some (report.risk_score, report.risk_class))
unfolding store_risk
store_risk-ok id report tables = (
  refl,
  refl,
  ap (λ b. if b then some (report.risk_score, report.risk_class) else tables.migration_risk id)
      (==_self id),
)

calculate_score-critical : (i : RiskInput) → i.critical_issues ≢ 0 → 170 ≤ calculate_score i
unfolding calculate_score
calculate_score-critical i h = capped_score_critical i.critical_issues _ h

-- A migration with a critical issue is classified as critical, whatever its other factors, in the
-- report that is returned, which is also stored, and on the migration, when the database takes both
-- writes.
pub assess_risk-critical :
    (transfer : RiskInput → String) (id : ℕ) (i : RiskInput) (tables : RiskTables)
    → i.critical_issues ≢ 0
    → let after = assess_risk transfer false false id i tables in
      (report : RiskReport) × (after.0 ≡ inr report)
      × (report.risk_class ≡ critical)
      × (after.1.reports ≡ tables.reports ++ report ∷ [])
      × (after.1.migration_risk id ≡ some (report.risk_score, critical))
unfolding assess_risk risk_report
assess_risk-critical transfer id i tables h =
    let report = risk_report transfer id i in
    let (returned, stored, marked) = store_risk-ok id report tables in
    let class = classify_risk_critical (calculate_score i) (calculate_score-critical i h) in
    (report, returned, class, stored, marked ∙ ap (λ c. some (report.risk_score, c)) class)

-- The rollback of no migration is "very_complex", and no downtime is estimated as zero unless there is
-- neither a queue nor a container to move.
pub assessment-Reached :
    (transfer : RiskInput → String) (i : RiskInput)
    → (assess_rollback_complexity i ≢ very_complex)
      × (estimate_downtime transfer i ≡ zero_downtime
          → (i.queue_count ≡ 0) × (i.container_count ≡ 0))
unfolding assess_rollback_complexity estimate_downtime complexity
assessment-Reached transfer i = (ground arith, ground arith)
