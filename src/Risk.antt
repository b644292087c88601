-- ===== src/Risk.antt =====
-- The risk engine (internal/mod/migration/risk_engine.go). Scores are counted in half points, so that
-- 1.5 points for an issue is a whole number; a speed is its whole number of Mbps, since the code
-- compares it with whole numbers only.
pub mod Score
use meshium.Prelude.{
  ℕ, zero, suc, ◌+◌, ◌*◌, ◌/◌, Bool, true, false, not, ◌&&◌, if◌then◌else◌, ltb, leb, ◌==◌, Option,
  none, some, String, List, [], ◌∷◌, ◌++◌, ◌⊎◌, inl, inr,
}

pub record RiskInput : Type 0 where
  pub data_size_bytes : ℕ
  pub database_size_bytes : ℕ
  pub container_count : ℕ
  pub volume_count : ℕ
  pub queue_count : ℕ
  pub replication_available : Bool
  pub network_speed_mbps : ℕ
  pub source_cpu : ℕ
  pub target_cpu : ℕ
  pub source_ram_mb : ℕ
  pub target_ram_mb : ℕ
  pub compatibility_issues : ℕ
  pub critical_issues : ℕ

-- 1024 * 1024 * 1024.
abbrev pub gigabyte : ℕ
gigabyte = 1073741824

unfoldable pub data_points : ℕ → ℕ
data_points bytes =
    if ltb bytes gigabyte
    then 4
    else if ltb bytes (10 * gigabyte)
    then 10
    else if ltb bytes (50 * gigabyte)
    then 20
    else if ltb bytes (100 * gigabyte)
    then 30
    else 40

unfoldable pub database_points : ℕ → ℕ
database_points bytes =
    if ltb bytes gigabyte
    then 4
    else if ltb bytes (10 * gigabyte)
    then 10
    else if ltb bytes (50 * gigabyte)
    then 24
    else if ltb bytes (100 * gigabyte)
    then 32
    else 40

unfoldable pub container_points : ℕ → ℕ
container_points n = if leb n 3 then 6 else if leb n 10 then 12 else if leb n 20 then 20 else 30

unfoldable pub volume_points : ℕ → ℕ
volume_points n = if leb n 2 then 4 else if leb n 5 then 8 else if leb n 10 then 14 else 20

unfoldable pub queue_points : ℕ → ℕ
queue_points n = if n == 0 then 0 else if leb n 2 then 6 else if leb n 5 then 12 else 20

unfoldable pub network_points : ℕ → ℕ
network_points speed =
    if leb 1000 speed
    then 2
    else if leb 500 speed
    then 6
    else if leb 100 speed
    then 10
    else if leb 50 speed
    then 14
    else 20

unfoldable pub resource_points : RiskInput → ℕ
resource_points i =
    (if ltb i.target_cpu i.source_cpu then 4 else 0)
    + (if ltb i.target_ram_mb i.source_ram_mb then 6 else 0)

unfoldable pub issue_points : ℕ → ℕ
issue_points n = if leb (3 * n) 30 then 3 * n else 30

-- Factor 10 and the cap.
unfoldable pub capped_score : ℕ → ℕ → ℕ
capped_score critical score =
    let heavy = score + critical * 80 in
    let raised = if ltb 0 critical then (if ltb heavy 170 then 170 else heavy) else score in
    if leb raised 200 then raised else 200

unfoldable pub calculate_score : RiskInput → ℕ
unfolding data_points database_points container_points volume_points queue_points network_points
    resource_points issue_points capped_score
calculate_score i = capped_score i.critical_issues (
    data_points i.data_size_bytes
    + database_points i.database_size_bytes
    + container_points i.container_count
    + volume_points i.volume_count
    + queue_points i.queue_count
    + (if i.replication_available then 0 else 20)
    + network_points i.network_speed_mbps
    + resource_points i
    + issue_points i.compatibility_issues)

pub data RiskClass : Type 0 where
  low : RiskClass
  medium : RiskClass
  high : RiskClass
  critical : RiskClass

unfoldable pub classify_risk : ℕ → RiskClass
classify_risk score =
    if ltb score 60
    then low
    else if ltb score 120
    then medium
    else if ltb score 170
    then high
    else critical

unfoldable pub complexity : RiskInput → ℕ
complexity i =
    (if i.replication_available then 0 else 3)
    + (if ltb 10 i.container_count then 2 else 0)
    + (if ltb 5 i.volume_count then 2 else 0)
    + (if ltb 0 i.queue_count then 1 else 0)
    + (if ltb (10 * gigabyte) i.database_size_bytes then 2 else 0)

pub data RollbackComplexity : Type 0 where
  simple : RollbackComplexity
  moderate : RollbackComplexity
  complex : RollbackComplexity
  very_complex : RollbackComplexity

unfoldable pub assess_rollback_complexity : RiskInput → RollbackComplexity
unfolding complexity
assess_rollback_complexity i =
    let c = complexity i in
    if leb c 2
    then simple
    else if leb c 5
    then moderate
    else if leb c 10
    then complex
    else very_complex

-- The text of EstimateDowntime where replication carries the data: no downtime, seconds, seconds in a
-- minute or two, minutes; the estimate from the transfer rate is a computation on floats and is a
-- parameter of the assessment.
pub data Downtime : Type 0 where
  zero_downtime : Downtime
  seconds : ℕ → Downtime
  a_minute_or_two : ℕ → Downtime
  minutes : ℕ → Downtime
  by_transfer : String → Downtime

unfoldable pub estimate_downtime : (RiskInput → String) → RiskInput → Downtime
estimate_downtime transfer i =
    let cutover_seconds = 5 + i.queue_count * 3 + i.container_count in
    if i.replication_available && leb 100 i.network_speed_mbps
    then if leb cutover_seconds 5
      then zero_downtime
      else if leb cutover_seconds 30
      then seconds cutover_seconds
      else if leb cutover_seconds 120
      then a_minute_or_two cutover_seconds
      else minutes (cutover_seconds / 60 + 1)
    else by_transfer (transfer i)

pub record RiskReport : Type 0 where
  pub migration_id : ℕ
  pub risk_score : ℕ
  pub risk_class : RiskClass
  pub downtime_estimate : Downtime
  pub data_size_bytes : ℕ
  pub database_size_bytes : ℕ
  pub container_count : ℕ
  pub volume_count : ℕ
  pub rollback_complexity : RollbackComplexity

-- What the database keeps of risks: the reports, and each migration's score and class.
pub record RiskTables : Type 0 where
  pub reports : List RiskReport
  pub migration_risk : ℕ → Option (ℕ × RiskClass)

pub data RiskError : Type 0 where
  create_failed : RiskError
  set_failed : RiskError

unfoldable pub risk_report : (RiskInput → String) → ℕ → RiskInput → RiskReport
unfolding calculate_score classify_risk estimate_downtime assess_rollback_complexity
risk_report transfer id i = record {
  migration_id = id;
  risk_score = calculate_score i;
  risk_class = classify_risk (calculate_score i);
  downtime_estimate = estimate_downtime transfer i;
  data_size_bytes = i.data_size_bytes;
  database_size_bytes = i.database_size_bytes;
  container_count = i.container_count;
  volume_count = i.volume_count;
  rollback_complexity = assess_rollback_complexity i;
}

unfoldable pub store_risk :
    Bool → Bool → ℕ → RiskReport → RiskTables → (RiskError ⊎ RiskReport) × RiskTables
store_risk create_fails set_fails id report tables =
    let created : RiskTables = record tables { reports = tables.reports ++ report ∷ [] } in
    let risk : ℕ → Option (ℕ × RiskClass) = λ m.
      if m == id then some (report.risk_score, report.risk_class) else tables.migration_risk m in
    if create_fails
    then (inl create_failed, tables)
    else if set_fails
    then (inl set_failed, created)
    else (inr report, record created { migration_risk = risk })

-- AssessRisk; the two Booleans say whether the database refuses the report or the update.
unfoldable pub assess_risk :
    (RiskInput → String)
    → Bool
    → Bool
    → ℕ
    → RiskInput
    → RiskTables
    → (RiskError ⊎ RiskReport) × RiskTables
unfolding risk_report store_risk
assess_risk transfer create_fails set_fails id i tables =
    store_risk create_fails set_fails id (risk_report transfer id i) tables
