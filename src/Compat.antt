-- ===== src/Compat.antt =====
-- The check that a target server can take over a source server's workload
-- (internal/mod/discovery/compat.go, the checks of CheckCompatibility). A warning and a blocker are given
-- by their reason. A version is the list of its numbers, a distribution its name in lower case; a disk's
-- size is given by the bits of its float64, whose order is the order of sizes.
pub mod Parse
pub mod Versions
pub mod Ports
pub mod Verdict
use meshium.Prelude.{
  ℕ, zero, suc, Bool, true, false, not, ◌&&◌, ◌||◌, if◌then◌else◌, ltb, ◌==◌, Option, none, some,
  String, List, [], ◌∷◌, ◌++◌, length,
}
use text.Mathlib.Text.{◌==◌ as str_eq}

pub data CompatibilityWarning : Type 0 where
  ram_unavailable : CompatibilityWarning
  ram_tight : CompatibilityWarning
  disk_unavailable : CompatibilityWarning
  disk_tight : CompatibilityWarning
  docker_older : CompatibilityWarning
  os_unavailable : CompatibilityWarning
  os_family_differs : CompatibilityWarning
  architecture_differs : CompatibilityWarning

pub data CompatibilityBlocker : Type 0 where
  source_nil : CompatibilityBlocker
  target_nil : CompatibilityBlocker
  ram_too_small : CompatibilityBlocker
  disk_too_small : CompatibilityBlocker
  docker_missing : CompatibilityBlocker
  docker_version_unknown : CompatibilityBlocker
  port_in_use : ℕ → CompatibilityBlocker

pub record CompatibilityReport : Type 0 where
  pub compatible : Bool
  pub warnings : List CompatibilityWarning
  pub blockers : List CompatibilityBlocker

-- Of the records of a snapshot, the fields that the checks read.
pub record Hardware : Type 0 where
  pub ram_total_mb : ℕ
  pub ram_used_mb : ℕ
  pub disk_total_gb : ℕ
  pub disk_used_gb : ℕ

-- Docker on a server: none is an unknown version.
pub record DockerInfo : Type 0 where
  pub version : Option (List ℕ)
  pub containers : ℕ

pub record OpenPort : Type 0 where
  pub port : ℕ
  pub process : String

pub record ServerSnapshot : Type 0 where
  pub hardware : Hardware
  pub docker : Option DockerInfo
  pub network_ports : List OpenPort
  pub distro : String
  pub architecture : String

unfoldable pub has_blockers : CompatibilityReport → Bool
has_blockers report = ltb 0 (length report.blockers)

abbrev pub warn : CompatibilityWarning → CompatibilityReport → CompatibilityReport
warn w report = record report { warnings = report.warnings ++ w ∷ [] }

abbrev pub block : CompatibilityBlocker → CompatibilityReport → CompatibilityReport
block b report = record report { blockers = report.blockers ++ b ∷ [] }

-- The results -1, 0 and 1 of compareVersions.
pub data Comparison : Type 0 where
  below : Comparison
  same : Comparison
  above : Comparison

unfoldable pub compare_versions : List ℕ → List ℕ → Comparison
compare_versions [] [] = same
compare_versions [] (b ∷ ys) = let rest = compare_versions [] ys in if ltb 0 b then below else rest
compare_versions (a ∷ xs) [] = let rest = compare_versions xs [] in if ltb 0 a then above else rest
compare_versions (a ∷ xs) (b ∷ ys) =
    let rest = compare_versions xs ys in if ltb a b then below else if ltb b a then above else rest

unfoldable pub check_ram :
    ServerSnapshot → ServerSnapshot → CompatibilityReport → CompatibilityReport
check_ram source target report =
    if target.hardware.ram_total_mb == 0
    then warn ram_unavailable report
    else if ltb target.hardware.ram_total_mb source.hardware.ram_used_mb
    then block ram_too_small report
    else if ltb target.hardware.ram_total_mb source.hardware.ram_total_mb
    then warn ram_tight report
    else report

unfoldable pub check_disk :
    ServerSnapshot → ServerSnapshot → CompatibilityReport → CompatibilityReport
check_disk source target report =
    if target.hardware.disk_total_gb == 0
    then warn disk_unavailable report
    else if ltb target.hardware.disk_total_gb source.hardware.disk_used_gb
    then block disk_too_small report
    else if ltb target.hardware.disk_total_gb source.hardware.disk_total_gb
    then warn disk_tight report
    else report

abbrev pub warn_older : Comparison → CompatibilityReport → CompatibilityReport
warn_older below report = report
warn_older same report = report
warn_older above report = warn docker_older report

unfoldable pub check_versions :
    Option (List ℕ) → Option (List ℕ) → CompatibilityReport → CompatibilityReport
unfolding compare_versions
check_versions (some s) (some t) report = warn_older (compare_versions s t) report
check_versions none t report = report
check_versions (some s) none report = report

abbrev pub is_unknown : Option (List ℕ) → Bool
is_unknown none = true
is_unknown (some version) = false

unfoldable pub check_docker :
    Option DockerInfo → Option DockerInfo → CompatibilityReport → CompatibilityReport
unfolding check_versions
check_docker none t report = report
check_docker (some s) none report = block docker_missing report
check_docker (some s) (some t) report =
    let checked = check_versions s.version t.version report in
    if ltb 0 s.containers && is_unknown t.version
    then block docker_version_unknown checked
    else checked

-- `targetPorts[port]`: the process of the last entry of a port.
abbrev pub process_on : ℕ → List OpenPort → Option String → Option String
process_on port [] found = found
process_on port (p ∷ rest) found =
    process_on port rest (if p.port == port then some p.process else found)

abbrev pub conflicts : OpenPort → Option String → Bool
conflicts sp none = false
conflicts sp (some process) = not (str_eq process sp.process)

unfoldable pub check_ports :
    List OpenPort → List OpenPort → CompatibilityReport → CompatibilityReport
check_ports [] targets report = report
check_ports (sp ∷ rest) targets report = check_ports rest targets (
    if conflicts sp (process_on sp.port targets none)
    then block (port_in_use sp.port) report
    else report)

abbrev pub fresh_report : CompatibilityReport
fresh_report = record { compatible = true; warnings = []; blockers = [] }

module _ (contains : String → String → Bool) where
  -- osFamily; `contains` is strings.Contains.
  unfoldable pub os_family : String → String
  os_family distro =
      if contains distro "ubuntu" || contains distro "debian"
      then "debian"
      else if contains distro "centos"
          || contains distro "rhel"
          || contains distro "rocky"
          || contains distro "alma"
      then "rhel"
      else if contains distro "fedora"
      then "fedora"
      else if contains distro "alpine"
      then "alpine"
      else if contains distro "arch"
      then "arch"
      else "unknown"

  unfoldable pub check_os :
      ServerSnapshot → ServerSnapshot → CompatibilityReport → CompatibilityReport
  unfolding os_family
  check_os source target report =
      let family_checked =
        if str_eq (os_family source.distro) (os_family target.distro)
        then report
        else warn os_family_differs report in
      if str_eq source.distro "" || str_eq target.distro ""
      then warn os_unavailable report
      else if not (str_eq source.architecture "")
          && not (str_eq target.architecture "")
          && not (str_eq source.architecture target.architecture)
      then warn architecture_differs family_checked
      else family_checked

  -- CheckCompatibility; none is the nil snapshot.
  unfoldable pub check_compatibility :
      Option ServerSnapshot → Option ServerSnapshot → CompatibilityReport
  unfolding check_ram check_disk check_docker check_ports check_os
  check_compatibility none target = record {
    compatible = false;
    warnings = [];
    blockers = source_nil ∷ [];
  }
  check_compatibility (some source) none = record {
    compatible = false;
    warnings = [];
    blockers = target_nil ∷ [];
  }
  check_compatibility (some source) (some target) =
      let report = check_os source target (
        check_ports source.network_ports target.network_ports (
          check_docker source.docker target.docker
            (check_disk source target (check_ram source target fresh_report)))) in
      record report { compatible = length report.blockers == 0 }
