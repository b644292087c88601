-- ===== src/Checks.antt =====
-- The detailed compatibility checks of discovery (internal/mod/discovery/compat.go, from
-- CompatibilityIssue on): the snapshots that they read and the issues that they report. Sizes are whole
-- numbers of megabytes, which keeps the order of the sizes in gigabytes. Messages and advice are left out.
pub mod Host
pub mod Services
pub mod Site
pub mod Quiet
pub mod Needs
pub mod Ready
pub mod Blocking
use meshium.Prelude.{
  ℕ, Bool, true, false, ◌||◌, if◌then◌else◌, Option, none, some, String, List, [], ◌∷◌, ◌++◌,
}

pub data Severity : Type 0 where
  info warning error critical other : Severity

pub record CompatibilityIssue : Type 0 where
  pub category : String
  pub severity : Severity
  pub blocking : Bool
  pub risk_score : ℕ

unfoldable pub risk_score_for_severity : Severity → Bool → ℕ
risk_score_for_severity info blocking = 10
risk_score_for_severity warning blocking = if blocking then 80 else 40
risk_score_for_severity error blocking = 80
risk_score_for_severity critical blocking = 95
risk_score_for_severity other blocking = if blocking then 80 else 20

unfoldable pub new_compatibility_issue : String → Severity → Bool → CompatibilityIssue
unfolding risk_score_for_severity
new_compatibility_issue category severity blocking = record {
  category = category;
  severity = severity;
  blocking = blocking;
  risk_score = risk_score_for_severity severity blocking;
}

-- `if test { issues = append(issues, ...) }`, or `if !test { return nil }` before the rest.
unfoldable pub when : Bool → List CompatibilityIssue → List CompatibilityIssue
when true issues = issues
when false issues = []

unfoldable pub note : String → Severity → List CompatibilityIssue
unfolding new_compatibility_issue
note category severity = new_compatibility_issue category severity false ∷ []

unfoldable pub blocker : String → List CompatibilityIssue
unfolding new_compatibility_issue
blocker category = new_compatibility_issue category error true ∷ []

-- The functions of the package strings and of strconv that the checks call, and parseVersionParts, which
-- reads the numbers of a version.
pub record Strings : Type 0 where
  pub trim_space : String → String
  pub to_lower : String → String
  pub equal_fold : String → String → Bool
  pub has_prefix : String → String → Bool
  pub contains : String → String → Bool
  pub length_of : String → ℕ
  pub split_comma : String → List String
  pub split_dash : String → List String
  pub is_number : String → Bool
  pub itoa : ℕ → String
  pub fields_of_rule : String → List String
  pub parse_version_parts : String → List ℕ

pub record OsInfo : Type 0 where
  pub distro : String
  pub kernel : String
  pub architecture : String
  pub virtualization : String

pub record FilesystemInfo : Type 0 where
  pub mount_point : String
  pub fs_type : String
  pub mount_options : String
  pub used_mb : ℕ
  pub avail_mb : ℕ

pub record Docker : Type 0 where
  pub docker_version : String
  pub compose_projects : ℕ

pub record RuntimeInfo : Type 0 where
  pub name : String
  pub version : String

pub record Port : Type 0 where
  pub port : ℕ
  pub address : String

pub record FirewallInfo : Type 0 where
  pub firewall_type : String
  pub active : Bool
  pub rules : List String

pub record SelinuxInfo : Type 0 where
  pub selinux_enabled : Bool
  pub mode : String

pub record AppArmorInfo : Type 0 where
  pub apparmor_enabled : Bool
  pub profiles : List String

pub record DatabaseInfo : Type 0 where
  pub db_type : String
  pub db_version : String
  pub size_mb : ℕ

pub record DnsInfo : Type 0 where
  pub nameservers : List String
  pub search_domain : String

pub record SslCertInfo : Type 0 where
  pub path : String
  pub issuer : String

-- ServerSnapshot, the fields that the checks read; a nil pointer is none.
pub record Snapshot : Type 0 where
  pub os : OsInfo
  pub disk_total_mb : ℕ
  pub disk_used_mb : ℕ
  pub filesystems : List FilesystemInfo
  pub docker : Option Docker
  pub storage_driver : String
  pub docker_root : String
  pub runtimes : List RuntimeInfo
  pub network_ports : List Port
  pub firewall : Option FirewallInfo
  pub selinux : Option SelinuxInfo
  pub apparmor : Option AppArmorInfo
  pub databases : List DatabaseInfo
  pub dns : Option DnsInfo
  pub packages : List String
  pub ssl : List SslCertInfo
  pub nginx_certs : Option (List SslCertInfo)

-- Some issue of the list is blocking.
unfoldable pub any_blocking : List CompatibilityIssue → Bool
any_blocking [] = false
any_blocking (issue ∷ rest) = issue.blocking || any_blocking rest
