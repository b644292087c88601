-- ===== src/Checks/Services.antt =====
-- CheckRuntimeCompatibility, CheckPortConflicts, CheckFirewallCompatibility,
-- CheckSecurityCompatibility and CheckDatabaseCompatibility of internal/mod/discovery/compat.go.
use meshium.Prelude.{
  ℕ, Bool, true, false, not, ◌&&◌, ◌||◌, if◌then◌else◌, ltb, ◌==◌, Option, none, some, String, List,
  [], ◌∷◌, ◌++◌,
}
use text.Mathlib.Text.{◌==◌ as str_eq}
use meshium.Compat.{Comparison, same, compare_versions}
use meshium.Checks.{
  info, warning, CompatibilityIssue, when, note, blocker, Strings, RuntimeInfo, Port, FirewallInfo,
  SelinuxInfo, AppArmorInfo, DatabaseInfo, Snapshot,
}
use meshium.Checks.Host.{version_major, with_majors, is_empty}

abbrev pub is_some {ℓ} : {A : Type ℓ} → Option A → Bool
is_some none = false
is_some (some a) = true

unfoldable pub has_port : ℕ → List Port → Bool
has_port n [] = false
has_port n (p ∷ rest) = p.port == n || has_port n rest

abbrev pub member : ℕ → List ℕ → Bool
member n [] = false
member n (m ∷ rest) = m == n || member n rest

-- The loop of CheckPortConflicts, with the ports seen so far.
unfoldable pub check_ports : List ℕ → List Port → List Port → List CompatibilityIssue
unfolding has_port
check_ports seen [] targets = []
check_ports seen (p ∷ rest) targets =
    if p.port == 0 || member p.port seen
    then check_ports seen rest targets
    else when (has_port p.port targets) (blocker "port") ++ check_ports (p.port ∷ seen) rest targets

unfoldable pub check_port_conflicts : Snapshot → Snapshot → List CompatibilityIssue
unfolding check_ports
check_port_conflicts source target = check_ports [] source.network_ports target.network_ports

-- uniqueSourcePorts, less the sorting: only the number of issues depends on it.
unfoldable pub unique_source_ports : List ℕ → List Port → List ℕ
unique_source_ports seen [] = []
unique_source_ports seen (p ∷ rest) =
    if p.port == 0 || member p.port seen
    then unique_source_ports seen rest
    else p.port ∷ unique_source_ports (p.port ∷ seen) rest

abbrev pub is_nil : {A : Type 0} → List A → Bool
is_nil [] = true
is_nil (x ∷ rest) = false

-- switch dbType in CheckDatabaseCompatibility: Redis may not differ, no other may be downgraded.
abbrev is_same : Comparison → Bool
is_same same = true
is_same _ = false

module _ (lib : Strings) where
  abbrev pub or_this : {A : Type 0} → Option A → Option A → Option A
  or_this none o = o
  or_this (some a) o = some a

  -- The map of runtimeByName, looked up: the last runtime of the name.
  unfoldable pub runtime_at : String → List RuntimeInfo → Option RuntimeInfo
  runtime_at name [] = none
  runtime_at name (r ∷ rest) =
      let n = lib.to_lower (lib.trim_space r.name) in
      or_this (runtime_at name rest) (if not (is_empty n) && str_eq n name then some r else none)

  abbrev pub compare_runtimes : RuntimeInfo → Option RuntimeInfo → List CompatibilityIssue
  compare_runtimes src none = blocker "runtime"
  compare_runtimes src (some tgt) =
      with_majors (version_major lib src.version) (version_major lib tgt.version)
        (λ s t. when (not (s == t)) (note "runtime" warning))

  unfoldable pub check_runtimes : List RuntimeInfo → List RuntimeInfo → List CompatibilityIssue
  unfolding runtime_at version_major
  check_runtimes [] targets = []
  check_runtimes (src ∷ rest) targets =
      compare_runtimes src (runtime_at (lib.to_lower (lib.trim_space src.name)) targets)
      ++ check_runtimes rest targets

  unfoldable pub check_runtime_compatibility : Snapshot → Snapshot → List CompatibilityIssue
  unfolding check_runtimes
  check_runtime_compatibility source target = check_runtimes source.runtimes target.runtimes

  abbrev has_field : String → List String → Bool
  has_field needle [] = false
  has_field needle (field ∷ rest) = str_eq field needle || has_field needle rest

  unfoldable pub firewall_allows_port : List String → ℕ → Bool
  firewall_allows_port [] n = false
  firewall_allows_port (rule ∷ rest) n =
      has_field (lib.itoa n) (lib.fields_of_rule rule) || firewall_allows_port rest n

  abbrev pub closed_ports : List String → List ℕ → List CompatibilityIssue
  closed_ports rules [] = []
  closed_ports rules (n ∷ rest) =
      when (not (firewall_allows_port rules n)) (note "firewall" warning) ++ closed_ports rules rest

  abbrev types_differ : Option FirewallInfo → Option FirewallInfo → Bool
  types_differ none t = false
  types_differ (some s) none = false
  types_differ (some s) (some t) =
      not (lib.equal_fold (lib.trim_space s.firewall_type) (lib.trim_space t.firewall_type))

  -- The required ports at the target's firewall.
  abbrev pub required : Option FirewallInfo → List Port → List CompatibilityIssue
  required none ports = note "firewall" warning
  required (some f) ports =
      if f.active
      then closed_ports f.rules (unique_source_ports [] ports)
      else note "firewall" warning

  unfoldable pub check_firewall_compatibility : Snapshot → Snapshot → List CompatibilityIssue
  unfolding firewall_allows_port unique_source_ports
  check_firewall_compatibility source target =
      when (not (not (is_some target.firewall) && is_nil source.network_ports)) (
        when (types_differ source.firewall target.firewall) (note "firewall" info)
        ++ when (not (is_nil source.network_ports)) (required target.firewall source.network_ports))

  abbrev pub compare_selinux : Option SelinuxInfo → Option SelinuxInfo → List CompatibilityIssue
  compare_selinux none t = []
  compare_selinux (some s) none = []
  compare_selinux (some s) (some t) =
      when (t.selinux_enabled && not s.selinux_enabled) (note "security" warning)
      ++ when
          (not (lib.equal_fold (lib.trim_space s.mode) (lib.trim_space t.mode))
            || (if s.selinux_enabled then not t.selinux_enabled else t.selinux_enabled))
          (note "security" info)

  abbrev is_enabled : Option AppArmorInfo → Bool
  is_enabled none = false
  is_enabled (some a) = a.apparmor_enabled

  abbrev profiles_of : Option AppArmorInfo → List String
  profiles_of none = []
  profiles_of (some a) = a.profiles

  abbrev pub compare_apparmor : Option AppArmorInfo → Option AppArmorInfo → List CompatibilityIssue
  compare_apparmor none t = []
  compare_apparmor (some s) t =
      when (s.apparmor_enabled && (not (is_enabled t) || is_nil (profiles_of t)))
        (note "security" warning)
      ++ when (if s.apparmor_enabled then not (is_enabled t) else is_enabled t)
          (note "security" info)

  unfoldable pub check_security_compatibility : Snapshot → Snapshot → List CompatibilityIssue
  check_security_compatibility source target =
      compare_selinux source.selinux target.selinux
      ++ compare_apparmor source.apparmor target.apparmor

  -- The map of databaseByType, looked up: the first database of the type.
  unfoldable pub database_at : String → List DatabaseInfo → Option DatabaseInfo
  database_at t [] = none
  database_at t (db ∷ rest) =
      let n = lib.to_lower (lib.trim_space db.db_type) in
      if not (is_empty n) && str_eq n t then some db else database_at t rest

  abbrev pub compare_databases :
      String → DatabaseInfo → Option DatabaseInfo → List CompatibilityIssue
  compare_databases t src none = blocker "database"
  compare_databases t src (some tgt) =
      if str_eq t "redis"
      then when
          (not (is_empty src.db_version)
            && (not (is_empty tgt.db_version)
                && not (
                    is_same (
                      compare_versions (lib.parse_version_parts src.db_version)
                        (lib.parse_version_parts tgt.db_version)))))
          (note "database" warning)
      else with_majors (version_major lib src.db_version) (version_major lib tgt.db_version)
          (λ s n. if ltb n s then blocker "database" else when (ltb s n) (note "database" info))

  unfoldable pub check_databases : List DatabaseInfo → List DatabaseInfo → List CompatibilityIssue
  unfolding database_at version_major
  check_databases [] targets = []
  check_databases (src ∷ rest) targets =
      let t = lib.to_lower (lib.trim_space src.db_type) in
      when (not (is_empty t)) (compare_databases t src (database_at t targets))
      ++ check_databases rest targets

  unfoldable pub check_database_compatibility : Snapshot → Snapshot → List CompatibilityIssue
  unfolding check_databases
  check_database_compatibility source target = check_databases source.databases target.databases
