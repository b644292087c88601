-- ===== src/Compat/Verdict.antt =====
-- When CheckCompatibility (internal/mod/discovery/compat.go) lets a migration through.
use meshium.Prelude.{
  ℕ, ◌≤◌, ◌≡◌, ◌≢◌, ◌↔◌, ◌⊎◌, inl, inr, refl, sym, ◌∙◌, ap, Bool, true, false, not, ◌&&◌, ◌||◌,
  if◌then◌else◌, ltb, ◌==◌, Option, none, some, String, List, [], ◌∷◌, ◌++◌, length, All, arith,
}
use meshium.Compat.Ports.{ports_free, IsFree, ports_free_iff}
use meshium.Compat.{
  CompatibilityBlocker, ram_too_small, disk_too_small, docker_missing, docker_version_unknown,
  port_in_use, CompatibilityReport, ServerSnapshot, DockerInfo, OpenPort, Comparison, below, same,
  above, block, warn_older, compare_versions, check_versions, check_ram, check_disk, check_docker,
  check_ports, check_os, process_on, conflicts, is_unknown, fresh_report, has_blockers,
  check_compatibility,
}

-- The test that the target's memory, or its disk, is unknown or holds what the source uses.
abbrev fits : ℕ → ℕ → Bool
fits total used = total == 0 || not (ltb total used)

-- The test that the target has Docker when the source has, and a known version of it when the source has containers.
abbrev docker_ready : Option DockerInfo → Option DockerInfo → Bool
docker_ready none t = true
docker_ready (some s) none = false
docker_ready (some s) (some t) = not (ltb 0 s.containers && is_unknown t.version)

all_true :
    {a b c d : Bool}
    → ((a && b && c && d) ≡ true) ↔ ((a ≡ true) × (b ≡ true) × (c ≡ true) × (d ≡ true))
all_true {a} {b} {c} {d} = ground arith

-- A size is unknown, or it holds what is used.
abbrev pub Fits : ℕ → ℕ → Type 0
Fits total used = (total ≡ 0) ⊎ (used ≤ total)

fits_iff : (total used : ℕ) → (fits total used ≡ true) ↔ Fits total used
fits_iff total used = ground arith

-- The target has Docker when the source has, and a known version of it when the source has containers.
abbrev pub DockerReady : Option DockerInfo → Option DockerInfo → Type 0
DockerReady none t = Unit
DockerReady (some s) none = ⊥
DockerReady (some s) (some t) = (s.containers ≡ 0) ⊎ (t.version ≢ none)

known_iff :
    (n : ℕ) (v : Option (List ℕ)) → (not (ltb 0 n && is_unknown v) ≡ true) ↔ ((n ≡ 0) ⊎ (v ≢ none))
known_iff n none = (
  λ h. inl (ground (arith, h)),
  λ a. elim a [ inl e ↦ ground (arith, e) | inr e ↦ absurd (e refl) ],
)
known_iff n (some v) = (λ h. inr (λ e. cc), λ a. ground arith)

docker_ready_iff : (s t : Option DockerInfo) → (docker_ready s t ≡ true) ↔ DockerReady s t
docker_ready_iff none t = (λ h. tt, λ a. refl)
docker_ready_iff (some s) none = (λ h. cc, λ b. elim b [ ])
docker_ready_iff (some s) (some t) = known_iff s.containers t.version

-- Nothing blocks yet.
abbrev clear : List CompatibilityBlocker → Bool
clear [] = true
clear (b ∷ rest) = false

clear-length : (l : List CompatibilityBlocker) → (length l == 0) ≡ clear l
clear-length [] = refl
clear-length (b ∷ rest) = ground arith

clear-append :
    (l : List CompatibilityBlocker) (b : CompatibilityBlocker) → clear (l ++ b ∷ []) ≡ false
clear-append [] b = refl
clear-append (c ∷ l) b = refl

check_ram-clear :
    (source target : ServerSnapshot) (report : CompatibilityReport)
    → clear (check_ram source target report).blockers
      ≡ (clear report.blockers && fits target.hardware.ram_total_mb source.hardware.ram_used_mb)
unfolding check_ram
check_ram-clear source target report = ground (arith, clear-append report.blockers ram_too_small)

check_disk-clear :
    (source target : ServerSnapshot) (report : CompatibilityReport)
    → clear (check_disk source target report).blockers
      ≡ (clear report.blockers && fits target.hardware.disk_total_gb source.hardware.disk_used_gb)
unfolding check_disk
check_disk-clear source target report = ground (arith, clear-append report.blockers disk_too_small)

warn_older-clear :
    (c : Comparison) (report : CompatibilityReport)
    → (warn_older c report).blockers ≡ report.blockers
warn_older-clear below report = refl
warn_older-clear same report = refl
warn_older-clear above report = refl

check_versions-clear :
    (s t : Option (List ℕ)) (report : CompatibilityReport)
    → (check_versions s t report).blockers ≡ report.blockers
unfolding check_versions
check_versions-clear none t report = refl
check_versions-clear (some s) none report = refl
check_versions-clear (some s) (some t) report = warn_older-clear (compare_versions s t) report

check_docker-clear :
    (s t : Option DockerInfo) (report : CompatibilityReport)
    → clear (check_docker s t report).blockers ≡ (clear report.blockers && docker_ready s t)
unfolding check_docker
check_docker-clear none t report = ground arith
check_docker-clear (some s) none report =
    ground (arith, clear-append report.blockers docker_missing)
check_docker-clear (some s) (some t) report =
    let same_blockers = check_versions-clear s.version t.version report in
    ground (
      arith,
      same_blockers,
      clear-append (check_versions s.version t.version report).blockers docker_version_unknown,
    )

blocked_if :
    (c : Bool) (b : CompatibilityBlocker) (report : CompatibilityReport)
    → clear (if c then block b report else report).blockers ≡ (clear report.blockers && not c)
blocked_if true b report = ground (arith, clear-append report.blockers b)
blocked_if false b report = ground arith

negates : (n : ℕ) → ltb 0 n ≡ not (n == 0)
negates n = ground arith

and_assoc : (a b c : Bool) → ((a && b) && c) ≡ (a && (b && c))
and_assoc a b c = ground arith

check_ports-clear :
    (sources targets : List OpenPort) (report : CompatibilityReport)
    → clear (check_ports sources targets report).blockers
      ≡ (clear report.blockers && ports_free sources targets)
unfolding check_ports
check_ports-clear [] targets report = ground arith
check_ports-clear (sp ∷ rest) targets report =
    let hit = conflicts sp (process_on sp.port targets none) in
    let first = blocked_if hit (port_in_use sp.port) report in
    let later =
      check_ports-clear rest targets (if hit then block (port_in_use sp.port) report else report) in
    later
    ∙ ap (λ b. b && ports_free rest targets) first
    ∙ and_assoc (clear report.blockers) (not hit) (ports_free rest targets)

module _ (contains : String → String → Bool) where
  check_os-clear :
      (source target : ServerSnapshot) (report : CompatibilityReport)
      → (check_os contains source target report).blockers ≡ report.blockers
  unfolding check_os
  check_os-clear source target report = ground arith

  compatible_tests :
      (source target : ServerSnapshot)
      → ((check_compatibility contains (some source) (some target)).compatible ≡ (
          fits target.hardware.ram_total_mb source.hardware.ram_used_mb
          && fits target.hardware.disk_total_gb source.hardware.disk_used_gb
          && docker_ready source.docker target.docker
          && ports_free source.network_ports target.network_ports))
        × (has_blockers (check_compatibility contains (some source) (some target))
            ≡ not (check_compatibility contains (some source) (some target)).compatible)
  unfolding check_compatibility has_blockers
  compatible_tests source target =
      let ram = check_ram source target fresh_report in
      let disk = check_disk source target ram in
      let docker = check_docker source.docker target.docker disk in
      let ports = check_ports source.network_ports target.network_ports docker in
      let last = check_os contains source target ports in
      let verdict =
        clear-length last.blockers
        ∙ ap clear (check_os-clear source target ports)
        ∙ check_ports-clear source.network_ports target.network_ports docker in
      (
        ground (
          arith,
          verdict,
          check_docker-clear source.docker target.docker disk,
          check_disk-clear source target ram,
          check_ram-clear source target fresh_report,
        ),
        negates (length last.blockers),
      )

  -- Two snapshots are compatible exactly when the target's memory and its disk are unknown or hold what
  -- the source uses, the target has Docker if the source has, in a known version if the source has
  -- containers, and each port of the source is unused on the target or, where it is listed last, used by
  -- a process of the same name; and a report says that it is compatible exactly when it has no blockers.
  -- Versions, distributions and architectures only warn.
  pub check_compatibility_iff :
      (source target : ServerSnapshot)
      → (((check_compatibility contains (some source) (some target)).compatible ≡ true) ↔ (
          Fits target.hardware.ram_total_mb source.hardware.ram_used_mb
          × Fits target.hardware.disk_total_gb source.hardware.disk_used_gb
          × DockerReady source.docker target.docker
          × All (IsFree target.network_ports) source.network_ports))
        × (has_blockers (check_compatibility contains (some source) (some target))
            ≡ not (check_compatibility contains (some source) (some target)).compatible)
  check_compatibility_iff source target =
      let (tests, blockers) = compatible_tests source target in
      let ram = fits_iff target.hardware.ram_total_mb source.hardware.ram_used_mb in
      let disk = fits_iff target.hardware.disk_total_gb source.hardware.disk_used_gb in
      let docker = docker_ready_iff source.docker target.docker in
      let ports = ports_free_iff source.network_ports target.network_ports in
      (
        (
          λ h.
              let (a, b, c, d) = all_true.0 (sym tests ∙ h) in
              (ram.0 a, disk.0 b, docker.0 c, ports.0 d),
          λ (a, b, c, d). tests ∙ all_true.1 (ram.1 a, disk.1 b, docker.1 c, ports.1 d),
        ),
        blockers,
      )
