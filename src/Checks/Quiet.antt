-- ===== src/Checks/Quiet.antt =====
-- The checks of internal/mod/discovery/compat.go that never report a blocking issue.
use meshium.Prelude.{
  ℕ, ◌≡◌, ◌↔◌, inl, inr, refl, ◌∙◌, ap, Bool, true, false, not, ◌&&◌, ◌||◌, if◌then◌else◌, ltb,
  Option, none, some, String, List, [], ◌∷◌, ◌++◌, arith, Bool-cases,
}
use meshium.Checks.{
  Severity, info, warning, CompatibilityIssue, when, note, blocker, Strings, FilesystemInfo, Docker,
  Port, FirewallInfo, SelinuxInfo, AppArmorInfo, DnsInfo, SslCertInfo, Snapshot, any_blocking,
}
use meshium.Checks.Host.{
  is_empty, abs_diff, with_majors, compare_os, families_differ, check_os_compatibility,
  check_kernel_compatibility, check_filesystems, compare_mounts, docker_versions, compare_dockers,
  check_docker_compatibility,
}
use meshium.Checks.Services.{
  closed_ports, required, check_firewall_compatibility, compare_selinux, compare_apparmor,
  check_security_compatibility,
}
use meshium.Checks.Site.{
  compare_dns, check_network_compatibility, self_signed, check_ssl_compatibility, cloud_label,
  compare_clouds, check_cloud_compatibility,
}

-- No issue of the list is blocking.
abbrev pub IsQuiet : List CompatibilityIssue → Type 0
IsQuiet issues = any_blocking issues ≡ false

pub any_blocking-append :
    (xs ys : List CompatibilityIssue)
    → any_blocking (xs ++ ys) ≡ (any_blocking xs || any_blocking ys)
unfolding any_blocking
any_blocking-append [] ys = refl
any_blocking-append (x ∷ xs) ys = ground (arith, any_blocking-append xs ys)

pub append-IsQuiet :
    (xs ys : List CompatibilityIssue) → IsQuiet xs → IsQuiet ys → IsQuiet (xs ++ ys)
append-IsQuiet xs ys a b = ground (arith, any_blocking-append xs ys)

pub append-IsQuiet_iff :
    (xs ys : List CompatibilityIssue) → IsQuiet (xs ++ ys) ↔ (IsQuiet xs × IsQuiet ys)
append-IsQuiet_iff xs ys = ground (arith, any_blocking-append xs ys)

pub when-IsQuiet : (b : Bool) (xs : List CompatibilityIssue) → IsQuiet xs → IsQuiet (when b xs)
unfolding any_blocking when
when-IsQuiet true xs q = q
when-IsQuiet false xs q = refl

pub note-IsQuiet : (category : String) (s : Severity) → IsQuiet (note category s)
unfolding any_blocking note
note-IsQuiet category s = refl

pub noted : (b : Bool) (category : String) (s : Severity) → IsQuiet (when b (note category s))
noted b category s = when-IsQuiet b (note category s) (note-IsQuiet category s)

pub when-blocker : (b : Bool) (category : String) → any_blocking (when b (blocker category)) ≡ b
unfolding any_blocking when blocker
when-blocker true category = refl
when-blocker false category = refl

pub with_majors-IsQuiet :
    (s t : Option ℕ) (f : ℕ → ℕ → List CompatibilityIssue)
    → ((a b : ℕ) → IsQuiet (f a b))
    → IsQuiet (with_majors s t f)
unfolding any_blocking with_majors
with_majors-IsQuiet none t f q = refl
with_majors-IsQuiet (some s) none f q = refl
with_majors-IsQuiet (some s) (some t) f q = q s t

pub any-when :
    (b : Bool) (xs : List CompatibilityIssue) → any_blocking (when b xs) ≡ (b && any_blocking xs)
unfolding any_blocking when
any-when true xs = refl
any-when false xs = refl

pub only_first :
    (xs ys : List CompatibilityIssue) → IsQuiet ys → any_blocking (xs ++ ys) ≡ any_blocking xs
only_first xs ys q = ground (arith, any_blocking-append xs ys)

pub only_last :
    (xs ys : List CompatibilityIssue) → IsQuiet xs → any_blocking (xs ++ ys) ≡ any_blocking ys
only_last xs ys q = ground (arith, any_blocking-append xs ys)

pub empty-IsQuiet : IsQuiet []
unfolding any_blocking
empty-IsQuiet = refl

module _ (lib : Strings) where
  compare_os-IsQuiet : (sd td sa ta : String) → IsQuiet (compare_os lib sd td sa ta)
  compare_os-IsQuiet sd td sa ta =
      append-IsQuiet _ _
        (append-IsQuiet _ _ (noted _ "os" warning)
          (with_majors-IsQuiet _ _ _ (λ a b. noted _ "os" _)))
        (noted _ "architecture" warning)

  pub os-IsQuiet : (s t : Snapshot) → IsQuiet (check_os_compatibility lib s t)
  unfolding check_os_compatibility
  os-IsQuiet s t = when-IsQuiet _ _ (
      compare_os-IsQuiet (lib.trim_space s.os.distro) (lib.trim_space t.os.distro)
        (lib.trim_space s.os.architecture) (lib.trim_space t.os.architecture))

  compare_mounts-IsQuiet :
      (src : FilesystemInfo) (tgt : Option FilesystemInfo) → IsQuiet (compare_mounts lib src tgt)
  compare_mounts-IsQuiet src none = note-IsQuiet "filesystem" warning
  compare_mounts-IsQuiet src (some tgt) =
      append-IsQuiet _ _ (noted _ "filesystem" _) (noted _ "filesystem" warning)

  pub filesystems-IsQuiet :
      (sources targets : List FilesystemInfo) → IsQuiet (check_filesystems lib sources targets)
  unfolding check_filesystems
  filesystems-IsQuiet [] targets = empty-IsQuiet
  filesystems-IsQuiet (src ∷ rest) targets =
      append-IsQuiet _ _ (when-IsQuiet _ _ (compare_mounts-IsQuiet src _))
        (filesystems-IsQuiet rest targets)

  closed_ports-IsQuiet :
      (rules : List String) (ports : List ℕ) → IsQuiet (closed_ports lib rules ports)
  closed_ports-IsQuiet rules [] = empty-IsQuiet
  closed_ports-IsQuiet rules (n ∷ rest) =
      append-IsQuiet _ _ (noted _ "firewall" warning) (closed_ports-IsQuiet rules rest)

  required-IsQuiet : (f : Option FirewallInfo) (ports : List Port) → IsQuiet (required lib f ports)
  unfolding check_firewall_compatibility
  required-IsQuiet none ports = note-IsQuiet "firewall" warning
  required-IsQuiet (some f) ports = elim (Bool-cases f.active) [
    | inl on ↦ rw on (closed_ports-IsQuiet f.rules _)
    | inr off ↦ rw off (note-IsQuiet "firewall" warning)
  ]

  pub firewall-IsQuiet : (s t : Snapshot) → IsQuiet (check_firewall_compatibility lib s t)
  unfolding check_firewall_compatibility
  firewall-IsQuiet s t = when-IsQuiet _ _ (
      append-IsQuiet _ _ (noted _ "firewall" info)
        (when-IsQuiet _ _ (required-IsQuiet t.firewall s.network_ports)))

  selinux-IsQuiet : (s t : Option SelinuxInfo) → IsQuiet (compare_selinux lib s t)
  selinux-IsQuiet none t = empty-IsQuiet
  selinux-IsQuiet (some s) none = empty-IsQuiet
  selinux-IsQuiet (some s) (some t) =
      append-IsQuiet _ _ (noted _ "security" warning) (noted _ "security" info)

  apparmor-IsQuiet : (s t : Option AppArmorInfo) → IsQuiet (compare_apparmor lib s t)
  apparmor-IsQuiet none t = empty-IsQuiet
  apparmor-IsQuiet (some s) t =
      append-IsQuiet _ _ (noted _ "security" warning) (noted _ "security" info)

  pub security-IsQuiet : (s t : Snapshot) → IsQuiet (check_security_compatibility lib s t)
  unfolding check_security_compatibility
  security-IsQuiet s t =
      append-IsQuiet _ _ (selinux-IsQuiet s.selinux t.selinux)
        (apparmor-IsQuiet s.apparmor t.apparmor)

  dns-IsQuiet : (s t : Option DnsInfo) → IsQuiet (compare_dns lib s t)
  dns-IsQuiet none t = empty-IsQuiet
  dns-IsQuiet (some s) none = empty-IsQuiet
  dns-IsQuiet (some s) (some t) = noted _ "network" info

  pub network-IsQuiet : (s t : Snapshot) → IsQuiet (check_network_compatibility lib s t)
  unfolding check_network_compatibility
  network-IsQuiet s t = append-IsQuiet _ _ (noted _ "network" warning) (dns-IsQuiet s.dns t.dns)

  self_signed-IsQuiet : (certs : List SslCertInfo) → IsQuiet (self_signed lib certs)
  self_signed-IsQuiet [] = empty-IsQuiet
  self_signed-IsQuiet (cert ∷ rest) =
      append-IsQuiet _ _ (noted _ "ssl" warning) (self_signed-IsQuiet rest)

  pub ssl-IsQuiet : (s t : Snapshot) → IsQuiet (check_ssl_compatibility lib s t)
  unfolding check_ssl_compatibility
  ssl-IsQuiet s t =
      when-IsQuiet _ _ (append-IsQuiet _ _ (noted _ "ssl" info) (self_signed-IsQuiet _))

  compare_clouds-IsQuiet : (sc tc : String) → IsQuiet (compare_clouds lib sc tc)
  compare_clouds-IsQuiet sc tc =
      append-IsQuiet _ _ (append-IsQuiet _ _ (noted _ "cloud" info) (noted _ "cloud" info))
        (noted _ "cloud" warning)

  pub cloud-IsQuiet : (s t : Snapshot) → IsQuiet (check_cloud_compatibility lib s t)
  unfolding check_cloud_compatibility
  cloud-IsQuiet s t =
      when-IsQuiet _ _ (compare_clouds-IsQuiet (cloud_label lib s) (cloud_label lib t))

  docker_versions-IsQuiet : (s t : String) → IsQuiet (docker_versions lib s t)
  docker_versions-IsQuiet s t = elim (Bool-cases (not (is_empty s) && not (is_empty t))) [
    | inl both ↦ rw both (with_majors-IsQuiet _ _ _ (λ m n. noted _ "docker" warning))
    | inr missing ↦ rw missing (noted _ "docker" warning)
  ]

  pub compare_dockers-IsQuiet :
      (s t : Snapshot) (a b : Docker) → IsQuiet (compare_dockers lib s t a b)
  unfolding check_docker_compatibility
  compare_dockers-IsQuiet s t a b =
      append-IsQuiet _ _
        (append-IsQuiet _ _
          (append-IsQuiet _ _
            (docker_versions-IsQuiet (lib.trim_space a.docker_version)
              (lib.trim_space b.docker_version))
            (noted _ "docker" warning))
          (noted _ "docker" warning))
        (noted _ "docker" _)

  kernel_versions-IsQuiet :
      (s t : Option ℕ)
      → IsQuiet (
          with_majors s t (λ m n.
            if ltb 2 (abs_diff m n)
            then note "kernel" warning
            else when (ltb 0 (abs_diff m n)) (note "kernel" info)))
  kernel_versions-IsQuiet s t = with_majors-IsQuiet s t _ (λ m n.
      elim (Bool-cases (ltb 2 (abs_diff m n))) [
        | inl far ↦ rw far (note-IsQuiet "kernel" warning)
        | inr near ↦ rw near (noted _ "kernel" info)
      ])

  pub any-kernel :
      (s t : Snapshot)
      → any_blocking (check_kernel_compatibility lib s t) ≡ (
          not (is_empty (lib.trim_space s.os.kernel) || is_empty (lib.trim_space t.os.kernel))
          && families_differ lib s t)
  unfolding check_kernel_compatibility
  any-kernel s t =
      any-when _ _
      ∙ ap
          (λ b.
            not (is_empty (lib.trim_space s.os.kernel) || is_empty (lib.trim_space t.os.kernel))
            && b)
          (only_first _ _ (kernel_versions-IsQuiet _ _)
            ∙ when-blocker (families_differ lib s t) "kernel")
