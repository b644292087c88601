-- ===== src/Checks/Host.antt =====
-- CheckOSCompatibility, CheckKernelCompatibility, CheckFilesystemCompatibility and
-- CheckDockerCompatibility of internal/mod/discovery/compat.go.
use meshium.Prelude.{
  ℕ, ◌-◌, Bool, false, not, ◌&&◌, ◌||◌, if◌then◌else◌, ltb, ◌==◌, Option, none, some, String, List,
  [], ◌∷◌, ◌++◌,
}
use text.Mathlib.Text.{◌==◌ as str_eq}
use meshium.Compat.{os_family}
use meshium.Checks.{
  Severity, info, warning, CompatibilityIssue, when, note, blocker, Strings, FilesystemInfo, Docker,
  Snapshot,
}

-- versionMajor: none where the version has no numbers.
unfoldable pub version_major : Strings → String → Option ℕ
version_major lib version = elim (lib.parse_version_parts version) [ [] ↦ none | n ∷ rest ↦ some n ]

unfoldable pub abs_diff : ℕ → ℕ → ℕ
abs_diff a b = if ltb a b then b - a else a - b

-- `if sourceOK && targetOK { ... }`
unfoldable pub with_majors :
    Option ℕ → Option ℕ → (ℕ → ℕ → List CompatibilityIssue) → List CompatibilityIssue
with_majors none t f = []
with_majors (some s) none f = []
with_majors (some s) (some t) f = f s t

abbrev pub is_empty : String → Bool
is_empty text = str_eq text ""

module _ (lib : Strings) where
  abbrev pub compare_os : String → String → String → String → List CompatibilityIssue
  compare_os sd td sa ta =
      when
        (not (
          str_eq (os_family lib.contains (lib.to_lower sd))
            (os_family lib.contains (lib.to_lower td))))
        (note "os" warning)
      ++ with_majors (version_major lib sd) (version_major lib td) (λ s t.
        when (not (str_eq sd td)) (note "os" (if ltb 2 (abs_diff s t) then warning else info)))
      ++ when (not (is_empty sa) && (not (is_empty ta) && not (lib.equal_fold sa ta)))
          (note "architecture" warning)

  unfoldable pub check_os_compatibility : Snapshot → Snapshot → List CompatibilityIssue
  unfolding version_major abs_diff os_family
  check_os_compatibility source target =
      let sd = lib.trim_space source.os.distro in
      let td = lib.trim_space target.os.distro in
      when (not (is_empty sd || is_empty td)) (
        compare_os sd td (lib.trim_space source.os.architecture)
          (lib.trim_space target.os.architecture))

  abbrev last_of : List String → String
  last_of [] = ""
  last_of (text ∷ []) = text
  last_of (text ∷ next ∷ rest) = last_of (next ∷ rest)

  abbrev flavor : List String → String
  flavor [] = "generic"
  flavor (text ∷ []) = "generic"
  flavor (text ∷ next ∷ rest) =
      let last = lib.trim_space (last_of (next ∷ rest)) in
      if is_empty last || lib.is_number last then "generic" else last

  unfoldable pub kernel_family : String → String
  kernel_family kernel =
      let k = lib.trim_space kernel in if is_empty k then "" else flavor (lib.split_dash k)

  -- Both families are known and they differ.
  unfoldable pub families_differ : Snapshot → Snapshot → Bool
  unfolding kernel_family
  families_differ source target =
      let sf = kernel_family (lib.trim_space source.os.kernel) in
      let tf = kernel_family (lib.trim_space target.os.kernel) in
      not (is_empty sf) && (not (is_empty tf) && not (lib.equal_fold sf tf))

  unfoldable pub check_kernel_compatibility : Snapshot → Snapshot → List CompatibilityIssue
  unfolding families_differ version_major abs_diff
  check_kernel_compatibility source target =
      let sk = lib.trim_space source.os.kernel in
      let tk = lib.trim_space target.os.kernel in
      when (not (is_empty sk || is_empty tk)) (
        when (families_differ source target) (blocker "kernel")
        ++ with_majors (version_major lib sk) (version_major lib tk) (λ s t.
          if ltb 2 (abs_diff s t)
          then note "kernel" warning
          else when (ltb 0 (abs_diff s t)) (note "kernel" info)))

  abbrev or_this : Option FilesystemInfo → Option FilesystemInfo → Option FilesystemInfo
  or_this none o = o
  or_this (some fs) o = some fs

  -- The map of filesystemByMountPoint, looked up: the last filesystem at the mount point.
  unfoldable pub filesystem_at : String → List FilesystemInfo → Option FilesystemInfo
  filesystem_at mount [] = none
  filesystem_at mount (fs ∷ rest) =
      let m = lib.trim_space fs.mount_point in
      or_this (filesystem_at mount rest)
        (if not (is_empty m) && str_eq m mount then some fs else none)

  unfoldable pub has_type : String → List FilesystemInfo → Bool
  has_type t [] = false
  has_type t (fs ∷ rest) = str_eq (lib.to_lower (lib.trim_space fs.fs_type)) t || has_type t rest

  abbrev member : String → List String → Bool
  member option [] = false
  member option (text ∷ rest) = str_eq (lib.trim_space text) option || member option rest

  -- missingOptions is not empty: a source option that the target does not have.
  unfoldable pub misses_option : List String → List String → Bool
  misses_option [] target = false
  misses_option (text ∷ rest) target =
      let option = lib.trim_space text in
      (not (is_empty option) && not (member option target)) || misses_option rest target

  -- The issue of two types that differ: ext4 to xfs is only noted.
  abbrev type_severity : String → String → Severity
  type_severity s t = if str_eq s "ext4" && str_eq t "xfs" then info else warning

  abbrev pub compare_mounts : FilesystemInfo → Option FilesystemInfo → List CompatibilityIssue
  compare_mounts src none = note "filesystem" warning
  compare_mounts src (some tgt) =
      let s = lib.to_lower (lib.trim_space src.fs_type) in
      let t = lib.to_lower (lib.trim_space tgt.fs_type) in
      when (not (is_empty s) && (not (is_empty t) && not (str_eq s t)))
        (note "filesystem" (type_severity s t))
      ++ when
          (misses_option (lib.split_comma src.mount_options) (lib.split_comma tgt.mount_options))
          (note "filesystem" warning)

  unfoldable pub check_filesystems :
      List FilesystemInfo → List FilesystemInfo → List CompatibilityIssue
  unfolding filesystem_at misses_option
  check_filesystems [] targets = []
  check_filesystems (src ∷ rest) targets =
      let mount = lib.trim_space src.mount_point in
      when (not (is_empty mount && is_empty (lib.trim_space src.fs_type)))
        (compare_mounts src (filesystem_at mount targets))
      ++ check_filesystems rest targets

  unfoldable pub check_filesystem_compatibility : Snapshot → Snapshot → List CompatibilityIssue
  unfolding check_filesystems
  check_filesystem_compatibility source target =
      check_filesystems source.filesystems target.filesystems

  -- filesystemForPath: the first of the longest mount points that begin the path.
  abbrev longest : String → List FilesystemInfo → Option FilesystemInfo → ℕ → Option FilesystemInfo
  longest path [] best len = best
  longest path (fs ∷ rest) best len =
      let m = lib.trim_space fs.mount_point in
      if not (is_empty m) && (lib.has_prefix path m && ltb len (lib.length_of m))
      then longest path rest (some fs) (lib.length_of m)
      else longest path rest best len

  unfoldable pub filesystem_for_path : List FilesystemInfo → String → Option FilesystemInfo
  filesystem_for_path filesystems path =
      if is_empty (lib.trim_space path)
      then none
      else longest (lib.trim_space path) filesystems none 0

  abbrev less_room : Option FilesystemInfo → Option FilesystemInfo → Bool
  less_room none t = false
  less_room (some s) none = false
  less_room (some s) (some t) = ltb t.avail_mb s.used_mb

  abbrev pub docker_versions : String → String → List CompatibilityIssue
  docker_versions sv tv =
      if not (is_empty sv) && not (is_empty tv)
      then with_majors (version_major lib sv) (version_major lib tv)
          (λ a b. when (not (a == b)) (note "docker" warning))
      else when (not (str_eq sv tv)) (note "docker" warning)

  abbrev pub compare_dockers : Snapshot → Snapshot → Docker → Docker → List CompatibilityIssue
  compare_dockers source target s t =
      let sv = lib.trim_space s.docker_version in
      let tv = lib.trim_space t.docker_version in
      let sd = lib.trim_space source.storage_driver in
      let td = lib.trim_space target.storage_driver in
      docker_versions sv tv
      ++ when (not (is_empty sd) && (not (is_empty td) && not (lib.equal_fold sd td)))
          (note "docker" warning)
      ++ when
          ((not (is_empty source.docker_root) || not (is_empty target.docker_root))
            && less_room (filesystem_for_path source.filesystems source.docker_root)
                (filesystem_for_path target.filesystems target.docker_root))
          (note "docker" warning)
      ++ when (ltb 0 s.compose_projects) (note "docker" (if is_empty tv then warning else info))

  abbrev pub docker_cases :
      Snapshot → Snapshot → Option Docker → Option Docker → List CompatibilityIssue
  docker_cases source target none t = []
  docker_cases source target (some s) none = blocker "docker"
  docker_cases source target (some s) (some t) = compare_dockers source target s t

  unfoldable pub check_docker_compatibility : Snapshot → Snapshot → List CompatibilityIssue
  unfolding version_major filesystem_for_path
  check_docker_compatibility source target = docker_cases source target source.docker target.docker
