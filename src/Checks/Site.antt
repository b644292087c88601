-- ===== src/Checks/Site.antt =====
-- CheckStorageCompatibility, CheckNetworkCompatibility, CheckSSLCompatibility, CheckCloudCompatibility
-- and RunAllCompatibilityChecks of internal/mod/discovery/compat.go.
use meshium.Prelude.{
  ℕ, suc, ◌+◌, Bool, true, false, not, ◌&&◌, ◌||◌, if◌then◌else◌, ltb, ◌==◌, Option, none, some,
  String, List, [], ◌∷◌, ◌++◌,
}
use text.Mathlib.Text.{◌==◌ as str_eq}
use meshium.Checks.{
  info, warning, CompatibilityIssue, when, note, blocker, Strings, FilesystemInfo, Port,
  DatabaseInfo, DnsInfo, SslCertInfo, Snapshot,
}
use meshium.Checks.Host.{
  is_empty, filesystem_at, check_os_compatibility, check_kernel_compatibility,
  check_filesystem_compatibility, check_docker_compatibility,
}
use meshium.Checks.Services.{
  is_some, is_nil, check_runtime_compatibility, check_port_conflicts, check_firewall_compatibility,
  check_security_compatibility, check_database_compatibility,
}

unfoldable pub total_database_size : List DatabaseInfo → ℕ
total_database_size [] = 0
total_database_size (db ∷ rest) = db.size_mb + total_database_size rest

-- The size of the data: what is used on the disk, or the databases where they are larger.
unfoldable pub source_data_size : Snapshot → ℕ
unfolding total_database_size
source_data_size source =
    let dbs = total_database_size source.databases in
    if ltb source.disk_used_mb dbs then dbs else source.disk_used_mb

-- `sourceDataSize > 0 && targetFree < sourceDataSize`, where the free space may be negative.
unfoldable pub lacks_space : Snapshot → Snapshot → Bool
unfolding source_data_size
lacks_space source target =
    ltb 0 (source_data_size source)
    && ltb target.disk_total_mb (source_data_size source + target.disk_used_mb)

module _ (lib : Strings) where
  -- The mounts of the source, and those of them that the target has.
  abbrev mounts : List FilesystemInfo → ℕ
  mounts [] = 0
  mounts (fs ∷ rest) =
      let n = mounts rest in if is_empty (lib.trim_space fs.mount_point) then n else suc n

  abbrev matched : List FilesystemInfo → List FilesystemInfo → ℕ
  matched [] targets = 0
  matched (fs ∷ rest) targets =
      let n = matched rest targets in
      if not (is_empty (lib.trim_space fs.mount_point))
        && is_some (filesystem_at lib (lib.trim_space fs.mount_point) targets)
      then suc n
      else n

  unfoldable pub volume_layout_compatible : List FilesystemInfo → List FilesystemInfo → Bool
  unfolding filesystem_at
  volume_layout_compatible sources targets =
      not (is_nil sources)
      && (not (is_nil targets)
          && (ltb 0 (matched sources targets) && matched sources targets == mounts sources))

  unfoldable pub check_storage_compatibility : Snapshot → Snapshot → List CompatibilityIssue
  unfolding lacks_space volume_layout_compatible
  check_storage_compatibility source target =
      when (lacks_space source target) (blocker "storage")
      ++ when
          (not (is_empty source.storage_driver)
            && (not (is_empty target.storage_driver)
                && not (lib.equal_fold source.storage_driver target.storage_driver)))
          (note "storage" warning)
      ++ when (volume_layout_compatible source.filesystems target.filesystems) (note "storage" info)

  abbrev has_address : String → List Port → Bool
  has_address address [] = false
  has_address address (p ∷ rest) =
      str_eq (lib.trim_space p.address) address || has_address address rest

  -- setDifference of the two address sets is not empty.
  unfoldable pub misses_address : List Port → List Port → Bool
  misses_address [] targets = false
  misses_address (p ∷ rest) targets =
      let address = lib.trim_space p.address in
      (not (is_empty address) && not (has_address address targets)) || misses_address rest targets

  abbrev same_names : List String → List String → Bool
  same_names [] [] = true
  same_names [] (t ∷ ts) = false
  same_names (s ∷ ss) [] = false
  same_names (s ∷ ss) (t ∷ ts) = str_eq (lib.trim_space s) (lib.trim_space t) && same_names ss ts

  unfoldable pub dns_equal : DnsInfo → DnsInfo → Bool
  dns_equal s t =
      str_eq (lib.trim_space s.search_domain) (lib.trim_space t.search_domain)
      && same_names s.nameservers t.nameservers

  abbrev pub compare_dns : Option DnsInfo → Option DnsInfo → List CompatibilityIssue
  compare_dns none t = []
  compare_dns (some s) none = []
  compare_dns (some s) (some t) = when (not (dns_equal s t)) (note "network" info)

  unfoldable pub check_network_compatibility : Snapshot → Snapshot → List CompatibilityIssue
  unfolding misses_address dns_equal
  check_network_compatibility source target =
      when (misses_address source.network_ports target.network_ports) (note "network" warning)
      ++ compare_dns source.dns target.dns

  abbrev certs_of : Option (List SslCertInfo) → List SslCertInfo
  certs_of none = []
  certs_of (some certs) = certs

  unfoldable pub ssl_certs_from_snapshot : Snapshot → List SslCertInfo
  ssl_certs_from_snapshot source = source.ssl ++ certs_of source.nginx_certs

  abbrev has_package : String → List String → Bool
  has_package needle [] = false
  has_package needle (text ∷ rest) =
      let pkg = lib.to_lower (lib.trim_space text) in
      (not (is_empty pkg) && (str_eq pkg needle || lib.contains pkg needle))
      || has_package needle rest

  unfoldable pub package_available : List String → String → Bool
  package_available packages name =
      let needle = lib.to_lower (lib.trim_space name) in
      not (is_empty needle) && has_package needle packages

  unfoldable pub is_self_signed_cert : SslCertInfo → Bool
  is_self_signed_cert cert =
      let issuer = lib.to_lower (lib.trim_space cert.issuer) in
      let path = lib.to_lower (lib.trim_space cert.path) in
      (lib.contains issuer "self-signed" || lib.contains issuer "self signed")
      || (lib.contains path "self-signed" || lib.contains path "self_signed")

  abbrev pub self_signed : List SslCertInfo → List CompatibilityIssue
  self_signed [] = []
  self_signed (cert ∷ rest) =
      when (is_self_signed_cert cert) (note "ssl" warning) ++ self_signed rest

  unfoldable pub check_ssl_compatibility : Snapshot → Snapshot → List CompatibilityIssue
  unfolding ssl_certs_from_snapshot package_available is_self_signed_cert
  check_ssl_compatibility source target = when (not (is_nil (ssl_certs_from_snapshot source))) (
      when (package_available target.packages "certbot") (note "ssl" info)
      ++ self_signed (ssl_certs_from_snapshot source))

  unfoldable pub cloud_label : Snapshot → String
  cloud_label s =
      let hint = lib.to_lower (lib.trim_space s.os.virtualization) in
      if is_empty hint
        || (str_eq hint "none" || (str_eq hint "baremetal" || str_eq hint "bare metal"))
      then "baremetal"
      else if lib.contains hint "aws" || lib.contains hint "ec2"
      then "aws"
      else if lib.contains hint "azure"
      then "azure"
      else if lib.contains hint "gce" || (lib.contains hint "gcp" || lib.contains hint "google")
      then "gcp"
      else if lib.contains hint "openstack"
      then "openstack"
      else if lib.contains hint "vmware"
      then "vmware"
      else if lib.contains hint "kvm"
          || (lib.contains hint "qemu"
              || (lib.contains hint "hyperv"
                  || (lib.contains hint "virtualbox" || lib.contains hint "xen")))
      then "virtualized"
      else if lib.contains hint "cloud"
      then "cloud"
      else hint

  unfoldable pub is_cloud_like : String → Bool
  is_cloud_like label =
      let l = lib.to_lower (lib.trim_space label) in
      str_eq l "aws"
      || (str_eq l "azure" || (str_eq l "gcp" || (str_eq l "openstack" || str_eq l "cloud")))

  abbrev pub compare_clouds : String → String → List CompatibilityIssue
  compare_clouds sc tc =
      when (not (is_empty sc) && (not (is_empty tc) && not (str_eq sc tc))) (note "cloud" info)
      ++ when (str_eq sc "baremetal" && (not (is_empty tc) && not (str_eq tc "baremetal")))
          (note "cloud" info)
      ++ when (is_cloud_like tc) (note "cloud" warning)

  unfoldable pub check_cloud_compatibility : Snapshot → Snapshot → List CompatibilityIssue
  unfolding cloud_label is_cloud_like
  check_cloud_compatibility source target =
      when (not (is_empty (cloud_label source) && is_empty (cloud_label target)))
        (compare_clouds (cloud_label source) (cloud_label target))

  unfoldable pub run_all_compatibility_checks : Snapshot → Snapshot → List CompatibilityIssue
  unfolding check_os_compatibility check_kernel_compatibility check_filesystem_compatibility
      check_docker_compatibility check_runtime_compatibility check_port_conflicts
      check_firewall_compatibility check_security_compatibility check_database_compatibility
      check_storage_compatibility check_network_compatibility check_ssl_compatibility
      check_cloud_compatibility
  run_all_compatibility_checks source target =
      check_os_compatibility lib source target
      ++ (check_kernel_compatibility lib source target
          ++ (check_filesystem_compatibility lib source target
              ++ (check_docker_compatibility lib source target
                  ++ (check_runtime_compatibility lib source target
                      ++ (check_port_conflicts source target
                          ++ (check_firewall_compatibility lib source target
                              ++ (check_security_compatibility lib source target
                                  ++ (check_database_compatibility lib source target
                                      ++ (check_storage_compatibility source target
                                          ++ (check_network_compatibility source target
                                              ++ (check_ssl_compatibility source target
                                                  ++ check_cloud_compatibility source
                                                      target)))))))))))
