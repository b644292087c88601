-- ===== src/Samples/Servers.antt =====
-- The detailed checks (internal/mod/discovery/compat.go), at concrete inputs. The text functions are those
-- of the package strings on texts in lower case without spaces.
use meshium.Prelude.{
  ℕ, ◌≡◌, ◌↔◌, refl, true, false, List, [], ◌∷◌, String, none, some, if◌then◌else◌,
}
use text.Mathlib.Text.{◌==◌ as str_eq}
use meshium.Checks.{Strings, Port, Snapshot, any_blocking, when, note, blocker}
use meshium.Checks.Host.{with_majors}
use meshium.Checks.Services.{check_port_conflicts}
use meshium.Checks.Site.{run_all_compatibility_checks}
use meshium.Checks.Blocking.{IsReady, run_all_iff}

-- The numbers of the versions that occur here.
abbrev parts : String → List ℕ
parts text =
    if str_eq text "5.15.0-91-generic"
    then 5 ∷ 15 ∷ 0 ∷ []
    else if str_eq text "14.2"
    then 14 ∷ 2 ∷ []
    else if str_eq text "15.1"
    then 15 ∷ 1 ∷ []
    else []

abbrev dashes : String → List String
dashes text =
    if str_eq text "5.15.0-91-generic" then "5.15.0" ∷ "91" ∷ "generic" ∷ [] else text ∷ []

abbrev lib : Strings
lib = record {
  trim_space = λ text. text;
  to_lower = λ text. text;
  equal_fold = str_eq;
  has_prefix = str_eq;
  contains = str_eq;
  length_of = λ text. 1;
  split_comma = λ text. text ∷ [];
  split_dash = dashes;
  is_number = λ text. str_eq text "91";
  itoa = λ n. "";
  fields_of_rule = λ text. text ∷ [];
  parse_version_parts = parts;
}

abbrev server : String → List Port → Snapshot
server version ports = record {
  os = record {
    distro = "ubuntu";
    kernel = "5.15.0-91-generic";
    architecture = "x86_64";
    virtualization = "kvm";
  };
  disk_total_mb = 1000;
  disk_used_mb = 400;
  filesystems = [];
  docker = some (record { docker_version = "24.0"; compose_projects = 1 });
  storage_driver = "overlay2";
  docker_root = "";
  runtimes = record { name = "node"; version = "" } ∷ [];
  network_ports = ports;
  firewall = none;
  selinux = none;
  apparmor = none;
  databases = record { db_type = "postgresql"; db_version = version; size_mb = 100 } ∷ [];
  dns = none;
  packages = [];
  ssl = [];
  nginx_certs = none;
}

abbrev old : Snapshot
old = server "14.2" (record { port = 443; address = "" } ∷ [])

abbrev new : Snapshot
new = server "15.1" []

-- An upgrade is let through, and a downgrade is not.
upgrade_test : any_blocking (run_all_compatibility_checks lib old new) ≡ false
unfolding run_all_compatibility_checks any_blocking when note blocker with_majors
upgrade_test = refl

downgrade_test : any_blocking (run_all_compatibility_checks lib new old) ≡ true
unfolding run_all_compatibility_checks any_blocking when note blocker with_majors
downgrade_test = refl

-- Both servers listen on the port of SSH.
ssh_test :
    any_blocking (
      check_port_conflicts
        (server "14.2" (record { port = 22; address = "" } ∷ []))
        (server "14.2" (record { port = 22; address = "" } ∷ [])))
    ≡ true
unfolding check_port_conflicts any_blocking when blocker
ssh_test = refl

run_all_iff_example :
    (any_blocking (run_all_compatibility_checks lib old new) ≡ false) ↔ IsReady lib old new
run_all_iff_example = run_all_iff lib old new
