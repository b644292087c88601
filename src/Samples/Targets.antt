-- ===== src/Samples/Targets.antt =====
-- Concrete servers for the compatibility check (internal/mod/discovery/compat.go).
use meshium.Prelude.{
  ℕ, ◌+◌, ◌-◌, ◌*◌, ◌==◌, if◌then◌else◌, List, ◌≡◌, ◌↔◌, refl, Bool, true, false, not, All, String,
  [], ◌∷◌, some,
}
use meshium.Compat.{
  ServerSnapshot, below, same, above, compare_versions, has_blockers, check_ram, check_disk,
  check_docker, check_versions, check_ports, check_os, os_family, check_compatibility, port_in_use,
  ram_tight, docker_older,
}
use meshium.Compat.Parse.{VersionLib, parse_version_parts, compare_version_texts}
use meshium.Compat.Versions.{flip, number_at, IsLess, compare_versions_lem}
use meshium.Compat.Ports.{IsFree}
use meshium.Compat.Verdict.{Fits, DockerReady, check_compatibility_iff}

abbrev old_server : ServerSnapshot
old_server = record {
  hardware = record {
    ram_total_mb = 8192;
    ram_used_mb = 3000;
    disk_total_gb = 80;
    disk_used_gb = 30;
  };
  docker = some (record { version = some (24 ∷ 0 ∷ 7 ∷ []); containers = 3 });
  network_ports =
      record { port = 80; process = "nginx" } ∷ record { port = 5432; process = "postgres" } ∷ [];
  distro = "ubuntu";
  architecture = "x86_64";
}

abbrev new_server : ServerSnapshot
new_server = record old_server {
  hardware = record {
    ram_total_mb = 4096;
    ram_used_mb = 200;
    disk_total_gb = 100;
    disk_used_gb = 5;
  };
  docker = some (record { version = some (23 ∷ []); containers = 0 });
  network_ports =
      record { port = 80; process = "nginx" } ∷ record { port = 5432; process = "mysql" } ∷ [];
}

abbrev any_text : String → String → Bool
any_text text part = true

versions_test :
    (compare_versions (24 ∷ 0 ∷ 7 ∷ []) (23 ∷ []) ≡ above)
    × (compare_versions (1 ∷ 2 ∷ []) (1 ∷ 2 ∷ 0 ∷ []) ≡ same)
    × (compare_versions (1 ∷ 9 ∷ []) (1 ∷ 10 ∷ []) ≡ below)
unfolding compare_versions
versions_test = (refl, refl, refl)

check_test : check_compatibility any_text (some old_server) (some new_server) ≡ record {
  compatible = false;
  warnings = ram_tight ∷ docker_older ∷ [];
  blockers = port_in_use 5432 ∷ [];
}
unfolding check_compatibility check_ram check_disk check_docker check_versions compare_versions
    check_ports check_os os_family
check_test = refl

-- Texts without spaces, split at the dot, and the number of their digits.
abbrev cons_first : ℕ → List (List ℕ) → List (List ℕ)
cons_first c [] = (c ∷ []) ∷ []
cons_first c (part ∷ rest) = (c ∷ part) ∷ rest

abbrev split_at_dot : List ℕ → List (List ℕ)
split_at_dot [] = [] ∷ []
split_at_dot (c ∷ rest) =
    let parts = split_at_dot rest in if c == 46 then [] ∷ parts else cons_first c parts

abbrev number_of : ℕ → List ℕ → ℕ
number_of n [] = n
number_of n (c ∷ rest) = number_of (10 * n + (c - 48)) rest

abbrev version_lib : VersionLib
version_lib = record { trim_space = λ text. text; split_dot = split_at_dot; atoi = number_of 0 }

-- "v1.9" and "1.10-rc"
abbrev nine : List ℕ
nine = 118 ∷ 49 ∷ 46 ∷ 57 ∷ []

abbrev ten : List ℕ
ten = 49 ∷ 46 ∷ 49 ∷ 48 ∷ 45 ∷ 114 ∷ 99 ∷ []

parse_test :
    (parse_version_parts version_lib nine ≡ 1 ∷ 9 ∷ [])
    × (parse_version_parts version_lib ten ≡ 1 ∷ 10 ∷ [])
    × (compare_version_texts version_lib nine ten ≡ below)
unfolding parse_version_parts compare_version_texts compare_versions
parse_test = (refl, refl, refl)

compare_versions_lem_example :
    let x : List ℕ = parse_version_parts version_lib nine in
    let y : List ℕ = parse_version_parts version_lib ten in
    ((compare_version_texts version_lib nine ten ≡ below) ↔ IsLess x y)
    × ((compare_version_texts version_lib nine ten ≡ same)
        ↔ ((i : ℕ) → number_at x i ≡ number_at y i))
    × (compare_version_texts version_lib nine ten
        ≡ flip (compare_version_texts version_lib ten nine))
    × (x ≡ [] → y ≡ [] → compare_version_texts version_lib nine ten ≡ same)
compare_versions_lem_example = compare_versions_lem version_lib nine ten

check_compatibility_iff_example :
    (((check_compatibility any_text (some old_server) (some new_server)).compatible ≡ true) ↔ (
      Fits 4096 3000
      × Fits 100 30
      × DockerReady old_server.docker new_server.docker
      × All (IsFree new_server.network_ports) old_server.network_ports))
    × (has_blockers (check_compatibility any_text (some old_server) (some new_server))
        ≡ not (check_compatibility any_text (some old_server) (some new_server)).compatible)
check_compatibility_iff_example = check_compatibility_iff any_text old_server new_server
