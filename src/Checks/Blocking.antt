-- ===== src/Checks/Blocking.antt =====
-- Which pairs of servers the checks of internal/mod/discovery/compat.go let through without a blocking
-- issue.
use meshium.Prelude.{
  ◌≡◌, ◌≢◌, ◌↔◌, ◌⊎◌, inl, inr, refl, sym, ◌∙◌, ap, false, not, ◌&&◌, ◌||◌, Option, none, some, [],
  All,
}
use meshium.Checks.{info, warning, Strings, Docker, Snapshot, any_blocking}
use meshium.Checks.Host.{check_kernel_compatibility, docker_cases, check_docker_compatibility}
use meshium.Checks.Services.{
  is_some, check_port_conflicts, check_runtime_compatibility, check_database_compatibility,
}
use meshium.Checks.Site.{lacks_space, check_storage_compatibility, run_all_compatibility_checks}
use meshium.Checks.Quiet.{
  any_blocking-append, append-IsQuiet, only_first, only_last, empty-IsQuiet, noted, when-blocker,
  os-IsQuiet, filesystems-IsQuiet, firewall-IsQuiet, security-IsQuiet, network-IsQuiet, ssl-IsQuiet,
  cloud-IsQuiet, compare_dockers-IsQuiet, any-kernel,
}
use meshium.Checks.Needs.{
  all_false, kernel_split, any-blocker, ports_iff, runtimes_iff, databases_iff,
}
use meshium.Checks.Ready.{
  KernelFits, kernel_ready, RuntimeThere, runtimes_ready, PortFree, ports_ready, DatabaseServed,
  databases_ready, SpaceEnough, space_ready,
}

docker_ready :
    (a b : Option Docker) → ((is_some a && not (is_some b)) ≡ false) ↔ ((a ≡ none) ⊎ (b ≢ none))
docker_ready none b = (λ h. inl refl, λ x. refl)
docker_ready (some s) none = (λ h. cc, λ x. elim x [ inl e ↦ cc e | inr e ↦ absurd (e refl) ])
docker_ready (some s) (some t) = (λ h. inr (λ e. cc), λ x. refl)

module _ (lib : Strings) where
  any-docker_cases :
      (s t : Snapshot) (a b : Option Docker)
      → any_blocking (docker_cases lib s t a b) ≡ (is_some a && not (is_some b))
  any-docker_cases s t none b = empty-IsQuiet
  any-docker_cases s t (some a) none = any-blocker "docker"
  any-docker_cases s t (some a) (some b) = compare_dockers-IsQuiet lib s t a b

  any-docker :
      (s t : Snapshot)
      → any_blocking (check_docker_compatibility lib s t)
        ≡ (is_some s.docker && not (is_some t.docker))
  unfolding check_docker_compatibility
  any-docker s t = any-docker_cases s t s.docker t.docker

  any-storage :
      (s t : Snapshot) → any_blocking (check_storage_compatibility lib s t) ≡ lacks_space s t
  unfolding check_storage_compatibility
  any-storage s t =
      only_first _ _ (noted _ "storage" info)
      ∙ only_first _ _ (noted _ "storage" warning)
      ∙ when-blocker (lacks_space s t) "storage"

  -- The blocking issues come from six of the checks.
  any-run_all :
      (s t : Snapshot)
      → any_blocking (run_all_compatibility_checks lib s t) ≡ (
          any_blocking (check_kernel_compatibility lib s t)
          || (any_blocking (check_docker_compatibility lib s t)
              || (any_blocking (check_runtime_compatibility lib s t)
                  || (any_blocking (check_port_conflicts s t)
                      || (any_blocking (check_database_compatibility lib s t)
                          || any_blocking (check_storage_compatibility lib s t))))))
  unfolding run_all_compatibility_checks
  any-run_all s t =
      only_last _ _ (os-IsQuiet lib s t)
      ∙ any_blocking-append _ _
      ∙ ap (λ b. any_blocking (check_kernel_compatibility lib s t) || b)
          (only_last _ _ (filesystems-IsQuiet lib s.filesystems t.filesystems)
            ∙ any_blocking-append _ _
            ∙ ap (λ b. any_blocking (check_docker_compatibility lib s t) || b)
                (any_blocking-append _ _
                  ∙ ap (λ b. any_blocking (check_runtime_compatibility lib s t) || b)
                      (any_blocking-append _ _
                        ∙ ap (λ b. any_blocking (check_port_conflicts s t) || b)
                            (only_last _ _ (firewall-IsQuiet lib s t)
                              ∙ only_last _ _ (security-IsQuiet lib s t)
                              ∙ any_blocking-append _ _
                              ∙ ap (λ b. any_blocking (check_database_compatibility lib s t) || b)
                                  (only_first _ _ (
                                    append-IsQuiet _ _ (network-IsQuiet lib s t) (
                                      append-IsQuiet _ _ (ssl-IsQuiet lib s t)
                                        (cloud-IsQuiet lib s t))))))))

  -- What a target must offer, in the terms of the two snapshots.
  pub record IsReady (s t : Snapshot) : Type 0 where
    pub kernel_fits : KernelFits lib s t
    pub docker_there : (s.docker ≡ none) ⊎ (t.docker ≢ none)
    pub runtimes_there : All (RuntimeThere lib t.runtimes) s.runtimes
    pub ports_free : All (PortFree t.network_ports) s.network_ports
    pub databases_served : All (DatabaseServed lib t.databases) s.databases
    pub space_enough : SpaceEnough s t

  -- RunAllCompatibilityChecks reports no blocking issue exactly where the target is ready: its kernel
  -- is of the source's family, or a kernel or its family is unknown; it has Docker if the source has; it
  -- has every runtime of the source by a name that is not empty; it uses none of the source's ports, less
  -- port 0; for every database of the source with a type, its first one of that type is, Redis apart, of
  -- no older major version where both are known; and its free space holds what the source's disk and what
  -- the source's databases use, or both are nothing.
  pub run_all_iff :
      (s t : Snapshot) → (any_blocking (run_all_compatibility_checks lib s t) ≡ false) ↔ IsReady s t
  unfolding check_runtime_compatibility check_port_conflicts check_database_compatibility
  run_all_iff s t =
      let all = any-run_all s t in
      (
        λ q.
            let (k, d, r, p, b, x) = all_false.0 (sym all ∙ q) in
            record {
              kernel_fits =
                  (kernel_ready lib s t).0 (kernel_split.0 (sym (any-kernel lib s t) ∙ k));
              docker_there = (docker_ready s.docker t.docker).0 (sym (any-docker s t) ∙ d);
              runtimes_there =
                  (runtimes_ready lib t.runtimes s.runtimes).0
                    ((runtimes_iff lib s.runtimes t.runtimes).0 r);
              ports_free =
                  (ports_ready t.network_ports s.network_ports).0
                    ((ports_iff [] s.network_ports t.network_ports tt).0 p);
              databases_served =
                  (databases_ready lib t.databases s.databases).0
                    ((databases_iff lib s.databases t.databases).0 b);
              space_enough = (space_ready s t).0 (sym (any-storage s t) ∙ x);
            },
        λ ready.
            all
            ∙ all_false.1 (
              any-kernel lib s t ∙ kernel_split.1 ((kernel_ready lib s t).1 ready.kernel_fits),
              any-docker s t ∙ (docker_ready s.docker t.docker).1 ready.docker_there,
              (runtimes_iff lib s.runtimes t.runtimes).1
                  ((runtimes_ready lib t.runtimes s.runtimes).1 ready.runtimes_there),
              (ports_iff [] s.network_ports t.network_ports tt).1
                  ((ports_ready t.network_ports s.network_ports).1 ready.ports_free),
              (databases_iff lib s.databases t.databases).1
                  ((databases_ready lib t.databases s.databases).1 ready.databases_served),
              any-storage s t ∙ (space_ready s t).1 ready.space_enough,
            ),
      )
