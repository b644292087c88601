-- ===== src/Checks/Needs.antt =====
-- What single checks of internal/mod/discovery/compat.go that can block ask for: the ports, the runtimes
-- and the databases.
use meshium.Prelude.{
  ℕ, ◌≤◌, ◌≡◌, ◌↔◌, ◌⊎◌, inl, inr, refl, sym, ◌∙◌, subst, Bool, true, false, not, ◌&&◌, ◌||◌,
  if◌then◌else◌, ltb, ◌==◌, Option, none, some, String, List, [], ◌∷◌, All, arith, Bool-cases,
}
use text.Mathlib.Text.{◌==◌ as str_eq}
use meshium.Checks.{
  info, warning, CompatibilityIssue, when, note, blocker, Strings, RuntimeInfo, Port, DatabaseInfo,
  any_blocking,
}
use meshium.Checks.Host.{is_empty, version_major, with_majors}
use meshium.Checks.Services.{
  is_some, has_port, check_ports, runtime_at, compare_runtimes, check_runtimes, database_at,
  compare_databases, check_databases, member,
}
use meshium.Checks.Quiet.{
  IsQuiet, append-IsQuiet, append-IsQuiet_iff, empty-IsQuiet, noted, when-blocker,
  with_majors-IsQuiet,
}

pub all_false :
    {a b c d e f : Bool}
    → ((a || (b || (c || (d || (e || f))))) ≡ false)
      ↔ ((a ≡ false) × (b ≡ false) × (c ≡ false) × (d ≡ false) × (e ≡ false) × (f ≡ false))
all_false {a} {b} {c} {d} {e} {f} = ground arith

pub kernel_split :
    {x y f : Bool} → ((not (x || y) && f) ≡ false) ↔ ((x ≡ true) ⊎ ((y ≡ true) ⊎ (f ≡ false)))
kernel_split {x} {y} {f} = ground arith

pub docker_split : {a b : Bool} → ((a && not b) ≡ false) ↔ ((a ≡ false) ⊎ (b ≡ true))
docker_split {a} {b} = ground arith

pub any-blocker : (category : String) → any_blocking (blocker category) ≡ true
unfolding any_blocking blocker
any-blocker category = refl

-- A port of the source is unused or free on the target.
abbrev pub IsFree : List Port → Port → Type 0
IsFree targets p = (p.port ≡ 0) ⊎ (has_port p.port targets ≡ false)

pub seen_free :
    (n : ℕ) (targets : List Port) (seen : List ℕ)
    → All (λ m. has_port m targets ≡ false) seen
    → member n seen ≡ true
    → has_port n targets ≡ false
seen_free n targets [] a h = ground arith
seen_free n targets (m ∷ rest) (f, a) h = elim (Bool-cases (m == n)) [
  | inl same ↦ subst (λ k. has_port k targets ≡ false) (ground (arith, same)) f
  | inr other ↦ seen_free n targets rest a (ground (arith, other, h))
]

pub ports_iff :
    (seen : List ℕ) (ps targets : List Port)
    → All (λ m. has_port m targets ≡ false) seen
    → IsQuiet (check_ports seen ps targets) ↔ All (IsFree targets) ps
unfolding check_ports
ports_iff seen [] targets a = (λ q. tt, λ f. empty-IsQuiet)
ports_iff seen (p ∷ rest) targets a = elim (Bool-cases (p.port == 0 || member p.port seen)) [
  | inl skip ↦ rw skip (
    λ q. (
      ground (arith, skip, seen_free p.port targets seen a),
      (ports_iff seen rest targets a).0 q,
    ),
    λ f. (ports_iff seen rest targets a).1 f.1,
  )
  | inr check ↦ rw check (
    λ q.
        let (x, y) = (append-IsQuiet_iff _ _).0 q in
        let free : has_port p.port targets ≡ false =
          sym (when-blocker (has_port p.port targets) "port") ∙ x in
        (inr free, (ports_iff (p.port ∷ seen) rest targets (free, a)).0 y),
    λ f.
        let free : has_port p.port targets ≡ false = ground (arith, check, f.0) in
        append-IsQuiet _ _ (when-blocker (has_port p.port targets) "port" ∙ free)
          ((ports_iff (p.port ∷ seen) rest targets (free, a)).1 f.1),
  )
]

-- No major version is older on the target, where both are known.
abbrev pub IsNotOlder : Option ℕ → Option ℕ → Type 0
IsNotOlder none t = Unit
IsNotOlder (some s) none = Unit
IsNotOlder (some s) (some t) = s ≤ t

pub older_iff :
    (s t : Option ℕ)
    → IsQuiet (
        with_majors s t
          (λ m n. if ltb n m then blocker "database" else when (ltb m n) (note "database" info)))
      ↔ IsNotOlder s t
unfolding with_majors
older_iff none t = (λ q. tt, λ o. empty-IsQuiet)
older_iff (some s) none = (λ q. tt, λ o. empty-IsQuiet)
older_iff (some s) (some t) = elim (Bool-cases (ltb t s)) [
  | inl older ↦
      rw older (λ q. ground (arith, q, any-blocker "database"), λ o. ground (arith, older, o))
  | inr fits ↦ rw fits (λ q. ground (arith, fits), λ o. noted _ "database" info)
]

pub served_iff :
    {P : Type 0} (empty : Bool) (xs : List CompatibilityIssue)
    → IsQuiet xs ↔ P
    → IsQuiet (when (not empty) xs) ↔ ((empty ≡ true) ⊎ P)
unfolding when
served_iff true xs e = (λ q. inl refl, λ a. empty-IsQuiet)
served_iff false xs e =
    (λ q. inr (e.0 q), λ a. elim a [ inl h ↦ ground (arith, h) | inr p ↦ e.1 p ])

module _ (lib : Strings) where
  -- The target has the runtime, under its name in lower case.
  abbrev pub HasRuntime : List RuntimeInfo → RuntimeInfo → Type 0
  HasRuntime targets r =
      is_some (runtime_at lib (lib.to_lower (lib.trim_space r.name)) targets) ≡ true

  pub any-compare_runtimes :
      (src : RuntimeInfo) (o : Option RuntimeInfo)
      → any_blocking (compare_runtimes lib src o) ≡ not (is_some o)
  any-compare_runtimes src none = any-blocker "runtime"
  any-compare_runtimes src (some tgt) = with_majors-IsQuiet _ _ _ (λ s t. noted _ "runtime" warning)

  pub runtimes_iff :
      (sources targets : List RuntimeInfo)
      → IsQuiet (check_runtimes lib sources targets) ↔ All (HasRuntime targets) sources
  unfolding check_runtimes
  runtimes_iff [] targets = (λ q. tt, λ a. empty-IsQuiet)
  runtimes_iff (src ∷ rest) targets =
      let o : Option RuntimeInfo =
        runtime_at lib (lib.to_lower (lib.trim_space src.name)) targets in
      ground (
        arith,
        append-IsQuiet_iff (compare_runtimes lib src o) (check_runtimes lib rest targets),
        any-compare_runtimes src o,
        runtimes_iff rest targets,
      )

  -- The target's database of the type is there and, Redis apart, not of an older major version.
  abbrev pub Accepts : String → DatabaseInfo → Option DatabaseInfo → Type 0
  Accepts t src none = ⊥
  Accepts t src (some tgt) =
      (str_eq t "redis" ≡ true)
      ⊎ IsNotOlder (version_major lib src.db_version) (version_major lib tgt.db_version)

  abbrev pub IsServed : List DatabaseInfo → DatabaseInfo → Type 0
  IsServed targets src =
      let t = lib.to_lower (lib.trim_space src.db_type) in
      (is_empty t ≡ true) ⊎ Accepts t src (database_at lib t targets)

  pub compare_databases_iff :
      (t : String) (src : DatabaseInfo) (o : Option DatabaseInfo)
      → IsQuiet (compare_databases lib t src o) ↔ Accepts t src o
  compare_databases_iff t src none =
      (λ q. ground (arith, q, any-blocker "database"), λ b. elim b [ ])
  compare_databases_iff t src (some tgt) =
      let older = older_iff (version_major lib src.db_version) (version_major lib tgt.db_version) in
      elim (Bool-cases (str_eq t "redis")) [
        | inl redis ↦ rw redis (λ q. inl refl, λ a. noted _ "database" warning)
        | inr no_redis ↦
            rw no_redis
              (λ q. inr (older.0 q), λ a. elim a [ inl e ↦ ground (arith, e) | inr n ↦ older.1 n ])
      ]

  pub databases_iff :
      (sources targets : List DatabaseInfo)
      → IsQuiet (check_databases lib sources targets) ↔ All (IsServed targets) sources
  unfolding check_databases
  databases_iff [] targets = (λ q. tt, λ a. empty-IsQuiet)
  databases_iff (src ∷ rest) targets =
      let t : String = lib.to_lower (lib.trim_space src.db_type) in
      let found : Option DatabaseInfo = database_at lib t targets in
      let first : IsQuiet (when (not (is_empty t)) (compare_databases lib t src found))
          ↔ IsServed targets src =
        served_iff (is_empty t) (compare_databases lib t src found)
          (compare_databases_iff t src found) in
      let both =
        append-IsQuiet_iff (when (not (is_empty t)) (compare_databases lib t src found))
          (check_databases lib rest targets) in
      (
        λ q. let (x, y) = both.0 q in (first.0 x, (databases_iff rest targets).0 y),
        λ a. both.1 (first.1 a.0, (databases_iff rest targets).1 a.1),
      )
