-- ===== src/Checks/Ready.antt =====
-- What the detailed checks of internal/mod/discovery/compat.go ask of a target, said of the two snapshots
-- alone.
use meshium.Prelude.{
  ℕ, ◌+◌, ◌≤◌, ◌≡◌, ◌≢◌, ◌↔◌, ◌⊎◌, inl, inr, refl, sym, ◌∙◌, ap, Bool, true, false, not, ◌&&◌,
  if◌then◌else◌, ltb, ◌==◌, Option, none, some, String, List, [], ◌∷◌, All, Bool-cases, arith,
}
use mathlib.Core.List.{foldr}
use text.Mathlib.Text.{◌==◌ as str_eq}
use text.Mathlib.TextEquality.{eq_iff}
use meshium.Checks.{Strings, RuntimeInfo, Port, DatabaseInfo, Snapshot}
use meshium.Checks.Host.{is_empty, kernel_family, families_differ, version_major}
use meshium.Checks.Services.{is_some, has_port, runtime_at, database_at, or_this}
use meshium.Checks.Site.{total_database_size, source_data_size, lacks_space}
use meshium.Checks.Needs.{IsFree, HasRuntime, Accepts, IsServed, IsNotOlder}

-- Some element of a list has the property.
abbrev pub Exists {ℓ} : {A : Type ℓ} → (A → Type 0) → List A → Type 0
Exists P [] = ⊥
Exists P (x ∷ xs) = P x ⊎ Exists P xs

all_iff :
    {A : Type 0} (P Q : A → Type 0) (xs : List A) → ((x : A) → P x ↔ Q x) → All P xs ↔ All Q xs
all_iff P Q [] f = (λ a. tt, λ b. tt)
all_iff P Q (x ∷ xs) f =
    let more = all_iff P Q xs f in
    (λ (p, a). ((f x).0 p, more.0 a), λ (q, b). ((f x).1 q, more.1 b))

-- The port is none, or no port of the target has its number.
abbrev pub PortFree : List Port → Port → Type 0
PortFree targets p = (p.port ≡ 0) ⊎ All (λ q. q.port ≢ p.port) targets

has_port_iff :
    (n : ℕ) (targets : List Port) → (has_port n targets ≡ false) ↔ All (λ q. q.port ≢ n) targets
unfolding has_port
has_port_iff n [] = (λ h. tt, λ a. refl)
has_port_iff n (q ∷ rest) =
    let more = has_port_iff n rest in
    (
      λ h. ((λ e. ground (arith, h, e)), more.0 (ground (arith, h))),
      λ (d, a).
          let x = more.1 a in
          elim (Bool-cases (q.port == n)) [
            | inl e ↦ absurd (d (ground (arith, e)))
            | inr e ↦ ground (arith, e, x)
          ],
    )

pub ports_ready :
    (targets sources : List Port) → All (IsFree targets) sources ↔ All (PortFree targets) sources
ports_ready targets sources = all_iff _ _ sources λ p.
    let same = has_port_iff p.port targets in
    (
      λ f. elim f [ inl e ↦ inl e | inr e ↦ inr (same.0 e) ],
      λ f. elim f [ inl e ↦ inl e | inr e ↦ inr (same.1 e) ],
    )

-- The target's free space holds what is used on the source's disk, and what its databases hold; or both
-- are nothing.
abbrev pub SpaceEnough : Snapshot → Snapshot → Type 0
SpaceEnough s t =
    let databases : ℕ = foldr (λ db n. db.size_mb + n) 0 s.databases in
    ((s.disk_used_mb ≡ 0) × (databases ≡ 0))
    ⊎ ((s.disk_used_mb + t.disk_used_mb ≤ t.disk_total_mb)
        × (databases + t.disk_used_mb ≤ t.disk_total_mb))

total_database_size-foldr :
    (dbs : List DatabaseInfo) → total_database_size dbs ≡ foldr (λ db n. db.size_mb + n) 0 dbs
unfolding total_database_size
total_database_size-foldr [] = refl
total_database_size-foldr (db ∷ rest) = ap (λ n. db.size_mb + n) (total_database_size-foldr rest)

larger_fits :
    (disk dbs used total : ℕ)
    → let data_size = if ltb disk dbs then dbs else disk in
      ((ltb 0 data_size && ltb total (data_size + used)) ≡ false)
      ↔ (((disk ≡ 0) × (dbs ≡ 0)) ⊎ ((disk + used ≤ total) × (dbs + used ≤ total)))
larger_fits disk dbs used total = ground arith

pub space_ready : (s t : Snapshot) → (lacks_space s t ≡ false) ↔ SpaceEnough s t
unfolding lacks_space source_data_size
space_ready s t = rw (total_database_size-foldr s.databases) (
    larger_fits s.disk_used_mb (foldr (λ db n. db.size_mb + n) 0 s.databases) t.disk_used_mb
      t.disk_total_mb)

module _ (lib : Strings) where
  -- The kernels are of the same family, or a kernel or its family is unknown.
  abbrev pub KernelFits : Snapshot → Snapshot → Type 0
  KernelFits s t =
      let sk = lib.trim_space s.os.kernel in
      let tk = lib.trim_space t.os.kernel in
      (sk ≡ "")
      ⊎ ((tk ≡ "")
          ⊎ ((kernel_family lib sk ≡ "")
              ⊎ ((kernel_family lib tk ≡ "")
                  ⊎ (lib.equal_fold (kernel_family lib sk) (kernel_family lib tk) ≡ true))))

  families_cases :
      (s t : Snapshot)
      → families_differ lib s t ≡ false
      → (is_empty (kernel_family lib (lib.trim_space s.os.kernel)) ≡ true)
        ⊎ ((is_empty (kernel_family lib (lib.trim_space t.os.kernel)) ≡ true)
            ⊎ (lib.equal_fold
                  (kernel_family lib (lib.trim_space s.os.kernel))
                  (kernel_family lib (lib.trim_space t.os.kernel))
                ≡ true))
  unfolding families_differ
  families_cases s t h = ground (arith, h)

  pub kernel_ready :
      (s t : Snapshot)
      → ((is_empty (lib.trim_space s.os.kernel) ≡ true)
          ⊎ ((is_empty (lib.trim_space t.os.kernel) ≡ true) ⊎ (families_differ lib s t ≡ false)))
        ↔ KernelFits s t
  unfolding families_differ
  kernel_ready s t =
      let sk = lib.trim_space s.os.kernel in
      let tk = lib.trim_space t.os.kernel in
      (
        λ a. elim a [
          | inl e ↦ inl ((eq_iff sk "").0 e)
          | inr (inl e) ↦ inr (inl ((eq_iff tk "").0 e))
          | inr (inr d) ↦ elim (families_cases s t d) [
            | inl e ↦ inr (inr (inl ((eq_iff (kernel_family lib sk) "").0 e)))
            | inr (inl e) ↦ inr (inr (inr (inl ((eq_iff (kernel_family lib tk) "").0 e))))
            | inr (inr e) ↦ inr (inr (inr (inr e)))
          ]
        ],
        λ b. elim b [
          | inl e ↦ inl ((eq_iff sk "").1 e)
          | inr (inl e) ↦ inr (inl ((eq_iff tk "").1 e))
          | inr (inr (inl e)) ↦
              let h = (eq_iff (kernel_family lib sk) "").1 e in inr (inr (ground (arith, h)))
          | inr (inr (inr (inl e))) ↦
              let h = (eq_iff (kernel_family lib tk) "").1 e in inr (inr (ground (arith, h)))
          | inr (inr (inr (inr e))) ↦ inr (inr (ground (arith, e)))
        ],
      )

  -- Some runtime of the target has the name, which is not empty.
  abbrev pub RuntimeThere : List RuntimeInfo → RuntimeInfo → Type 0
  RuntimeThere targets src =
      let name = lib.to_lower (lib.trim_space src.name) in
      (name ≢ "") × Exists (λ r. lib.to_lower (lib.trim_space r.name) ≡ name) targets

  name_test : (m n : String) → ((not (is_empty m) && str_eq m n) ≡ true) ↔ ((n ≢ "") × (m ≡ n))
  name_test m n = (
    λ h.
        let same = (eq_iff m n).0 (ground (arith, h)) in
        ((λ e. let x = (eq_iff m "").1 (same ∙ e) in ground (arith, h, x)), same),
    λ (d, same).
        let x = (eq_iff m n).1 same in
        elim (Bool-cases (str_eq m "")) [
          | inl e ↦ absurd (d (sym same ∙ (eq_iff m "").0 e))
          | inr e ↦ ground (arith, e, x)
        ],
  )

  some_of :
      (o : Option RuntimeInfo) (c : Bool) (r : RuntimeInfo)
      → (is_some (or_this lib o (if c then some r else none)) ≡ true)
        ↔ ((is_some o ≡ true) ⊎ (c ≡ true))
  some_of none true r = (λ h. inr refl, λ a. refl)
  some_of none false r = (λ h. cc, λ a. elim a [ inl e ↦ cc e | inr e ↦ cc e ])
  some_of (some x) c r = (λ h. inl refl, λ a. refl)

  runtime_at_iff :
      (n : String) (targets : List RuntimeInfo)
      → (is_some (runtime_at lib n targets) ≡ true)
        ↔ ((n ≢ "") × Exists (λ r. lib.to_lower (lib.trim_space r.name) ≡ n) targets)
  unfolding runtime_at
  runtime_at_iff n [] = (λ h. cc, λ (d, b). elim b [ ])
  runtime_at_iff n (r ∷ rest) =
      let m : String = lib.to_lower (lib.trim_space r.name) in
      let more = runtime_at_iff n rest in
      let test = name_test m n in
      let form = some_of (runtime_at lib n rest) (not (is_empty m) && str_eq m n) r in
      (
        λ h. elim (form.0 h) [
          | inl e ↦ let (d, x) = more.0 e in (d, inr x)
          | inr e ↦ let (d, same) = test.0 e in (d, inl same)
        ],
        λ (d, x). elim x [
          | inl same ↦ form.1 (inr (test.1 (d, same)))
          | inr later ↦ form.1 (inl (more.1 (d, later)))
        ],
      )

  pub runtimes_ready :
      (targets sources : List RuntimeInfo)
      → All (HasRuntime lib targets) sources ↔ All (RuntimeThere targets) sources
  runtimes_ready targets sources =
      all_iff _ _ sources λ src. runtime_at_iff (lib.to_lower (lib.trim_space src.name)) targets

  -- The first database of the type on the target; Redis apart, its major version is not older than the
  -- source's where both are known.
  abbrev pub ServedBy : String → DatabaseInfo → List DatabaseInfo → Type 0
  ServedBy t src [] = ⊥
  ServedBy t src (db ∷ rest) =
      ((lib.to_lower (lib.trim_space db.db_type) ≡ t)
        × ((t ≡ "redis")
            ⊎ IsNotOlder (version_major lib src.db_version) (version_major lib db.db_version)))
      ⊎ ((lib.to_lower (lib.trim_space db.db_type) ≢ t) × ServedBy t src rest)

  -- The type is empty, or the target has a database for it.
  abbrev pub DatabaseServed : List DatabaseInfo → DatabaseInfo → Type 0
  DatabaseServed targets src =
      let t = lib.to_lower (lib.trim_space src.db_type) in (t ≡ "") ⊎ ServedBy t src targets

  served_first :
      (t : String) (src db : DatabaseInfo)
      → Accepts lib t src (some db) ↔ (
          (t ≡ "redis")
          ⊎ IsNotOlder (version_major lib src.db_version) (version_major lib db.db_version))
  served_first t src db = (
    λ a. elim a [ inl e ↦ inl ((eq_iff t "redis").0 e) | inr n ↦ inr n ],
    λ a. elim a [ inl e ↦ inl ((eq_iff t "redis").1 e) | inr n ↦ inr n ],
  )

  database_at_iff :
      (t : String) (src : DatabaseInfo) (targets : List DatabaseInfo)
      → t ≢ ""
      → Accepts lib t src (database_at lib t targets) ↔ ServedBy t src targets
  unfolding database_at
  database_at_iff t src [] d = (λ a. a, λ a. a)
  database_at_iff t src (db ∷ rest) d =
      let n : String = lib.to_lower (lib.trim_space db.db_type) in
      let test = name_test n t in
      let more = database_at_iff t src rest d in
      let first = served_first t src db in
      elim (Bool-cases (not (is_empty n) && str_eq n t)) [
        | inl e ↦ rw e (
          λ a. inl ((test.0 e).1, first.0 a),
          λ b. elim b [ inl (same, a) ↦ first.1 a | inr (other, a) ↦ absurd (other (test.0 e).1) ],
        )
        | inr e ↦
            let other : n ≢ t = λ same. let x = test.1 (d, same) in ground (arith, e, x) in
            rw e (
              λ a. inr (other, more.0 a),
              λ b. elim b [ inl (same, a) ↦ absurd (other same) | inr (o, a) ↦ more.1 a ],
            )
      ]

  IsServed-ready :
      (targets : List DatabaseInfo) (src : DatabaseInfo)
      → IsServed lib targets src ↔ DatabaseServed targets src
  IsServed-ready targets src =
      let t : String = lib.to_lower (lib.trim_space src.db_type) in
      elim (Bool-cases (str_eq t "")) [
        | inl e ↦ (λ a. inl ((eq_iff t "").0 e), λ a. inl e)
        | inr e ↦
            let d : t ≢ "" = λ same. let x = (eq_iff t "").1 same in ground (arith, e, x) in
            let found = database_at_iff t src targets d in
            (
              λ a. elim a [ inl x ↦ inl ((eq_iff t "").0 x) | inr x ↦ inr (found.0 x) ],
              λ a. elim a [ inl x ↦ inl ((eq_iff t "").1 x) | inr x ↦ inr (found.1 x) ],
            )
      ]

  pub databases_ready :
      (targets sources : List DatabaseInfo)
      → All (IsServed lib targets) sources ↔ All (DatabaseServed targets) sources
  databases_ready targets sources = all_iff _ _ sources (IsServed-ready targets)
