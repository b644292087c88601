-- ===== src/Pipeline/Moves.antt =====
-- A calculus for the pipeline's database code: which states of the migration a call can leave
-- behind, whatever database calls fail.
use meshium.Prelude.{
  suc, Bool, true, false, ◌≡◌, refl, ◌⊎◌, inl, inr, String, some, Bool-cases, arith,
}
use text.Mathlib.Text.{◌==◌ as str_eq}
use meshium.State.{MigrationState, created, state_string}
use meshium.State.Machine.{state_from_string, is_valid_transition}
use meshium.State.Names.{state_from_string-state_string}
use meshium.State.Paths.{Reach, here, next}
use meshium.Pipeline.{
  World, Error, Result, ok, err, M, then_on, ◌>>=◌, ◌>>◌, pure, fail, attempt, ensure, AuditEntry,
  CutoverRecord,
}
use meshium.Pipeline.Repo.{
  Env, decode, state_or_created, load_migration, get_migration_state, current_state, load_state,
  set_migration_state, set_migration_completed_at, create_audit_entry, create_cutover_record,
  update_cutover_record, get_traffic_switch_config,
}

-- The database says that the migration is in state `s`, and a reader who has to go by the `status`
-- column alone takes it to be in `s` or in Created.
pub record Consistent (s : MigrationState) (w : World) : Type 0 where
  pub decoded : decode w ≡ some s
  pub fallback :
      (state_or_created (state_from_string w.status) ≡ s)
      ⊎ (state_or_created (state_from_string w.status) ≡ created)

pub Reach-trans : {s t u : MigrationState} → Reach s t → Reach t u → Reach s u
Reach-trans r here = r
Reach-trans r (next q v) = next (Reach-trans r q) v

-- A call that began in state `s` left the migration in a state that legal transitions lead to; on
-- success the result and that state are related by `Q`.
pub data Outcome {A : Type 0} (s : MigrationState) (Q : A → MigrationState → Type 0)
    : Result A × World → Type 0 where
  fine :
      {a : A} {t : MigrationState} {w : World}
      → Reach s t
      → Consistent t w
      → Q a t
      → Outcome s Q (ok a, w)
  broke :
      {e : Error} {t : MigrationState} {w : World}
      → Reach s t
      → Consistent t w
      → Outcome s Q (err e, w)

abbrev pub Moves : {A : Type 0} → MigrationState → (A → MigrationState → Type 0) → M A → Type 0
Moves s Q m = (w : World) → Consistent s w → Outcome s Q (m w)

-- The state is still `s`.
abbrev pub Still : {A : Type 0} → MigrationState → A → MigrationState → Type 0
Still s _ t = t ≡ s

abbrev pub Anywhere : {A : Type 0} → A → MigrationState → Type 0
Anywhere _ _ = Unit {0}

weaken :
    {A : Type 0} {s t : MigrationState} {Q : A → MigrationState → Type 0} {p : Result A × World}
    → Reach s t
    → Outcome t Q p
    → Outcome s Q p
weaken r (fine q c h) = fine (Reach-trans r q) c h
weaken r (broke q c) = broke (Reach-trans r q) c

bind-Outcome :
    {A B : Type 0} {s : MigrationState} {Q : A → MigrationState → Type 0}
    {R : B → MigrationState → Type 0} (f : A → M B)
    → ((a : A) (t : MigrationState) → Q a t → Moves t R (f a))
    → {p : Result A × World} → Outcome s Q p
    → Outcome s R (then_on p.0 f p.1)
bind-Outcome f g (fine {a} {t} {w} r c h) = weaken r (g a t h w c)
bind-Outcome f g (broke r c) = broke r c

pub Moves-bind :
    {A B : Type 0} {s : MigrationState} {Q : A → MigrationState → Type 0}
    {R : B → MigrationState → Type 0} {m : M A} {f : A → M B}
    → Moves s Q m
    → ((a : A) (t : MigrationState) → Q a t → Moves t R (f a))
    → Moves s R (m >>= f)
Moves-bind {f} hm hf w c = bind-Outcome f hf (hm w c)

map-Outcome :
    {A : Type 0} {s : MigrationState} {Q R : A → MigrationState → Type 0} {p : Result A × World}
    → ((a : A) (t : MigrationState) → Q a t → R a t)
    → Outcome s Q p
    → Outcome s R p
map-Outcome f (fine {a} {t} r c h) = fine r c (f a t h)
map-Outcome f (broke r c) = broke r c

pub Moves-map :
    {A : Type 0} {s : MigrationState} {Q R : A → MigrationState → Type 0} {m : M A}
    → ((a : A) (t : MigrationState) → Q a t → R a t)
    → Moves s Q m
    → Moves s R m
Moves-map f h w c = map-Outcome f (h w c)

-- A call that leaves both columns alone.
pub record Quiet {A : Type 0} (m : M A) : Type 0 where
  pub columns : (w : World) → ((m w).1.state ≡ w.state) × ((m w).1.status ≡ w.status)

Consistent-columns :
    {s : MigrationState} {v w : World}
    → (v.state ≡ w.state) × (v.status ≡ w.status)
    → Consistent s w
    → Consistent s v
unfolding decode
Consistent-columns (e, f) c = record { decoded = rw (e, f) c.decoded; fallback = rw f c.fallback }

quiet-Outcome :
    {A : Type 0} {s : MigrationState} (r : Result A) (w : World)
    → Consistent s w
    → Outcome s (Still s) (r, w)
quiet-Outcome (ok a) w c = fine here c refl
quiet-Outcome (err e) w c = broke here c

pub Quiet-Moves : {A : Type 0} {s : MigrationState} {m : M A} → Quiet m → Moves s (Still s) m
Quiet-Moves {m} q w c = quiet-Outcome (m w).0 (m w).1 (Consistent-columns (q.columns w) c)

pub Quiet-attempt : {A : Type 0} {m : M A} → Quiet m → Quiet (attempt m)
Quiet-attempt q = record { columns = q.columns }

pub Moves-pure :
    {A : Type 0} {s : MigrationState} {Q : A → MigrationState → Type 0} {a : A}
    → Q a s
    → Moves s Q (pure a)
Moves-pure h w c = fine here c h

pub Moves-fail :
    {A : Type 0} {s : MigrationState} {Q : A → MigrationState → Type 0} {e : Error}
    → Moves s Q (fail e)
Moves-fail w c = broke here c

-- Past a guard, the guard's test is known to have passed.
pub Moves-ensure :
    {B : Type 0} {s : MigrationState} {R : B → MigrationState → Type 0} (b : Bool) (e : Error)
    (m : M B)
    → (b ≡ true → Moves s R m)
    → Moves s R (ensure b e >> m)
Moves-ensure true e m h w c = h refl w c
Moves-ensure false e m h w c = broke here c

pub written_not_empty : (s : MigrationState) → str_eq (state_string s) "" ≡ false
unfolding state_string
written_not_empty created = refl
written_not_empty _ = refl

Consistent-written :
    (s : MigrationState) (w : World)
    → Consistent s (record w { state = state_string s; status = state_string s })
unfolding decode state_or_created
Consistent-written s w = record {
  decoded = rw (written_not_empty s) (state_from_string-state_string s);
  fallback = inl (rw (state_from_string-state_string s));
}

-- The state that a verb reads: the stored one or, where the read fails, perhaps Created.
abbrev pub Loaded : MigrationState → MigrationState → Type 0
Loaded r t = (r ≡ t) ⊎ (r ≡ created)

abbrev pub LoadedAt : MigrationState → MigrationState → MigrationState → Type 0
LoadedAt s r t = (t ≡ s) × Loaded r t

module _ (env : Env) where
  pub load_migration-Quiet : Quiet (load_migration env)
  unfolding load_migration
  load_migration-Quiet = record { columns = λ w. ground arith }

  pub create_audit_entry-Quiet : (a : AuditEntry) → Quiet (create_audit_entry env a)
  unfolding create_audit_entry
  create_audit_entry-Quiet a = record { columns = λ w. ground arith }

  pub create_cutover_record-Quiet : (r : CutoverRecord) → Quiet (create_cutover_record env r)
  unfolding create_cutover_record
  create_cutover_record-Quiet r = record { columns = λ w. ground arith }

  pub update_cutover_record-Quiet : Quiet (update_cutover_record env)
  unfolding update_cutover_record
  update_cutover_record-Quiet = record { columns = λ w. ground arith }

  pub set_migration_completed_at-Quiet : Quiet (set_migration_completed_at env)
  unfolding set_migration_completed_at
  set_migration_completed_at-Quiet = record { columns = λ w. ground arith }

  -- A write of a legal successor.
  pub Moves-set :
      {s : MigrationState} (to : MigrationState)
      → is_valid_transition s to ≡ true
      → Moves s (λ _ t. t ≡ to) (set_migration_state env to)
  unfolding set_migration_state
  Moves-set to v w c = elim (Bool-cases (env.cancelled w.calls)) [
    | inl e ↦ rw e (broke here (Consistent-columns (refl, refl) c))
    | inr e ↦ rw e (elim (Bool-cases (env.fails (suc w.calls))) [
      | inl f ↦ rw f (broke here (Consistent-columns (refl, refl) c))
      | inr f ↦
          rw f (
            fine (next here v) (Consistent-written to (record w { calls = suc (suc w.calls) }))
              refl)
    ])
  ]

  current_state-Outcome :
      {s : MigrationState} (status : String) (w : World)
      → Consistent s w
      → status ≡ w.status
      → Outcome s (LoadedAt s) (current_state env status w)
  unfolding current_state get_migration_state
  current_state-Outcome status w c e = elim (Bool-cases (env.fails w.calls)) [
    | inl f ↦ rw f (fine here (Consistent-columns (refl, refl) c) (refl, rw e c.fallback))
    | inr f ↦ rw (f, c.decoded) (fine here (Consistent-columns (refl, refl) c) (refl, inl refl))
  ]

  pub Moves-load_state : {s : MigrationState} → Moves s (LoadedAt s) (load_state env)
  unfolding load_state load_migration
  Moves-load_state w c = elim (Bool-cases (env.fails w.calls)) [
    | inl f ↦ rw f (broke here (Consistent-columns (refl, refl) c))
    | inr f ↦ rw f (current_state-Outcome w.status _ (Consistent-columns (refl, refl) c) refl)
  ]

  pub Moves-get_migration_state :
      {s : MigrationState} → Moves s (LoadedAt s) (get_migration_state env)
  unfolding get_migration_state
  Moves-get_migration_state w c = elim (Bool-cases (env.fails w.calls)) [
    | inl f ↦ rw f (broke here (Consistent-columns (refl, refl) c))
    | inr f ↦ rw (f, c.decoded) (fine here (Consistent-columns (refl, refl) c) (refl, inl refl))
  ]

  -- The traffic switch that Commit looks at is the one of the environment.
  pub Moves-get_traffic_switch_config :
      {s : MigrationState}
      → Moves s (λ cfg t. (t ≡ s) × (cfg ≡ env.switch_state)) (get_traffic_switch_config env)
  unfolding get_traffic_switch_config
  Moves-get_traffic_switch_config w c = elim (Bool-cases (env.fails w.calls)) [
    | inl f ↦ rw f (broke here (Consistent-columns (refl, refl) c))
    | inr f ↦ rw f (fine here (Consistent-columns (refl, refl) c) (refl, refl))
  ]
