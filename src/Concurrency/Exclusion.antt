-- ===== src/Concurrency/Exclusion.antt =====
-- Runs that hold servers (internal/mod/migration/pipeline_concurrency.go, and the guards at the
-- start of Execute in pipeline.go): no two of them share one.
use meshium.Prelude.{
  ℕ, ◌+◌, ◌-◌, Bool, true, false, not, ◌≡◌, ◌≢◌, refl, ◌⊎◌, ◌↔◌, inl, inr, ◌==◌, ==_iff, ==_self,
  List, [], ◌∷◌, Bool-cases, arith,
}
use meshium.Concurrency.{assign, try_acquire, release, can_acquire_resource, try_acquire_resource}
use meshium.Concurrency.Counts.{
  count, claims_counted, claimed_count, releases_counted, free_unclaimed,
}
use meshium.Concurrency.Runs.{
  Phase, idle, entered, holding, System, Event, enter, give_up, finish, claim, withdraw, claimed,
  giving_up, claiming, finishing, event, events, new_system, held, is_idle,
}

-- The locks count exactly what the runs hold, and no server is held by two of them.
pub record Exclusive (sys : System) : Type 0 where
  pub marked : (m : ℕ) → sys.running m ≡ not (is_idle (sys.phase m))
  pub owned :
      (m s : ℕ) → count s (held (sys.phase m)) ≢ 0 → sys.locks s ≡ count s (held (sys.phase m))
  pub apart :
      (m n s : ℕ) → m ≢ n → count s (held (sys.phase m)) ≢ 0 → count s (held (sys.phase n)) ≡ 0
  pub backed : (s : ℕ) → sys.locks s ≢ 0 → (m : ℕ) × (count s (held (sys.phase m)) ≢ 0)

new_system-Exclusive : Exclusive new_system
unfolding new_system
new_system-Exclusive = record {
  marked = λ m. refl;
  owned = λ m s c. ground arith;
  apart = λ m n s d c. refl;
  backed = λ s c. absurd (c refl);
}

-- A change of phase in which the run holds nothing, before or after.
rephase-Exclusive :
    (m : ℕ) (p : Phase) (r : ℕ → Bool) (sys : System)
    → Exclusive sys
    → ((s : ℕ) → count s (held (sys.phase m)) ≡ 0)
    → ((s : ℕ) → count s (held p) ≡ 0)
    → r ≡ assign sys.running m (not (is_idle p))
    → Exclusive (record sys { running = r; phase = assign sys.phase m p })
rephase-Exclusive m p r sys x before after e = record {
  marked = λ k. rw e (ground (arith, x.marked k));
  owned = λ k s c. ground (arith, after s, x.owned k s);
  apart = λ k n s d c. ground (arith, after s, x.apart k n s);
  backed = λ s c. let (k, h) = x.backed s c in (k, ground (arith, before s, h));
}

-- A claim of free servers by a run that holds none.
claim-Exclusive :
    (m : ℕ) (l : List ℕ) (locks : ℕ → ℕ) (sys : System)
    → Exclusive sys
    → sys.phase m ≡ entered
    → ((s : ℕ) → locks s ≡ sys.locks s + count s l)
    → ((s : ℕ) → count s l ≢ 0 → sys.locks s ≡ 0)
    → Exclusive (record sys { locks = locks; phase = assign sys.phase m (holding l) })
claim-Exclusive m l locks sys x e added free = record {
  marked = λ k. ground (arith, x.marked k, x.marked m, e);
  owned = λ k s c. ground (arith, added s, free s, x.owned k s);
  apart = λ k n s d c. ground (arith, free s, x.owned n s, x.owned k s, x.apart k n s);
  backed = λ s c. elim (Bool-cases (count s l == 0)) [
    | inl z ↦ let (k, h) = x.backed s (ground (arith, added s)) in (k, ground (arith, e, h))
    | inr z ↦ (m, ground (arith, ==_self m))
  ];
}

-- The release of all that a run holds.
finish-Exclusive :
    (m : ℕ) (l : List ℕ) (locks : ℕ → ℕ) (sys : System)
    → Exclusive sys
    → sys.phase m ≡ holding l
    → ((s : ℕ) → locks s ≡ sys.locks s - count s l)
    → Exclusive (withdraw m (record sys { locks = locks }))
unfolding release
finish-Exclusive m l locks sys x e removed = record {
  marked = λ k. ground (arith, x.marked k);
  owned = λ k s c. ground (arith, removed s, e, x.owned k s, x.apart k m s);
  apart = λ k n s d c. ground (arith, x.apart k n s);
  backed = λ s c.
      let (k, h) = x.backed s (ground (arith, removed s)) in
      (k, ground (arith, e, h, x.owned m s, removed s));
}

claim_outcome :
    (m : ℕ) (servers : List ℕ) (sys : System)
    → Exclusive sys
    → sys.phase m ≡ entered
    → Exclusive (claimed m (try_acquire_resource servers sys.locks) sys)
unfolding try_acquire_resource release
claim_outcome m servers sys x e = elim (Bool-cases (can_acquire_resource servers sys.locks)) [
  | inl free ↦ rw free (
      claim-Exclusive m _ _ sys x e (claims_counted servers sys.locks) λ s c.
        ground (arith, claimed_count servers sys.locks s, free_unclaimed servers sys.locks s free))
  | inr busy ↦ rw busy (rephase-Exclusive m idle _ sys x (λ s. rw e) (λ s. refl) refl)
]

giving_up-Exclusive :
    (m : ℕ) (p : Phase) (sys : System)
    → Exclusive sys
    → sys.phase m ≡ p
    → Exclusive (giving_up m p sys)
unfolding release
giving_up-Exclusive m entered sys x e =
    rephase-Exclusive m idle _ sys x (λ s. rw e) (λ s. refl) refl
giving_up-Exclusive m idle sys x e = x
giving_up-Exclusive m (holding l) sys x e = x

claiming-Exclusive :
    (m source target : ℕ) (p : Phase) (sys : System)
    → Exclusive sys
    → sys.phase m ≡ p
    → Exclusive (claiming m source target p sys)
claiming-Exclusive m source target entered sys x e = claim_outcome m (source ∷ target ∷ []) sys x e
claiming-Exclusive m source target idle sys x e = x
claiming-Exclusive m source target (holding l) sys x e = x

finishing-Exclusive :
    (m : ℕ) (p : Phase) (sys : System)
    → Exclusive sys
    → sys.phase m ≡ p
    → Exclusive (finishing m p sys)
finishing-Exclusive m (holding l) sys x e =
    finish-Exclusive m l _ sys x e (releases_counted l sys.locks)
finishing-Exclusive m idle sys x e = x
finishing-Exclusive m entered sys x e = x

event-Exclusive : (e : Event) (sys : System) → Exclusive sys → Exclusive (event e sys)
unfolding event try_acquire release
event-Exclusive (enter m) sys x = elim (Bool-cases (sys.running m)) [
  | inl busy ↦ rw busy x
  | inr free ↦
      rw free
        (rephase-Exclusive m entered _ sys x (λ s. ground (arith, x.marked m)) (λ s. refl) refl)
]
event-Exclusive (give_up m) sys x = giving_up-Exclusive m (sys.phase m) sys x refl
event-Exclusive (claim m source target) sys x =
    claiming-Exclusive m source target (sys.phase m) sys x refl
event-Exclusive (finish m) sys x = finishing-Exclusive m (sys.phase m) sys x refl

events-Exclusive : (l : List Event) (sys : System) → Exclusive sys → Exclusive (events l sys)
unfolding events
events-Exclusive [] sys x = x
events-Exclusive (e ∷ rest) sys x = events-Exclusive rest (event e sys) (event-Exclusive e sys x)

-- Whatever order runs enter, give up, claim and end in, the locks and marks are exact: a migration is
-- marked as running just when a run of it is there, a locked server is held by exactly one run,
-- which holds it as often as its lock counts, and no two runs hold the same server.
pub reachable-Exclusive : (l : List Event) → Exclusive (events l new_system)
reachable-Exclusive l = events-Exclusive l new_system new_system-Exclusive

-- Once every run has ended, no server is locked and no migration is marked as running.
pub all_released :
    (l : List Event)
    → ((m : ℕ) → (events l new_system).phase m ≡ idle)
    → (k : ℕ) → ((events l new_system).locks k ≡ 0) × ((events l new_system).running k ≡ false)
all_released l h k =
    let x = reachable-Exclusive l in
    (
      elim (Bool-cases ((events l new_system).locks k == 0)) [
        | inl z ↦ (==_iff ((events l new_system).locks k) 0).0 z
        | inr z ↦ let (m, c) = x.backed k (ground arith) in absurd (c (rw (h m)))
      ],
      rw (x.marked k, h k),
    )

claim_phase :
    (m source target : ℕ) (sys : System)
    → sys.phase m ≡ entered
    → is_idle ((event (claim m source target) sys).phase m)
      ≡ not (can_acquire_resource (source ∷ target ∷ []) sys.locks)
unfolding event try_acquire_resource
claim_phase m source target sys e =
    rw e (elim (Bool-cases (can_acquire_resource (source ∷ target ∷ []) sys.locks)) [
      | inl h ↦ rw (h, ==_self m) refl
      | inr h ↦ rw (h, ==_self m) refl
    ])

-- Nobody holds the server.
abbrev pub Unheld : System → ℕ → Type 0
Unheld sys s = (k : ℕ) → count s (held (sys.phase k)) ≡ 0

Unheld-iff : (sys : System) (s : ℕ) → Exclusive sys → (sys.locks s ≡ 0) ↔ Unheld sys s
Unheld-iff sys s x = (λ z k. ground (arith, x.owned k s), λ u. unheld u)
  where
    unheld : Unheld sys s → sys.locks s ≡ 0
    unheld u = elim (Bool-cases (sys.locks s == 0)) [
      | inl z ↦ (==_iff (sys.locks s) 0).0 z
      | inr z ↦ let (m, c) = x.backed s (ground arith) in absurd (c (u m))
    ]

can_acquire_pair :
    (source target : ℕ) (locks : ℕ → ℕ)
    → (can_acquire_resource (source ∷ target ∷ []) locks ≡ true)
      ↔ (((source ≡ 0) ⊎ (locks source ≡ 0)) × ((target ≡ 0) ⊎ (locks target ≡ 0)))
unfolding can_acquire_resource
can_acquire_pair source target locks = ground arith

-- After any history, a run that has entered and claims its source and its target gets them just when
-- no run holds the one or the other; server 0 stands for none. Otherwise it ends.
pub claim_decided :
    (l : List Event) (m source target : ℕ)
    → (events l new_system).phase m ≡ entered
    → (is_idle ((event (claim m source target) (events l new_system)).phase m) ≡ false) ↔ (
        ((source ≡ 0) ⊎ Unheld (events l new_system) source)
        × ((target ≡ 0) ⊎ Unheld (events l new_system) target))
claim_decided l m source target e =
    let sys = events l new_system in
    let x = reachable-Exclusive l in
    let h = claim_phase m source target sys e in
    let c = can_acquire_pair source target sys.locks in
    let a = Unheld-iff sys source x in
    let b = Unheld-iff sys target x in
    (λ p. ground (arith, c.0, a.0, b.0, h), λ p. ground (arith, c.1, a.1, b.1, h, p))
