-- ===== src/Compat/Ports.antt =====
-- The check of the ports of CheckCompatibility (internal/mod/discovery/compat.go).
use meshium.Prelude.{
  ℕ, ◌≡◌, ◌≢◌, ◌↔◌, ◌⊎◌, inl, inr, refl, ◌∙◌, ap, subst, Bool, true, not, ◌&&◌, if◌then◌else◌, ◌==◌,
  ==_iff, str_eq_self, Option, none, some, String, List, [], ◌∷◌, ◌++◌, All, Bool-cases, arith,
}
use text.Mathlib.Text.{◌==◌ as str_eq}
use text.Mathlib.TextEquality.{eq_iff}
use meshium.Compat.{OpenPort, process_on, conflicts}

-- The test that no port of the source is another process's on the target.
abbrev pub ports_free : List OpenPort → List OpenPort → Bool
ports_free [] targets = true
ports_free (sp ∷ rest) targets =
    not (conflicts sp (process_on sp.port targets none)) && ports_free rest targets

abbrev Unused : ℕ → List OpenPort → Type 0
Unused port = All (λ q. q.port ≢ port)

-- The last entry of a port is of the process.
abbrev pub LastOn : List OpenPort → ℕ → String → Type 0
LastOn targets port process =
    (before : List OpenPort) × (q : OpenPort) × (after : List OpenPort) × (targets
      ≡ before ++ q ∷ after)
    × (q.port ≡ port)
    × (q.process ≡ process)
    × All (λ r. r.port ≢ port) after

-- A port of the source is unused on the target, or its last entry there is of a process of that name.
abbrev pub IsFree : List OpenPort → OpenPort → Type 0
IsFree targets sp = All (λ q. q.port ≢ sp.port) targets ⊎ LastOn targets sp.port sp.process

process_on-Unused :
    (port : ℕ) (targets : List OpenPort) (found : Option String)
    → Unused port targets
    → process_on port targets found ≡ found
process_on-Unused port [] found h = refl
process_on-Unused port (q ∷ rest) found (n, h) = elim (Bool-cases (q.port == port)) [
  | inl e ↦ absurd (n (ground (arith, e)))
  | inr e ↦ rw e (process_on-Unused port rest found h)
]

process_on-append :
    (port : ℕ) (before rest : List OpenPort) (found : Option String)
    → process_on port (before ++ rest) found ≡ process_on port rest (process_on port before found)
process_on-append port [] rest found = refl
process_on-append port (q ∷ before) rest found =
    process_on-append port before rest (if q.port == port then some q.process else found)

process_on-last :
    (targets : List OpenPort) (port : ℕ) (process : String)
    → LastOn targets port process
    → process_on port targets none ≡ some process
process_on-last targets port process (before, q, after, split, here, named, unused) =
    ap (λ l. process_on port l none) split
    ∙ process_on-append port before (q ∷ after) none
    ∙ process_on-Unused port after _ unused
    ∙ ap (λ b. if b then some q.process else process_on port before none)
        ((==_iff q.port port).1 here)
    ∙ ap some named

last_cases :
    (targets : List OpenPort) (port : ℕ)
    → Unused port targets ⊎ ((process : String) × LastOn targets port process)
last_cases [] port = inl tt
last_cases (q ∷ rest) port = elim (last_cases rest port) [
  | inr (process, (before, r, after, split, here, named, unused)) ↦
      inr (process, (q ∷ before, r, after, ap (λ l. q ∷ l) split, here, named, unused))
  | inl unused ↦ elim (Bool-cases (q.port == port)) [
    | inl e ↦ inr (q.process, ([], q, rest, refl, (==_iff q.port port).0 e, refl, unused))
    | inr e ↦ inl ((λ p. ground (arith, e, p)), unused)
  ]
]

double_not : {b : Bool} → not (not b) ≡ true → b ≡ true
double_not {b} h = ground (arith, h)

conflicts_iff :
    (sp : OpenPort) (targets : List OpenPort)
    → (not (conflicts sp (process_on sp.port targets none)) ≡ true) ↔ IsFree targets sp
conflicts_iff sp targets = (
  free,
  λ f. elim f [
    | inl unused ↦ rw (process_on-Unused sp.port targets none unused) refl
    | inr last ↦ rw (process_on-last targets sp.port sp.process last, str_eq_self sp.process) refl
  ],
)
  where
    free : not (conflicts sp (process_on sp.port targets none)) ≡ true → IsFree targets sp
    free h = elim (last_cases targets sp.port) [
      | inl unused ↦ inl unused
      | inr (process, last) ↦
          let same : str_eq process sp.process ≡ true =
            double_not (rw (process_on-last targets sp.port process last) at h) in
          inr (subst (LastOn targets sp.port) ((eq_iff process sp.process).0 same) last)
    ]

pub ports_free_iff :
    (sources targets : List OpenPort)
    → (ports_free sources targets ≡ true) ↔ All (IsFree targets) sources
ports_free_iff [] targets = (λ h. tt, λ a. refl)
ports_free_iff (sp ∷ rest) targets =
    let one = conflicts_iff sp targets in
    let more = ports_free_iff rest targets in
    (
      λ h. (one.0 (ground (arith, h)), more.0 (ground (arith, h))),
      λ (a, b). let x = one.1 a in let y = more.1 b in ground (arith, x, y),
    )
