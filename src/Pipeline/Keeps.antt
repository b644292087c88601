-- ===== src/Pipeline/Keeps.antt =====
-- Invariants of the pipeline's database code: predicates on the database that a call keeps, whatever
-- fails inside it.
use meshium.Prelude.{Bool, true, false, ◌≡◌, refl, if◌then◌else◌}
use meshium.Pipeline.{
  World, Error, Result, ok, err, M, then_on, ◌>>=◌, ◌>>◌, pure, fail, attempt, ensure,
}

-- The result of a call that kept `P`; on success the value satisfies `Q`.
pub data Kept {A : Type 0} (P : World → Type 0) (Q : A → Type 0) : Result A × World → Type 0 where
  good : {a : A} {w : World} → P w → Q a → Kept P Q (ok a, w)
  bad : {e : Error} {w : World} → P w → Kept P Q (err e, w)

-- Every run of `m` keeps `P`, and its value on success satisfies `Q`.
pub record Keeps {A : Type 0} (P : World → Type 0) (Q : A → Type 0) (m : M A) : Type 0 where
  pub keeps : (w : World) → P w → Kept P Q (m w)

abbrev pub Any : {A : Type 0} → A → Type 0
Any _ = Unit {0}

bind-Kept :
    {A B : Type 0} {P : World → Type 0} {Q : A → Type 0} {R : B → Type 0} (f : A → M B)
    → ((a : A) → Q a → Keeps P R (f a))
    → {p : Result A × World} → Kept P Q p
    → Kept P R (then_on p.0 f p.1)
bind-Kept f g (good {a} {w} h q) = (g a q).keeps w h
bind-Kept f g (bad h) = bad h

attempt_kept :
    {A : Type 0} {P : World → Type 0} {Q : A → Type 0} (r : Result A) (w : World)
    → Kept P Q (r, w)
    → P w
attempt_kept (ok a) w (good h q) = h
attempt_kept (err e) w (bad h) = h

module _ {P : World → Type 0} where
  pub Keeps-bind :
      {A B : Type 0} {Q : A → Type 0} {R : B → Type 0} {m : M A} {f : A → M B}
      → Keeps P Q m
      → ((a : A) → Q a → Keeps P R (f a))
      → Keeps P R (m >>= f)
  Keeps-bind {f} hm hf = record { keeps = λ w h. bind-Kept f hf (hm.keeps w h) }

  pub Keeps-then :
      {A B : Type 0} {Q : A → Type 0} {R : B → Type 0} {m : M A} {k : M B}
      → Keeps P Q m
      → Keeps P R k
      → Keeps P R (m >> k)
  Keeps-then hm hk = Keeps-bind hm (λ _ _. hk)

  pub Keeps-attempt :
      {A : Type 0} {Q : A → Type 0} {m : M A} → Keeps P Q m → Keeps P Any (attempt m)
  Keeps-attempt {m} hm = record {
    keeps = λ w h. good (attempt_kept (m w).0 (m w).1 (hm.keeps w h)) tt;
  }

  pub Keeps-pure : {A : Type 0} {Q : A → Type 0} {a : A} → Q a → Keeps P Q (pure a)
  Keeps-pure q = record { keeps = λ w h. good h q }

  pub Keeps-fail : {A : Type 0} {Q : A → Type 0} {e : Error} → Keeps P Q (fail e)
  Keeps-fail = record { keeps = λ w h. bad h }

  pub Keeps-ensure : (b : Bool) (e : Error) → Keeps P (λ _. b ≡ true) (ensure b e)
  Keeps-ensure true e = record { keeps = λ w h. good h refl }
  Keeps-ensure false e = record { keeps = λ w h. bad h }

  pub Keeps-if :
      {A : Type 0} {Q : A → Type 0} (b : Bool) {m k : M A}
      → (b ≡ true → Keeps P Q m)
      → (b ≡ false → Keeps P Q k)
      → Keeps P Q (if b then m else k)
  Keeps-if true h g = h refl
  Keeps-if false h g = g refl

two-Kept :
    {A B C : Type 0} {P : World → Type 0} {R : C → Type 0} (b : M B) {k : M C}
    → Keeps P R k
    → (r : Result A) (w : World) → Kept P Any (then_on r (λ _. b) w)
    → Kept P R (then_on r (λ _. b >> k) w)
two-Kept b hk (ok a) w h = bind-Kept _ (λ _ _. hk) h
two-Kept b hk (err e) w (bad h) = bad h

-- Two calls that keep `P` together, not each alone, at the head of a sequence.
pub Keeps-two :
    {A B C : Type 0} {P : World → Type 0} {R : C → Type 0} (a : M A) (b : M B) {k : M C}
    → Keeps P Any (a >> b)
    → Keeps P R k
    → Keeps P R (a >> (b >> k))
Keeps-two a b hab hk = record { keeps = λ w h. two-Kept b hk (a w).0 (a w).1 (hab.keeps w h) }

Kept-any :
    {A : Type 0} {P : World → Type 0} (r : Result A) (w : World) → P w → Kept {A = A} P Any (r, w)
Kept-any (ok a) w h = good h tt
Kept-any (err e) w h = bad h

-- A call whose final database satisfies `P` whenever the first one does.
pub Keeps-by :
    {A : Type 0} {P : World → Type 0} (m : M A) → ((w : World) → P w → P (m w).1) → Keeps P Any m
Keeps-by m h = record { keeps = λ w p. Kept-any (m w).0 (m w).1 (h w p) }

-- What is known of the final database.
pub Keeps-final :
    {A : Type 0} {P : World → Type 0} {Q : A → Type 0} {m : M A}
    → Keeps P Q m
    → (w : World) → P w
    → P (m w).1
Keeps-final {m} k w p = attempt_kept (m w).0 (m w).1 (k.keeps w p)
