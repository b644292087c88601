-- ===== src/Cutover/Good.antt =====
-- Checkpoints of a cutover (internal/mod/migration/cutover_substate.go) that agree with the actions
-- that have succeeded.
use meshium.Prelude.{
  ℕ, suc, ◌≤◌, ◌<◌, ◌≡◌, refl, sym, ◌∙◌, ap, Bool, true, false, ◌||◌, ◌&&◌, if◌then◌else◌, ltb,
  ◌==◌, ==_iff, ==_self, Option, none, some, List, [], ◌∷◌, ◌⊎◌, inl, inr, subst, Bool-cases, arith,
}
use meshium.Fencing.{FenceLease, granted}
use meshium.Cutover.{SubState, position, sub_eq, Checkpoint}
use meshium.Cutover.Run.{World, Progress, stopped, sign, mark}

-- Whether the action of a step has succeeded.
abbrev pub has : SubState → List (SubState × Bool) → Bool
has s [] = false
has s ((t, done) ∷ rest) = (sub_eq t s && done) || has s rest

abbrev pub place : Option SubState → ℕ
place none = 0
place (some s) = position s

-- The recorded steps are those before the checkpoint's sub-state, and their actions have succeeded.
pub record Good (cp : Checkpoint) (log : List (SubState × Bool)) : Type 0 where
  pub counted : (s : SubState) → cp.steps s ≡ ltb (position s) (place cp.sub_state)
  pub succeeded : (s : SubState) → cp.steps s ≡ true → has s log ≡ true

-- An action was tried only after all the earlier ones had succeeded.
abbrev pub InOrder : List (SubState × Bool) → Type 0
InOrder [] = Unit {0}
InOrder ((s, done) ∷ rest) =
    ((t : SubState) → position t < position s → has t rest ≡ true) × InOrder rest

pub record Orderly (w : World) : Type 0 where
  pub in_order : InOrder w.log
  pub stored_good : (cp : Checkpoint) → w.stored ≡ some cp → Good cp w.log

-- What a step keeps; past the step numbered `n` unless it stops the run.
abbrev pub is_stopped : Progress → Bool
is_stopped (stopped e) = true
is_stopped _ = false

pub record Kept (n : ℕ) (r : Progress × Checkpoint × World) : Type 0 where
  pub orderly : Orderly r.2
  pub good : Good r.1 r.2.log
  pub further : is_stopped r.0 ≡ false → suc n ≤ place r.1.sub_state

-- The edges of a list of steps follow one another, from the step numbered `n` on.
abbrev pub Chain : ℕ → List (SubState × SubState) → Type 0
Chain n [] = Unit {0}
Chain n ((from, to) ∷ rest) = (position from ≡ n) × (position to ≡ suc n) × Chain (suc n) rest

pub Good-sign :
    (lease : FenceLease) (cp : Checkpoint) (log : List (SubState × Bool))
    → Good cp log
    → Good (sign lease cp) log
Good-sign lease cp log g = record { counted = g.counted; succeeded = g.succeeded }

pub Good-log :
    (cp : Checkpoint) (e : SubState × Bool) (log : List (SubState × Bool))
    → Good cp log
    → Good cp (e ∷ log)
Good-log cp (t, done) log g = record {
  counted = g.counted;
  succeeded = λ s h. ground (arith, g.succeeded s h);
}

pub same_eq : (s t u : SubState) → position s ≡ position t → sub_eq u s ≡ sub_eq u t
unfolding sub_eq
same_eq s t u e = ap (λ n. position u == n) e

pub sub_eq_self : (s : SubState) → sub_eq s s ≡ true
unfolding sub_eq
sub_eq_self s = ==_self (position s)

pub sub_eq-same : (s t : SubState) → sub_eq s t ≡ true → position s ≡ position t
unfolding sub_eq
sub_eq-same s t h = (==_iff (position s) (position t)).0 h

pub has_same :
    (s t : SubState) (log : List (SubState × Bool))
    → position s ≡ position t
    → has s log ≡ has t log
has_same s t [] e = refl
has_same s t ((u, done) ∷ log) e = rw (same_eq s t u e, has_same s t log e)

pub has-head : (s : SubState) (log : List (SubState × Bool)) → has s ((s, true) ∷ log) ≡ true
has-head s log = rw (sub_eq_self s)

pub marked_count : (a b : ℕ) → (if a == b then true else ltb a b) ≡ ltb a (suc b)
marked_count a b = ground arith

pub Good-mark :
    (from to : SubState) (cp : Checkpoint) (log : List (SubState × Bool))
    → Good cp log
    → has from log ≡ true
    → place cp.sub_state ≡ position from
    → position to ≡ suc (position from)
    → Good (mark from to cp) log
Good-mark from to cp log g h p q = record {
  counted =
      λ s. rw (g.counted s, p, q) (unfold sub_eq in marked_count (position s) (position from));
  succeeded = λ s e. elim (Bool-cases (sub_eq s from)) [
    | inl same ↦ has_same s from log (sub_eq-same s from same) ∙ h
    | inr other ↦ g.succeeded s (rw other at e)
  ];
}

-- A change that leaves the log and perhaps stores a checkpoint.
abbrev pub Stores : Checkpoint → World → World → Type 0
Stores cp w v = (v.log ≡ w.log) × ((v.stored ≡ w.stored) ⊎ (v.stored ≡ some cp))

pub some_injective : (a b : Checkpoint) → some a ≡ some b → a ≡ b
some_injective a b e = cc e

pub Orderly-Stores :
    (cp : Checkpoint) (w v : World) → Stores cp w v → Orderly w → Good cp w.log → Orderly v
Orderly-Stores cp w v (e, inl f) o g = record {
  in_order = subst InOrder (sym e) o.in_order;
  stored_good = λ c h. subst (Good c) (sym e) (o.stored_good c (sym f ∙ h));
}
Orderly-Stores cp w v (e, inr f) o g = record {
  in_order = subst InOrder (sym e) o.in_order;
  stored_good =
      λ c h. subst (Good c) (sym e) (subst (λ x. Good x w.log) (some_injective cp c (sym f ∙ h)) g);
}

pub equal : (a b : ℕ) → a ≤ b → ltb a b ≡ false → b ≡ a
equal a b h e = ground arith

pub granted_injective : (a b : Checkpoint) → granted a ≡ granted b → a ≡ b
granted_injective a b e = cc e
