-- ===== src/Prelude/Texts.antt =====
-- The test for equal strings, as an equivalence.
use Prim.Native.String.{String}
use mathlib.Core.Path.{◌≡◌, refl, sym, ◌∙◌}
use mathlib.Core.Logic.{inl, inr}
use mathlib.Core.Bool.{true}
use text.Mathlib.Text.{◌==◌ as str_eq}
use text.Mathlib.TextEquality.{eq_iff}
use meshium.Prelude.Tests.{Bool-cases}

pub str_eq_self : (s : String) → str_eq s s ≡ true
str_eq_self s = (eq_iff s s).1 refl

pub str_eq_sym : (s t : String) → str_eq s t ≡ str_eq t s
str_eq_sym s t = elim (Bool-cases (str_eq s t)) [
  | inl e ↦ e ∙ sym ((eq_iff t s).1 (sym ((eq_iff s t).0 e)))
  | inr e ↦ elim (Bool-cases (str_eq t s)) [
    | inl f ↦ (eq_iff s t).1 (sym ((eq_iff t s).0 f)) ∙ sym f
    | inr f ↦ e ∙ sym f
  ]
]
