-- ===== src/Prelude/Text/Trimming.antt =====
-- Trimming a text twice is trimming it once.
use Prim.Native.String.{String, [], ◌∷◌}
use mathlib.Core.Path.{◌≡◌, refl, ap, ◌∙◌}
use mathlib.Core.Logic.{inl, inr}
use mathlib.Core.Bool.{◌&&◌}
use mathlib.Core.Option.{Option, none, some}
use text.Mathlib.Text.{◌==◌}
use tiny_office.Prelude.Tests.{Bool-cases}
use tiny_office.Prelude.Text.{is_space, trim_start, trim_end, trim, nonempty, optional_text}

trim_end-twice : (s : String) → trim_end (trim_end s) ≡ trim_end s
unfolding trim_end
trim_end-twice [] = refl
trim_end-twice (c ∷ s) = elim (Bool-cases (is_space c && trim_end s == "")) [
  | inl t ↦ rw t refl
  | inr f ↦ rw f (rw (trim_end-twice s, f) refl)
]

trim_start-trim_end : (s : String) → trim_start (trim_end (trim_start s)) ≡ trim_end (trim_start s)
unfolding trim_end trim_start
trim_start-trim_end [] = refl
trim_start-trim_end (c ∷ s) = elim (Bool-cases (is_space c)) [
  | inl t ↦ rw t (trim_start-trim_end s)
  | inr f ↦ rw f (rw f (rw f refl))
]

pub trim-twice : (s : String) → trim (trim s) ≡ trim s
unfolding trim
trim-twice s = ap trim_end (trim_start-trim_end s) ∙ trim_end-twice (trim_start s)

pub optional_text-twice : (o : Option String) → optional_text (optional_text o) ≡ optional_text o
optional_text-twice none = refl
optional_text-twice (some s) = elim (Bool-cases (trim s == "")) [
  | inl t ↦ rw t refl
  | inr f ↦ rw f (ap nonempty (trim-twice s) ∙ rw f refl)
]
