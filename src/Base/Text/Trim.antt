-- ===== src/Base/Text/Trim.antt =====
-- strings.TrimSpace leaves a trimmed text as it is.
use Prim.Native.Char.{Char, code}
use Prim.Native.String.{String}
use mathlib.Core.Path.{◌≡◌, refl, ap, ◌∙◌, sym}
use native.Mathlib.Omega.{arith}
use text.Mathlib.TextEquality.{eq_iff}
use mathlib.Core.Logic.{inl, inr}
use grok_go.Base.Tests.{Bool-cases}
use Prim.Native.Nat.{ℕ}
use mathlib.Core.Bool.{true, false, ◌&&◌}
use text.Mathlib.Text.{◌==◌}
use grok_go.Base.Tests.{if_cases}
use grok_go.Base.Text.{trim_left, trim_right, trim_space, is_space, Bool}

-- The text is empty or begins with a letter other than white space.
abbrev IsBegun : String → Type 0
IsBegun String.[] = Unit
IsBegun (String.◌∷◌ c s) = is_space (code c) ≡ false

trim_left-IsBegun : (s : String) → IsBegun (trim_left s)
unfolding trim_left
trim_left-IsBegun String.[] = tt
trim_left-IsBegun (String.◌∷◌ c s) =
    if_cases IsBegun (is_space (code c)) _ _ (λ _. trim_left-IsBegun s) (λ starts. starts)

trim_left_begun : (s : String) → IsBegun s → trim_left s ≡ s
unfolding trim_left
trim_left_begun String.[] h = refl
trim_left_begun (String.◌∷◌ c s) h = rw h

trim_right-IsBegun : (s : String) → IsBegun s → IsBegun (trim_right s)
unfolding trim_right
trim_right-IsBegun String.[] h = tt
trim_right-IsBegun (String.◌∷◌ c s) h =
    if_cases IsBegun (is_space (code c) && trim_right s == "") _ _ (λ _. tt) (λ _. h)

trim_right_idem : (s : String) → trim_right (trim_right s) ≡ trim_right s
unfolding trim_right
trim_right_idem String.[] = refl
trim_right_idem (String.◌∷◌ c s) =
    if_cases (λ t. trim_right t ≡ t) (is_space (code c) && trim_right s == "") _ _ (λ _. refl)
      (λ kept. rw (trim_right_idem s, kept))

pub trim_space_idem : (s : String) → trim_space (trim_space s) ≡ trim_space s
unfolding trim_space
trim_space_idem s =
    let begun = trim_left-IsBegun s in
    ap trim_right (trim_left_begun _ (trim_right-IsBegun (trim_left s) begun))
    ∙ trim_right_idem (trim_left s)

-- A letter in front of a trimmed text that is not empty.
pub trim_space-cons :
    (c : Char) (s : String)
    → is_space (code c) ≡ false
    → trim_space (String.◌∷◌ c s) ≡ String.◌∷◌ c (trim_right s)
unfolding trim_space trim_left trim_right
trim_space-cons c s h = rw (h, h)

pub trim_right_trimmed : (s : String) → trim_space s ≡ s → trim_right s ≡ s
unfolding trim_space
trim_right_trimmed s h = ap trim_right (sym h) ∙ trim_right_idem (trim_left s) ∙ h

and_false : (b : Bool) → (b && false) ≡ false
and_false true = refl
and_false false = refl

size : String → ℕ
size String.[] = 0
size (String.◌∷◌ c s) = 1

pub cons_some : (c : Char) (s : String) → (String.◌∷◌ c s == "") ≡ false
unfolding size
cons_some c s = elim (Bool-cases (String.◌∷◌ c s == "")) [
  | inl same ↦ absurd (omega (arith, ap size ((eq_iff (String.◌∷◌ c s) "").0 same)))
  | inr differ ↦ differ
]

-- White space at the end is cut, and nothing else is.
pub trim_right-cons :
    (c : Char) (s : String)
    → trim_right s ≡ s
    → (s == "") ≡ false
    → trim_right (String.◌∷◌ c s) ≡ String.◌∷◌ c s
unfolding trim_right
trim_right-cons c s h some_left = rw (h, some_left, and_false (is_space (code c)))
