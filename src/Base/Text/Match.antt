-- ===== src/Base/Text/Match.antt =====
-- What the tests on lists of code points say of the lists.
use Prim.Native.Nat.{ℕ}
use mathlib.Core.Path.{◌≡◌, refl}
use mathlib.Core.Bool.{true}
use mathlib.Core.List.{List, [], ◌∷◌}
use native.Mathlib.Omega.{arith}
use grok_go.Base.Text.{codes_eq}

-- Equal lists pass the test.
pub codes_eq_self : (s : List ℕ) → codes_eq s s ≡ true
codes_eq_self [] = refl
codes_eq_self (c ∷ s) = ground (arith, codes_eq_self s)

pub codes_eq→eq : (s t : List ℕ) → codes_eq s t ≡ true → s ≡ t
codes_eq→eq [] [] h = refl
codes_eq→eq [] (d ∷ t) h = cc
codes_eq→eq (c ∷ s) [] h = cc
codes_eq→eq (c ∷ s) (d ∷ t) h = ground (arith, codes_eq→eq s t)
