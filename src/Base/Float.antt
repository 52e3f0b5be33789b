-- ===== src/Base/Float.antt =====
-- The operations on float64 that the program uses, as a parameter of the model: `F` is the type of
-- the values, NaN excluded. Theorems that need laws of the order take `IsOrdered`.
use mathlib.Core.Path.{◌≡◌}
use mathlib.Core.Bool.{Bool, true, false}
use Prim.Native.Nat.{ℕ, ◌≤◌}
use grok_go.Base.Int.{ℤ}

pub record Float (F : Type 0) : Type 0 where
  -- A literal, in hundredths.
  pub hundredths : ℕ → F
  pub of_int : ℤ → F
  -- time.Duration's Seconds, on nanoseconds.
  pub seconds : ℤ → F
  pub add : F → F → F
  pub sub : F → F → F
  pub mul : F → F → F
  pub div : F → F → F
  pub min : F → F → F
  pub max : F → F → F
  pub lt : F → F → Bool
  pub eq : F → F → Bool

-- The order of the float64 values other than NaN is total, up to `==`.
pub record IsOrdered {F : Type 0} (fl : Float F) : Type 0 where
  pub lt_irrefl : (a : F) → fl.lt a a ≡ false
  pub lt_asymm : (a b : F) → fl.lt a b ≡ true → fl.lt b a ≡ false
  pub not_lt_trans : (a b c : F) → fl.lt a b ≡ false → fl.lt b c ≡ false → fl.lt a c ≡ false
  pub eq_not_lt : (a b : F) → fl.eq a b ≡ true → fl.lt a b ≡ false

-- What the health scores rely on, for the literals and operations between 0.05 and 1: literals are
-- ordered as written, math.Max and math.Min answer one of their arguments, a factor of at most 1
-- does not carry a score above 1, and adding 0.12 does not carry one below 0.05.
pub record IsScaled {F : Type 0} (fl : Float F) : Type 0 where
  pub literal_mono : (m n : ℕ) → m ≤ n → fl.lt (fl.hundredths n) (fl.hundredths m) ≡ false
  pub max_ge : (a b : F) → fl.lt (fl.max a b) a ≡ false
  pub max_le : (a b c : F) → fl.lt c a ≡ false → fl.lt c b ≡ false → fl.lt c (fl.max a b) ≡ false
  pub min_le : (a b : F) → fl.lt a (fl.min a b) ≡ false
  pub min_ge : (a b c : F) → fl.lt a c ≡ false → fl.lt b c ≡ false → fl.lt (fl.min a b) c ≡ false
  pub mul_shrinks :
      (a : F) (n : ℕ)
      → n ≤ 100
      → fl.lt (fl.hundredths 100) a ≡ false
      → fl.lt (fl.hundredths 100) (fl.mul a (fl.hundredths n)) ≡ false
  pub add_grows :
      (a : F)
      → fl.lt a (fl.hundredths 5) ≡ false
      → fl.lt (fl.add a (fl.hundredths 12)) (fl.hundredths 5) ≡ false
