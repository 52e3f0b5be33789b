-- ===== src/Tests/Scores.antt =====
-- An instance of the operations on float64: hundredths, rounded down, with no value below zero.
use Prim.Native.Nat.{◌≤◌}
use native.Mathlib.Nat.{mul-le-mul}
use grok_go.Base.{ℕ, ◌+◌, ◌*◌, ◌-◌, ◌/◌, ◌≡◌, false, arith, ltb, eqb, if◌then◌else◌}
use grok_go.Base.Int.{pos_part}
use grok_go.Base.Float.{Float, IsOrdered, IsScaled}

abbrev pub scores : Float ℕ
scores = record {
  hundredths = λ n. n;
  of_int = λ z. 100 * pos_part z;
  seconds = λ z. pos_part z / 10_000_000;
  add = λ a b. a + b;
  sub = λ a b. a - b;
  mul = λ a b. a * b / 100;
  div = λ a b. 100 * a / b;
  min = λ a b. if ltb a b then a else b;
  max = λ a b. if ltb a b then b else a;
  lt = ltb;
  eq = eqb;
}

pub scores-IsOrdered : IsOrdered scores
scores-IsOrdered = record {
  lt_irrefl = λ a. ground arith;
  lt_asymm = λ a b h. ground arith;
  not_lt_trans = λ a b c h k. ground arith;
  eq_not_lt = λ a b h. ground arith;
}

not_lt_le : (a b : ℕ) → ltb a b ≡ false → b ≤ a
not_lt_le a b h = ground arith

le_not_lt : (a b : ℕ) → b ≤ a → ltb a b ≡ false
le_not_lt a b h = ground arith

mul_le : (a n : ℕ) → a ≤ 100 → n ≤ 100 → a * n ≤ 10_000
mul_le a n h k = mul-le-mul h k

div_le : (x : ℕ) → x ≤ 10_000 → x / 100 ≤ 100
div_le x h = omega arith

pub scores-IsScaled : IsScaled scores
scores-IsScaled = record {
  literal_mono = λ m n h. ground arith;
  max_ge = λ a b. ground arith;
  max_le = λ a b c h k. ground arith;
  min_le = λ a b. ground arith;
  min_ge = λ a b c h k. ground arith;
  mul_shrinks = λ a n small h.
      le_not_lt 100 (a * n / 100) (div_le (a * n) (mul_le a n (not_lt_le 100 a h) small));
  add_grows = λ a h. ground arith;
}
