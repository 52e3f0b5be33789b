-- ===== src/Base/Lists.antt =====
-- Lists measured and indexed by native numbers, under the library's names.
use Prim.Native.Nat.{ℕ, zero, suc, ◌+◌}
use mathlib.Core.Path.{◌≡◌}
use mathlib.Core.Bool.{Bool}
use mathlib.Core.List.{List, [], ◌∷◌, ◌++◌}
use mathlib.Core.Option.{Option, none, some}
use native.Mathlib.Omega.{arith}
use grok_go.Base.Tests.{if◌then◌else◌, if_cases, Holds, is_some}
use Prim.Native.Nat.{◌<◌}
use mathlib.Core.Path.{refl}
use mathlib.Core.Bool.{true}

module _ {ℓ} {A : Type ℓ} where
  abbrev pub length : List A → ℕ
  length [] = 0
  length (x ∷ xs) = suc (length xs)

  abbrev pub get_elem? : List A → ℕ → Option A
  get_elem? [] i = none
  get_elem? (x ∷ xs) zero = some x
  get_elem? (x ∷ xs) (suc i) = get_elem? xs i

  pub length-append : (xs ys : List A) → length (xs ++ ys) ≡ length xs + length ys
  length-append [] ys = omega arith
  length-append (x ∷ xs) ys = omega (arith, length-append xs ys)

  -- The elements that pass a Boolean test (the library's `filter` wants a decision).
  abbrev pub keep : (A → Bool) → List A → List A
  keep p [] = []
  keep p (x ∷ xs) = if p x then x ∷ keep p xs else keep p xs

-- A predicate of every element, which computes to tuples.
abbrev pub All {ℓ κ} : {A : Type ℓ} → (A → Type κ) → List A → Type κ
All P [] = Unit
All P (x ∷ xs) = P x × All P xs

module _ {ℓ κ} {A : Type ℓ} (P : A → Type κ) where
  pub All-keep : (p : A → Bool) (xs : List A) → All P xs → All P (keep p xs)
  All-keep p [] h = tt
  All-keep p (x ∷ xs) h =
      let rest = All-keep p xs h.1 in
      if_cases (All P) (p x) (x ∷ keep p xs) (keep p xs) (λ _. (h.0, rest)) (λ _. rest)

  pub Holds-get_elem? : (xs : List A) (i : ℕ) → All P xs → Holds P (get_elem? xs i)
  Holds-get_elem? [] i h = tt
  Holds-get_elem? (x ∷ xs) zero h = h.0
  Holds-get_elem? (x ∷ xs) (suc i) h = Holds-get_elem? xs i h.1

  pub All-map : (Q : A → Type κ) → ((a : A) → P a → Q a) → (xs : List A) → All P xs → All Q xs
  All-map Q f [] h = tt
  All-map Q f (x ∷ xs) h = (f x h.0, All-map Q f xs h.1)

pub get_elem?_some {ℓ} :
    {A : Type ℓ} (xs : List A) (i : ℕ) → i < length xs → is_some (get_elem? xs i) ≡ true
get_elem?_some [] i h = elim h [ ]
get_elem?_some (x ∷ xs) zero h = refl
get_elem?_some (x ∷ xs) (suc i) h = get_elem?_some xs i (omega arith)
