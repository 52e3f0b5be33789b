-- ===== src/Accounts/Acquire/Progress.antt =====
-- What a round of Acquire uses up: the accounts that are not excluded, and a stale binding.
use grok_go.Base.{
  length, ℕ, ◌+◌, ◌≤◌, ◌<◌, ◌≡◌, refl, String, false, some, List, [], ◌∷◌, arith, eq_iff,
  if◌then◌else◌,
}
use grok_go.Base.Map.{Map, lookup, insert}
use grok_go.Domain.{Time}
use grok_go.Accounts.Policy.{Policy}
use grok_go.Accounts.Pool.{RuntimeState, Selection}
use grok_go.Accounts.Select.{contains, scan}

module _ {V : Type 0} where
  -- The number of keys that are not excluded.
  unfoldable pub free : List String → Map V → ℕ
  free xs [] = 0
  free xs ((k, v) ∷ m) = if contains xs k then free xs m else free xs m + 1

  pub free-length : (xs : List String) (m : Map V) → free xs m ≤ length m
  unfolding free
  free-length xs [] = omega arith
  free-length xs ((k, v) ∷ m) = ground (arith, free-length xs m)

  pub free-insert :
      (xs : List String) (id : String) (t s : V) (m : Map V)
      → lookup id m ≡ some s
      → free xs (insert id t m) ≡ free xs m
  unfolding free lookup insert
  free-insert xs id t s [] h = cc
  free-insert xs id t s ((j, w) ∷ m) h = ground (arith, eq_iff j id, free-insert xs id t s m)

  free_mono : (xs : List String) (id : String) (m : Map V) → free (id ∷ xs) m ≤ free xs m
  unfolding free contains
  free_mono xs id [] = omega arith
  free_mono xs id ((j, w) ∷ m) = ground (arith, free_mono xs id m)

  pub free_exclude :
      (xs : List String) (id : String) (s : V) (m : Map V)
      → contains xs id ≡ false
      → lookup id m ≡ some s
      → free (id ∷ xs) m < free xs m
  unfolding free lookup contains
  free_exclude xs id s [] out h = cc
  free_exclude xs id s ((j, w) ∷ m) out h =
      ground (arith, eq_iff j id, eq_iff id j, free_mono xs id m, free_exclude xs id s m out)

module _ {F : Type 0} where
  pub free-scan :
      (xs : List String) (policy : Policy) (sel : Selection) (now : Time) (m : Map (RuntimeState F))
      → free xs (scan policy sel now m).0 ≡ free xs m
  unfolding free scan
  free-scan xs policy sel now [] = refl
  free-scan xs policy sel now ((j, s) ∷ m) = ground (arith, free-scan xs policy sel now m)
