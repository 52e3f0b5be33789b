-- ===== src/Base/Result.antt =====
-- Go's `(T, error)` results, and the error values that the modelled code makes.
use Prim.Native.String.{String}
use mathlib.Core.Path.{◌≡◌, refl}
use mathlib.Core.Option.{Option, none, some}

-- `external` is an error of the store, of Redis or of the context; `wrap` is fmt.Errorf("...: %w").
pub data Error : Type 0 where
  no_account account_busy unsupported_strategy : Error
  external : String → Error
  wrap : String → Error → Error
  join : Error → Error → Error

pub data Result {ℓ} (A : Type ℓ) : Type ℓ where
  ok : A → Result A
  err : Error → Result A

-- errors.Join on two errors that may be nil.
abbrev pub join_errors : Option Error → Option Error → Option Error
join_errors none e = e
join_errors (some d) none = some d
join_errors (some d) (some e) = some (join d e)

-- What holds of the results of both cases holds of the match.
pub result_cases {ℓ κ ν} :
    {A : Type ℓ} {B : Type κ} (Q : B → Type ν) (r : Result A) (f : Error → B) (g : A → B)
    → ((e : Error) → Q (f e))
    → ((a : A) → Q (g a))
    → Q (elim r [ err e ↦ f e | ok a ↦ g a ])
result_cases Q (err e) f g h k = h e
result_cases Q (ok a) f g h k = k a

-- The same, with the case as an equation.
pub result_split {ℓ κ ν} :
    {A : Type ℓ} {B : Type κ} (Q : B → Type ν) (r : Result A) (f : Error → B) (g : A → B)
    → ((e : Error) → r ≡ err e → Q (f e))
    → ((a : A) → r ≡ ok a → Q (g a))
    → Q (elim r [ err e ↦ f e | ok a ↦ g a ])
result_split Q (err e) f g h k = h e refl
result_split Q (ok a) f g h k = k a refl

pub ok_inj {ℓ} : {A : Type ℓ} (a b : A) → ok a ≡ ok b → a ≡ b
ok_inj a b e = cc
