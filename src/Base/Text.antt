-- ===== src/Base/Text.antt =====
-- strings.ToLower and strings.TrimSpace. A lowered text is only ever compared with ASCII names, so
-- it is given by its code points, and of Unicode's other cases only the two that land in ASCII
-- count.
pub mod Match
pub mod Trim
use Prim.Native.Nat.{ℕ, zero, suc, ◌+◌, ◌-◌, ◌*◌, ◌^◌}
use mathlib.Core.Option.{Option, none, some}
use grok_go.Base.Int.{ℤ, pos, negsuc}
use Prim.Native.Char.{code}
use Prim.Native.String.{String}
use mathlib.Core.Bool.{Bool, true, false, ◌&&◌, ◌||◌}
use mathlib.Core.List.{List, [], ◌∷◌}
use text.Mathlib.Text.{◌==◌}
use grok_go.Base.Tests.{leb, eqb, if◌then◌else◌}

abbrev pub codes : String → List ℕ
codes String.[] = []
codes (String.◌∷◌ letter rest) = code letter ∷ codes rest

-- unicode.ToLower on one code point; U+0130 and U+212A have the lower cases `i` and `k`.
unfoldable pub lower_code : ℕ → ℕ
lower_code c =
    if leb b'A' c && leb c b'Z'
    then c + 32
    else if eqb c 0x130
    then b'i'
    else if eqb c 0x212a
    then b'k'
    else c

unfoldable pub to_lower : String → List ℕ
unfolding lower_code
to_lower String.[] = []
to_lower (String.◌∷◌ c s) = lower_code (code c) ∷ to_lower s

abbrev pub codes_eq : List ℕ → List ℕ → Bool
codes_eq [] [] = true
codes_eq (c ∷ s) (d ∷ t) = eqb c d && codes_eq s t
codes_eq _ _ = false

-- The test `strings.ToLower(s) == name`.
abbrev pub lowers_to : String → String → Bool
lowers_to s name = codes_eq (to_lower s) (codes name)

-- unicode.IsSpace.
unfoldable pub is_space : ℕ → Bool
is_space c =
    (leb 9 c && leb c 13)
    || eqb c 32
    || eqb c 0x85
    || eqb c 0xa0
    || eqb c 0x1680
    || (leb 0x2000 c && leb c 0x200a)
    || eqb c 0x2028
    || eqb c 0x2029
    || eqb c 0x202f
    || eqb c 0x205f
    || eqb c 0x3000

pub trim_left : String → String
trim_left String.[] = ""
trim_left (String.◌∷◌ c s) =
    let rest = trim_left s in if is_space (code c) then rest else String.◌∷◌ c s

pub trim_right : String → String
trim_right String.[] = ""
trim_right (String.◌∷◌ c s) =
    let rest = trim_right s in if is_space (code c) && rest == "" then "" else String.◌∷◌ c rest

unfoldable pub trim_space : String → String
unfolding trim_left trim_right is_space
trim_space s = trim_right (trim_left s)

-- The digits of a decimal numeral, read from the left.
unfoldable pub read_digits : ℕ → String → Option ℕ
read_digits n String.[] = some n
read_digits n (String.◌∷◌ c s) =
    let rest = read_digits (10 * n + (code c - b'0')) s in
    if leb b'0' (code c) && leb (code c) b'9' then rest else none

unfoldable pub read_unsigned : String → Option ℕ
unfolding read_digits
read_unsigned String.[] = none
read_unsigned (String.◌∷◌ c s) = read_digits 0 (String.◌∷◌ c s)

abbrev in_range : ℤ → Option ℤ
in_range (pos n) = if leb (2 ^ 63) n then none else some (pos n)
in_range (negsuc n) = if leb (2 ^ 63) n then none else some (negsuc n)

abbrev negated : ℕ → ℤ
negated zero = pos 0
negated (suc n) = negsuc n

-- strconv.ParseInt(s, 10, 64); `none` is its error.
unfoldable pub parse_int : String → Option ℤ
unfolding read_unsigned
parse_int String.[] = none
parse_int (String.◌∷◌ c s) =
    if eqb (code c) b'-'
    then elim (read_unsigned s) [ none ↦ none | some n ↦ in_range (negated n) ]
    else if eqb (code c) b'+'
    then elim (read_unsigned s) [ none ↦ none | some n ↦ in_range (pos n) ]
    else elim (read_unsigned (String.◌∷◌ c s)) [ none ↦ none | some n ↦ in_range (pos n) ]

-- strings.TrimSuffix(s, "/")
unfoldable pub trim_slash : String → String
trim_slash String.[] = ""
trim_slash (String.◌∷◌ c s) =
    let rest = trim_slash s in if s == "" && eqb (code c) b'/' then "" else String.◌∷◌ c rest
