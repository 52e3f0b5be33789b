-- ===== src/Upstream/ToolNames/Fresh.antt =====
-- uniqueToolAlias ends, and answers a name that is not used.
use grok_go.Base.{
  ℕ, zero, suc, ◌+◌, ◌-◌, ◌*◌, ◌/◌, ◌%◌, ◌≤◌, ◌<◌, ◌≡◌, ◌≢◌, refl, ap, sym, ◌∙◌, none, some, List,
  [], ◌∷◌, ◌++◌, true, false, Bool-cases, inl, inr, All, length, ltb, arith, if_cases,
  if◌then◌else◌,
}
use grok_go.Base.Text.{codes_eq}
use grok_go.Base.Text.Match.{codes_eq→eq}
use grok_go.Upstream.ToolNames.{
  Name, append_decimal, marker, marked, truncate_runes, is_used, search_alias, unique_tool_alias,
}

value : Name → ℕ → ℕ
value [] n = n
value (c ∷ digits) n = value digits (10 * n + (c - b'0'))

value-append_decimal :
    (room n : ℕ) (text : Name) → n < room → value (append_decimal room n text) 0 ≡ value text n
unfolding append_decimal value
value-append_decimal zero n text h = absurd (omega (arith, h))
value-append_decimal (suc room) n text h =
    if_cases (λ t. value t 0 ≡ value text n) (ltb n 10) _ _
      (λ small.
        let same : n % 10 ≡ n = ground arith in ap (λ m. value text m) (omega (arith, same)))
      (λ large.
        let again : 10 * (n / 10) + (b'0' + n % 10 - b'0') ≡ n = omega arith in
        value-append_decimal room (n / 10) _ (ground arith) ∙ ap (λ m. value text m) again)

-- No rune is an underscore.
abbrev IsPlain : Name → Type 0
IsPlain = All (λ (c : ℕ). c ≢ b'_')

append_decimal-IsPlain :
    (room n : ℕ) (text : Name) → IsPlain text → IsPlain (append_decimal room n text)
unfolding append_decimal
append_decimal-IsPlain zero n text h = h
append_decimal-IsPlain (suc room) n text h =
    let more : IsPlain ((b'0' + n % 10) ∷ text) = ((λ e. omega (arith, e)), h) in
    if_cases IsPlain (ltb n 10) _ _ (λ _. more) (λ _. append_decimal-IsPlain room (n / 10) _ more)

marker_inside : (text front rest : Name) → IsPlain text → text ≢ front ++ b'_' ∷ rest
marker_inside [] [] rest h e = cc
marker_inside [] (d ∷ front) rest h e = cc
marker_inside (c ∷ text) [] rest h e = h.0 (cc)
marker_inside (c ∷ text) (d ∷ front) rest h e = marker_inside text front rest h.1 (cc)

after_last_marker :
    (front other text rest : Name)
    → IsPlain text
    → IsPlain rest
    → front ++ b'_' ∷ text ≡ other ++ b'_' ∷ rest
    → text ≡ rest
after_last_marker [] [] text rest h k e = cc
after_last_marker [] (d ∷ other) text rest h k e = absurd (marker_inside text other rest h (cc))
after_last_marker (c ∷ front) [] text rest h k e = absurd (marker_inside rest front text k (cc))
after_last_marker (c ∷ front) (d ∷ other) text rest h k e =
    after_last_marker front other text rest h k (cc)

-- Two suffixes give two candidates.
marked_inj : (base : Name) (j k : ℕ) → marked base j ≡ marked base k → j ≡ k
unfolding marked marker value
marked_inj base j k e =
    let same : append_decimal (suc j) j [] ≡ append_decimal (suc k) k [] =
      after_last_marker (truncate_runes base (64 - length (marker j)))
        (truncate_runes base (64 - length (marker k))) _ _ (append_decimal-IsPlain (suc j) j [] tt)
        (append_decimal-IsPlain (suc k) k [] tt) e in
    sym (value-append_decimal (suc j) j [] (omega arith))
    ∙ ap (λ t. value t 0) same
    ∙ value-append_decimal (suc k) k [] (omega arith)

remove : Name → List Name → List Name
remove name [] = []
remove name (x ∷ used) = if codes_eq x name then used else x ∷ remove name used

length-remove :
    (name : Name) (used : List Name)
    → is_used used name ≡ true
    → suc (length (remove name used)) ≡ length used
unfolding remove
length-remove name [] h = cc
length-remove name (x ∷ used) h = ground (arith, length-remove name used)

is_used-remove :
    (name other : Name) (used : List Name)
    → name ≢ other
    → is_used used other ≡ true
    → is_used (remove name used) other ≡ true
unfolding remove
is_used-remove name other [] n h = h
is_used-remove name other (x ∷ used) n h = elim (Bool-cases (codes_eq x name)) [
  | inl e ↦ elim (Bool-cases (codes_eq x other)) [
    | inl f ↦ absurd (n (sym (codes_eq→eq x name e) ∙ codes_eq→eq x other f))
    | inr f ↦ ground arith
  ]
  | inr e ↦ elim (Bool-cases (codes_eq x other)) [
    | inl f ↦ ground arith
    | inr f ↦ ground (arith, is_used-remove name other used n (ground arith))
  ]
]

module _ (base : Name) (used : List Name) where
  -- `left` has the used names that later candidates may still meet.
  search_ends :
      (rounds suffix : ℕ) (left : List Name)
      → length left < rounds
      → ((k : ℕ)
          → suffix ≤ k
          → is_used used (marked base k) ≡ true
          → is_used left (marked base k) ≡ true)
      → (alias : Name) × (search_alias rounds base (suc suffix) (marked base suffix) used
          ≡ some alias)
        × (is_used used alias ≡ false)
  unfolding search_alias
  search_ends zero suffix left few meets = absurd (omega (arith, few))
  search_ends (suc rounds) suffix left few meets =
      elim (Bool-cases (is_used used (marked base suffix))) [
        | inr e ↦ (marked base suffix, rw e refl, e)
        | inl e ↦
            let here = meets suffix (omega arith) e in
            let (alias, found, fresh) =
              search_ends rounds (suc suffix) (remove (marked base suffix) left)
                (omega (arith, length-remove (marked base suffix) left here, few))
                (λ k h u.
                  is_used-remove (marked base suffix) (marked base k) left
                    (λ same. omega (arith, marked_inj base suffix k same, h))
                    (meets k (omega (arith, h)) u)) in
            (alias, rw e found, fresh)
      ]

  search_ends_first :
      (alias : Name) × (search_alias (suc (suc (length used))) base 1 base used ≡ some alias)
      × (is_used used alias ≡ false)
  unfolding search_alias
  search_ends_first = elim (Bool-cases (is_used used base)) [
    | inr e ↦ (base, rw e refl, e)
    | inl e ↦
        let (alias, found, fresh) =
          search_ends (suc (length used)) 1 used (omega arith) (λ k h u. u) in
        (alias, rw e found, fresh)
  ]

  -- The search for an alias ends with one that is not used, which is then the only new name in use.
  pub unique_tool_alias-fresh :
      (alias : Name) × (unique_tool_alias base used ≡ some (alias, alias ∷ used))
      × (is_used used alias ≡ false)
  unfolding unique_tool_alias
  unique_tool_alias-fresh =
      let (alias, found, fresh) = search_ends_first in
      (alias, ap (λ o. elim o [ none ↦ none | some name ↦ some (name, name ∷ used) ]) found, fresh)
