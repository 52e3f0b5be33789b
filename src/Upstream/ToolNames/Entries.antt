-- ===== src/Upstream/ToolNames/Entries.antt =====
-- Reading the map of aliases after it was written.
use grok_go.Base.{◌≡◌, ◌⊎◌, refl, some, [], ◌∷◌, false, Bool-cases, inl, inr, arith, if_cases}
use grok_go.Base.Text.{codes_eq}
use grok_go.Base.Text.Match.{codes_eq→eq, codes_eq_self}
use grok_go.Upstream.ToolNames.{Name, Aliases, set_alias, get_alias}

-- The map has an alias for a name.
abbrev pub In : Name → Name → Aliases → Type 0
In name alias [] = ⊥
In name alias ((key, value) ∷ aliases) = ((key ≡ name) × (value ≡ alias)) ⊎ In name alias aliases

pub In-set_alias :
    (name alias key value : Name) (aliases : Aliases)
    → In name alias (set_alias key value aliases)
    → ((key ≡ name) × (value ≡ alias)) ⊎ In name alias aliases
unfolding set_alias
In-set_alias name alias key value [] = λ h. h
In-set_alias name alias key value ((k, v) ∷ aliases) =
    if_cases
      (λ l. In name alias l → ((key ≡ name) × (value ≡ alias)) ⊎ In name alias ((k, v) ∷ aliases))
      (codes_eq k key) _ _ (λ _ h. elim h [ inl e ↦ inl e | inr e ↦ inr (inr e) ])
      (λ _ h. elim h [
        | inl e ↦ inr (inl e)
        | inr e ↦ elim (In-set_alias name alias key value aliases e) [
          | inl f ↦ inl f
          | inr f ↦ inr (inr f)
        ]
      ])

pub get_alias-In :
    (name alias : Name) (aliases : Aliases)
    → get_alias name aliases ≡ some alias
    → In name alias aliases
unfolding get_alias
get_alias-In name alias [] h = cc
get_alias-In name alias ((k, v) ∷ aliases) h = elim (Bool-cases (codes_eq k name)) [
  | inl e ↦ inl (codes_eq→eq k name e, ground arith)
  | inr e ↦ inr (get_alias-In name alias aliases (ground arith))
]

pub get_alias-set_alias_self :
    (key value : Name) (aliases : Aliases)
    → get_alias key (set_alias key value aliases) ≡ some value
unfolding get_alias set_alias
get_alias-set_alias_self key value [] = ground (arith, codes_eq_self key)
get_alias-set_alias_self key value ((k, v) ∷ aliases) =
    if_cases (λ l. get_alias key l ≡ some value) (codes_eq k key) _ _
      (λ _. ground (arith, codes_eq_self key))
      (λ e. rw e (get_alias-set_alias_self key value aliases))

pub get_alias-set_alias_other :
    (key value name : Name) (aliases : Aliases)
    → codes_eq key name ≡ false
    → get_alias name (set_alias key value aliases) ≡ get_alias name aliases
unfolding get_alias set_alias
get_alias-set_alias_other key value name [] h = rw h refl
get_alias-set_alias_other key value name ((k, v) ∷ aliases) h = elim (Bool-cases (codes_eq k key)) [
  | inl e ↦ let differs : codes_eq k name ≡ false = rw (codes_eq→eq k key e) h in ground arith
  | inr e ↦ ground (arith, get_alias-set_alias_other key value name aliases h)
]
