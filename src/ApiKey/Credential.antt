-- ===== src/ApiKey/Credential.antt =====
-- internal/apikey/middleware.go: the credential that a request carries in its headers.
use Prim.Native.Char.{code, Char}
use Prim.Native.String.{◌++◌}
use text.Mathlib.TextLemmas.{cons-append, nil-append}
use grok_go.Base.{
  ℕ, String, false, Option, none, some, List, [], ◌∷◌, ◌≡◌, ◌==◌, refl, ap, ◌∙◌, eqb, not,
  if◌then◌else◌, if_cases, option_cases,
}
use grok_go.Base.Text.{codes, lower_code, trim_space, trim_right, is_space}
use grok_go.Base.Text.Trim.{
  trim_space_idem, trim_space-cons, trim_right_trimmed, trim_right-cons, cons_some,
}

-- What follows the letters, compared as strings.EqualFold does for letters of ASCII other than `k`
-- and `s`, which have no further cases.
unfoldable pub after_fold : List ℕ → String → Option String
unfolding lower_code
after_fold [] text = some text
after_fold (c ∷ cs) String.[] = none
after_fold (c ∷ cs) (String.◌∷◌ letter text) =
    let rest = after_fold cs text in if eqb (lower_code (code letter)) c then rest else none

-- credential, from the two headers as Header.Get answers them. Where the first seven bytes of the
-- value are not all letters of ASCII, they do not equal "Bearer ".
unfoldable pub credential : String → String → String
unfolding after_fold trim_space
credential api_key authorization =
    let direct = trim_space api_key in
    if not (direct == "")
    then direct
    else elim (after_fold (codes "bearer ") (trim_space authorization)) [
      | none ↦ ""
      | some rest ↦ if rest == "" then "" else trim_space rest
    ]

abbrev IsTrimmed : String → Type 0
IsTrimmed text = trim_space text ≡ text

-- A credential has no white space around it, whatever the headers hold.
pub credential_trimmed :
    (api_key authorization : String)
    → trim_space (credential api_key authorization) ≡ credential api_key authorization
unfolding credential
credential_trimmed api_key authorization =
    if_cases IsTrimmed (not (trim_space api_key == "")) _ _ (λ _. trim_space_idem api_key)
      (λ _.
        option_cases IsTrimmed (after_fold (codes "bearer ") (trim_space authorization)) _ _
          (λ _. refl)
          (λ rest _. if_cases IsTrimmed (rest == "") _ _ (λ _. refl) (λ _. trim_space_idem rest)))

-- Letters in front of a trimmed token: no white space is cut.
unfoldable bearer : List Char → String → String
bearer [] token = token
bearer (c ∷ cs) token = String.◌∷◌ c (bearer cs token)

bearer-trimmed :
    (cs : List Char) (token : String)
    → trim_space token ≡ token
    → (token == "") ≡ false
    → (trim_right (bearer cs token) ≡ bearer cs token) × ((bearer cs token == "") ≡ false)
unfolding bearer
bearer-trimmed [] token trimmed some_left = (trim_right_trimmed token trimmed, some_left)
bearer-trimmed (c ∷ cs) token trimmed some_left =
    let (kept, left) = bearer-trimmed cs token trimmed some_left in
    (trim_right-cons c (bearer cs token) kept left, cons_some c (bearer cs token))

abbrev scheme_rest : List Char
scheme_rest = "e" ∷ "a" ∷ "r" ∷ "e" ∷ "r" ∷ " " ∷ []

abbrev scheme : List Char
scheme = "B" ∷ scheme_rest

letters : List Char → String
letters [] = ""
letters (c ∷ cs) = String.◌∷◌ c (letters cs)

letters-append : (cs : List Char) (token : String) → letters cs ++ token ≡ bearer cs token
unfolding letters bearer
letters-append [] token = nil-append token
letters-append (c ∷ cs) token =
    cons-append c (letters cs) token ∙ ap (λ t. String.◌∷◌ c t) (letters-append cs token)

bearer-append : (token : String) → "Bearer " ++ token ≡ bearer scheme token
unfolding letters
bearer-append token = letters-append scheme token

abbrev token_of : Option String → String
token_of none = ""
token_of (some rest) = if rest == "" then "" else trim_space rest

-- Without an API key header, a bearer token that has no white space around it is the credential.
pub credential_bearer :
    (token : String)
    → trim_space token ≡ token
    → (token == "") ≡ false
    → credential "" ("Bearer " ++ token) ≡ token
unfolding credential after_fold bearer is_space
credential_bearer token trimmed some_left =
    let kept : trim_space (bearer scheme token) ≡ bearer scheme token =
      trim_space-cons "B" (bearer scheme_rest token) refl
      ∙ ap (λ t. String.◌∷◌ "B" t) (bearer-trimmed scheme_rest token trimmed some_left).0 in
    ap (λ t. token_of (after_fold (codes "bearer ") t)) (ap trim_space (bearer-append token) ∙ kept)
    ∙ rw (some_left, trimmed)
