-- ===== src/Media/Outbound/Safety.antt =====
-- What a URL that ValidateURL lets through fulfils.
use grok_go.Base.{
  ℕ, String, ◌≡◌, ◌≢◌, ◌⊎◌, inl, inr, refl, ap, true, false, List, [], ◌∷◌, ◌++◌, Bool-cases, arith,
  Bool, ◌&&◌, not, ◌==◌, All, eq_iff, sym, ◌∙◌, subst,
}
use grok_go.Base.Result.{Result, err, ok, ok_inj}
use grok_go.Base.Text.{codes, codes_eq, trim_space}
use grok_go.Base.Text.Match.{codes_eq→eq, codes_eq_self}
use grok_go.Gateway.Response.{has_prefix}
use grok_go.Accounts.Select.{contains}
use grok_go.Media.Address.{public_ip}
use grok_go.Media.Outbound.{
  Net, SsrfPolicy, Url, normal, rest_of, fits, host_allowed, all_public, is_empty, is_refused,
  resolve, judge_addresses, validate_parsed, has_suffix, port_of, validate_url, unsafe_url,
  validate_read,
}

-- One of the elements.
abbrev pub Some {ℓ} : {A : Type ℓ} → (A → Type 0) → List A → Type 0
Some P [] = ⊥
Some P (x ∷ xs) = P x ⊎ Some P xs

has_prefix_append : (s t : List ℕ) → has_prefix s t ≡ true → (rest : List ℕ) × (s ≡ t ++ rest)
has_prefix_append s [] h = (s, refl)
has_prefix_append [] (c ∷ t) h = cc
has_prefix_append (d ∷ s) (c ∷ t) h =
    let (rest, e) = has_prefix_append s t (ground arith) in (rest, ground (arith, e))

pub has_suffix_append : (s t : List ℕ) → has_suffix s t ≡ true → (front : List ℕ) × (s ≡ front ++ t)
unfolding has_suffix
has_suffix_append [] t h = ([], codes_eq→eq [] t h)
has_suffix_append (c ∷ s) t h = elim (Bool-cases (codes_eq (c ∷ s) t)) [
  | inl e ↦ ([], codes_eq→eq (c ∷ s) t e)
  | inr e ↦ let (front, f) = has_suffix_append s t (ground arith) in (c ∷ front, ap (λ u. c ∷ u) f)
]

pub has_suffix-append : (front t : List ℕ) → has_suffix (front ++ t) t ≡ true
unfolding has_suffix
has_suffix-append [] [] = refl
has_suffix-append [] (c ∷ t) = ground (arith, codes_eq_self (c ∷ t))
has_suffix-append (d ∷ front) t = ground (arith, has_suffix-append front t)

-- An allowed name is met by the host itself, or, as `*.` and a domain, by what lies below it.
abbrev pub Fits : List ℕ → List ℕ → Type 0
Fits host candidate =
    (host ≡ candidate)
    ⊎ (domain below : List ℕ) × (candidate ≡ codes "*." ++ domain)
      × (host ≡ below ++ (codes "." ++ domain))

fits-Fits : (host candidate : List ℕ) → fits host candidate ≡ true → Fits host candidate
unfolding fits
fits-Fits host candidate h = elim (Bool-cases (codes_eq candidate host)) [
  | inl e ↦ inl (sym (codes_eq→eq candidate host e))
  | inr e ↦
      let (domain, starts) = has_prefix_append candidate (codes "*.") (ground arith) in
      let ends : has_suffix host (rest_of candidate) ≡ true = ground arith in
      let (below, f) = has_suffix_append host _ ends in
      inr (domain, below, starts, f ∙ ap (λ u. below ++ rest_of u) starts)
]

module _ (lower : ℕ → ℕ) where
  host_allowed-Some :
      (host : List ℕ) (allowed : List String)
      → host_allowed lower host allowed ≡ true
      → Some (λ name. Fits host (normal lower (trim_space name))) allowed
  unfolding host_allowed
  host_allowed-Some host [] h = cc
  host_allowed-Some host (name ∷ allowed) h =
      elim (Bool-cases (fits host (normal lower (trim_space name)))) [
        | inl e ↦ inl (fits-Fits host _ e)
        | inr e ↦ inr (host_allowed-Some host allowed (ground arith))
      ]

contains-Some :
    (xs : List String) (text : String) → contains xs text ≡ true → Some (λ x. x ≡ text) xs
unfolding contains
contains-Some [] text h = cc
contains-Some (x ∷ xs) text h = elim (Bool-cases (x == text)) [
  | inl e ↦ inl ((eq_iff x text).0 e)
  | inr e ↦ inr (contains-Some xs text (ground arith))
]

pub all_public-All :
    (addresses : List (List ℕ))
    → all_public addresses ≡ true
    → All (λ a. public_ip a ≡ true) addresses
all_public-All [] h = tt
all_public-All (a ∷ others) h = (ground arith, all_public-All others (ground arith))

module _ {W : Type 0} (net : Net W) (policy : SsrfPolicy W) where
  -- The host, lowered and without a dot at its end, is the name of another machine, which the
  -- policy allows; the port and the scheme are allowed; there is no user; and the host resolves to
  -- addresses, all of which are public.
  pub record IsSafe (url : Url) (w : W) : Type 0 where
    pub no_user : url.user ≡ false
    pub has_host : url.hostname ≢ ""
    pub secure : (url.scheme ≡ "https") ⊎ ((policy.allow_http ≡ true) × (url.scheme ≡ "http"))
    pub not_localhost : normal net.lower url.hostname ≢ codes "localhost"
    pub not_local :
        (front : List ℕ)
        → (normal net.lower url.hostname ≢ front ++ codes ".localhost")
          × (normal net.lower url.hostname ≢ front ++ codes ".local")
    pub allowed_host :
        (policy.allowed_hosts ≡ [])
        ⊎ Some
            (λ name. Fits (normal net.lower url.hostname) (normal net.lower (trim_space name)))
            policy.allowed_hosts
    pub allowed_port :
        (policy.allowed_ports ≡ []) ⊎ Some (λ p. p ≡ port_of url) policy.allowed_ports
    pub addresses : List (List ℕ)
    pub resolved : (resolve net policy (normal net.lower url.hostname) w).0 ≡ ok addresses
    pub found : addresses ≢ []
    pub public : All (λ a. public_ip a ≡ true) addresses

  eq_false : (s t : String) → (s == t) ≡ false → s ≢ t
  eq_false s t h e = ground (arith, eq_iff s t, h, e)

  not_suffix :
      (host : List ℕ) (end : List ℕ) (front : List ℕ)
      → has_suffix host end ≡ false
      → host ≢ front ++ end
  not_suffix host end front h e =
      let holds : has_suffix host end ≡ true = rw e (has_suffix-append front end) in cc

  empty_or {ℓ} :
      {A : Type ℓ} (xs : List A) (b : Bool)
      → (not (is_empty xs) && not b) ≡ false
      → (xs ≡ []) ⊎ (b ≡ true)
  empty_or [] b h = inl refl
  empty_or (x ∷ xs) true h = inr refl
  empty_or (x ∷ xs) false h = cc

  judged :
      (url found' : Url) (r : Result (List (List ℕ)))
      → judge_addresses net policy url r ≡ ok found'
      → (as' : List (List ℕ)) × (r ≡ ok as')
        × (as' ≢ [])
        × All (λ a. public_ip a ≡ true) as'
        × (found' ≡ url)
  unfolding judge_addresses
  judged url found' (err e) h = cc
  judged url found' (ok []) h = cc
  judged url found' (ok (a ∷ others)) h = elim (Bool-cases (all_public (a ∷ others))) [
    | inl p ↦
        let accepted : judge_addresses net policy url (ok (a ∷ others)) ≡ ok url = rw p refl in
        (a ∷ others, refl, (λ e. cc), all_public-All (a ∷ others) p, ok_inj _ _ (sym h ∙ accepted))
    | inr p ↦
        let refused : judge_addresses net policy url (ok (a ∷ others)) ≡ err unsafe_url =
          rw p refl in
        cc
  ]

  is_secure :
      (url : Url)
      → (not (url.scheme == "https") && not (policy.allow_http && url.scheme == "http")) ≡ false
      → (url.scheme ≡ "https") ⊎ ((policy.allow_http ≡ true) × (url.scheme ≡ "http"))
  is_secure url h = elim (Bool-cases (url.scheme == "https")) [
    | inl e ↦ inl ((eq_iff _ _).0 e)
    | inr e ↦ inr (ground arith, (eq_iff _ _).0 (ground arith))
  ]

  no_match : (s t : List ℕ) → codes_eq s t ≡ false → s ≢ t
  no_match s t h e = let holds : codes_eq s t ≡ true = rw e (codes_eq_self t) in cc

  not_refused-IsSafe :
      (url : Url) (w : W) (as' : List (List ℕ))
      → is_refused net policy url ≡ false
      → (resolve net policy (normal net.lower url.hostname) w).0 ≡ ok as'
      → as' ≢ []
      → All (λ a. public_ip a ≡ true) as'
      → IsSafe url w
  unfolding is_refused
  not_refused-IsSafe url w as' h r n p = record {
    no_user = ground arith;
    has_host = eq_false _ _ (ground arith);
    secure = is_secure url (ground arith);
    not_localhost = no_match _ _ (ground arith);
    not_local = λ front. (not_suffix _ _ front (ground arith), not_suffix _ _ front (ground arith));
    allowed_host = elim (empty_or policy.allowed_hosts _ (ground arith)) [
      | inl e ↦ inl e
      | inr e ↦ inr (host_allowed-Some net.lower _ policy.allowed_hosts e)
    ];
    allowed_port = elim (empty_or policy.allowed_ports _ (ground arith)) [
      | inl e ↦ inl e
      | inr e ↦ inr (contains-Some policy.allowed_ports _ e)
    ];
    addresses = as';
    resolved = r;
    found = n;
    public = p;
  }

  validate_parsed-IsSafe :
      (url found' : Url) (w : W)
      → (validate_parsed net policy url w).0 ≡ ok found'
      → (found' ≡ url) × IsSafe url w
  unfolding validate_parsed
  validate_parsed-IsSafe url found' w h = elim (Bool-cases (is_refused net policy url)) [
    | inl e ↦ let refused : (validate_parsed net policy url w).0 ≡ err unsafe_url = rw e refl in cc
    | inr e ↦
        let r = resolve net policy (normal net.lower url.hostname) w in
        let kept : (validate_parsed net policy url w).0 ≡ judge_addresses net policy url r.0 =
          rw e refl in
        let (as', resolved, found, all, same) = judged url found' r.0 (sym kept ∙ h) in
        (same, not_refused-IsSafe url w as' e resolved found all)
  ]

  parsed-IsSafe :
      (p : Result Url) (w : W) (url : Url)
      → (validate_read net policy p w).0 ≡ ok url
      → (p ≡ ok url) × IsSafe url w
  unfolding validate_read
  parsed-IsSafe (err e) w url h = cc
  parsed-IsSafe (ok u) w url h =
      let (same, safe) = validate_parsed-IsSafe u url w h in
      (ap ok (sym same), subst (λ v. IsSafe v w) (sym same) safe)

  pub validate_url-IsSafe :
      (raw : String) (w : W) (url : Url)
      → (validate_url net policy raw w).0 ≡ ok url
      → (net.parse_url raw ≡ ok url) × IsSafe url w
  unfolding validate_url
  validate_url-IsSafe raw w url h = parsed-IsSafe (net.parse_url raw) w url h
