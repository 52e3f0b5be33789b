-- ===== src/Media/Outbound/Complete.antt =====
-- ValidateURL lets exactly the safe URLs through.
use grok_go.Base.{
  ℕ, String, ◌≡◌, ◌≢◌, ◌⊎◌, inl, inr, refl, ap, true, false, List, [], ◌∷◌, ◌++◌, Bool-cases, arith,
  ◌↔◌, ◌&&◌, not, ◌==◌, All, eq_iff, length, length-append, Bool,
}
use grok_go.Base.Result.{ok}
use grok_go.Base.Text.{codes, codes_eq, trim_space}
use grok_go.Base.Text.Match.{codes_eq→eq, codes_eq_self}
use grok_go.Accounts.Select.{contains}
use grok_go.Media.Address.{public_ip}
use grok_go.Media.Outbound.{
  Net, SsrfPolicy, Url, normal, fits, host_allowed, all_public, is_empty, is_refused,
  judge_addresses, validate_parsed, has_suffix, port_of, validate_url, validate_read,
}
use grok_go.Media.Outbound.Safety.{
  validate_url-IsSafe, Some, Fits, IsSafe, has_suffix_append, has_suffix-append,
}

codes_neq : (s t : List ℕ) → s ≢ t → codes_eq s t ≡ false
codes_neq s t h = elim (Bool-cases (codes_eq s t)) [
  | inl e ↦ absurd (h (codes_eq→eq s t e))
  | inr e ↦ e
]

no_suffix : (s t : List ℕ) → ((front : List ℕ) → s ≢ front ++ t) → has_suffix s t ≡ false
no_suffix s t h = elim (Bool-cases (has_suffix s t)) [
  | inl e ↦ let (front, f) = has_suffix_append s t e in absurd (h front f)
  | inr e ↦ e
]

longer : (below domain : List ℕ) → below ++ (codes "." ++ domain) ≢ domain
longer below domain e = omega (arith, ap length e, length-append below (codes "." ++ domain))

Fits-fits : (host candidate : List ℕ) → Fits host candidate → fits host candidate ≡ true
unfolding fits
Fits-fits host candidate (inl e) = rw e (ground (arith, codes_eq_self candidate))
Fits-fits host candidate (inr (domain, below, starts, f)) =
    rw (starts, f)
      (ground (
        arith,
        has_suffix-append below (codes "." ++ domain),
        codes_neq (below ++ (codes "." ++ domain)) domain (longer below domain),
      ))

Some-host_allowed :
    (lower : ℕ → ℕ) (host : List ℕ) (allowed : List String)
    → Some (λ name. Fits host (normal lower (trim_space name))) allowed
    → host_allowed lower host allowed ≡ true
unfolding host_allowed
Some-host_allowed lower host [] e = elim e [ ]
Some-host_allowed lower host (name ∷ allowed) (inl e) =
    ground (arith, Fits-fits host (normal lower (trim_space name)) e)
Some-host_allowed lower host (name ∷ allowed) (inr e) =
    ground (arith, Some-host_allowed lower host allowed e)

Some-contains :
    (xs : List String) (text : String) → Some (λ x. x ≡ text) xs → contains xs text ≡ true
unfolding contains
Some-contains [] text e = elim e [ ]
Some-contains (x ∷ xs) text (inl e) = ground (arith, (eq_iff x text).1 e)
Some-contains (x ∷ xs) text (inr e) = ground (arith, Some-contains xs text e)

All-all_public :
    (addresses : List (List ℕ))
    → All (λ a. public_ip a ≡ true) addresses
    → all_public addresses ≡ true
All-all_public [] h = refl
All-all_public (a ∷ others) h = ground (arith, h.0, All-all_public others h.1)

neq_false : (s t : String) → s ≢ t → (s == t) ≡ false
neq_false s t h = elim (Bool-cases (s == t)) [ inl e ↦ absurd (h ((eq_iff s t).0 e)) | inr e ↦ e ]

none_or {ℓ} :
    {A : Type ℓ} (xs : List A) (b : Bool)
    → (xs ≡ []) ⊎ (b ≡ true)
    → (not (is_empty xs) && not b) ≡ false
none_or xs b (inl e) = rw e refl
none_or xs b (inr e) = rw e (ground arith)

module _ {W : Type 0} (net : Net W) (policy : SsrfPolicy W) (url : Url) (w : W) where
  secure_scheme :
      (url.scheme ≡ "https") ⊎ ((policy.allow_http ≡ true) × (url.scheme ≡ "http"))
      → (not (url.scheme == "https") && not (policy.allow_http && url.scheme == "http")) ≡ false
  secure_scheme (inl e) = ground (arith, (eq_iff _ _).1 e)
  secure_scheme (inr (allowed, e)) = ground (arith, (eq_iff _ _).1 e, allowed)

  IsSafe-not_refused : IsSafe net policy url w → is_refused net policy url ≡ false
  unfolding is_refused
  IsSafe-not_refused safe =
      let host = normal net.lower url.hostname in
      let hosts =
        none_or policy.allowed_hosts (host_allowed net.lower host policy.allowed_hosts)
          (elim safe.allowed_host [
            | inl e ↦ inl e
            | inr e ↦ inr (Some-host_allowed net.lower host policy.allowed_hosts e)
          ]) in
      let ports =
        none_or policy.allowed_ports (contains policy.allowed_ports (port_of url))
          (elim safe.allowed_port [
            | inl e ↦ inl e
            | inr e ↦ inr (Some-contains policy.allowed_ports (port_of url) e)
          ]) in
      rw
        (
          safe.no_user,
          neq_false url.hostname "" safe.has_host,
          secure_scheme safe.secure,
          codes_neq host (codes "localhost") safe.not_localhost,
          no_suffix host (codes ".localhost") (λ front. (safe.not_local front).0),
          no_suffix host (codes ".local") (λ front. (safe.not_local front).1),
          hosts,
          ports,
        )
        refl

  judge_public :
      (as' : List (List ℕ))
      → as' ≢ []
      → all_public as' ≡ true
      → judge_addresses net policy url (ok as') ≡ ok url
  unfolding judge_addresses
  judge_public [] n p = absurd (n refl)
  judge_public (a ∷ others) n p = rw p refl

  IsSafe-validate_parsed : IsSafe net policy url w → (validate_parsed net policy url w).0 ≡ ok url
  unfolding validate_parsed
  IsSafe-validate_parsed safe =
      rw (IsSafe-not_refused safe, safe.resolved)
        (judge_public safe.addresses safe.found (All-all_public _ safe.public))

  -- ValidateURL returns a URL exactly if the text is read as that URL and the URL is safe.
  pub validate_url_iff :
      (raw : String)
      → ((validate_url net policy raw w).0 ≡ ok url)
        ↔ ((net.parse_url raw ≡ ok url) × IsSafe net policy url w)
  unfolding validate_url validate_read
  validate_url_iff raw =
      (validate_url-IsSafe net policy raw w url, (λ (e, safe). rw e (IsSafe-validate_parsed safe)))
