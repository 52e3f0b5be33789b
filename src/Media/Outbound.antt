-- ===== src/Media/Outbound.antt =====
-- internal/media/ssrf.go: the checks of a URL before media is fetched from it, and of each address
-- that the client of such fetches connects to. A host is given by its code points. net/url's
-- parser, net.ParseIP, net.SplitHostPort, the resolver and the dialer are parameters, and so is
-- unicode.ToLower, since the hosts that an administrator allows need not be ASCII.
pub mod Safety
pub mod Complete
pub mod Dialled
use grok_go.Base.{
  ℕ, String, Bool, true, false, Option, none, some, List, [], ◌∷◌, map, ◌==◌, ◌&&◌, ◌||◌, not, leb,
  if◌then◌else◌,
}
use grok_go.Base.Int.{ℤ, pos, leb_ℤ}
use grok_go.Base.Result.{Error, Result, err, external, ok, wrap}
use grok_go.Base.Text.{codes, codes_eq, trim_space}
use grok_go.Domain.{Duration}
use grok_go.Gateway.Response.{has_prefix}
use grok_go.Accounts.Select.{contains}
use grok_go.Media.Address.{public_ip}

abbrev pub unsafe_url : Error
unsafe_url = external "unsafe outbound media URL"

-- Resolver; an address is the bytes of its net.IP.
abbrev pub Resolver : Type 0 → Type 0
Resolver W = List ℕ → W → Result (List (List ℕ)) × W

pub record SsrfPolicy (W : Type 0) : Type 0 where
  pub allowed_hosts : List String
  pub allowed_ports : List String
  pub allow_http : Bool
  pub resolver : Option (Resolver W)
  pub dial_timeout : Duration

-- What the code reads of a url.URL; `user` says that its User is not nil.
pub record Url : Type 0 where
  pub user : Bool
  pub hostname : String
  pub port : String
  pub scheme : String

-- The parameters.
pub record Net (W : Type 0) : Type 0 where
  pub parse_url : String → Result Url
  pub lower : ℕ → ℕ
  pub parse_ip : List ℕ → Option (List ℕ)
  pub default_resolver : Resolver W
  pub split_host_port : String → Result (String × String)

-- strings.TrimSuffix(s, ".")
unfoldable pub trim_dot : List ℕ → List ℕ
trim_dot [] = []
trim_dot (c ∷ s) = let rest = trim_dot s in if codes_eq (c ∷ s) (codes ".") then [] else c ∷ rest

-- strings.HasSuffix
unfoldable pub has_suffix : List ℕ → List ℕ → Bool
has_suffix [] end = codes_eq [] end
has_suffix (c ∷ s) end = codes_eq (c ∷ s) end || has_suffix s end

abbrev pub rest_of : List ℕ → List ℕ
rest_of [] = []
rest_of (c ∷ s) = s

-- The test of hostAllowed on one name.
unfoldable pub fits : List ℕ → List ℕ → Bool
unfolding has_suffix
fits host candidate =
    codes_eq candidate host
    || (has_prefix candidate (codes "*.")
        && has_suffix host (rest_of candidate)
        && not (codes_eq host (rest_of (rest_of candidate))))

module _ (lower : ℕ → ℕ) where
  -- The lowered host without the dot of the root.
  abbrev pub normal : String → List ℕ
  normal name = trim_dot (map lower (codes name))

  -- hostAllowed
  unfoldable pub host_allowed : List ℕ → List String → Bool
  unfolding fits trim_dot trim_space
  host_allowed host [] = false
  host_allowed host (candidate ∷ allowed) =
      fits host (normal (trim_space candidate)) || host_allowed host allowed

abbrev pub is_empty {ℓ} : {A : Type ℓ} → List A → Bool
is_empty [] = true
is_empty (x ∷ xs) = false

abbrev pub all_public : List (List ℕ) → Bool
all_public [] = true
all_public (address ∷ addresses) = public_ip address && all_public addresses

-- The port that the code compares, with the default of the scheme for an empty one.
abbrev pub port_of : Url → String
port_of url = if url.port == "" then (if url.scheme == "https" then "443" else "80") else url.port

module _ {W : Type 0} (net : Net W) (policy : SsrfPolicy W) where
  abbrev resolver_of : Resolver W
  resolver_of = elim policy.resolver [ none ↦ net.default_resolver | some resolver ↦ resolver ]

  -- resolve
  unfoldable pub resolve : List ℕ → W → Result (List (List ℕ)) × W
  resolve host w = elim (net.parse_ip host) [
    | some address ↦ (ok (address ∷ []), w)
    | none ↦ resolver_of host w
  ]

  -- The loop over the addresses and what follows it in ValidateURL.
  unfoldable pub judge_addresses : Url → Result (List (List ℕ)) → Result Url
  judge_addresses url (err e) = err (wrap "unsafe outbound media URL" e)
  judge_addresses url (ok addresses) =
      if is_empty addresses
      then err (wrap "unsafe outbound media URL" (external "host did not resolve"))
      else if all_public addresses
      then ok url
      else err unsafe_url

  abbrev is_local : List ℕ → Bool
  is_local host =
      codes_eq host (codes "localhost")
      || has_suffix host (codes ".localhost")
      || has_suffix host (codes ".local")

  -- The tests of ValidateURL before the host is resolved; `true` refuses the URL.
  unfoldable pub is_refused : Url → Bool
  unfolding has_suffix host_allowed trim_dot contains
  is_refused url =
      let host = normal net.lower url.hostname in
      (url.user
        || url.hostname == ""
        || (not (url.scheme == "https") && not (policy.allow_http && url.scheme == "http")))
      || is_local host
      || (not (is_empty policy.allowed_hosts)
          && not (host_allowed net.lower host policy.allowed_hosts))
      || (not (is_empty policy.allowed_ports) && not (contains policy.allowed_ports (port_of url)))

  unfoldable pub validate_parsed : Url → W → Result Url × W
  unfolding is_refused resolve judge_addresses
  validate_parsed url w =
      if is_refused url
      then (err unsafe_url, w)
      else (let r = resolve (normal net.lower url.hostname) w in (judge_addresses url r.0, r.1))

  unfoldable pub validate_read : Result Url → W → Result Url × W
  unfolding validate_parsed
  validate_read (err e) w = (err (wrap "unsafe outbound media URL" e), w)
  validate_read (ok url) w = validate_parsed url w

  -- ValidateURL
  unfoldable pub validate_url : String → W → Result Url × W
  unfolding validate_read
  validate_url raw w = validate_read (net.parse_url raw) w

  -- CheckRedirect of NewSafeClient, on the number of requests made and the text of the next URL.
  unfoldable pub check_redirect : String → ℕ → W → Option Error × W
  unfolding validate_url
  check_redirect raw via w =
      if leb 5 via
      then (some (external "too many media redirects"), w)
      else (let r = validate_url raw w in (elim r.0 [ err e ↦ some e | ok url ↦ none ], r.1))

-- net.Dialer.DialContext, on the dialer's timeout, the network, and the address and the port that
-- net.JoinHostPort puts into one text.
abbrev pub Dialer : Type 0 → Type 0 → Type 0
Dialer W Conn = Duration → String → List ℕ → String → W → Result Conn × W

module _ {W Conn : Type 0} (net : Net W) (policy : SsrfPolicy W) (dialer : Dialer W Conn) where
  abbrev connect_timeout : Duration
  connect_timeout =
      if leb_ℤ policy.dial_timeout (pos 0) then pos 15_000_000_000 else policy.dial_timeout

  unfoldable pub dial_first : String → String → Result (List (List ℕ)) → W → Result Conn × W
  dial_first network port (err e) w = (err e, w)
  dial_first network port (ok []) w = (err unsafe_url, w)
  dial_first network port (ok (first ∷ others)) w =
      if all_public (first ∷ others)
      then dialer connect_timeout network first port w
      else (err unsafe_url, w)

  unfoldable pub dial_split : String → Result (String × String) → W → Result Conn × W
  unfolding resolve dial_first
  dial_split network (err e) w = (err e, w)
  dial_split network (ok (host, port)) w =
      let r = resolve net policy (codes host) w in dial_first network port r.0 r.1

  -- DialContext of NewSafeTransport.
  unfoldable pub dial_context : String → String → W → Result Conn × W
  unfolding dial_split
  dial_context network address w = dial_split network (net.split_host_port address) w
