-- ===== src/Tests/Fetching.antt =====
-- The theorems on fetches of media, with a resolver that answers a public address first and a
-- private one from then on.
use grok_go.Base.{ℕ, ◌+◌, ◌≡◌, ◌↔◌, refl, false, none, List, [], ◌∷◌, eqb, if◌then◌else◌, arith}
use grok_go.Base.Int.{pos}
use grok_go.Base.Result.{ok, err}
use grok_go.Base.Text.{lower_code}
use grok_go.Media.Address.{public_ip}
use grok_go.Media.Address.Ranges.{IsRefused, dotted, mapped, public_ip_iff}
use grok_go.Media.Outbound.{Net, SsrfPolicy, Url, Dialer, validate_url, dial_context, unsafe_url}
use grok_go.Media.Outbound.Safety.{IsSafe}
use grok_go.Media.Outbound.Complete.{validate_url_iff}
use grok_go.Media.Outbound.Dialled.{dial_context_public}

abbrev page : Url
page = record { user = false; hostname = "Cdn.test."; port = ""; scheme = "https" }

abbrev rebinding : Net ℕ
rebinding = record {
  parse_url = λ raw. ok page;
  lower = lower_code;
  parse_ip = λ host. none;
  default_resolver =
      λ host w. (ok ((if eqb w 0 then 8 ∷ 8 ∷ 8 ∷ 8 ∷ [] else 127 ∷ 0 ∷ 0 ∷ 1 ∷ []) ∷ []), w + 1);
  split_host_port = λ address. ok ("cdn.test", "443");
}

abbrev cdn_only : SsrfPolicy ℕ
cdn_only = record {
  allowed_hosts = "example.test" ∷ " *.TEST" ∷ [];
  allowed_ports = "443" ∷ [];
  allow_http = false;
  resolver = none;
  dial_timeout = pos 0;
}

passes : (validate_url rebinding cdn_only "https://Cdn.test./" 0).0 ≡ ok page
unfolding validate_url public_ip lower_code
passes = refl

rebound : (validate_url rebinding cdn_only "https://Cdn.test./" 1).0 ≡ err unsafe_url
unfolding validate_url public_ip lower_code
rebound = refl

validate_url_iff_example :
    ((validate_url rebinding cdn_only "https://Cdn.test./" 0).0 ≡ ok page)
    ↔ ((ok page ≡ ok page) × IsSafe rebinding cdn_only page 0)
validate_url_iff_example = validate_url_iff rebinding cdn_only page 0 "https://Cdn.test./"

page-IsSafe : IsSafe rebinding cdn_only page 0
page-IsSafe = ((validate_url_iff rebinding cdn_only page 0 "https://Cdn.test./").0 passes).1

-- One dialer connects to any address, the other to public addresses only.
abbrev to_any : Dialer ℕ (List ℕ)
to_any = λ t network a port w. (ok a, w)

abbrev to_public : Dialer ℕ (List ℕ)
to_public = λ t network a port w. if public_ip a then (ok a, w) else (err unsafe_url, w)

dial_context_public_example :
    dial_context rebinding cdn_only to_any "tcp" "cdn.test:443" 1
    ≡ dial_context rebinding cdn_only to_public "tcp" "cdn.test:443" 1
dial_context_public_example =
    dial_context_public rebinding cdn_only to_any to_public
      (λ t network a port w h. ground (arith, h)) "tcp" "cdn.test:443" 1

public_ip_iff_example :
    ((public_ip (169 ∷ 254 ∷ 169 ∷ 254 ∷ []) ≡ false) ↔ IsRefused (dotted 169 254 169 254))
    × ((public_ip (mapped 169 254 169 254) ≡ false) ↔ IsRefused (dotted 169 254 169 254))
public_ip_iff_example =
    public_ip_iff 169 254 169 254 (omega arith) (omega arith) (omega arith) (omega arith)
