-- ===== src/Media/Outbound/Dialled.antt =====
-- What the transport of NewSafeTransport connects to.
use grok_go.Base.{ℕ, String, ◌≡◌, refl, true, List, [], ◌∷◌, Bool-cases, inl, inr, arith}
use grok_go.Base.Result.{Result, err, ok}
use grok_go.Domain.{Duration}
use grok_go.Media.Address.{public_ip}
use grok_go.Media.Outbound.{
  Net, SsrfPolicy, Dialer, dial_context, dial_first, dial_split, all_public,
}

module _ {W Conn : Type 0} (net : Net W) (policy : SsrfPolicy W) (d d' : Dialer W Conn)
    (agree : (t : Duration) (network : String) (a : List ℕ) (port : String) (w : W)
      → public_ip a ≡ true
      → d t network a port w ≡ d' t network a port w) where
  dial_first_agrees :
      (network port : String) (r : Result (List (List ℕ))) (w : W)
      → dial_first net policy d network port r w ≡ dial_first net policy d' network port r w
  unfolding dial_first
  dial_first_agrees network port (err e) w = refl
  dial_first_agrees network port (ok []) w = refl
  dial_first_agrees network port (ok (a ∷ others)) w = elim (Bool-cases (all_public (a ∷ others))) [
    | inl h ↦ rw h (agree _ network a port w (ground arith))
    | inr h ↦ rw h refl
  ]

  dial_split_agrees :
      (network : String) (r : Result (String × String)) (w : W)
      → dial_split net policy d network r w ≡ dial_split net policy d' network r w
  unfolding dial_split
  dial_split_agrees network (err e) w = refl
  dial_split_agrees network (ok (host, port)) w = dial_first_agrees network port _ _

  -- Two dialers that do the same at each public address make the same of each connection: whatever
  -- the resolver answers, then and at the check of the URL, no other address is ever dialled.
  pub dial_context_public :
      (network address : String) (w : W)
      → dial_context net policy d network address w ≡ dial_context net policy d' network address w
  unfolding dial_context
  dial_context_public network address w = dial_split_agrees network (net.split_host_port address) w
