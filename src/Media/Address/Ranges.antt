-- ===== src/Media/Address/Ranges.antt =====
-- The IPv4 addresses that publicIP refuses, as ranges of numbers. Other ranges of special use, such
-- as 198.18.0.0/15 and 240.0.0.0/4 but for its last address, are let through.
use grok_go.Base.{
  ◌<◌, none, subst, sym, List, [], ◌∷◌, some, ℕ, ◌+◌, ◌*◌, ◌≤◌, ◌≡◌, ◌⊎◌, ◌↔◌, false, arith,
}
use grok_go.Media.Address.{
  address_of, public_ip, v4, public_address, is_private, is_shared, is_loopback,
  is_link_local_unicast, is_link_local_multicast, is_multicast, is_unspecified, is_global_unicast,
}

-- The number of a dotted address.
abbrev pub dotted : ℕ → ℕ → ℕ → ℕ → ℕ
dotted a b c d = ((a * 256 + b) * 256 + c) * 256 + d

-- The ranges that are refused, first and last address included.
abbrev pub IsRefused : ℕ → Type 0
IsRefused n =
    (n ≡ dotted 0 0 0 0)
    ⊎ ((dotted 10 0 0 0 ≤ n) × (n ≤ dotted 10 255 255 255))
    ⊎ ((dotted 100 64 0 0 ≤ n) × (n ≤ dotted 100 127 255 255))
    ⊎ ((dotted 127 0 0 0 ≤ n) × (n ≤ dotted 127 255 255 255))
    ⊎ ((dotted 169 254 0 0 ≤ n) × (n ≤ dotted 169 254 255 255))
    ⊎ ((dotted 172 16 0 0 ≤ n) × (n ≤ dotted 172 31 255 255))
    ⊎ ((dotted 192 168 0 0 ≤ n) × (n ≤ dotted 192 168 255 255))
    ⊎ ((dotted 224 0 0 0 ≤ n) × (n ≤ dotted 239 255 255 255))
    ⊎ (n ≡ dotted 255 255 255 255)

public_address-IsRefused : (n : ℕ) → (public_address (v4 n) ≡ false) ↔ IsRefused n
unfolding public_address is_private is_shared is_loopback is_link_local_unicast
    is_link_local_multicast is_multicast is_unspecified is_global_unicast
public_address-IsRefused n = ground arith

address_of_four :
    (a b c d : ℕ)
    → a < 256
    → b < 256
    → c < 256
    → d < 256
    → address_of (a ∷ b ∷ c ∷ d ∷ []) ≡ some (v4 (dotted a b c d))
unfolding address_of
address_of_four a b c d ha hb hc hd = ground arith

-- The sixteen bytes of an IPv4 address in IPv6.
abbrev pub mapped : ℕ → ℕ → ℕ → ℕ → List ℕ
mapped a b c d = 0 ∷ 0 ∷ 0 ∷ 0 ∷ 0 ∷ 0 ∷ 0 ∷ 0 ∷ 0 ∷ 0 ∷ 255 ∷ 255 ∷ a ∷ b ∷ c ∷ d ∷ []

address_of-mapped :
    (a b c d : ℕ)
    → a < 256
    → b < 256
    → c < 256
    → d < 256
    → address_of (mapped a b c d) ≡ some (v4 (dotted a b c d))
unfolding address_of
address_of-mapped a b c d ha hb hc hd = ground arith

public_ip-IsRefused :
    (bytes : List ℕ) (n : ℕ)
    → address_of bytes ≡ some (v4 n)
    → (public_ip bytes ≡ false) ↔ IsRefused n
unfolding public_ip
public_ip-IsRefused bytes n e =
    subst (λ o. (elim o [ none ↦ false | some a ↦ public_address a ] ≡ false) ↔ IsRefused n) (sym e)
      (public_address-IsRefused n)

-- An IPv4 address, as its four bytes or mapped into IPv6, is refused exactly if it is 0.0.0.0 or
-- 255.255.255.255 or lies in 10.0.0.0/8, 100.64.0.0/10, 127.0.0.0/8, 169.254.0.0/16, 172.16.0.0/12,
-- 192.168.0.0/16 or 224.0.0.0/4; every other is let through.
pub public_ip_iff :
    (a b c d : ℕ)
    → a < 256
    → b < 256
    → c < 256
    → d < 256
    → ((public_ip (a ∷ b ∷ c ∷ d ∷ []) ≡ false) ↔ IsRefused (dotted a b c d))
      × ((public_ip (mapped a b c d) ≡ false) ↔ IsRefused (dotted a b c d))
public_ip_iff a b c d ha hb hc hd = (
  public_ip-IsRefused _ (dotted a b c d) (address_of_four a b c d ha hb hc hd),
  public_ip-IsRefused _ (dotted a b c d) (address_of-mapped a b c d ha hb hc hd),
)
