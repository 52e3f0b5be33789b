-- ===== src/Media/Address.antt =====
-- internal/media/ssrf.go: publicIP, over the predicates of net/netip. An IPv4 address is its
-- number, an IPv6 address the numbers of its two halves.
pub mod Ranges
use grok_go.Base.{
  ℕ, ◌+◌, ◌*◌, ◌/◌, ◌%◌, ◌^◌, Bool, true, false, Option, none, some, List, [], ◌∷◌, ◌&&◌, ◌||◌, not,
  eqb, leb, if◌then◌else◌,
}

pub data Address : Type 0 where
  v4 : ℕ → Address
  v6 : ℕ → ℕ → Address

abbrev pub number : List ℕ → ℕ → ℕ
number [] n = n
number (byte ∷ bytes) n = number bytes (n * 256 + byte % 256)

-- netip.AddrFromSlice and Unmap: four bytes, or sixteen, of which the last four are an IPv4 address
-- after ten bytes of zero and two of 255.
unfoldable pub address_of : List ℕ → Option Address
address_of (a ∷ b ∷ c ∷ d ∷ []) = some (v4 (number (a ∷ b ∷ c ∷ d ∷ []) 0))
address_of (a ∷ b ∷ c ∷ d ∷ e ∷ f ∷ g ∷ h ∷ i ∷ j ∷ k ∷ l ∷ m ∷ n ∷ o ∷ p ∷ []) =
    let high = number (a ∷ b ∷ c ∷ d ∷ e ∷ f ∷ g ∷ h ∷ []) 0 in
    let low = number (i ∷ j ∷ k ∷ l ∷ m ∷ n ∷ o ∷ p ∷ []) 0 in
    some (if eqb high 0 && eqb (low / 2 ^ 32) 0xffff then v4 (low % 2 ^ 32) else v6 high low)
address_of _ = none

unfoldable pub is_unspecified : Address → Bool
is_unspecified (v4 n) = eqb n 0
is_unspecified (v6 high low) = eqb high 0 && eqb low 0

unfoldable pub is_loopback : Address → Bool
is_loopback (v4 n) = eqb (n / 2 ^ 24) 127
is_loopback (v6 high low) = eqb high 0 && eqb low 1

unfoldable pub is_multicast : Address → Bool
is_multicast (v4 n) = eqb (n / 2 ^ 28) 14
is_multicast (v6 high low) = eqb (high / 2 ^ 56) 255

unfoldable pub is_link_local_unicast : Address → Bool
is_link_local_unicast (v4 n) = eqb (n / 2 ^ 16) 43_518
is_link_local_unicast (v6 high low) = eqb (high / 2 ^ 54) 1_018

unfoldable pub is_link_local_multicast : Address → Bool
is_link_local_multicast (v4 n) = eqb (n / 2 ^ 8) 14_680_064
is_link_local_multicast (v6 high low) = eqb (high / 2 ^ 56) 255 && eqb (high / 2 ^ 48 % 16) 2

unfoldable pub is_private : Address → Bool
is_private (v4 n) = eqb (n / 2 ^ 24) 10 || eqb (n / 2 ^ 20) 2_753 || eqb (n / 2 ^ 16) 49_320
is_private (v6 high low) = eqb (high / 2 ^ 57) 126

abbrev is_broadcast : Address → Bool
is_broadcast (v4 n) = eqb n 0xffffffff
is_broadcast (v6 high low) = false

unfoldable pub is_global_unicast : Address → Bool
unfolding is_unspecified is_loopback is_multicast is_link_local_unicast
is_global_unicast a =
    not (is_broadcast a)
    && not (is_unspecified a)
    && not (is_loopback a)
    && not (is_multicast a)
    && not (is_link_local_unicast a)

-- 100.64.0.0/10
unfoldable pub is_shared : Address → Bool
is_shared (v4 n) = eqb (n / 2 ^ 22) 401
is_shared (v6 high low) = false

unfoldable pub public_address : Address → Bool
unfolding is_global_unicast is_private is_loopback is_link_local_unicast is_link_local_multicast
    is_multicast is_unspecified is_shared
public_address a =
    if not (is_global_unicast a)
      || is_private a
      || is_loopback a
      || is_link_local_unicast a
      || is_link_local_multicast a
      || is_multicast a
      || is_unspecified a
    then false
    else not (is_shared a)

-- publicIP
unfoldable pub public_ip : List ℕ → Bool
unfolding address_of public_address
public_ip bytes = elim (address_of bytes) [ none ↦ false | some a ↦ public_address a ]
