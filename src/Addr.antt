-- ===== src/Addr.antt =====
-- net/netip's `Addr`, as far as the program uses it.
use nat_pmp.Common.{
  ℕ, ℕ_discrete, Eq, ◌≡◌, refl, String, Bool, true, false, ◌&&◌, ◌/◌, ◌==◌, nat_eq, string_eq,
  list_eq,
}
use nat_pmp.Common.{List, [], ◌∷◌, ◌++◌, take, drop, replicate, if◌then◌else◌}
use nat_pmp.Common.Bytes.{uint, uint32_bytes}

-- `invalid` is the zero `netip.Addr{}`, an IPv4 address is its 32-bit number, and an IPv6 address
-- is its 16 bytes with a zone.
pub data Addr : Type 0 where
  invalid : Addr
  v4 : ℕ → Addr
  v6 : List ℕ → String → Addr

abbrev pub is_valid : Addr → Bool
is_valid invalid = false
is_valid (v4 n) = true
is_valid (v6 bs zone) = true

abbrev pub is4 : Addr → Bool
is4 (v4 n) = true
is4 invalid = false
is4 (v6 bs zone) = false

abbrev pub zeros : ℕ → List ℕ
zeros n = replicate n 0

-- The first twelve bytes of an IPv4 address that is mapped into IPv6.
abbrev pub mapped_prefix : List ℕ
mapped_prefix = 0 ∷ 0 ∷ 0 ∷ 0 ∷ 0 ∷ 0 ∷ 0 ∷ 0 ∷ 0 ∷ 0 ∷ 255 ∷ 255 ∷ []

abbrev pub is_unspecified : Addr → Bool
is_unspecified invalid = false
is_unspecified (v4 n) = n == 0
is_unspecified (v6 bs zone) = bs == zeros 16 && zone == ""

abbrev pub is4_in6 : Addr → Bool
is4_in6 invalid = false
is4_in6 (v4 n) = false
is4_in6 (v6 bs zone) = take 12 bs == mapped_prefix

abbrev pub unmap : Addr → Addr
unmap invalid = invalid
unmap (v4 n) = v4 n
unmap (v6 bs zone) = if take 12 bs == mapped_prefix then v4 (uint (drop 12 bs)) else v6 bs zone

-- 127.0.0.0/8 and 169.254.0.0/16; the program asks only of IPv4 addresses.
abbrev pub is_loopback : Addr → Bool
is_loopback (v4 n) = n / 16_777_216 == 127
is_loopback (v6 bs zone) = bs == replicate 15 0 ++ (1 ∷ [])
is_loopback invalid = false

abbrev pub is_link_local_unicast : Addr → Bool
is_link_local_unicast (v4 n) = n / 65_536 == 0xa9fe
is_link_local_unicast (v6 bs zone) = uint (take 2 bs) / 64 == 0x3fa
is_link_local_unicast invalid = false

abbrev pub as16 : Addr → List ℕ
as16 invalid = zeros 16
as16 (v4 n) = mapped_prefix ++ uint32_bytes n
as16 (v6 bs zone) = bs

abbrev pub addr_from4 : List ℕ → Addr
addr_from4 bs = v4 (uint bs)

abbrev pub addr_from16 : List ℕ → Addr
addr_from16 bs = v6 bs ""

abbrev pub ipv6_unspecified : Addr
ipv6_unspecified = addr_from16 (zeros 16)

-- `netip.AddrPort`
pub record AddrPort : Type 0 where
  pub addr : Addr
  pub port : ℕ

bytes_discrete : Discrete (List ℕ)
unfolding list_eq nat_eq
bytes_discrete = (list_eq {A = ℕ}).dec

Addr-discrete : Discrete Addr
unfolding bytes_discrete string_eq
Addr-discrete = hlevel (ℕ_discrete, string_eq.dec, bytes_discrete)

AddrPort-discrete : Discrete AddrPort
unfolding Addr-discrete
AddrPort-discrete = hlevel (ℕ_discrete, Addr-discrete)

-- Go compares addresses by `==`.
instance unfoldable pub addr_eq : Eq Addr
unfolding Addr-discrete
addr_eq = record { dec = Addr-discrete }

instance unfoldable pub addr_port_eq : Eq AddrPort
unfolding AddrPort-discrete
addr_port_eq = record { dec = AddrPort-discrete }

addr_eq_runs : (v4 5 == v4 5) ≡ true
unfolding addr_eq
addr_eq_runs = refl

addr_ne_runs : (v6 (1 ∷ []) "a" == v6 (1 ∷ []) "b") ≡ false
unfolding addr_eq
addr_ne_runs = refl
