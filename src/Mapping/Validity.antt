-- ===== src/Mapping/Validity.antt =====
-- Request validation against a description of well-formed requests.
use nat_pmp.Common.{ℕ, ◌*◌, ◌%◌, ◌^◌, ◌≤◌, ◌<◌, ◌≡◌, ◌≢◌, ◌⊎◌, ◌↔◌, arith, true, false}
use nat_pmp.Common.{String, ok, string_eq, nat_eq}
use nat_pmp.Common.Int.{ℤ, pos, negsuc, second, nanoseconds}
use nat_pmp.Addr.{is_unspecified}
use nat_pmp.Mapping.{Request, tcp, udp, max_lease, valid, validate, lifetime_or, wire_seconds}

-- A lease of n nanoseconds is a whole number of seconds that a 32-bit field can carry.
abbrev pub IsWireLease : ℤ → Type 0
IsWireLease (pos n) = (n ≤ max_lease) × (n % second ≡ 0)
IsWireLease (negsuc n) = ⊥

pub record IsWellFormed (r : Request) : Type 0 where
  pub known : (r.protocol ≡ tcp) ⊎ (r.protocol ≡ udp)
  pub has_port : r.internal_port ≢ 0
  pub specified : is_unspecified r.internal_address ≡ false
  pub has_lease : IsWireLease r.lease

valid_iff : (p : String) → (valid p ≡ true) ↔ ((p ≡ tcp) ⊎ (p ≡ udp))
unfolding valid
valid_iff p = ground arith

validate→IsWellFormed : (r : Request) → validate r ≡ ok tt → IsWellFormed r
unfolding validate
validate→IsWellFormed r h = ground (arith, valid_iff r.protocol)

IsWellFormed→validate : (r : Request) → IsWellFormed r → validate r ≡ ok tt
unfolding validate
IsWellFormed→validate r h = ground (arith, valid_iff r.protocol)

wire_seconds-lt : (d : ℤ) → wire_seconds d < 2 ^ 32
unfolding wire_seconds
wire_seconds-lt d = omega arith

-- `validate` accepts exactly the well-formed requests: protocol tcp or udp, a non-zero internal
-- port, no unspecified internal address, and a lease of 0 to 2^32 - 1 whole seconds.
pub validate_iff : (r : Request) → (validate r ≡ ok tt) ↔ IsWellFormed r
validate_iff r = (validate→IsWellFormed r, IsWellFormed→validate r)

lifetime_or-IsWireLease :
    (default : ℕ) (r : Request)
    → IsWireLease (pos default)
    → IsWireLease r.lease
    → IsWireLease (lifetime_or default r)
unfolding lifetime_or
lifetime_or-IsWireLease default r hd hr = ground arith

wire_seconds-exact : (d : ℤ) → IsWireLease d → wire_seconds d * second ≡ nanoseconds d
unfolding wire_seconds
wire_seconds-exact (pos n) h = omega arith
wire_seconds-exact (negsuc n) h = elim h [ ]

lifetime_or-pos :
    (default : ℕ) (r : Request) → 0 < default → 0 < nanoseconds (lifetime_or default r)
unfolding lifetime_or
lifetime_or-pos default r h = ground arith

-- For a valid request the 32-bit seconds that go on the wire are exactly the lease that was asked
-- for, or the default if none was, and they are not 0, which would ask for a deletion. The
-- default is any positive lease of whole seconds that fits.
pub wire_seconds-lifetime_or :
    (default : ℕ) (r : Request)
    → 0 < default
    → IsWireLease (pos default)
    → validate r ≡ ok tt
    → (wire_seconds (lifetime_or default r) * second ≡ nanoseconds (lifetime_or default r))
      × (wire_seconds (lifetime_or default r) < 2 ^ 32)
      × (wire_seconds (lifetime_or default r) ≢ 0)
wire_seconds-lifetime_or default r hpos hd valid =
    let d = lifetime_or default r in
    let fits : IsWireLease d =
      lifetime_or-IsWireLease default r hd (validate→IsWellFormed r valid).has_lease in
    let exact : wire_seconds d * second ≡ nanoseconds d = wire_seconds-exact d fits in
    (exact, wire_seconds-lt d, omega (arith, lifetime_or-pos default r hpos))
