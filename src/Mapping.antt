-- ===== src/Mapping.antt =====
-- internal/mapping/mapping.go: desired port forwardings and the leases granted for them.
pub mod Validity
pub mod Tests
use nat_pmp.Common.{ℕ, ◌+◌, ◌-◌, ◌*◌, ◌/◌, ◌%◌, ◌^◌, String, Bool, true, false, not, ◌&&◌, ◌||◌}
use nat_pmp.Common.{◌==◌, ◌!=◌, string_eq, nat_eq, if◌then◌else◌}
use nat_pmp.Common.{Result, ok, err, failed, ◌>>=◌, ◌>>◌, reject_if}
use nat_pmp.Common.Int.{ℤ, pos, negsuc, is_negative, exceeds, is_nonpositive, nanoseconds, second}
use nat_pmp.Addr.{Addr, is_valid, is_unspecified}

-- A string type in Go too: any text can be converted to it.
abbrev pub Protocol : Type 0
Protocol = String

abbrev pub tcp : Protocol
tcp = "tcp"

abbrev pub udp : Protocol
udp = "udp"

-- In nanoseconds.
abbrev pub max_lease : ℕ
max_lease = (2 ^ 32 - 1) * second

unfoldable pub parse_protocol : String → Result Protocol
parse_protocol s =
    if s == tcp then ok tcp else if s == udp then ok udp else err (failed "invalid protocol")

unfoldable pub valid : Protocol → Bool
valid p = p == tcp || p == udp

pub record Request : Type 0 where
  pub protocol : Protocol
  pub internal_port : ℕ
  pub internal_address : Addr
  pub external_port : ℕ
  pub description : String
  pub lease : ℤ
  pub require_listener : Bool

unfoldable pub validate : Request → Result (Unit {0})
validate r = do
  reject_if (not (valid r.protocol)) (failed "invalid protocol")
  reject_if (r.internal_port == 0) (failed "internal port must be non-zero")
  reject_if (is_valid r.internal_address && is_unspecified r.internal_address)
      (failed "internal address must not be unspecified")
  reject_if (is_negative r.lease) (failed "lease must not be negative")
  reject_if (exceeds r.lease max_lease) (failed "lease must not exceed the maximum")
  reject_if (exceeds r.lease 0 && nanoseconds r.lease % second != 0)
      (failed "lease must be a whole number of seconds")
  ok tt

pub record Lease : Type 0 where
  pub protocol : Protocol
  pub internal_port : ℕ
  pub external_port : ℕ
  pub external_ip : Addr
  pub lifetime : ℤ
  pub acquired : ℕ

unfoldable pub renew_before : Lease → ℕ
renew_before l =
    if is_nonpositive l.lifetime then l.acquired else l.acquired + nanoseconds l.lifetime / 2

-- What every client makes of a requested lease: `r.Lease`, or the default if that is not positive.
unfoldable pub lifetime_or : ℕ → Request → ℤ
lifetime_or default r = if is_nonpositive r.lease then pos default else r.lease

-- `uint32(lifetime/time.Second)`
unfoldable pub wire_seconds : ℤ → ℕ
wire_seconds d = nanoseconds d / second % 2 ^ 32
