-- ===== src/Netgw/Lines.antt =====
-- The lines of /proc/net/route that internal/netgw/netgw.go reads, described by their fields.
pub mod Fields
pub mod Reading
use nat_pmp.Common.{ℕ, ◌+◌, ◌*◌, ◌/◌, ◌%◌, ◌≡◌, ◌≢◌, ◌≤◌, ◌<◌, ◌⊎◌, List, [], length, get_or, ok}
use nat_pmp.Common.Text.{codes, fields, parse_uint}
use nat_pmp.Addr.{Addr, v4}

-- The two flags of a route in use whose next hop is a gateway.
abbrev pub IsUp : ℕ → Type 0
IsUp flags = (flags % 2 ≡ 1) × (flags / 2 % 2 ≡ 1)

-- The address with the number's bytes in reverse.
abbrev pub reversed : ℕ → Addr
reversed n =
    v4 (
      n % 256 * 16_777_216 + n / 256 % 256 * 65_536 + n / 65_536 % 256 * 256 + n / 16_777_216 % 256)

-- A line of at least eight fields, with zeros for the destination and for the mask.
pub record IsDefault (line : List ℕ) : Type 0 where
  pub long : 8 ≤ length (fields line)
  pub destination : get_or (fields line) 1 [] ≡ codes "00000000"
  pub mask : get_or (fields line) 7 [] ≡ codes "00000000"

-- The two numbers behind the flags: eight hexadecimal digits and a decimal number, of 32 bits each.
pub record HasGateway (line : List ℕ) (n metric : ℕ) : Type 0 where
  pub eight : length (get_or (fields line) 2 []) ≡ 8
  pub hop : parse_uint (get_or (fields line) 2 []) 16 4_294_967_295 ≡ ok n
  pub cost : parse_uint (get_or (fields line) 6 []) 10 4_294_967_295 ≡ ok metric

-- A default route that is in use, through a gateway whose address is not zero.
pub record IsRoute (line : List ℕ) (a : Addr) (metric : ℕ) : Type 0 where
  pub default : IsDefault line
  pub flags : ℕ
  pub read : parse_uint (get_or (fields line) 3 []) 16 65_535 ≡ ok flags
  pub up : IsUp flags
  pub number : ℕ
  pub next : HasGateway line number metric
  pub address : a ≡ reversed number
  pub set : a ≢ v4 0

-- A line that is passed over, or a route: it has no field that is needed and cannot be read.
pub data IsReadable (line : List ℕ) : Type 0 where
  short : length (fields line) < 8 → IsReadable line
  special :
      (get_or (fields line) 1 [] ≢ codes "00000000")
        ⊎ (get_or (fields line) 7 [] ≢ codes "00000000")
      → IsReadable line
  down :
      (flags : ℕ)
      → parse_uint (get_or (fields line) 3 []) 16 65_535 ≡ ok flags
      → ¬ IsUp flags
      → IsReadable line
  unset :
      (flags metric : ℕ)
      → parse_uint (get_or (fields line) 3 []) 16 65_535 ≡ ok flags
      → HasGateway line 0 metric
      → IsReadable line
  route : (a : Addr) (metric : ℕ) → IsRoute line a metric → IsReadable line
