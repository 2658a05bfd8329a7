-- ===== src/Netgw.antt =====
-- internal/netgw/netgw.go: the default gateway of the routing table. A table is what the scanner
-- reads of /proc/net/route, its lines as the codes of their characters (ASCII), and the error that
-- stops the scanner, if one does.
pub mod Lines
pub mod Least
pub mod Found
pub mod Tests
use Prim.Native.Nat.{bit_and, bit_or}
use nat_pmp.Common.{
  ℕ, ◌-◌, ◌/◌, ◌%◌, ◌^◌, Bool, List, [], ◌∷◌, Option, none, some, length, get_or, ltb, ◌==◌, ◌!=◌,
  ◌||◌, nat_eq, list_eq, if◌then◌else◌,
}
use nat_pmp.Common.{Error, failed, wrapped, wrap, Result, ok, err, ◌>>=◌}
use nat_pmp.Common.Bytes.{uint, uint32_bytes}
use nat_pmp.Common.Text.{codes, fields, parse_uint}
use nat_pmp.Addr.{Addr, addr_from4, is_unspecified}

abbrev pub route_flag_up : ℕ
route_flag_up = 1

abbrev pub route_flag_gateway : ℕ
route_flag_gateway = 2

-- PutUint32 in little-endian order
abbrev pub little_endian : ℕ → List ℕ
little_endian v = v % 256 ∷ v / 256 % 256 ∷ v / 65_536 % 256 ∷ v / 16_777_216 % 256 ∷ []

unfoldable pub parse_hex_addr : List ℕ → Result Addr
parse_hex_addr hex =
    if length hex != 8 then err (failed "netgw: parse gateway: expected 8 hex characters") else do
      v ← wrap "netgw: parse gateway" (parse_uint hex 16 (2 ^ 32 - 1))
      ok (addr_from4 (little_endian v))

-- The part of the loop's body behind the test of the flags.
unfoldable pub gateway_of : List (List ℕ) → Result (Option (Addr × ℕ))
gateway_of row = do
  metric ← wrap "netgw: parse route metric" (parse_uint (get_or row 6 []) 10 (2 ^ 32 - 1))
  addr ← parse_hex_addr (get_or row 2 [])
  ok (if is_unspecified addr then none else some (addr, metric))

-- routeFlagUp|routeFlagGateway
abbrev required_flags : ℕ
required_flags = bit_or route_flag_up route_flag_gateway

gateway_if : Bool → List (List ℕ) → Result (Option (Addr × ℕ))
gateway_if usable row = if usable then gateway_of row else ok none

-- The loop's body on one line, up to the comparison: `continue` is `none`.
unfoldable pub route_of : List ℕ → Result (Option (Addr × ℕ))
unfolding gateway_if
route_of line =
    let row = fields line in
    if ltb (length row) 8
    then ok none
    else if get_or row 1 [] != codes "00000000" || get_or row 7 [] != codes "00000000"
    then ok none
    else do
      flags ← wrap "netgw: parse route flags" (parse_uint (get_or row 3 []) 16 (2 ^ 16 - 1))
      gateway_if (bit_and flags required_flags == required_flags) row

-- `best`, `bestMetric` and `found`.
unfoldable pub better : Option (Addr × ℕ) → Option (Addr × ℕ) → Option (Addr × ℕ)
better best none = best
better none (some found) = some found
better (some (best, best_metric)) (some (addr, metric)) =
    if ltb metric best_metric then some (addr, metric) else some (best, best_metric)

unfoldable pub scan_routes : Option (Addr × ℕ) → List (List ℕ) → Result (Option (Addr × ℕ))
scan_routes best [] = ok best
scan_routes best (line ∷ lines) = do found ← route_of line; scan_routes (better best found) lines

-- How the scanner has ended, and then the result.
unfoldable pub gateway_found : Option Error → Option (Addr × ℕ) → Result Addr
gateway_found (some e) best = err (wrapped "netgw: read route table" e)
gateway_found none (some (addr, metric)) = ok addr
gateway_found none none = err (failed "netgw: no default route found")

unfoldable pub parse_default_gateway : List (List ℕ) → Option Error → Result Addr
parse_default_gateway [] (some e) = err (wrapped "netgw: read route table" e)
parse_default_gateway [] none = err (failed "netgw: empty route table")
parse_default_gateway (header ∷ lines) stopped = do
  best ← scan_routes none lines
  gateway_found stopped best
