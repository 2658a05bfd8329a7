-- ===== src/Netgw/Tests.antt =====
-- A routing table with two default routes.
use nat_pmp.Common.{
  All, ℕ, arith, ap, ◌≢◌, sym, ◌∙◌, get_or, ◌≤◌, ◌≡◌, refl, List, [], ◌∷◌, none, some, inl, inr,
  string_eq, nat_eq, list_eq, ok,
}
use nat_pmp.Common.Text.{codes, is_space, fields, digit, parse_digits, parse_uint}
use nat_pmp.Addr.{Addr, v4, addr_eq}
use nat_pmp.Netgw.{
  parse_hex_addr, gateway_of, route_of, better, scan_routes, gateway_found, parse_default_gateway,
}
use nat_pmp.Netgw.Least.{HasRoute, parse_default_gateway-least}
use nat_pmp.Netgw.Lines.{IsRoute, IsReadable, special, route}
use nat_pmp.Netgw.Lines.Reading.{route_of-some}
use nat_pmp.Netgw.Found.{Lists, parse_default_gateway-found}

abbrev header : List ℕ
header = codes "Iface Destination Gateway Flags RefCnt Use Metric Mask MTU Window IRTT"

abbrev wifi : List ℕ
wifi = codes "wlan0 00000000 0101A8C0 0003 0 0 600 00000000 0 0 0"

abbrev wired : List ℕ
wired = codes "eth0 00000000 FE01A8C0 0003 0 0 100 00000000 0 0 0"

abbrev lan : List ℕ
lan = codes "eth0 0001A8C0 00000000 0001 0 0 100 00FFFFFF 0 0 0"

abbrev table : List (List ℕ)
table = wifi ∷ wired ∷ lan ∷ []

abbrev router : Addr
router = v4 0xc0a801fe

table_gateway : parse_default_gateway (header ∷ table) none ≡ ok router
unfolding parse_default_gateway gateway_found scan_routes better route_of gateway_of parse_hex_addr
    parse_uint parse_digits digit fields is_space nat_eq list_eq
table_gateway = refl

wired_route : route_of wired ≡ ok (some (router, 100))
unfolding route_of gateway_of parse_hex_addr parse_uint parse_digits digit fields is_space nat_eq
    list_eq
wired_route = refl

wifi_route : route_of wifi ≡ ok (some (v4 0xc0a80101, 600))
unfolding route_of gateway_of parse_hex_addr parse_uint parse_digits digit fields is_space nat_eq
    list_eq
wifi_route = refl

wifi-IsRoute : IsRoute wifi (v4 0xc0a80101) 600
wifi-IsRoute = route_of-some wifi (v4 0xc0a80101) 600 wifi_route

wired-IsRoute : IsRoute wired router 100
wired-IsRoute = route_of-some wired router 100 wired_route

lan_destination : get_or (fields lan) 1 [] ≡ codes "0001A8C0"
unfolding fields is_space nat_eq
lan_destination = refl

elsewhere : codes "0001A8C0" ≢ codes "00000000"
elsewhere e = absurd (omega (arith, ap (λ l. get_or l 3 0) e))

lan-IsReadable : IsReadable lan
lan-IsReadable = special (inl (λ e. elsewhere (sym lan_destination ∙ e)))

table-IsReadable : All IsReadable table
table-IsReadable =
    (route (v4 0xc0a80101) 600 wifi-IsRoute, (route router 100 wired-IsRoute, (lan-IsReadable, tt)))

parse_default_gateway-least_example :
    (m : ℕ) × HasRoute router m table × ((b : Addr) (k : ℕ) → HasRoute b k table → m ≤ k)
parse_default_gateway-least_example =
    parse_default_gateway-least header table none router table_gateway

parse_default_gateway-found_example :
    (a : Addr) × (m : ℕ) × (parse_default_gateway (header ∷ table) none ≡ ok a)
    × Lists a m table
    × ((c : Addr) (l : ℕ) → Lists c l table → m ≤ l)
parse_default_gateway-found_example =
    parse_default_gateway-found header table router 100 table-IsReadable (inr (inl wired-IsRoute))
