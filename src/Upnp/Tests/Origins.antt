-- ===== src/Upnp/Tests/Origins.antt =====
-- A client that searches with `discover` of internal/portmapper/upnp/ssdp.go, asked for a mapping.
use nat_pmp.Common.{
  ℕ, ◌≡◌, refl, String, List, [], some, ◌==◌, list_eq, nat_eq, string_eq, if◌then◌else◌,
}
use nat_pmp.Common.Text.{codes}
use nat_pmp.Common.Text.Decimal.{decimal}
use nat_pmp.Addr.{v4}
use nat_pmp.Mapping.{validate, valid, lifetime_or}
use nat_pmp.Portmapper.{Context, running}
use nat_pmp.Network as Network
use nat_pmp.Upnp.Soap.{History, parse_string_field, Net, soap_result, call_soap}
use nat_pmp.Upnp.Device.{
  find_in_services, find_service, resolve_url, descriptor_base, select_service,
  parse_control_target,
}
use nat_pmp.Upnp.Client.{
  State, new, fetch_http, set_internal_client, first_target, search_target, resolve_target,
  external_ip, map,
}
use nat_pmp.Upnp.Ssdp.{
  segments, terminated, trim_line, trim_blanks, cut_colon, split_header, header_location,
  parse_location,
}
use nat_pmp.Upnp.Ssdp.Discover.{
  build_search_request, collect, search_deadline, discover_with_conn, discover,
}
use nat_pmp.Upnp.Search.{texts, with_discover}
use nat_pmp.Upnp.Search.Origin.{Origin}
use nat_pmp.Upnp.Search.Described.{created, addressed, mapped, Reaches-IsDescribed}
use nat_pmp.Upnp.Tests.{net, parsers, game, target}
use nat_pmp.Upnp.Ssdp.Tests as Ssdp

-- The one location that is announced, and no other.
abbrev text : List ℕ → String
text bytes = if bytes == codes "http://gw" then "http://gw" else ""

abbrev sockets : Context → History → Network.Net
sockets ctx h = Ssdp.net

abbrev nets : Context → Net
nets ctx = net

abbrev wired : Net
wired = with_discover text 3 (sockets running) (nets running)

abbrev final : State
final = (map wired parsers game (set_internal_client wired (v4 0xc0a80102) (new []))).1

final_target : final.target ≡ some target
unfolding map resolve_target search_target first_target fetch_http parse_control_target
    descriptor_base select_service find_service find_in_services resolve_url call_soap soap_result
    external_ip parse_string_field set_internal_client new validate valid lifetime_or string_eq
    nat_eq texts discover discover_with_conn collect search_deadline build_search_request decimal
    parse_location segments terminated header_location trim_line trim_blanks cut_colon split_header
    list_eq
final_target = refl

Reaches-IsDescribed_example : Origin parsers text 3 sockets nets target final.history
Reaches-IsDescribed_example =
    Reaches-IsDescribed parsers text 3 sockets nets target
      (mapped running game (addressed running (v4 0xc0a80102) (created []))) final_target
