-- ===== src/Upnp/Tests.antt =====
-- A gateway that offers a WAN service of the older version, in a device within its root device.
mod Envelopes
mod Origins
use Prim.Native.String.{◌++◌ as ◌<>◌}
use nat_pmp.Common.{
  false, ◌*◌, ◌≡◌, ◌↔◌, refl, String, [], ◌∷◌, take, none, some, ◌==◌, string_eq, nat_eq,
  if◌then◌else◌, ok, err, failed,
}
use nat_pmp.Common.Int.{pos, second}
use nat_pmp.Addr.{invalid, v4}
use nat_pmp.Mapping.{Request, Lease, udp, validate, valid, lifetime_or}
use nat_pmp.Daemon.State.{release_request}
use nat_pmp.Upnp.Soap.{
  start_element, other_token, parse_string_field, posted, ControlTarget, Net, Response,
  build_envelope, soap_result, call_soap,
}
use nat_pmp.Upnp.Preference.{services_of, IsPreferred, parse_control_target-IsPreferred}
use nat_pmp.Upnp.Device.{
  Descriptor, wan_service_types, Service, Device, device, no_devices, and_device, Parsers,
  find_in_services, find_service, resolve_url, descriptor_base, select_service,
  parse_control_target,
}
use nat_pmp.Upnp.Client.{
  State, new, fetch_http, set_internal_client, delete_args, add_args, first_target, search_target,
  resolve_target, external_ip, map, unmap,
}
use nat_pmp.Upnp.Leases.{delete_args-release_request, Deletes, unmap_iff}
use nat_pmp.Common.{ℕ, List, list_eq}
use nat_pmp.Common.Text.{codes}
use nat_pmp.Upnp.Ssdp.{
  Arrival, datagram, segments, terminated, trim_line, trim_blanks, cut_colon, split_header,
  header_location, parse_location, collect_results,
}
use nat_pmp.Upnp.Targets.{Keeps, methods-Keeps}

abbrev wan : Service
wan = record {
  service_type = "urn:schemas-upnp-org:service:WANIPConnection:1";
  control_url = "/ctl";
}

abbrev root : Device
root =
    device "InternetGatewayDevice" []
      (and_device (device "WANDevice" (wan ∷ []) no_devices) no_devices)

abbrev pub parsers : Parsers String
parsers = record {
  unmarshal = λ text. ok (record { url_base = ""; root = root });
  parse_url = λ text. ok text;
  resolve = λ base ref. base <> ref;
  url_string = λ u. u;
  trim_space = λ text. text;
  equal_fold = λ a b. a == b;
}

abbrev pub net : Net
net = record {
  search = λ h. ok ("http://gw" ∷ []);
  request_error = λ url. none;
  get = λ h url. ok (record { status = 200; body = ok "<root/>" });
  post = λ h url soap_action body. ok (record { status = 200; body = ok "<reply/>" });
  now = λ h. 9;
  fault = λ text. err (failed "no fault");
  tokens = λ text. other_token ∷ start_element "NewExternalIPAddress" (ok "203.0.113.5") ∷ [];
  parse_addr = λ text. ok (v4 0xcb007105);
  addr_string = λ a. "192.168.1.2";
}

abbrev pub game : Request
game = record {
  protocol = udp;
  internal_port = 5000;
  internal_address = invalid;
  external_port = 0;
  description = "game";
  lease = pos 0;
  require_listener = false;
}

abbrev pub start : State
start = set_internal_client net (v4 0xc0a80102) (new [])

abbrev pub target : ControlTarget
target = record {
  url = "http://gw/ctl";
  service_type = "urn:schemas-upnp-org:service:WANIPConnection:1";
}

abbrev lease : Lease
lease = record {
  protocol = udp;
  internal_port = 5000;
  external_port = 5000;
  external_ip = v4 0xcb007105;
  lifetime = pos (3600 * second);
  acquired = 9;
}

abbrev mapped : State
mapped = (map net parsers game start).1

map_test : map net parsers game start ≡ (ok lease, mapped)
unfolding map resolve_target search_target first_target fetch_http parse_control_target
    descriptor_base select_service find_service find_in_services resolve_url call_soap soap_result
    external_ip parse_string_field set_internal_client new validate valid lifetime_or string_eq
    nat_eq
map_test = refl

mapped_target : mapped.target ≡ some target
unfolding map resolve_target search_target first_target fetch_http parse_control_target
    descriptor_base select_service find_service find_in_services resolve_url call_soap soap_result
    external_ip parse_string_field set_internal_client new validate valid lifetime_or string_eq
    nat_eq
mapped_target = refl

pub game_valid : validate game ≡ ok tt
unfolding validate valid string_eq nat_eq
game_valid = refl

delete_args-release_request_test :
    (validate (release_request game lease) ≡ ok tt)
    × (delete_args (release_request game lease) ≡ take 3 (add_args game "192.168.1.2"))
delete_args-release_request_test =
    delete_args-release_request net parsers game start mapped lease "192.168.1.2" map_test

unmap_iff_example :
    let soap_action : String = "\"" <> target.service_type <> "#" <> "DeletePortMapping" <> "\"" in
    let body = build_envelope target.service_type "DeletePortMapping" (delete_args game) in
    ((unmap net parsers game mapped).1.history
      ≡ posted target.url soap_action body ∷ mapped.history)
    × (((unmap net parsers game mapped).0 ≡ ok tt) ↔ (
        (resp : Response) × (net.post mapped.history target.url soap_action body ≡ ok resp)
        × Deletes net parsers resp))
unmap_iff_example = unmap_iff net parsers game target mapped game_valid mapped_target refl

methods-Keeps_example :
    Keeps target mapped (external_ip net parsers mapped).1
    × Keeps target mapped (map net parsers game mapped).1
    × Keeps target mapped (unmap net parsers game mapped).1
methods-Keeps_example = methods-Keeps net parsers game target mapped mapped_target

abbrev reply : List ℕ
reply = codes "HTTP/1.1 200 OK\r\nST: igd\r\nLocation: http://gw\r\n\r\n"

-- The reply comes twice, and once cut off.
abbrev arrivals : List Arrival
arrivals = datagram reply ∷ datagram (codes "HTTP") ∷ datagram reply ∷ []

collected : collect_results [] arrivals ≡ ok (codes "http://gw" ∷ [])
unfolding collect_results parse_location segments terminated header_location trim_line trim_blanks
    cut_colon split_header list_eq nat_eq
collected = refl

target_parsed : parse_control_target parsers "<root/>" "http://gw" ≡ ok target
unfolding parse_control_target descriptor_base select_service find_service find_in_services
    resolve_url string_eq nat_eq
target_parsed = refl

parse_control_target-IsPreferred_example :
    (description : Descriptor) × (base : String) × (parsers.unmarshal "<root/>" ≡ ok description)
    × (descriptor_base parsers "http://gw" description.url_base ≡ ok base)
    × IsPreferred parsers base (services_of description.root) wan_service_types target
parse_control_target-IsPreferred_example =
    parse_control_target-IsPreferred parsers "<root/>" "http://gw" target target_parsed
