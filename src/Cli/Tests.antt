-- ===== src/Cli/Tests.antt =====
-- The program with one mapping, on a host whose gateway answers NAT-PMP.
mod Alive
use nat_pmp.Network.Tests.{gateway}
use nat_pmp.Network.Exchange.Answer.{sent}
use nat_pmp.Network.Exchange.Destination.{SendsOnlyTo}
use nat_pmp.Daemon.Destination.{server, run_new-SendsOnlyTo}
use nat_pmp.Common.{true, ltb, length}
use nat_pmp.Common.{
  false, ℕ, suc, ◌+◌, ◌≡◌, refl, String, List, [], ◌∷◌, none, some, ok, err, failed, string_eq,
  nat_eq, list_eq,
}
use nat_pmp.Common.Int.{pos}
use nat_pmp.Common.Text.{codes, is_space, fields, digit, parse_digits, parse_uint}
use nat_pmp.Common.Dict.{lookup, insert, erase}
use nat_pmp.Addr.{addr_eq, addr_port_eq}
use nat_pmp.Mapping as Wire
use nat_pmp.Mapping.{tcp, valid, lifetime_or, wire_seconds, renew_before}
use nat_pmp.Config.Requests.{
  Mapping, Config, Host, protocols, resolve_internal_address, internal_address, mapping_requests,
  default_internal_address, requests, requests_of,
}
use nat_pmp.Config.Level.{validate_log_level, normalised, trim_right, trim_left}
use nat_pmp.Config.Validate.{
  port_key_eq, validate_order, validate_detect, all_local, resolve_mappings, check_bound,
  validate_internal_addresses, validate_requests, check_internal, check_external, check_ports,
  validate_mappings, validate,
}
use nat_pmp.Config.Load.{Files, load}
use nat_pmp.Netgw.{
  parse_hex_addr, gateway_of, route_of, better, scan_routes, gateway_found, parse_default_gateway,
}
use nat_pmp.Portcheck.{missing}
use nat_pmp.Network.Exchange.{attempts, attempt, await_response, take_response, deadline_for}
use nat_pmp.Natpmp.Codec.{
  result_error, map_opcode, encode_external_address_request, decode_external_address_response,
  encode_map_request, decode_map_response,
}
use nat_pmp.Natpmp.Client.{new, default_dial, exchange_on, exchange, external_ip, map, unmap}
use nat_pmp.Natpmp.Tests.{net}
use nat_pmp.Upnp.Tests.{net as soap_net, parsers}
use nat_pmp.Daemon.Ensure.{validate_lease, ensure}
use nat_pmp.Daemon.State.{
  key_eq, schedule, refresh_local_addr, map_request, renew_one, reconcile_one, reconcile_each,
  reconcile_all, soonest, time_until_next, renew_if_due, renew_each, renew_due, release_if_active,
  release_each, release_all, renew_round, renew_loop,
}
use nat_pmp.Daemon.Detect.{default_candidates, order_candidates, detect, default_detect}
use nat_pmp.Daemon.Run as Daemon
use nat_pmp.Daemon.Run.{launch}
use nat_pmp.Daemon.Wiring.{
  World, fresh_world, System, local_addr_from, within, natpmp_client, pcp_client, upnp_client,
  default_gateway, local_addr_for, advertise, new as new_daemon, detect_client, run_new,
}
use nat_pmp.Cli.{
  Command, new_root_command, version, Parsed, selected, run, execute_context, execute_command,
  execute,
}
use nat_pmp.Cli.Exit.{EndsWell, execute-EndsWell}

abbrev web : Mapping
web = record {
  protocol = "tcp";
  internal_port = 8080;
  internal_address = "";
  internal_iface = "";
  external_port = 0;
  description = "web";
  lease = pos 0;
  require_listener = false;
}

abbrev pub config : Config
config = record {
  log_level = "";
  internal_address = "";
  internal_iface = "";
  mappings = web ∷ [];
  detect = record { order = []; timeout = pos 0 };
}

abbrev files : World ℕ → Files
files w = record { stat = λ path. ok tt; read_config = λ path. ok config }

abbrev pub interfaces : Host
interfaces = record {
  interface_addrs = ok [];
  addrs_by_name = λ name. ok [];
  parse_addr = λ s. err (failed "no address");
  parse_prefix = λ s. err (failed "no prefix");
}

-- The gateway 192.168.1.1.
abbrev pub routes : List (List ℕ)
routes =
    codes "Iface Destination Gateway Flags RefCnt Use Metric Mask MTU Window IRTT"
    ∷ codes "wlan0 00000000 0101A8C0 0003 0 0 600 00000000 0 0 0"
    ∷ []

abbrev sys : System ℕ String
sys = record {
  net = λ w ctx. net;
  soap = λ w ctx. soap_net;
  parsers = parsers;
  interfaces = λ w. interfaces;
  open_routes = λ w. ok (routes, none);
  open_file = λ w path. missing;
  dial_udp = λ w a. ok (some (192 ∷ 168 ∷ 1 ∷ 2 ∷ []));
  ctx_err = λ w. none;
  now = λ w. (w.outside, suc w.outside);
  sleep = λ d w. w.outside + d;
}

abbrev parse : Command → List String → Parsed
parse cmd args = selected cmd.default_path

abbrev start : World ℕ
start = fresh_world 1000

default_config : parse (new_root_command version) [] ≡ selected "config.yaml"
unfolding new_root_command
default_config = refl

-- The daemon sends at least six datagrams: a probe twice, as the first is lost, and requests to map,
-- to renew and to release.
exits_cleanly :
    ((execute sys files parse 1 version [] start).0 ≡ 0)
    × (ltb 5 (length (sent (execute sys files parse 1 version [] start).1.network)) ≡ true)
unfolding execute execute_command execute_context run new_root_command load run_new Daemon.run
    launch new_daemon detect_client default_gateway local_addr_for local_addr_from advertise within
    natpmp_client pcp_client upnp_client default_candidates order_candidates detect default_detect
    schedule refresh_local_addr map_request renew_one reconcile_one reconcile_each reconcile_all
    soonest time_until_next renew_if_due renew_each renew_due release_if_active release_each
    release_all renew_round renew_loop validate_lease ensure key_eq new default_dial exchange_on
    exchange external_ip map unmap result_error map_opcode encode_external_address_request
    decode_external_address_response encode_map_request decode_map_response attempts attempt
    await_response take_response deadline_for parse_hex_addr gateway_of route_of better scan_routes
    gateway_found parse_default_gateway validate_log_level normalised trim_right trim_left
    port_key_eq validate_order validate_detect all_local resolve_mappings check_bound
    validate_internal_addresses validate_requests check_internal check_external check_ports
    validate_mappings validate protocols resolve_internal_address internal_address mapping_requests
    default_internal_address requests requests_of Wire.validate valid lifetime_or wire_seconds
    renew_before lookup insert erase is_space fields digit parse_digits parse_uint addr_eq
    addr_port_eq string_eq nat_eq list_eq
exits_cleanly = (refl, refl)

execute-EndsWell_example :
    EndsWell sys files 1 "config.yaml" start (execute sys files parse 1 version [] start).1
execute-EndsWell_example =
    execute-EndsWell sys files parse 1 version "config.yaml" [] start default_config exits_cleanly.0

gateway_found_test : (default_gateway sys start).0 ≡ ok gateway
unfolding default_gateway parse_hex_addr gateway_of route_of better scan_routes gateway_found
    parse_default_gateway is_space fields digit parse_digits parse_uint nat_eq list_eq
gateway_found_test = refl

run_new-SendsOnlyTo_example : SendsOnlyTo (server gateway) (run_new sys config 1 start).1.network
run_new-SendsOnlyTo_example = run_new-SendsOnlyTo sys gateway config 1 start refl gateway_found_test
