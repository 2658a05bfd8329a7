-- ===== src/Config/Tests.antt =====
-- A configuration with a mapping for both protocols, on a host with one interface.
use nat_pmp.Common.{
  ◌≡◌, refl, true, false, [], ◌∷◌, map, All, string_eq, nat_eq, list_eq, ok, err, failed,
}
use nat_pmp.Common.Int.{pos}
use nat_pmp.Addr.{Addr, v4, addr_eq}
use nat_pmp.Mapping as Wire
use nat_pmp.Config.Requests.{
  Mapping, Config, Host, protocols, first_usable_ipv4, parse_interface_addrs, local_addresses,
  iface_addresses, resolve_iface, resolve_internal_address, internal_address, mapping_requests,
  default_internal_address, requests,
}
use nat_pmp.Config.Level.{validate_log_level, normalised, trim_right, trim_left}
use nat_pmp.Config.Validate.{
  port_key_eq, validate_order, validate_detect, all_local, resolve_mappings, check_bound,
  validate_internal_addresses, validate_requests, check_internal, check_external, check_ports,
  validate_mappings, validate,
}
use nat_pmp.Config.Validate.Ports.{internal_keys, external_keys, Distinct}
use nat_pmp.Config.Validate.Bound.{validate-IsTarget}
use nat_pmp.Config.Validate.Targets.{IsTarget}
use nat_pmp.Config.Validate.Wellformed.{validate-requests}
use nat_pmp.Common.{ℕ, suc, ◌+◌, ◌≢◌, contains, ap, Bool}
use nat_pmp.Common.{Option, none, some}
use nat_pmp.Common.Dict.{lookup, insert}
use nat_pmp.Addr.{invalid}
use nat_pmp.Mapping.{Protocol, Lease, tcp, udp, renew_before}
use nat_pmp.Daemon.Ensure.{ensure, validate_lease}
use nat_pmp.Daemon.State.{
  Host as DaemonHost, Daemon, Key, key_eq, key_of, schedule, refresh_local_addr, has_listener,
  map_request, renew_one, reconcile_one, reconcile_each, reconcile_all,
}
use nat_pmp.Daemon.Run.{launch}
use nat_pmp.Daemon.Run.Reach.{launched}
use nat_pmp.Config.Requests.{requests_of}
use nat_pmp.Daemon.Configured.{internal_port_of, Reaches-one_lease}
use nat_pmp.Daemon.Tests.{router}

-- A host whose interface has the address that is given.
abbrev host_at : Addr → Host
host_at a = record {
  interface_addrs = ok ("eth0" ∷ []);
  addrs_by_name = λ name. ok ("eth0" ∷ []);
  parse_addr = λ s. ok a;
  parse_prefix = λ s. ok a;
}

abbrev host : Host
host = host_at (v4 0xc0a80102)

abbrev dns : Mapping
dns = record {
  protocol = "both";
  internal_port = 53;
  internal_address = "192.168.1.2";
  internal_iface = "";
  external_port = 5353;
  description = "dns";
  lease = pos 0;
  require_listener = false;
}

abbrev web : Mapping
web = record {
  protocol = "tcp";
  internal_port = 8080;
  internal_address = "";
  internal_iface = "eth0";
  external_port = 0;
  description = "web";
  lease = pos 0;
  require_listener = true;
}

abbrev config : Config
config = record {
  log_level = "";
  internal_address = "";
  internal_iface = "";
  mappings = dns ∷ web ∷ [];
  detect = record { order = "pcp" ∷ "natpmp" ∷ []; timeout = pos 0 };
}

config_valid : validate host config ≡ ok tt
unfolding validate validate_log_level validate_order validate_detect all_local resolve_mappings
    check_bound validate_internal_addresses validate_requests check_internal check_external
    check_ports validate_mappings protocols first_usable_ipv4 parse_interface_addrs local_addresses
    iface_addresses resolve_iface resolve_internal_address internal_address mapping_requests
    default_internal_address Wire.validate Wire.valid normalised trim_right trim_left port_key_eq
    addr_eq string_eq nat_eq list_eq
config_valid = refl

validate-requests_example :
    All (λ r. Wire.validate r ≡ ok tt) (requests host config)
    × Distinct (internal_keys (requests host config))
    × Distinct (external_keys (requests host config))
validate-requests_example = validate-requests host config config_valid

validate-IsTarget_example : All (λ r. IsTarget host r.internal_address) (requests host config)
validate-IsTarget_example = validate-IsTarget host config config_valid

-- A second mapping of the same internal port is refused.
clash_test :
    validate host
      (record config { mappings = dns ∷ record web { protocol = "udp"; internal_port = 53 } ∷ [] })
    ≡ err (failed "config: mapping: duplicate internal port")
unfolding validate validate_log_level validate_order validate_detect all_local resolve_mappings
    check_bound validate_internal_addresses validate_requests check_internal check_external
    check_ports validate_mappings protocols first_usable_ipv4 parse_interface_addrs local_addresses
    iface_addresses resolve_iface resolve_internal_address internal_address mapping_requests
    default_internal_address Wire.validate Wire.valid normalised trim_right trim_left port_key_eq
    addr_eq string_eq nat_eq list_eq
clash_test = refl

-- A daemon on that configuration, on a host whose address is the time.
abbrev busy : DaemonHost ℕ
busy = record {
  client = router;
  requests = λ w. requests (host_at (v4 w)) config;
  listener = λ p port w. (ok true, w);
  local_addr = λ gateway w. (ok (v4 w), w);
  now = λ w. (w, suc w);
  advertise = λ a w. w;
  sleep = λ d w. w + d;
}

abbrev dns_key : Protocol → Key
dns_key p = record { protocol = p; internal_port = 53; external_port = 5353 }

abbrev started : Daemon ℕ
started = launch busy invalid 5

abbrev is_some : Option Lease → Bool
is_some none = false
is_some (some l) = true

tcp_lease : is_some (lookup (dns_key tcp) started.leases) ≡ true
unfolding launch schedule refresh_local_addr has_listener map_request renew_one reconcile_one
    reconcile_each reconcile_all ensure validate_lease renew_before lookup insert protocols requests
    requests_of mapping_requests internal_address default_internal_address resolve_internal_address
    resolve_iface iface_addresses parse_interface_addrs first_usable_ipv4 key_eq string_eq nat_eq
tcp_lease = refl

udp_lease : is_some (lookup (dns_key udp) started.leases) ≡ true
unfolding launch schedule refresh_local_addr has_listener map_request renew_one reconcile_one
    reconcile_each reconcile_all ensure validate_lease renew_before lookup insert protocols requests
    requests_of mapping_requests internal_address default_internal_address resolve_internal_address
    resolve_iface iface_addresses parse_interface_addrs first_usable_ipv4 key_eq string_eq nat_eq
udp_lease = refl

is_some-ne_none : (o : Option Lease) → is_some o ≡ true → o ≢ none
is_some-ne_none o h e = cc (ap is_some e, h)

Reaches-one_lease_example :
    (contains (map key_of (requests host config)) (dns_key tcp) ≡ true)
    × (internal_port_of (dns_key tcp) ≡ internal_port_of (dns_key udp) → dns_key tcp ≡ dns_key udp)
Reaches-one_lease_example =
    Reaches-one_lease busy config (λ w. host_at (v4 w)) (λ w. refl) host config_valid
      (launched invalid 5) (dns_key tcp) (dns_key udp) (is_some-ne_none _ tcp_lease)
      (is_some-ne_none _ udp_lease)
