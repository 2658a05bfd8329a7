-- ===== src/Cli/Tests/Alive.antt =====
-- The daemon of Tests, with a gateway that speaks RFC 6886 and a network that loses every second
-- datagram. Reading the clock takes a nanosecond.
use nat_pmp.Common.{
  String, ℕ, suc, ◌+◌, ◌*◌, ◌<◌, ◌≡◌, refl, arith, [], ◌∷◌, none, some, if◌then◌else◌, length,
  nat_eq, string_eq, list_eq, ok, failed,
}
use nat_pmp.Common.Int.{nanoseconds, second}
use nat_pmp.Common.Dict.{lookup}
use nat_pmp.Mapping as Wire
use nat_pmp.Mapping.{Lease, tcp, valid}
use nat_pmp.Network.{Net, datagram, timed_out}
use nat_pmp.Network.Exchange.Answer.{sent}
use nat_pmp.Network.Tests.{gateway, server}
use nat_pmp.Natpmp.Client.{new as new_client}
use nat_pmp.Natpmp.Gateway.{serve}
use nat_pmp.Natpmp.Tests.Served.{home, home-IsProper, every_second, every_second-IsFair}
use nat_pmp.Upnp.Tests.{net as soap_net, parsers}
use nat_pmp.Config.Requests.{
  protocols, resolve_internal_address, internal_address, mapping_requests, default_internal_address,
  requests, requests_of,
}
use nat_pmp.Config.Level.{validate_log_level, normalised, trim_right, trim_left}
use nat_pmp.Config.Validate.{
  port_key_eq, validate_order, validate_detect, all_local, resolve_mappings, check_bound,
  validate_internal_addresses, validate_requests, check_internal, check_external, check_ports,
  validate_mappings, validate,
}
use nat_pmp.Portcheck.{refused, has_listener, scan_paths, scan_path}
use nat_pmp.Daemon.State.{Host, Daemon, Key, key_eq, renew_round}
use nat_pmp.Daemon.Run.{launch}
use nat_pmp.Daemon.Run.Reach.{launched, renewed}
use nat_pmp.Daemon.Punctual.{Punctual}
use nat_pmp.Daemon.Wiring.{
  World, fresh_world, System, within, natpmp_client, advertise, local_addr_for, new,
}
use nat_pmp.Daemon.Continuity.Natpmp.{host, IsServed, natpmp-unbroken}
use nat_pmp.Cli.Tests.{config, interfaces, routes}

abbrev net : World ℕ → Net
net w = record {
  ctx_err = λ h. none;
  ctx_deadline = none;
  listen = λ h a. none;
  probe = λ h to. ok none;
  nonce = λ h. ok [];
  write = λ h b to. ok (length b);
  now = λ h. w.outside;
  refuse_deadline = λ h dl. none;
  read = λ h. elim (sent h) [
    | [] ↦ timed_out
    | (b, to) ∷ rest ↦
        if every_second (length (sent h)) then datagram (serve home b) server else timed_out
  ];
}

abbrev sys : System ℕ String
sys = record {
  net = λ w ctx. net w;
  soap = λ w ctx. soap_net;
  parsers = parsers;
  interfaces = λ w. interfaces;
  open_routes = λ w. ok (routes, none);
  open_file = λ w path. refused (failed "no table");
  dial_udp = λ w a. ok (some (192 ∷ 168 ∷ 1 ∷ 2 ∷ []));
  ctx_err = λ w. none;
  now = λ w. (w.outside, suc w.outside);
  sleep = λ d w. w.outside + d;
}

abbrev clock : World ℕ → ℕ
clock w = w.outside

abbrev daemon : Host (World ℕ)
daemon = host sys config gateway

abbrev started : Daemon (World ℕ)
started = launch daemon gateway (fresh_world 1000)

sys-IsServed : IsServed sys config gateway home clock (600 * second)
unfolding new_client has_listener scan_paths scan_path
sys-IsServed = record {
  arrives = λ w. every_second;
  delivers = λ w. record {
    calm = record { alive = λ h. refl; writes_all = λ h b to. refl; sets_deadline = λ h dl. refl };
    listens = λ h a. refl;
    reads = λ h b to rest e. ground arith;
  };
  fair = λ w. every_second-IsFair;
  proper = home-IsProper;
  lasts = λ s. omega arith;
  reads = λ w h. omega arith;
  listening = λ p port w e. ground arith;
}

sys-Punctual : Punctual (host sys config gateway) clock 1 0
unfolding new natpmp_client within local_addr_for advertise
sys-Punctual = record {
  reads = λ w. refl;
  now = λ w. omega arith;
  external_ip = λ ctx w. omega arith;
  maps = λ ctx r w. omega arith;
  unmaps = λ ctx r w. omega arith;
  listener = λ p port w. omega arith;
  local_addr = λ a w. omega arith;
  advertise = λ a w. ground arith;
  sleeps = λ d w. omega arith;
}

abbrev web : Key
web = record { protocol = tcp; internal_port = 8080; external_port = 0 }

config_valid : validate interfaces config ≡ ok tt
unfolding validate_log_level normalised trim_right trim_left port_key_eq validate_order
    validate_detect all_local resolve_mappings check_bound validate_internal_addresses
    validate_requests check_internal check_external check_ports validate_mappings validate protocols
    resolve_internal_address internal_address mapping_requests default_internal_address requests
    requests_of Wire.validate valid string_eq nat_eq list_eq
config_valid = refl

natpmp-unbroken_example :
    (l : Lease) × (lookup web (renew_round daemon started).leases ≡ some l)
    × (clock (renew_round daemon (renew_round daemon started)).world + 1
        < l.acquired + nanoseconds l.lifetime)
unfolding protocols resolve_internal_address internal_address mapping_requests
    default_internal_address requests requests_of key_eq string_eq nat_eq
natpmp-unbroken_example =
    natpmp-unbroken sys config gateway home clock 1 0 (600 * second) interfaces sys-Punctual
      sys-IsServed (λ w. config_valid) (λ k h. ground arith) (omega arith)
      (renew_round daemon started) web refl (renewed (launched gateway (fresh_world 1000)))
