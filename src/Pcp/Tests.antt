-- ===== src/Pcp/Tests.antt =====
-- PCP exchanges with a gateway that loses the first datagram.
mod Served
use nat_pmp.Common.{
  ℕ, true, false, ◌*◌, ◌≡◌, refl, arith, List, [], ◌∷◌, none, some, if◌then◌else◌, ◌==◌, ◌&&◌,
  is_ok, string_eq, list_eq, nat_eq, ok,
}
use nat_pmp.Common.Int.{pos, second}
use nat_pmp.Common.Dict.{lookup, insert, erase}
use nat_pmp.Addr.{Addr, v4, addr_eq, addr_port_eq, ipv6_unspecified}
use nat_pmp.Mapping.{Request, Lease, tcp, validate, valid, lifetime_or, wire_seconds}
use nat_pmp.Network.{Net}
use nat_pmp.Network.Exchange.{attempts, attempt, await_response, take_response, deadline_for}
use nat_pmp.Network.Tests.{gateway, lossy}
use nat_pmp.Pcp.Codec.{
  MapRequest, MapResponse, result_error, ip_protocol, to16, encode_map_request, decode_map_response,
}
use nat_pmp.Pcp.Wire.{map_request_bytes, encode_map_request_wire}
use nat_pmp.Pcp.Wire.Response.{IsInRange, map_response_bytes, decode_map_response-bytes}
use nat_pmp.Pcp.Client.{
  Settings, State, NonceKey, nonce_key_eq, key_of, new, local_from, local_addr, default_dial, dial,
  draw_nonce, nonce_for, delete_nonce, check_response, exchange_on, map, unmap,
}
use nat_pmp.Network.Exchange.Answer.{Sends}
use nat_pmp.Pcp.Datagrams.{call_bytes, nonce_bytes, methods-Sends, map-renews}
use nat_pmp.Pcp.Client.{server_addr, default_lease}
use nat_pmp.Pcp.Leases.{IsGranted, map-IsGranted}
use nat_pmp.Pcp.Nonces.{map-nonces, unmap-nonces}

abbrev dns : Request
dns = record {
  protocol = tcp;
  internal_port = 53;
  internal_address = v4 0xc0a80102;
  external_port = 5353;
  description = "dns";
  lease = pos 0;
  require_listener = false;
}

abbrev host_addr : Addr
host_addr = v4 0xc0a80102

abbrev twelve : List ℕ
twelve = 7 ∷ 7 ∷ 7 ∷ 7 ∷ 7 ∷ 7 ∷ 7 ∷ 7 ∷ 7 ∷ 7 ∷ 7 ∷ 7 ∷ []

abbrev granted : MapResponse
granted = record {
  result_code = 0;
  lifetime_sec = 1800;
  epoch = 5;
  nonce = twelve;
  protocol = 6;
  internal_port = 53;
  external_port = 5353;
  external_addr = v4 0xcb007105;
}

abbrev net : Net
net = lossy 1 (λ h. map_response_bytes granted)

abbrev c : Settings
c = record { gateway = gateway; initial_timeout = 250_000_000; max_attempts = 4 }

abbrev start : State
start = record { history = []; nonces = [] }

abbrev lease : Lease
lease = record {
  protocol = tcp;
  internal_port = 53;
  external_port = 5353;
  external_ip = v4 0xcb007105;
  lifetime = pos (1800 * second);
  acquired = 0;
}

new_test : new gateway ≡ c
unfolding new
new_test = refl

map_test : map net c dns start ≡ (ok lease, (map net c dns start).1)
unfolding map dial default_dial local_addr local_from nonce_for draw_nonce exchange_on attempts
    attempt await_response take_response deadline_for encode_map_request to16 decode_map_response
    check_response result_error ip_protocol validate valid lifetime_or wire_seconds lookup insert
    string_eq nat_eq list_eq addr_eq addr_port_eq nonce_key_eq
map_test = refl

map-IsGranted_example : IsGranted c dns lease (map net c dns start).1
map-IsGranted_example = map-IsGranted net c dns start (map net c dns start).1 lease map_test

-- Another mapping has its nonce already.
abbrev other : NonceKey
other = record { protocol = tcp; internal_port = 80 }

abbrev known : State
known = record { history = []; nonces = (key_of dns, twelve) ∷ (other, 1 ∷ 2 ∷ []) ∷ [] }

known_other : lookup other known.nonces ≡ some (1 ∷ 2 ∷ [])
unfolding lookup nonce_key_eq string_eq nat_eq
known_other = refl

known_own : lookup (key_of dns) known.nonces ≡ some twelve
unfolding lookup nonce_key_eq string_eq nat_eq
known_own = refl

map-nonces_test : lookup other (map net c dns known).1.nonces ≡ some (1 ∷ 2 ∷ [])
map-nonces_test = map-nonces net c dns known other (1 ∷ 2 ∷ []) known_other

-- The first call renews the mapping itself.
map-renews_example :
    let s' = (map net c dns known).1 in
    (lookup (key_of dns) s'.nonces ≡ some twelve)
    × Sends
        (nonce_bytes net c twelve dns (wire_seconds (lifetime_or default_lease dns)) s')
        (server_addr c)
        4
        s'.history
        (map net c dns s').1.history
    × Sends
        (nonce_bytes net c twelve dns 0 s')
        (server_addr c)
        4
        s'.history
        (unmap net c dns s').1.history
map-renews_example = map-renews net c dns dns known twelve known_own

unmap-nonces_example :
    lookup (key_of dns) (unmap net c dns known).1.nonces
    ≡ (if key_of dns == key_of dns && is_ok (unmap net c dns known).0 then none else some twelve)
unmap-nonces_example = unmap-nonces net c dns known (key_of dns) twelve known_own

unmap_test : is_ok (unmap net c dns known).0 ≡ true
unfolding unmap dial default_dial local_addr local_from nonce_for draw_nonce delete_nonce
    exchange_on attempts attempt await_response take_response deadline_for encode_map_request to16
    decode_map_response check_response result_error ip_protocol validate valid lookup insert erase
    string_eq nat_eq list_eq addr_eq addr_port_eq nonce_key_eq
unmap_test = refl

abbrev request : MapRequest
request = record {
  nonce = twelve;
  protocol = tcp;
  internal_port = 53;
  external_port = 5353;
  external_addr = ipv6_unspecified;
  client_addr = host_addr;
  lifetime_sec = 3600;
}

tcp_number : ip_protocol request.protocol ≡ ok 6
unfolding ip_protocol string_eq
tcp_number = refl

encode_map_request_wire_example : encode_map_request request ≡ ok (map_request_bytes 6 request)
encode_map_request_wire_example =
    encode_map_request_wire request 6 tcp_number (omega arith) refl refl

granted_range : IsInRange granted
granted_range = record {
  success = refl;
  lifetime_sec = omega arith;
  epoch = omega arith;
  nonce = refl;
  internal_port = omega arith;
  external_port = omega arith;
  external_addr = omega arith;
}

decode_map_response-bytes_example : decode_map_response (map_response_bytes granted) ≡ ok granted
decode_map_response-bytes_example = decode_map_response-bytes granted granted_range

methods-Sends_example :
    Sends
      (call_bytes net c dns (wire_seconds (lifetime_or default_lease dns)) known)
      (server_addr c)
      4
      []
      (map net c dns known).1.history
    × Sends (call_bytes net c dns 0 known) (server_addr c) 4 [] (unmap net c dns known).1.history
methods-Sends_example = methods-Sends net c dns known
