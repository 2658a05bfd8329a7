-- ===== src/Natpmp/Tests.antt =====
-- NAT-PMP exchanges with a gateway that loses the first datagram.
pub mod Served
use nat_pmp.Common.{
  ℕ, true, ◌*◌, ◌≡◌, ◌↔◌, refl, arith, List, [], ◌∷◌, if◌then◌else◌, ◌==◌, take, slice, length,
  get_or, All, string_eq, list_eq, nat_eq, ok,
}
use nat_pmp.Common.Bytes.{IsByte, uint}
use nat_pmp.Common.Int.{pos, second}
use nat_pmp.Addr.{v4, addr_eq, addr_port_eq}
use nat_pmp.Mapping.{Request, Lease, tcp, validate, valid, lifetime_or, wire_seconds}
use nat_pmp.Network.{Net, History}
use nat_pmp.Network.Exchange.{attempts, attempt, await_response, take_response, deadline_for}
use nat_pmp.Network.Exchange.Answer.{sent, Sends}
use nat_pmp.Network.Tests.{gateway, lossy}
use nat_pmp.Natpmp.Codec.{
  MapResponse, result_error, map_opcode, encode_external_address_request,
  decode_external_address_response, encode_map_request, decode_map_response,
}
use nat_pmp.Natpmp.Wire.{
  IsInRange, map_request_bytes, map_response_bytes, decode_map_response_wire,
  encode_map_request-fields,
}
use nat_pmp.Natpmp.Client.{
  Settings, new, server_addr, default_dial, exchange_on, exchange, external_ip, map, unmap,
}
use nat_pmp.Natpmp.Leases.{map_bytes, unmap-Sends, map-Sends}

abbrev pub web : Request
web = record {
  protocol = tcp;
  internal_port = 8080;
  internal_address = v4 0xc0a80102;
  external_port = 0;
  description = "web";
  lease = pos (600 * second);
  require_listener = true;
}

abbrev granted : MapResponse
granted = record { epoch = 77; internal_port = 8080; external_port = 40_000; lifetime_sec = 600 }

-- The gateway answers each request by what it asks for.
abbrev answer : History → List ℕ
answer h = elim (sent h) [
  | [] ↦ []
  | (b, to) ∷ _ ↦
      if get_or b 1 0 == 0
      then 0 ∷ 128 ∷ 0 ∷ 0 ∷ 0 ∷ 0 ∷ 0 ∷ 77 ∷ 203 ∷ 0 ∷ 113 ∷ 5 ∷ []
      else map_response_bytes 2 granted
]

abbrev pub net : Net
net = lossy 1 answer

abbrev c : Settings
c = record { gateway = gateway; initial_timeout = 250_000_000; max_attempts = 4 }

abbrev lease : Lease
lease = record {
  protocol = tcp;
  internal_port = 8080;
  external_port = 40_000;
  external_ip = v4 0xcb007105;
  lifetime = pos (600 * second);
  acquired = 0;
}

new_test : new gateway ≡ c
unfolding new
new_test = refl

map_test : map net c web [] ≡ (ok lease, (map net c web []).1)
unfolding map exchange default_dial exchange_on external_ip attempts attempt await_response
    take_response deadline_for encode_map_request decode_map_response
    encode_external_address_request decode_external_address_response result_error map_opcode
    validate valid lifetime_or wire_seconds string_eq nat_eq addr_eq addr_port_eq
map_test = refl

web_valid : validate web ≡ ok tt
unfolding validate valid string_eq nat_eq
web_valid = refl

web_opcode : map_opcode web.protocol ≡ ok 2
unfolding map_opcode string_eq
web_opcode = refl

map-Sends_example :
    (h1 : History) × Sends (map_bytes net c 2 web) (server_addr c) 4 [] h1
    × Sends encode_external_address_request (server_addr c) 4 h1 (map net c web []).1
map-Sends_example = map-Sends net c 2 web [] web_valid web_opcode

unmap-Sends_test : Sends (map_request_bytes 2 8080 0 0) (server_addr c) 4 [] (unmap net c web []).1
unmap-Sends_test = unmap-Sends net c 2 web [] web_valid web_opcode

granted_bytes : All IsByte (map_response_bytes 2 granted)
granted_bytes = ground arith

granted_range : IsInRange granted
granted_range = record {
  epoch = omega arith;
  internal_port = omega arith;
  external_port = omega arith;
  lifetime_sec = omega arith;
}

decode_map_response_wire_example :
    (decode_map_response (map_response_bytes 2 granted) tcp ≡ ok granted)
    ↔ (take 16 (map_response_bytes 2 granted) ≡ map_response_bytes 2 granted)
decode_map_response_wire_example =
    decode_map_response_wire tcp 2 granted (map_response_bytes 2 granted) web_opcode granted_bytes
      granted_range

web_bytes : encode_map_request tcp 8080 0 600 ≡ ok (map_request_bytes 2 8080 0 600)
unfolding encode_map_request map_opcode string_eq
web_bytes = refl

encode_map_request-fields_test :
    let b = map_request_bytes 2 8080 0 600 in
    (length b ≡ 12)
    × (get_or b 0 0 ≡ 0)
    × (get_or b 1 0 ≡ 2)
    × (uint (slice b 2 4) ≡ 0)
    × (uint (slice b 4 6) ≡ 8080)
    × (uint (slice b 6 8) ≡ 0)
    × (uint (slice b 8 12) ≡ 600)
encode_map_request-fields_test =
    encode_map_request-fields tcp 2 8080 0 600 (map_request_bytes 2 8080 0 600) web_opcode
      (omega arith) (omega arith) (omega arith) web_bytes
