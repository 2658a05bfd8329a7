-- ===== src/Natpmp/Gateway.antt =====
-- The client of internal/portmapper/natpmp against a gateway that speaks RFC 6886.
pub mod Served
use nat_pmp.Common.{
  ℕ, ◌+◌, ◌*◌, ◌≤◌, ◌<◌, ◌^◌, ◌%◌, ◌≡◌, ◌≢◌, ◌⊎◌, inl, inr, refl, arith, ap, sym, ◌∙◌, Bool, List,
  [], ◌∷◌, ◌++◌, none, if◌then◌else◌, ◌==◌, length, take, take-all, get_or, slice, All, All-append,
  string_eq, nat_eq, ok,
}
use nat_pmp.Common.Bytes.{
  uint, uint16_bytes, uint32_bytes, IsByte, uint-uint16_bytes, uint-uint32_bytes,
}
use nat_pmp.Common.Int.{pos, second}
use nat_pmp.Addr.{Addr, invalid, v4}
use nat_pmp.Mapping.{Request, Lease, validate, lifetime_or, wire_seconds}
use nat_pmp.Mapping.Validity.{wire_seconds-lifetime_or}
use nat_pmp.Network.{Net, History, listened}
use nat_pmp.Network.Exchange.{attempts}
use nat_pmp.Network.Exchange.Answer.{sent}
use nat_pmp.Network.Exchange.Served.{Delivers, IsFair, attempts-served}
use nat_pmp.Natpmp.Codec.{
  MapResponse, result_error, map_opcode, encode_external_address_request,
  decode_external_address_response, decode_map_response,
}
use nat_pmp.Natpmp.Wire.{
  IsInRange, map_request_bytes, map_response_bytes, decode_map_response_wire,
  encode_map_request_lem,
}
use nat_pmp.Natpmp.Client.{
  Settings, server_addr, buffer_len, default_lease, default_dial, exchange_on, exchange,
  external_ip, map, unmap,
}

-- A gateway's address, its epoch, and what it grants: the external port for an internal and a
-- suggested one, and the lifetime for the one that is asked for.
pub record Gateway : Type 0 where
  pub address : ℕ
  pub epoch : ℕ
  pub assigned : ℕ → ℕ → ℕ
  pub lifetime : ℕ → ℕ

-- What it grants can stand in a response, and is not 0.
pub record IsProper (g : Gateway) : Type 0 where
  pub address : g.address < 2 ^ 32
  pub epoch : g.epoch < 2 ^ 32
  pub assigned : (i e : ℕ) → (g.assigned i e ≢ 0) × (g.assigned i e < 2 ^ 16)
  pub lifetime : (s : ℕ) → (g.lifetime s ≢ 0) × (g.lifetime s < 2 ^ 32)

-- The response to the mapping request with these fields. A lifetime of 0 asks for the deletion, which
-- is answered with the external port and the lifetime 0 (section 3.4).
unfoldable pub granted : Gateway → ℕ → ℕ → ℕ → MapResponse
granted g internal_port external_port lifetime_sec = record {
  epoch = g.epoch;
  internal_port = internal_port;
  external_port = if lifetime_sec == 0 then 0 else g.assigned internal_port external_port;
  lifetime_sec = if lifetime_sec == 0 then 0 else g.lifetime lifetime_sec;
}

-- The response to a request for the external address (section 3.2).
abbrev pub address_response_bytes : Gateway → List ℕ
address_response_bytes g = 0 ∷ 128 ∷ 0 ∷ 0 ∷ (uint32_bytes g.epoch ++ uint32_bytes g.address)

-- The gateway's answer to the bytes of a request.
unfoldable pub serve : Gateway → List ℕ → List ℕ
serve g b =
    if get_or b 1 0 == 0
    then address_response_bytes g
    else map_response_bytes (get_or b 1 0)
        (granted g (uint (slice b 4 6)) (uint (slice b 6 8)) (uint (slice b 8 12)))

pub serve-address :
    (g : Gateway) → serve g encode_external_address_request ≡ address_response_bytes g
unfolding serve encode_external_address_request nat_eq
serve-address g = refl

pub serve-map :
    (g : Gateway) (op internal_port external_port lifetime_sec : ℕ)
    → op ≢ 0
    → internal_port < 2 ^ 16
    → lifetime_sec < 2 ^ 32
    → serve g (map_request_bytes op internal_port external_port lifetime_sec)
      ≡ map_response_bytes op (granted g internal_port (external_port % 2 ^ 16) lifetime_sec)
unfolding serve
serve-map g op i e l n hi hl =
    let port : uint (uint16_bytes e) ≡ e % 2 ^ 16 = omega arith in
    ground (arith, uint-uint16_bytes i hi, uint-uint32_bytes l hl)

pub granted-IsInRange :
    (g : Gateway) (i e l : ℕ) → IsProper g → i < 2 ^ 16 → IsInRange (granted g i e l)
unfolding granted
granted-IsInRange g i e l p hi = record {
  epoch = p.epoch;
  internal_port = hi;
  external_port = ground (arith, p.assigned i e);
  lifetime_sec = ground (arith, p.lifetime l);
}

pub decode-address :
    (g : Gateway)
    → IsProper g
    → decode_external_address_response (address_response_bytes g)
      ≡ ok (record { epoch = g.epoch; external_ip = uint32_bytes g.address })
unfolding decode_external_address_response result_error
decode-address g p = ground (arith, uint-uint32_bytes g.epoch p.epoch)
