-- ===== src/Natpmp/Codec.antt =====
-- internal/portmapper/natpmp/codec.go: NAT-PMP messages as bytes.
use nat_pmp.Common.{ℕ, ◌+◌, ◌%◌, List, [], ◌∷◌, ◌||◌}
use nat_pmp.Common.{
  length, get_or, slice, replicate, ltb, ◌==◌, ◌!=◌, string_eq, nat_eq, if◌then◌else◌,
}
use nat_pmp.Common.{unsupported, not_authorized, no_resources, failed}
use nat_pmp.Common.{Result, ok, err, ◌>>=◌, ◌>>◌, reject_if}
use nat_pmp.Common.Bytes.{uint, uint16_bytes, uint32_bytes, copy_at}
use nat_pmp.Mapping.{Protocol, tcp, udp}

abbrev pub proto_version : ℕ
proto_version = 0

abbrev pub op_external_address : ℕ
op_external_address = 0

abbrev pub op_map_udp : ℕ
op_map_udp = 1

abbrev pub op_map_tcp : ℕ
op_map_tcp = 2

abbrev pub op_response_flag : ℕ
op_response_flag = 128

-- `nil`, the success code, is `ok tt`.
unfoldable pub result_error : ℕ → Result (Unit {0})
result_error code =
    if code == 0
    then ok tt
    else if code == 2
    then err not_authorized
    else if code == 4
    then err no_resources
    else if code == 1 || code == 5
    then err unsupported
    else err (failed "natpmp: gateway result code")

unfoldable pub map_opcode : Protocol → Result ℕ
map_opcode p =
    if p == udp
    then ok op_map_udp
    else if p == tcp
    then ok op_map_tcp
    else err (failed "natpmp: unsupported protocol")

unfoldable pub encode_external_address_request : List ℕ
encode_external_address_request = proto_version ∷ op_external_address ∷ []

pub record ExternalAddressResponse : Type 0 where
  pub epoch : ℕ
  pub external_ip : List ℕ

unfoldable pub decode_external_address_response : List ℕ → Result ExternalAddressResponse
decode_external_address_response b = do
  reject_if (ltb (length b) 12) (failed "natpmp: external address response too short")
  reject_if (get_or b 0 0 != proto_version) (failed "natpmp: unexpected version")
  reject_if (get_or b 1 0 != op_external_address + op_response_flag)
      (failed "natpmp: unexpected opcode")
  result_error (uint (slice b 2 4))
  ok (record { epoch = uint (slice b 4 8); external_ip = slice b 8 12 })

unfoldable pub encode_map_request : Protocol → ℕ → ℕ → ℕ → Result (List ℕ)
encode_map_request p internal_port external_port lifetime_sec = do
  op ← map_opcode p
  let b0 = replicate 12 0
  let b1 = copy_at 0 (proto_version ∷ []) b0
  let b2 = copy_at 1 (op ∷ []) b1
  let b3 = copy_at 4 (uint16_bytes internal_port) b2
  let b4 = copy_at 6 (uint16_bytes external_port) b3
  ok (copy_at 8 (uint32_bytes lifetime_sec) b4)

pub record MapResponse : Type 0 where
  pub epoch : ℕ
  pub internal_port : ℕ
  pub external_port : ℕ
  pub lifetime_sec : ℕ

unfoldable pub decode_map_response : List ℕ → Protocol → Result MapResponse
decode_map_response b p = do
  reject_if (ltb (length b) 16) (failed "natpmp: map response too short")
  reject_if (get_or b 0 0 != proto_version) (failed "natpmp: unexpected version")
  op ← map_opcode p
  reject_if (get_or b 1 0 != (op + op_response_flag) % 256) (failed "natpmp: unexpected opcode")
  result_error (uint (slice b 2 4))
  ok (record {
    epoch = uint (slice b 4 8);
    internal_port = uint (slice b 8 10);
    external_port = uint (slice b 10 12);
    lifetime_sec = uint (slice b 12 16);
  })
