-- ===== src/Pcp/Codec.antt =====
-- internal/portmapper/pcp/codec.go: PCP MAP messages as bytes. `[12]byte` and `[16]byte` are lists.
use nat_pmp.Common.{ℕ, not, List, [], ◌∷◌, ◌||◌}
use nat_pmp.Common.{
  length, get_or, slice, replicate, ltb, ◌==◌, ◌!=◌, string_eq, nat_eq, if◌then◌else◌,
}
use nat_pmp.Common.{unsupported, not_authorized, no_resources, failed}
use nat_pmp.Common.{Result, ok, err, ◌>>=◌, ◌>>◌, reject_if}
use nat_pmp.Common.Bytes.{uint, uint16_bytes, uint32_bytes, copy_at}
use nat_pmp.Addr.{Addr, is_valid, is4, is4_in6, unmap, as16, addr_from16}
use nat_pmp.Mapping.{Protocol, tcp, udp}

abbrev pub proto_version : ℕ
proto_version = 2

abbrev pub op_map : ℕ
op_map = 1

-- opMap|responseFlag
abbrev pub op_map_response : ℕ
op_map_response = 0x81

abbrev pub request_len : ℕ
request_len = 60

abbrev pub response_len : ℕ
response_len = 60

abbrev pub ip_proto_tcp : ℕ
ip_proto_tcp = 6

abbrev pub ip_proto_udp : ℕ
ip_proto_udp = 17

-- `nil`, the success code, is `ok tt`.
unfoldable pub result_error : ℕ → Result (Unit {0})
result_error code =
    if code == 0
    then ok tt
    else if code == 2
    then err not_authorized
    else if code == 8
    then err no_resources
    else if code == 1 || code == 4
    then err unsupported
    else err (failed "pcp: gateway result code")

unfoldable pub ip_protocol : Protocol → Result ℕ
ip_protocol p =
    if p == tcp
    then ok ip_proto_tcp
    else if p == udp
    then ok ip_proto_udp
    else err (failed "pcp: unsupported protocol")

unfoldable pub to16 : Addr → List ℕ
to16 a = if is4 a then as16 (addr_from16 (as16 a)) else as16 a

pub record MapRequest : Type 0 where
  pub nonce : List ℕ
  pub protocol : Protocol
  pub internal_port : ℕ
  pub external_port : ℕ
  pub external_addr : Addr
  pub client_addr : Addr
  pub lifetime_sec : ℕ

unfoldable pub encode_map_request : MapRequest → Result (List ℕ)
encode_map_request r = do
  proto ← ip_protocol r.protocol
  reject_if (not (is_valid r.client_addr)) (failed "pcp: invalid client address")
  reject_if (not (is_valid r.external_addr)) (failed "pcp: invalid external address")
  let b0 = replicate request_len 0
  let b1 = copy_at 0 (proto_version ∷ []) b0
  let b2 = copy_at 1 (op_map ∷ []) b1
  let b3 = copy_at 4 (uint32_bytes r.lifetime_sec) b2
  let b4 = copy_at 8 (to16 r.client_addr) b3
  let b5 = copy_at 24 r.nonce b4
  let b6 = copy_at 36 (proto ∷ []) b5
  let b7 = copy_at 40 (uint16_bytes r.internal_port) b6
  let b8 = copy_at 42 (uint16_bytes r.external_port) b7
  ok (copy_at 44 (to16 r.external_addr) b8)

pub record MapResponse : Type 0 where
  pub result_code : ℕ
  pub lifetime_sec : ℕ
  pub epoch : ℕ
  pub nonce : List ℕ
  pub protocol : ℕ
  pub internal_port : ℕ
  pub external_port : ℕ
  pub external_addr : Addr

unfoldable pub decode_map_response : List ℕ → Result MapResponse
decode_map_response b = do
  reject_if (ltb (length b) response_len) (failed "pcp: map response too short")
  reject_if (get_or b 0 0 != proto_version) (failed "pcp: unexpected version")
  reject_if (get_or b 1 0 != op_map_response) (failed "pcp: unexpected opcode byte")
  let result_code = get_or b 3 0
  result_error result_code
  let addr = addr_from16 (slice b 44 60)
  ok (record {
    result_code = result_code;
    lifetime_sec = uint (slice b 4 8);
    epoch = uint (slice b 8 12);
    nonce = slice b 24 36;
    protocol = get_or b 36 0;
    internal_port = uint (slice b 40 42);
    external_port = uint (slice b 42 44);
    external_addr = if is4_in6 addr then unmap addr else addr;
  })
