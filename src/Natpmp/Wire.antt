-- ===== src/Natpmp/Wire.antt =====
-- NAT-PMP messages against the wire formats of RFC 6886.
use nat_pmp.Common.{ℕ, ◌+◌, ◌^◌, ◌<◌, ◌≡◌, ◌↔◌, arith, List, ◌∷◌, ◌++◌}
use nat_pmp.Common.{
  ◌⊎◌, ◌≤◌, length, take, get_or, slice, sym, ap, ◌∙◌, get_or-take, slice-take, length-take, All,
  string_eq, nat_eq, ok,
}
use nat_pmp.Common.Bytes.{
  uint, uint16_bytes, uint32_bytes, IsByte, uint32_bytes-uint, uint16_bytes-uint, uint-uint16_bytes,
  uint-uint32_bytes,
}
use nat_pmp.Mapping.{Protocol}
use nat_pmp.Natpmp.Codec.{
  MapResponse, result_error, map_opcode, encode_map_request, decode_map_response,
}

-- A successful response to a mapping request (RFC 6886 section 3.3).
abbrev pub map_response_bytes : ℕ → MapResponse → List ℕ
map_response_bytes op r =
    0
    ∷ (op + 128)
    ∷ 0
    ∷ 0
    ∷ (uint32_bytes r.epoch
        ++ (uint16_bytes r.internal_port
            ++ (uint16_bytes r.external_port ++ uint32_bytes r.lifetime_sec)))

pub record IsInRange (r : MapResponse) : Type 0 where
  pub epoch : r.epoch < 2 ^ 32
  pub internal_port : r.internal_port < 2 ^ 16
  pub external_port : r.external_port < 2 ^ 16
  pub lifetime_sec : r.lifetime_sec < 2 ^ 32

result_error-ok : (code : ℕ) → result_error code ≡ ok tt → code ≡ 0
unfolding result_error
result_error-ok code h = ground arith

pub map_opcode-cases : (p : Protocol) (op : ℕ) → map_opcode p ≡ ok op → (op ≡ 1) ⊎ (op ≡ 2)
unfolding map_opcode
map_opcode-cases p op h = ground arith

-- What a successful decoding has tested and read.
decoded : List ℕ → MapResponse
decoded b = record {
  epoch = uint (slice b 4 8);
  internal_port = uint (slice b 8 10);
  external_port = uint (slice b 10 12);
  lifetime_sec = uint (slice b 12 16);
}

record Accepts (b : List ℕ) (op : ℕ) : Type 0 where
  long : 16 ≤ length b
  version : get_or b 0 0 ≡ 0
  opcode : get_or b 1 0 ≡ op + 128
  success : uint (slice b 2 4) ≡ 0

decode_map_response-Accepts :
    (p : Protocol) (op : ℕ) (r : MapResponse) (b : List ℕ)
    → map_opcode p ≡ ok op
    → (decode_map_response b p ≡ ok r) ↔ (Accepts b op × (r ≡ decoded b))
unfolding decode_map_response decoded result_error
decode_map_response-Accepts p op r b hp = (
  λ h. ground (arith, map_opcode-cases p op, result_error-ok (uint (slice b 2 4))),
  λ h. ground (arith, map_opcode-cases p op),
)

bytes-decoded :
    (op : ℕ) (b : List ℕ)
    → All IsByte b
    → Accepts b op
    → take 16 b ≡ map_response_bytes op (decoded b)
unfolding decoded
bytes-decoded op
      (b0 ∷ b1 ∷ b2 ∷ b3 ∷ b4 ∷ b5 ∷ b6 ∷ b7 ∷ b8 ∷ b9 ∷ b10 ∷ b11 ∷ b12 ∷ b13 ∷ b14 ∷ b15 ∷ rest)
      hb h =
    ground (
      arith,
      uint32_bytes-uint b4 b5 b6 b7,
      uint16_bytes-uint b8 b9,
      uint16_bytes-uint b10 b11,
      uint32_bytes-uint b12 b13 b14 b15,
    )
bytes-decoded op _ hb h = absurd (omega arith)

-- The bytes determine what the decoding tests and reads.
decoded-bytes :
    (op : ℕ) (r : MapResponse) (b : List ℕ)
    → IsInRange r
    → take 16 b ≡ map_response_bytes op r
    → Accepts b op × (r ≡ decoded b)
unfolding decoded
decoded-bytes op r b h e = (
  record {
    long = omega (arith, length-take 16 b, ap length e);
    version = (sym (get_or-take 16 0 b 0 (omega arith))) ∙ rw e;
    opcode = (sym (get_or-take 16 1 b 0 (omega arith))) ∙ rw e;
    success = field 2 4 (omega arith) (omega arith);
  },
  λ i. record {
    epoch = (sym (field 4 8 (omega arith) (omega arith) ∙ uint-uint32_bytes r.epoch h.epoch)) i;
    internal_port =
        (sym (
            field 8 10 (omega arith) (omega arith)
            ∙ uint-uint16_bytes r.internal_port h.internal_port))
          i;
    external_port =
        (sym (
            field 10 12 (omega arith) (omega arith)
            ∙ uint-uint16_bytes r.external_port h.external_port))
          i;
    lifetime_sec =
        (sym (
            field 12 16 (omega arith) (omega arith)
            ∙ uint-uint32_bytes r.lifetime_sec h.lifetime_sec))
          i;
  },
)
  where
    field :
        (lo hi : ℕ)
        → lo ≤ hi
        → hi ≤ 16
        → uint (slice b lo hi) ≡ uint (slice (map_response_bytes op r) lo hi)
    field lo hi p q = ap uint (sym (slice-take 16 lo hi b p q)) ∙ ap (λ c. uint (slice c lo hi)) e

-- For a protocol with opcode `op`, `decode_map_response` returns `r` exactly on the byte strings
-- that begin with the sixteen bytes of a successful RFC 6886 response with the fields of `r`.
pub decode_map_response_wire :
    (p : Protocol) (op : ℕ) (r : MapResponse) (b : List ℕ)
    → map_opcode p ≡ ok op
    → All IsByte b
    → IsInRange r
    → (decode_map_response b p ≡ ok r) ↔ (take 16 b ≡ map_response_bytes op r)
decode_map_response_wire p op r b hp hb hr = (
  λ h. let (a, e) = (decode_map_response-Accepts p op r b hp).0 h in rw e (bytes-decoded op b hb a),
  λ h. (decode_map_response-Accepts p op r b hp).1 (decoded-bytes op r b hr h),
)

abbrev pub map_request_bytes : ℕ → ℕ → ℕ → ℕ → List ℕ
map_request_bytes op internal_port external_port lifetime_sec =
    0
    ∷ op
    ∷ 0
    ∷ 0
    ∷ (uint16_bytes internal_port ++ (uint16_bytes external_port ++ uint32_bytes lifetime_sec))

pub encode_map_request_lem :
    (p : Protocol) (op internal_port external_port lifetime_sec : ℕ)
    → map_opcode p ≡ ok op
    → encode_map_request p internal_port external_port lifetime_sec
      ≡ ok (map_request_bytes op internal_port external_port lifetime_sec)
unfolding encode_map_request
encode_map_request_lem p op ip ep lt hp = rw hp

-- A mapping request for a known protocol is twelve bytes, from which a gateway reads back the
-- version, the opcode, the two ports and the lifetime, each within its field's range.
pub encode_map_request-fields :
    (p : Protocol) (op internal_port external_port lifetime_sec : ℕ) (b : List ℕ)
    → map_opcode p ≡ ok op
    → internal_port < 2 ^ 16
    → external_port < 2 ^ 16
    → lifetime_sec < 2 ^ 32
    → encode_map_request p internal_port external_port lifetime_sec ≡ ok b
    → (length b ≡ 12)
      × (get_or b 0 0 ≡ 0)
      × (get_or b 1 0 ≡ op)
      × (uint (slice b 2 4) ≡ 0)
      × (uint (slice b 4 6) ≡ internal_port)
      × (uint (slice b 6 8) ≡ external_port)
      × (uint (slice b 8 12) ≡ lifetime_sec)
encode_map_request-fields p op ip ep lt b hp hi he hl h =
    let same : b ≡ map_request_bytes op ip ep lt =
      cc (h, encode_map_request_lem p op ip ep lt hp) in
    rw same (omega arith)
