-- ===== src/Pcp/Wire/Response.antt =====
-- Decoding a PCP MAP response.
use nat_pmp.Common.{
  ℕ, ◌^◌, ◌<◌, ◌≡◌, ◌≢◌, refl, sym, ap, arith, false, List, ◌∷◌, ◌++◌, if◌then◌else◌,
}
use nat_pmp.Common.{length, take, ltb, length-append, string_eq, nat_eq, list_eq, ok}
use nat_pmp.Common.{take-append_exact, take-all, drop-append_past, get_or-append_past}
use nat_pmp.Common.Bytes.{uint16_bytes, uint32_bytes, uint-uint16_bytes, uint-uint32_bytes}
use nat_pmp.Addr.{Addr, invalid, v4, v6, is4_in6, unmap, as16, addr_from16, mapped_prefix}
use nat_pmp.Pcp.Codec.{result_error, MapResponse, decode_map_response}

-- An address in the one form that a decoding yields: IPv4 where it can be.
abbrev pub IsCanonical : Addr → Type 0
IsCanonical invalid = ⊥
IsCanonical (v4 n) = n < 2 ^ 32
IsCanonical (v6 bs zone) = (length bs ≡ 16) × (take 12 bs ≢ mapped_prefix) × (zone ≡ "")

-- A successful MAP response (RFC 6887 sections 7.2 and 11.1), its reserved bytes 0.
abbrev pub map_response_bytes : MapResponse → List ℕ
map_response_bytes r =
    2
    ∷ 0x81
    ∷ 0
    ∷ 0
    ∷ (uint32_bytes r.lifetime_sec
        ++ (uint32_bytes r.epoch
            ++ (0
                ∷ 0
                ∷ 0
                ∷ 0
                ∷ 0
                ∷ 0
                ∷ 0
                ∷ 0
                ∷ 0
                ∷ 0
                ∷ 0
                ∷ 0
                ∷ (r.nonce
                    ++ (r.protocol
                        ∷ 0
                        ∷ 0
                        ∷ 0
                        ∷ (uint16_bytes r.internal_port
                            ++ (uint16_bytes r.external_port ++ as16 r.external_addr)))))))

pub record IsInRange (r : MapResponse) : Type 0 where
  pub success : r.result_code ≡ 0
  pub lifetime_sec : r.lifetime_sec < 2 ^ 32
  pub epoch : r.epoch < 2 ^ 32
  pub nonce : length r.nonce ≡ 12
  pub internal_port : r.internal_port < 2 ^ 16
  pub external_port : r.external_port < 2 ^ 16
  pub external_addr : IsCanonical r.external_addr

unmap-as16 :
    (a : Addr)
    → IsCanonical a
    → (if is4_in6 (addr_from16 (as16 a))
        then unmap (addr_from16 (as16 a))
        else addr_from16 (as16 a))
      ≡ a
unfolding list_eq nat_eq
unmap-as16 invalid h = absurd h
unmap-as16 (v4 n) h = ap v4 (uint-uint32_bytes n h)
unmap-as16 (v6 bs zone) (hl, hp, hz) = ground arith

pub length-as16 : (a : Addr) → IsCanonical a → length (as16 a) ≡ 16
length-as16 invalid h = absurd h
length-as16 (v4 n) h = refl
length-as16 (v6 bs zone) h = h.0

-- What follows the nonce.
abbrev behind_nonce : MapResponse → List ℕ
behind_nonce r =
    r.protocol
    ∷ 0
    ∷ 0
    ∷ 0
    ∷ (uint16_bytes r.internal_port ++ (uint16_bytes r.external_port ++ as16 r.external_addr))

is_long : (r : MapResponse) → IsInRange r → ltb (length (map_response_bytes r)) 60 ≡ false
is_long r h = ground (arith, length-append r.nonce (behind_nonce r), length-as16 r.external_addr)

-- Decoding the bytes of a successful response gives back its fields, each within its
-- range; an IPv4 external address, sent in the mapped form, comes back as IPv4.
pub decode_map_response-bytes :
    (r : MapResponse) → IsInRange r → decode_map_response (map_response_bytes r) ≡ ok r
unfolding decode_map_response result_error nat_eq
decode_map_response-bytes r h =
    let t = behind_nonce r in
    let same = unmap-as16 r.external_addr h.external_addr in
    rw
      (
        is_long r h,
        take-append_exact 12 r.nonce t h.nonce,
        get_or-append_past 12 0 r.nonce t 0 h.nonce,
        drop-append_past 12 4 r.nonce t h.nonce,
        drop-append_past 12 6 r.nonce t h.nonce,
        drop-append_past 12 8 r.nonce t h.nonce,
        take-all 16 (as16 r.external_addr) (length-as16 r.external_addr h.external_addr),
      )
      λ i. ok (record {
        result_code = (sym h.success) i;
        lifetime_sec = (uint-uint32_bytes r.lifetime_sec h.lifetime_sec) i;
        epoch = (uint-uint32_bytes r.epoch h.epoch) i;
        nonce = r.nonce;
        protocol = r.protocol;
        internal_port = (uint-uint16_bytes r.internal_port h.internal_port) i;
        external_port = (uint-uint16_bytes r.external_port h.external_port) i;
        external_addr = same i;
      })
