-- ===== src/Pcp/Wire.antt =====
-- PCP MAP messages against the wire formats of RFC 6887.
pub mod Response
use nat_pmp.Common.{
  ℕ, ◌+◌, ◌^◌, ◌<◌, ◌≡◌, ◌≢◌, refl, sym, ap, ◌∙◌, arith, String, Bool, true, false, List, [], ◌∷◌,
  ◌++◌,
}
use nat_pmp.Common.{
  ◌/◌, ◌%◌, replicate, length, take, drop, slice, get_or, string_eq, nat_eq, list_eq, Result, ok,
  err,
}
use mathlib.Core.List.{append-nil}
use nat_pmp.Common.Bytes.{
  uint, uint16_bytes, uint32_bytes, copy_at, copy_at-front, copy_at-past, uint-uint16_bytes,
  uint-uint32_bytes,
}
use nat_pmp.Addr.{Addr, invalid, v4, v6, is_valid, is4_in6, unmap, as16, addr_from16, mapped_prefix}
use nat_pmp.Mapping.{Protocol, tcp, udp}
use nat_pmp.Pcp.Codec.{
  to16, ip_protocol, result_error, MapRequest, encode_map_request, MapResponse, decode_map_response,
}

-- A valid address of four or of sixteen bytes.
abbrev pub IsAddress : Addr → Type 0
IsAddress invalid = ⊥
IsAddress (v4 n) = n < 2 ^ 32
IsAddress (v6 bs zone) = length bs ≡ 16

-- A MAP request (RFC 6887 sections 7.1 and 11.1).
abbrev pub map_request_bytes : ℕ → MapRequest → List ℕ
map_request_bytes proto r =
    2
    ∷ 1
    ∷ 0
    ∷ 0
    ∷ (uint32_bytes r.lifetime_sec
        ++ (as16 r.client_addr
            ++ (r.nonce
                ++ (proto
                    ∷ 0
                    ∷ 0
                    ∷ 0
                    ∷ (uint16_bytes r.internal_port
                        ++ (uint16_bytes r.external_port ++ as16 r.external_addr))))))

to16_lem : (a : Addr) → to16 a ≡ as16 a
unfolding to16
to16_lem a = ground arith

pub length-as16 : (a : Addr) → IsAddress a → length (as16 a) ≡ 16
length-as16 invalid h = absurd h
length-as16 (v4 n) h = refl
length-as16 (v6 bs zone) h = h

is_valid-IsAddress : (a : Addr) → IsAddress a → is_valid a ≡ true
is_valid-IsAddress invalid h = absurd h
is_valid-IsAddress (v4 n) h = refl
is_valid-IsAddress (v6 bs zone) h = refl

module _ (client nonce : List ℕ) (hc : length client ≡ 16) (hn : length nonce ≡ 12) where
  past_both :
      (k : ℕ) (src b : List ℕ)
      → copy_at (28 + k) src (client ++ (nonce ++ b)) ≡ client ++ (nonce ++ copy_at k src b)
  past_both k src b =
      let e : 28 + k ≡ 16 + (12 + k) = omega arith in
      rw e (
        copy_at-past 16 (12 + k) client src (nonce ++ b) hc
        ∙ ap (λ bs. client ++ bs) (copy_at-past 12 k nonce src b hn))

  -- The two lists at the front of a zeroed buffer.
  copy_both :
      copy_at 16 nonce (copy_at 0 client (replicate 52 0)) ≡ client ++ (nonce ++ replicate 24 0)
  copy_both =
      let front : copy_at 0 client (replicate 52 0) ≡ client ++ replicate 36 0 =
        copy_at-front client (replicate 52 0) (omega arith) ∙ rw hc in
      let second : copy_at 0 nonce (replicate 36 0) ≡ nonce ++ replicate 24 0 =
        copy_at-front nonce (replicate 36 0) (omega arith) ∙ rw hn in
      ap (copy_at 16 nonce) front
      ∙ copy_at-past 16 0 client nonce (replicate 36 0) hc
      ∙ ap (λ bs. client ++ bs) second

  -- All that is written behind the first eight bytes.
  layout :
      (proto i0 i1 e0 e1 : ℕ) (ext : List ℕ)
      → length ext ≡ 16
      → copy_at 36 ext (
          copy_at 34 (e0 ∷ e1 ∷ []) (
            copy_at 32
              (i0 ∷ i1 ∷ [])
              (copy_at 28 (proto ∷ []) (copy_at 16 nonce (copy_at 0 client (replicate 52 0))))))
        ≡ client ++ (nonce ++ (proto ∷ 0 ∷ 0 ∷ 0 ∷ i0 ∷ i1 ∷ e0 ∷ e1 ∷ ext))
  layout proto i0 i1 e0 e1 ext he =
      let last : copy_at 0 ext (replicate 16 0) ≡ ext =
        copy_at-front ext (replicate 16 0) (omega arith) ∙ rw he (append-nil ext) in
      ap
        (λ b.
          copy_at 36 ext
            (copy_at 34 (e0 ∷ e1 ∷ []) (copy_at 32 (i0 ∷ i1 ∷ []) (copy_at 28 (proto ∷ []) b))))
        copy_both
      ∙ ap (λ b. copy_at 36 ext (copy_at 34 (e0 ∷ e1 ∷ []) (copy_at 32 (i0 ∷ i1 ∷ []) b)))
          (past_both 0 _ _)
      ∙ ap (λ b. copy_at 36 ext (copy_at 34 (e0 ∷ e1 ∷ []) b)) (past_both 4 _ _)
      ∙ ap (copy_at 36 ext) (past_both 6 _ _)
      ∙ past_both 8 _ _
      ∙ ap (λ b. client ++ (nonce ++ (proto ∷ 0 ∷ 0 ∷ 0 ∷ i0 ∷ i1 ∷ e0 ∷ e1 ∷ b))) last

-- For a known protocol, two addresses and a nonce of twelve bytes, the request is laid out in the
-- order and at the offsets of RFC 6887, each field in network byte order.
pub encode_map_request_wire :
    (r : MapRequest) (proto : ℕ)
    → ip_protocol r.protocol ≡ ok proto
    → IsAddress r.client_addr
    → IsAddress r.external_addr
    → length r.nonce ≡ 12
    → encode_map_request r ≡ ok (map_request_bytes proto r)
unfolding encode_map_request
encode_map_request_wire r proto hp hc he hn =
    rw
      (
        hp,
        is_valid-IsAddress r.client_addr hc,
        is_valid-IsAddress r.external_addr he,
        to16_lem r.client_addr,
        to16_lem r.external_addr,
      )
      (ap (λ b. ok (2 ∷ 1 ∷ 0 ∷ 0 ∷ (uint32_bytes r.lifetime_sec ++ b)))
        (layout (as16 r.client_addr) r.nonce (length-as16 r.client_addr hc) hn proto
          (r.internal_port / 256 % 256) (r.internal_port % 256) (r.external_port / 256 % 256)
          (r.external_port % 256) (as16 r.external_addr) (length-as16 r.external_addr he)))
