-- ===== src/Pcp/Gateway.antt =====
-- A gateway that speaks RFC 6887, for the client of internal/portmapper/pcp.
pub mod Ready
pub mod Served
use nat_pmp.Common.{
  ℕ, ◌+◌, ◌≤◌, ◌<◌, ◌^◌, ◌≡◌, ◌≢◌, refl, arith, ap, ◌∙◌, List, [], ◌∷◌, ◌++◌, if◌then◌else◌, ◌==◌,
  length, take, drop, get_or, slice, length-append, take-append_exact, drop-append_past,
  get_or-append_past, nat_eq, list_eq, take-all, Bool, true, false,
}
use nat_pmp.Common.Bytes.{uint, uint16_bytes, uint32_bytes, uint-uint16_bytes, uint-uint32_bytes}
use nat_pmp.Addr.{Addr, invalid, v4, v6, unmap, addr_from16, as16}
use nat_pmp.Pcp.Codec.{MapRequest, MapResponse}
use nat_pmp.Pcp.Wire.{IsAddress, length-as16, map_request_bytes}
use nat_pmp.Pcp.Wire.Response.{
  IsCanonical, IsInRange, map_response_bytes, length-as16 as length-canonical,
}

-- A gateway's address, its epoch, and what it grants: the external port for a protocol number, an
-- internal and a suggested external port, and the lifetime for the one that is asked for.
pub record Gateway : Type 0 where
  pub address : Addr
  pub epoch : ℕ
  pub assigned : ℕ → ℕ → ℕ → ℕ
  pub lifetime : ℕ → ℕ

-- What it grants can stand in a response, and is not 0.
pub record IsProper (g : Gateway) : Type 0 where
  pub address : IsCanonical g.address
  pub epoch : g.epoch < 2 ^ 32
  pub assigned : (p i e : ℕ) → (g.assigned p i e ≢ 0) × (g.assigned p i e < 2 ^ 16)
  pub lifetime : (s : ℕ) → (g.lifetime s ≢ 0) × (g.lifetime s < 2 ^ 32)

-- The response to the MAP request with these fields. A lifetime of 0 asks for the deletion, which is
-- answered with the lifetime 0 and the suggested external port and address (section 15); the nonce is
-- repeated.
unfoldable pub granted : Gateway → ℕ → List ℕ → ℕ → ℕ → Addr → ℕ → MapResponse
granted g protocol nonce internal_port external_port external_addr lifetime_sec = record {
  result_code = 0;
  lifetime_sec = if lifetime_sec == 0 then 0 else g.lifetime lifetime_sec;
  epoch = g.epoch;
  nonce = nonce;
  protocol = protocol;
  internal_port = internal_port;
  external_port =
      if lifetime_sec == 0 then external_port else g.assigned protocol internal_port external_port;
  external_addr = if lifetime_sec == 0 then external_addr else g.address;
}

-- The gateway's answer to the bytes of a request.
unfoldable pub serve : Gateway → List ℕ → List ℕ
serve g b = map_response_bytes (
    granted g (get_or b 36 0) (slice b 24 36) (uint (slice b 40 42)) (uint (slice b 42 44))
      (unmap (addr_from16 (slice b 44 60))) (uint (slice b 4 8)))

-- The sixteen bytes of an address are read back.
unmap-take-as16 : (a : Addr) → IsCanonical a → unmap (addr_from16 (take 16 (as16 a))) ≡ a
unfolding list_eq nat_eq
unmap-take-as16 invalid h = absurd h
unmap-take-as16 (v4 n) h = ap v4 (uint-uint32_bytes n h)
unmap-take-as16 (v6 bs zone) (hl, hp, hz) = ground (arith, take-all 16 bs hl)

pub serve-map :
    (g : Gateway) (proto : ℕ) (r : MapRequest)
    → IsAddress r.client_addr
    → IsCanonical r.external_addr
    → length r.nonce ≡ 12
    → r.internal_port < 2 ^ 16
    → r.external_port < 2 ^ 16
    → r.lifetime_sec < 2 ^ 32
    → serve g (map_request_bytes proto r)
      ≡ map_response_bytes
          (granted g proto r.nonce r.internal_port r.external_port r.external_addr r.lifetime_sec)
unfolding serve
serve-map g proto r hc hx hn hi he hl =
    let t =
      proto
      ∷ 0
      ∷ 0
      ∷ 0
      ∷ (uint16_bytes r.internal_port ++ (uint16_bytes r.external_port ++ as16 r.external_addr)) in
    let client = length-as16 r.client_addr hc in
    rw
      (
        get_or-append_past 16 12 (as16 r.client_addr) (r.nonce ++ t) 0 client,
        get_or-append_past 12 0 r.nonce t 0 hn,
        drop-append_past 16 0 (as16 r.client_addr) (r.nonce ++ t) client,
        drop-append_past 16 16 (as16 r.client_addr) (r.nonce ++ t) client,
        drop-append_past 16 18 (as16 r.client_addr) (r.nonce ++ t) client,
        take-append_exact 12 r.nonce t hn,
        drop-append_past 12 4 r.nonce t hn,
        drop-append_past 12 6 r.nonce t hn,
        drop-append_past 16 20 (as16 r.client_addr) (r.nonce ++ t) client,
        drop-append_past 12 8 r.nonce t hn,
        unmap-take-as16 r.external_addr hx,
        uint-uint16_bytes r.internal_port hi,
        uint-uint16_bytes r.external_port he,
        uint-uint32_bytes r.lifetime_sec hl,
      )
      refl

IsCanonical-either :
    (b : Bool) (x y : Addr) → IsCanonical x → IsCanonical y → IsCanonical (if b then x else y)
IsCanonical-either true x y hx hy = hx
IsCanonical-either false x y hx hy = hy

pub granted-IsInRange :
    (g : Gateway) (p : ℕ) (n : List ℕ) (i e : ℕ) (a : Addr) (l : ℕ)
    → IsProper g
    → IsCanonical a
    → length n ≡ 12
    → i < 2 ^ 16
    → e < 2 ^ 16
    → IsInRange (granted g p n i e a l)
unfolding granted
granted-IsInRange g p n i e a l proper ha hn hi he = record {
  success = refl;
  lifetime_sec = ground (arith, proper.lifetime l);
  epoch = proper.epoch;
  nonce = hn;
  internal_port = hi;
  external_port = ground (arith, proper.assigned p i e);
  external_addr = IsCanonical-either (l == 0) a g.address ha proper.address;
}

pub length-map_response_bytes : (r : MapResponse) → IsInRange r → length (map_response_bytes r) ≡ 60
length-map_response_bytes r h = ground (
  arith,
  length-append r.nonce (
      r.protocol
      ∷ 0
      ∷ 0
      ∷ 0
      ∷ (uint16_bytes r.internal_port ++ (uint16_bytes r.external_port ++ as16 r.external_addr))),
  length-canonical r.external_addr,
)
