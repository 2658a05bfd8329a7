-- ===== src/Pcp/Gateway/Served.antt =====
-- Every method of the client of internal/portmapper/pcp succeeds against an RFC 6887 gateway.
use nat_pmp.Common.{
  ℕ, ◌*◌, ◌<◌, ◌^◌, ◌≡◌, ◌⊎◌, inl, inr, refl, arith, ap, ◌∙◌, Bool, ◌∷◌, length, take,
  take-all_within, string_eq, nat_eq, list_eq, ok,
}
use nat_pmp.Common.Int.{pos, second}
use nat_pmp.Addr.{invalid, ipv6_unspecified}
use nat_pmp.Mapping.{Request, tcp, validate, lifetime_or, wire_seconds}
use nat_pmp.Mapping.Validity.{validate_iff, wire_seconds-lifetime_or}
use nat_pmp.Network.{Net, History, drew_nonce}
use nat_pmp.Network.Exchange.Answer.{sent}
use nat_pmp.Network.Exchange.Served.{Delivers, IsFair, attempts-served}
use nat_pmp.Pcp.Codec.{
  MapRequest, response_len, ip_protocol, encode_map_request, decode_map_response,
}
use nat_pmp.Pcp.Wire.{IsAddress, map_request_bytes, encode_map_request_wire}
use nat_pmp.Pcp.Wire.Response.{IsCanonical, map_response_bytes, decode_map_response-bytes}
use nat_pmp.Pcp.Client.{
  Settings, State, nonce_key_eq, server_addr, buffer_len, default_lease, dial, draw_nonce,
  nonce_for, delete_nonce, check_response, exchange_on, map_request, external_ip, map, unmap,
}
use nat_pmp.Pcp.Nonces.{dialled}
use nat_pmp.Pcp.Gateway.Ready.{IsReady, AreNonces, dial-ready, nonce_for-ready, nonce_for-AreNonces}
use nat_pmp.Pcp.Gateway.{
  Gateway, IsProper, granted, serve, serve-map, granted-IsInRange, length-map_response_bytes,
}

known_protocol : (r : Request) → validate r ≡ ok tt → (p : ℕ) × (ip_protocol r.protocol ≡ ok p)
unfolding ip_protocol string_eq
known_protocol r valid = elim ((validate_iff r).0 valid).known [
  | inl t ↦ (6, rw t refl)
  | inr u ↦ (17, rw u refl)
]

tcp_number : ip_protocol tcp ≡ ok 6
unfolding ip_protocol string_eq
tcp_number = refl

unspecified-IsCanonical : IsCanonical ipv6_unspecified
unspecified-IsCanonical = (refl, λ e. cc (e), refl)

module _ (net : Net) (c : Settings) (g : Gateway) (arrives : ℕ → Bool)
    (w : Delivers net (server_addr c) (serve g) arrives) (ready : IsReady net (server_addr c))
    (fair : IsFair c.max_attempts arrives) (proper : IsProper g) where
  exchange_on-served :
      (proto : ℕ) (q : MapRequest) (h : History)
      → ip_protocol q.protocol ≡ ok proto
      → IsAddress q.client_addr
      → IsAddress q.external_addr
      → IsCanonical q.external_addr
      → length q.nonce ≡ 12
      → q.internal_port < 2 ^ 16
      → q.external_port < 2 ^ 16
      → q.lifetime_sec < 2 ^ 32
      → let b = map_request_bytes proto q in
        let d =
          granted g proto q.nonce q.internal_port q.external_port q.external_addr q.lifetime_sec in
        (encode_map_request q ≡ ok b)
        × ((exchange_on net c b h).0 ≡ ok (map_response_bytes d))
        × (decode_map_response (map_response_bytes d) ≡ ok d)
  unfolding exchange_on
  exchange_on-served proto q h hp hc he hr hn hi hx hl =
      let b = map_request_bytes proto q in
      let d =
        granted g proto q.nonce q.internal_port q.external_port q.external_addr q.lifetime_sec in
      let answered = serve-map g proto q hc hr hn hi hx hl in
      let range =
        granted-IsInRange g proto q.nonce q.internal_port q.external_port q.external_addr
          q.lifetime_sec proper hr hn hi hx in
      let long : length (serve g b) ≡ 60 = ap length answered ∙ length-map_response_bytes d range in
      let whole : take buffer_len (serve g b) ≡ serve g b =
        take-all_within buffer_len (serve g b) (omega arith) in
      let (k, lt, there) = fair (length (sent h)) in
      (
        encode_map_request_wire q proto hp hc he hn,
        attempts-served net "pcp" (server_addr c) buffer_len response_len (serve g) arrives w b
              (omega (arith, ap length whole)) c.max_attempts c.initial_timeout h k lt there
            ∙ ap ok (whole ∙ answered),
        decode_map_response-bytes d range,
      )

  -- The seconds that `Map` asks for.
  abbrev seconds_of : Request → ℕ
  seconds_of r = wire_seconds (lifetime_or default_lease r)

  unmap-served :
      (r : Request) (s : State)
      → validate r ≡ ok tt
      → (r.internal_address ≡ invalid) ⊎ IsAddress r.internal_address
      → r.internal_port < 2 ^ 16
      → r.external_port < 2 ^ 16
      → AreNonces s.nonces
      → (unmap net c r s).0 ≡ ok tt
  unfolding unmap check_response delete_nonce granted
  unmap-served r s valid bound hi he kept =
      let (p, hp) = known_protocol r valid in
      let (a, da, ha) = dial-ready net c w.listens ready r.internal_address s.history bound in
      let (n, dn, hn) = nonce_for-ready net c w.listens ready r (dialled net c r s) kept in
      let q = map_request net c n r.protocol r.internal_port r.external_port a 0 in
      let h = (nonce_for net r (dialled net c r s)).1.history in
      let (encoded, answered, decoded) =
        exchange_on-served p q h hp ha refl unspecified-IsCanonical hn hi he (omega arith) in
      ground (arith, encoded, answered, decoded)

  external_ip-served : (s : State) → (external_ip net c s).0 ≡ ok ipv6_unspecified
  unfolding external_ip draw_nonce granted
  external_ip-served s =
      let (a, da, ha) = dial-ready net c w.listens ready invalid s.history (inl refl) in
      let h1 = (dial net c invalid s.history).1 in
      let (n, dn, hn) = ready.draws h1 in
      let q = map_request net c n tcp 0 0 a 0 in
      let (encoded, answered, decoded) =
        exchange_on-served 6 q (drew_nonce ∷ h1) tcp_number ha refl unspecified-IsCanonical hn
          (omega arith) (omega arith) (omega arith) in
      ground (arith, encoded, answered, decoded)

  map-served :
      (r : Request) (s : State) (p : ℕ)
      → ip_protocol r.protocol ≡ ok p
      → validate r ≡ ok tt
      → (r.internal_address ≡ invalid) ⊎ IsAddress r.internal_address
      → r.internal_port < 2 ^ 16
      → r.external_port < 2 ^ 16
      → AreNonces s.nonces
      → (read : History) × ((map net c r s).0
          ≡ ok (record {
            protocol = r.protocol;
            internal_port = r.internal_port;
            external_port = g.assigned p r.internal_port r.external_port;
            external_ip = g.address;
            lifetime = pos (g.lifetime (seconds_of r) * second);
            acquired = net.now read;
          }))
  unfolding map check_response granted
  map-served r s p hp valid bound hi he kept =
      let (exact, lt, some_time) =
        wire_seconds-lifetime_or default_lease r (omega arith) (omega arith) valid in
      let (a, da, ha) = dial-ready net c w.listens ready r.internal_address s.history bound in
      let (n, dn, hn) = nonce_for-ready net c w.listens ready r (dialled net c r s) kept in
      let q = map_request net c n r.protocol r.internal_port r.external_port a (seconds_of r) in
      let h = (nonce_for net r (dialled net c r s)).1.history in
      let (encoded, answered, decoded) =
        exchange_on-served p q h hp ha refl unspecified-IsCanonical hn hi he lt in
      (
        (exchange_on net c (map_request_bytes p q) h).1,
        ground (
          arith,
          encoded,
          answered,
          decoded,
          proper.assigned p r.internal_port r.external_port,
          proper.lifetime (seconds_of r),
        ),
      )

  map-AreNonces :
      (r : Request) (s : State) → AreNonces s.nonces → AreNonces (map net c r s).1.nonces
  unfolding map
  map-AreNonces r s kept k n e =
      ground
        (arith, kept k n, nonce_for-AreNonces net c w.listens ready r (dialled net c r s) kept k n)

  -- Against a gateway that answers as RFC 6887 says and grants what it is asked for, over a network
  -- on which no call fails, the context is never done, and of any `maxAttempts` datagrams in a row one
  -- is answered, from a host that can draw nonces and finds its IPv4 address: `ExternalIP` succeeds,
  -- with the unspecified address that its request, of the lifetime 0, suggests, since the answer to a
  -- deletion repeats it; `Map` of a valid request, with ports of 16 bits and a well-formed local address
  -- or none, returns the lease that the gateway has granted, for the seconds asked for, or an hour if
  -- none are, with the gateway's external address, acquired at a reading of the clock; and `Unmap`
  -- succeeds. The nonces that are kept have twelve bytes before, and after `Map`.
  pub methods-answered :
      (r : Request) (s : State)
      → validate r ≡ ok tt
      → (r.internal_address ≡ invalid) ⊎ IsAddress r.internal_address
      → r.internal_port < 2 ^ 16
      → r.external_port < 2 ^ 16
      → AreNonces s.nonces
      → ((external_ip net c s).0 ≡ ok ipv6_unspecified)
        × ((p : ℕ) × (ip_protocol r.protocol ≡ ok p)
            × ((read : History) × ((map net c r s).0
                  ≡ ok (record {
                    protocol = r.protocol;
                    internal_port = r.internal_port;
                    external_port = g.assigned p r.internal_port r.external_port;
                    external_ip = g.address;
                    lifetime = pos (g.lifetime (seconds_of r) * second);
                    acquired = net.now read;
                  }))))
        × ((unmap net c r s).0 ≡ ok tt)
        × AreNonces (map net c r s).1.nonces
  methods-answered r s valid bound hi he kept =
      let (p, hp) = known_protocol r valid in
      (
        external_ip-served s,
        (p, hp, map-served r s p hp valid bound hi he kept),
        unmap-served r s valid bound hi he kept,
        map-AreNonces r s kept,
      )
