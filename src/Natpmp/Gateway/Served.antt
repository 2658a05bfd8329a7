-- ===== src/Natpmp/Gateway/Served.antt =====
-- Every method of the client of internal/portmapper/natpmp succeeds against an RFC 6886 gateway.
use nat_pmp.Common.{
  ℕ, ◌*◌, ◌≤◌, ◌<◌, ◌^◌, ◌%◌, ◌≡◌, inl, inr, refl, arith, ap, Bool, List, ◌∷◌, length, take,
  take-all_within, string_eq, nat_eq, ok,
}
use nat_pmp.Common.Bytes.{uint-uint32_bytes}
use nat_pmp.Common.Int.{pos, second}
use nat_pmp.Addr.{Addr, invalid, v4}
use nat_pmp.Mapping.{Request, validate, lifetime_or, wire_seconds}
use nat_pmp.Mapping.Validity.{validate_iff, wire_seconds-lifetime_or}
use nat_pmp.Network.{Net, History, listened}
use nat_pmp.Network.Exchange.Answer.{sent}
use nat_pmp.Network.Exchange.Served.{Delivers, IsFair, attempts-served}
use nat_pmp.Natpmp.Codec.{map_opcode, encode_external_address_request, decode_map_response}
use nat_pmp.Natpmp.Wire.{
  map_request_bytes, map_response_bytes, decode_map_response_wire, encode_map_request_lem,
  map_opcode-cases,
}
use nat_pmp.Natpmp.Client.{
  Settings, server_addr, buffer_len, default_lease, default_dial, exchange_on, exchange,
  external_ip, map, unmap,
}
use nat_pmp.Natpmp.Gateway.{
  Gateway, IsProper, granted, serve, serve-address, serve-map, granted-IsInRange, decode-address,
}

pub known_opcode : (r : Request) → validate r ≡ ok tt → (op : ℕ) × (map_opcode r.protocol ≡ ok op)
unfolding map_opcode string_eq
known_opcode r valid = elim ((validate_iff r).0 valid).known [
  | inl t ↦ (2, rw t refl)
  | inr u ↦ (1, rw u refl)
]

module _ (net : Net) (c : Settings) (g : Gateway) (arrives : ℕ → Bool)
    (w : Delivers net (server_addr c) (serve g) arrives) (fair : IsFair c.max_attempts arrives)
    (proper : IsProper g) where
  exchange-served :
      (bind_addr : Addr) (req : List ℕ) (resp_len : ℕ) (h : History)
      → length (serve g req) ≡ resp_len
      → resp_len ≤ buffer_len
      → (exchange net c bind_addr req resp_len h).0 ≡ ok (serve g req)
  unfolding exchange default_dial exchange_on
  exchange-served bind_addr req resp_len h e fits =
      let h1 = listened bind_addr ∷ h in
      let (k, lt, there) = fair (length (sent h1)) in
      let whole : take buffer_len (serve g req) ≡ serve g req =
        take-all_within buffer_len (serve g req) (omega arith) in
      ground (
        arith,
        w.listens h bind_addr,
        whole,
        attempts-served net "natpmp" (server_addr c) buffer_len resp_len (serve g) arrives w req
            (omega (arith, ap length whole)) c.max_attempts c.initial_timeout h1 k lt there,
      )

  external_ip-served : (h : History) → (external_ip net c h).0 ≡ ok (v4 g.address)
  unfolding external_ip
  external_ip-served h =
      let e =
        exchange-served invalid encode_external_address_request 12 h (ap length (serve-address g))
          (omega arith) in
      ground (
        arith,
        e,
        serve-address g,
        decode-address g proper,
        uint-uint32_bytes g.address proper.address,
      )

  map_exchange-served :
      (op : ℕ) (r : Request) (external_port lifetime_sec : ℕ) (h : History)
      → map_opcode r.protocol ≡ ok op
      → r.internal_port < 2 ^ 16
      → lifetime_sec < 2 ^ 32
      → let response =
          map_response_bytes op (granted g r.internal_port (external_port % 2 ^ 16) lifetime_sec) in
        ((exchange net c r.internal_address
            (map_request_bytes op r.internal_port external_port lifetime_sec)
            16
            h).0
          ≡ ok response)
        × (decode_map_response response r.protocol
            ≡ ok (granted g r.internal_port (external_port % 2 ^ 16) lifetime_sec))
  map_exchange-served op r e l h hop hi hl =
      let known = map_opcode-cases r.protocol op hop in
      let answered = serve-map g op r.internal_port e l (λ z. ground arith) hi hl in
      let d = granted g r.internal_port (e % 2 ^ 16) l in
      let n = ap length answered in
      (
        rw (← answered) (exchange-served r.internal_address _ 16 h (omega arith) (omega arith)),
        (decode_map_response_wire r.protocol op d (map_response_bytes op d) hop (omega arith)
              (granted-IsInRange g r.internal_port (e % 2 ^ 16) l proper hi)).1
            refl,
      )

  -- The seconds that `Map` asks for.
  abbrev seconds_of : Request → ℕ
  seconds_of r = wire_seconds (lifetime_or default_lease r)

  pub map-served :
      (op : ℕ) (r : Request) (h : History)
      → validate r ≡ ok tt
      → map_opcode r.protocol ≡ ok op
      → r.internal_port < 2 ^ 16
      → (read : History) × ((map net c r h).0
          ≡ ok (record {
            protocol = r.protocol;
            internal_port = r.internal_port;
            external_port = g.assigned r.internal_port (r.external_port % 2 ^ 16);
            external_ip = v4 g.address;
            lifetime = pos (g.lifetime (seconds_of r) * second);
            acquired = net.now read;
          }))
  unfolding map granted
  map-served op r h valid hop hi =
      let (exact, lt, some_time) =
        wire_seconds-lifetime_or default_lease r (omega arith) (omega arith) valid in
      let (e, d) = map_exchange-served op r r.external_port (seconds_of r) h hop hi lt in
      let b = map_request_bytes op r.internal_port r.external_port (seconds_of r) in
      let h1 = (exchange net c r.internal_address b 16 h).1 in
      let h2 = (external_ip net c h1).1 in
      (
        h2,
        ground (
          arith,
          encode_map_request_lem r.protocol op r.internal_port r.external_port (seconds_of r) hop,
          proper.assigned r.internal_port (r.external_port % 2 ^ 16),
          proper.lifetime (seconds_of r),
          external_ip-served h1,
        ),
      )

  unmap-served :
      (op : ℕ) (r : Request) (h : History)
      → validate r ≡ ok tt
      → map_opcode r.protocol ≡ ok op
      → r.internal_port < 2 ^ 16
      → (unmap net c r h).0 ≡ ok tt
  unfolding unmap granted
  unmap-served op r h valid hop hi =
      let (e, d) = map_exchange-served op r 0 0 h hop hi (omega arith) in
      ground (arith, encode_map_request_lem r.protocol op r.internal_port 0 0 hop)

  -- Against a gateway that answers as RFC 6886 says and grants what it is asked for, over a network
  -- on which no call fails and of any `maxAttempts` datagrams in a row one is answered: `ExternalIP`
  -- returns the gateway's address, `Map` of a valid request returns the lease that the gateway has
  -- granted, for the seconds asked for, or an hour if none are, acquired at a reading of the clock, and
  -- `Unmap` succeeds.
  pub methods-served :
      (r : Request) (h : History)
      → validate r ≡ ok tt
      → r.internal_port < 2 ^ 16
      → r.external_port < 2 ^ 16
      → ((external_ip net c h).0 ≡ ok (v4 g.address))
        × ((read : History) × ((map net c r h).0
              ≡ ok (record {
                protocol = r.protocol;
                internal_port = r.internal_port;
                external_port = g.assigned r.internal_port r.external_port;
                external_ip = v4 g.address;
                lifetime = pos (g.lifetime (seconds_of r) * second);
                acquired = net.now read;
              })))
        × ((unmap net c r h).0 ≡ ok tt)
  methods-served r h valid hi he =
      let (op, hop) = known_opcode r valid in
      let same : r.external_port % 2 ^ 16 ≡ r.external_port = omega arith in
      let (read, e) = map-served op r h valid hop hi in
      (external_ip-served h, (read, rw same at e), unmap-served op r h valid hop hi)
