-- ===== src/Pcp/Leases.antt =====
-- The leases that PCP's `Map` returns.
use nat_pmp.Common.{
  ℕ, ◌*◌, ◌≡◌, arith, List, [], ◌∷◌, some, Result, ok, value_or, Result-cases, inl, inr, nat_eq,
  string_eq, list_eq,
}
use nat_pmp.Common.Dict.{lookup}
use nat_pmp.Mapping.{Request, Lease, lifetime_or, wire_seconds}
use nat_pmp.Common.Int.{pos, second}
use nat_pmp.Addr.{invalid}
use nat_pmp.Portmapper.{Fits}
use nat_pmp.Network.{Net, History, closed, asked_time}
use nat_pmp.Network.Exchange.Answer.{IsAnswer, attempts-IsAnswer}
use nat_pmp.Pcp.Codec.{
  encode_map_request, response_len, ip_protocol, MapResponse, decode_map_response,
}
use nat_pmp.Pcp.Client.{
  Settings, State, key_of, nonce_key_eq, server_addr, buffer_len, check_response, nonce_for, dial,
  exchange_on, proto_or_zero, map_request, default_lease, map,
}
use nat_pmp.Pcp.Nonces.{dialled, nonce_for-stored}

-- A lease that fits, and what stands behind it: the response, its decoding, and the calls up to it.
pub record IsGranted (c : Settings) (r : Request) (l : Lease) (s' : State) : Type 0 where
  pub fits : Fits r l
  pub answer : List ℕ
  pub decoded : MapResponse
  pub earlier : History
  pub calls : s'.history ≡ closed ∷ asked_time ∷ earlier
  pub from_gateway : IsAnswer (server_addr c) buffer_len response_len answer earlier
  pub reads : decode_map_response answer ≡ ok decoded
  pub nonce : lookup (key_of r) s'.nonces ≡ some decoded.nonce
  pub protocol : proto_or_zero (ip_protocol r.protocol) ≡ decoded.protocol
  pub external_port : l.external_port ≡ decoded.external_port
  pub external_ip : l.external_ip ≡ decoded.external_addr
  pub lifetime : l.lifetime ≡ pos (decoded.lifetime_sec * second)

module _ (net : Net) (c : Settings) where
  pub lease-Fits : (r : Request) (s s' : State) (l : Lease) → map net c r s ≡ (ok l, s') → Fits r l
  unfolding map check_response
  lease-Fits r s s' l e = ground arith

  exchange_on-IsAnswer :
      (req : List ℕ) (h : History) (b : List ℕ)
      → (exchange_on net c req h).0 ≡ ok b
      → IsAnswer (server_addr c) buffer_len response_len b (exchange_on net c req h).1
  unfolding exchange_on
  exchange_on-IsAnswer req h b e =
      attempts-IsAnswer net "pcp" (server_addr c) buffer_len response_len c.max_attempts req
        c.initial_timeout h b e

  module _ (r : Request) (s : State) where
    -- The intermediate values of a call of `Map`.
    abbrev fresh : Result (List ℕ) × State
    fresh = nonce_for net r (dialled net c r s)

    abbrev request_bytes : List ℕ
    request_bytes = value_or [] (
        encode_map_request (
          map_request net c (value_or [] fresh.0) r.protocol r.internal_port r.external_port
            (value_or invalid (dial net c r.internal_address s.history).0)
            (wire_seconds (lifetime_or default_lease r))))

    abbrev exchanged : Result (List ℕ) × History
    exchanged = exchange_on net c request_bytes fresh.1.history

    abbrev response : List ℕ
    response = value_or [] exchanged.0

    map-calls :
        (s' : State) (l : Lease)
        → map net c r s ≡ (ok l, s')
        → (exchanged.0 ≡ ok response)
          × (s'.history ≡ closed ∷ asked_time ∷ exchanged.1)
          × (s'.nonces ≡ fresh.1.nonces)
    unfolding map
    map-calls s' l e = ground arith

    map-decoded :
        (s' : State) (l : Lease)
        → map net c r s ≡ (ok l, s')
        → (d : MapResponse) × (decode_map_response response ≡ ok d)
    unfolding map
    map-decoded s' l e = elim (Result-cases (decode_map_response response)) [
      | inl found ↦ found
      | inr (x, bad) ↦ absurd (ground arith)
    ]

    map-checked :
        (s' : State) (l : Lease) (d : MapResponse)
        → map net c r s ≡ (ok l, s')
        → decode_map_response response ≡ ok d
        → (fresh.0 ≡ ok d.nonce)
          × (proto_or_zero (ip_protocol r.protocol) ≡ d.protocol)
          × (l.external_port ≡ d.external_port)
          × (l.external_ip ≡ d.external_addr)
          × (l.lifetime ≡ pos (d.lifetime_sec * second))
    unfolding map check_response
    map-checked s' l d e found = ground arith

    -- A lease that `Map` returns is for the request's protocol and internal port, has an external
    -- port, and lasts. It comes from a datagram that the gateway's own address and port sent, that
    -- decodes, and that carries the nonce kept for the mapping and the request's protocol; the lease
    -- has the external port, the external address and the lifetime of that datagram.
    pub map-IsGranted : (s' : State) (l : Lease) → map net c r s ≡ (ok l, s') → IsGranted c r l s'
    map-IsGranted s' l e =
        let (answered, calls, kept) = map-calls s' l e in
        let (d, found) = map-decoded s' l e in
        let (nonce, proto, port, ip, lifetime) = map-checked s' l d e found in
        record {
          fits = lease-Fits r s s' l e;
          answer = response;
          decoded = d;
          earlier = exchanged.1;
          calls = calls;
          from_gateway = exchange_on-IsAnswer request_bytes fresh.1.history response answered;
          reads = found;
          nonce = rw kept (nonce_for-stored net r (dialled net c r s) d.nonce nonce);
          protocol = proto;
          external_port = port;
          external_ip = ip;
          lifetime = lifetime;
        }
