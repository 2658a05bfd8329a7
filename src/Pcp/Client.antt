-- ===== src/Pcp/Client.antt =====
-- internal/portmapper/pcp/pcp.go: the client's methods. `Net` stands for the sockets, the context,
-- the clock and the random source. The mutex guards `nonces` for one caller at a time, so a method
-- runs on the state whole.
use nat_pmp.Common.{
  ℕ, ◌*◌, true, false, List, ◌∷◌, none, some, ◌==◌, ◌!=◌, nat_eq, list_eq, failed, ok, err,
  reject_if,
}
use nat_pmp.Common.Dict
use nat_pmp.Common.Int.{pos, second}
use nat_pmp.Common.Run.{Run, ◌>>=◌, ◌>>◌, lift, wrap_run}
use nat_pmp.Addr.{Addr, invalid, is_valid, ipv6_unspecified}
use nat_pmp.Mapping.{Protocol, Request, Lease, tcp, validate, lifetime_or, wire_seconds}
use nat_pmp.Portmapper.{Client, Context}
use nat_pmp.Network.{Net, History, listened, probed, drew_nonce, asked_time, closed}
use nat_pmp.Network.Exchange.{attempts}
use nat_pmp.Pcp.Codec.{
  response_len, ip_proto_tcp, MapRequest, encode_map_request, decode_map_response,
}
mod Session
unfoldable pub use Session.*

module _ (net : Net) where
  -- c.nonce()
  unfoldable pub draw_nonce : Run History (List ℕ)
  draw_nonce h = (net.nonce h, drew_nonce ∷ h)

  -- `c.now()`
  abbrev now : Run History ℕ
  now h = (ok (net.now h), asked_time ∷ h)

  unfoldable pub nonce_for : Request → Run State (List ℕ)
  nonce_for r s = elim (Dict.lookup (key_of r) s.nonces) [
    | some nonce ↦ (ok nonce, s)
    | none ↦
        let (drawn, h) = draw_nonce s.history in
        elim drawn [
          | ok nonce ↦
              (ok nonce, record { history = h; nonces = Dict.insert (key_of r) nonce s.nonces })
          | err e ↦ (err e, record s { history = h })
        ]
  ]

  module _ (c : Settings) where
    -- `localAddr`: the source address on the route to the gateway.
    unfoldable pub local_addr : Run History Addr
    local_addr h =
        (elim (net.probe h (server_addr c)) [ err e ↦ err e | ok ip ↦ local_from ip ], probed ∷ h)

    -- The address that the gateway will see. If that is not to be had, the socket is closed again.
    unfoldable pub default_dial : Addr → Run History Addr
    default_dial bind_addr h =
        let h1 = listened bind_addr ∷ h in
        elim (net.listen h bind_addr) [
          | some e ↦ (err e, h1)
          | none ↦ elim (is_valid bind_addr) [
            | true ↦ (ok bind_addr, h1)
            | false ↦
                let (local, h2) = local_addr h1 in
                elim local [ ok a ↦ (ok a, h2) | err e ↦ (err e, closed ∷ h2) ]
          ]
        ]

    -- `c.dial` with its error wrapped.
    unfoldable pub dial : Addr → Run History Addr
    dial bind_addr = wrap_run "pcp: dial" (default_dial bind_addr)

    unfoldable pub exchange_on : List ℕ → Run History (List ℕ)
    exchange_on req h =
        attempts net "pcp" (server_addr c) buffer_len response_len c.max_attempts req
          c.initial_timeout h

    -- The request that `Map` and `Unmap` send; `ExternalIP` sends that of a TCP port 0.
    abbrev pub map_request : List ℕ → Protocol → ℕ → ℕ → Addr → ℕ → MapRequest
    map_request nonce protocol internal_port external_port client_addr lifetime_sec = record {
      nonce = nonce;
      protocol = protocol;
      internal_port = internal_port;
      external_port = external_port;
      external_addr = ipv6_unspecified;
      client_addr = client_addr;
      lifetime_sec = lifetime_sec;
    }

    unfoldable pub external_ip : Run State Addr
    external_ip = do
      client_addr ← on_history (dial invalid)
      closing do
        nonce ← on_history draw_nonce
        req ← lift (encode_map_request (map_request nonce tcp 0 0 client_addr 0))
        resp ← on_history (exchange_on req)
        decoded ← lift (decode_map_response resp)
        lift (reject_if (decoded.nonce != nonce) (failed "pcp: nonce mismatch in response"))
        lift (
            reject_if (decoded.protocol != ip_proto_tcp)
              (failed "pcp: response protocol does not match request"))
        lift (
            reject_if (decoded.internal_port != 0)
              (failed "pcp: response internal port does not match request"))
        lift (ok decoded.external_addr)

    unfoldable pub map : Request → Run State Lease
    map r = do
      lift (validate r)
      let lifetime = lifetime_or default_lease r
      client_addr ← on_history (dial r.internal_address)
      closing do
        nonce ← nonce_for r
        req ← lift (
            encode_map_request (
              map_request nonce r.protocol r.internal_port r.external_port client_addr
                (wire_seconds lifetime)))
        resp ← on_history (exchange_on req)
        decoded ← lift (decode_map_response resp)
        lift (check_response r nonce decoded)
        lift (
            reject_if (decoded.external_port == 0)
              (failed "pcp: response external port must be non-zero"))
        lift (
            reject_if (decoded.lifetime_sec == 0)
              (failed "pcp: response lifetime must be positive"))
        acquired ← on_history now
        lift (
            ok (record {
              protocol = r.protocol;
              internal_port = decoded.internal_port;
              external_port = decoded.external_port;
              external_ip = decoded.external_addr;
              lifetime = pos (decoded.lifetime_sec * second);
              acquired = acquired;
            }))

    unfoldable pub unmap : Request → Run State (Unit {0})
    unmap r = do
      lift (validate r)
      client_addr ← on_history (dial r.internal_address)
      closing do
        nonce ← nonce_for r
        req ← lift (
            encode_map_request
              (map_request nonce r.protocol r.internal_port r.external_port client_addr 0))
        resp ← on_history (exchange_on req)
        decoded ← lift (decode_map_response resp)
        lift (check_response r nonce decoded)
        delete_nonce r

-- The client, over the network as each context lets it be seen.
abbrev pub client : (Context → Net) → Settings → Client State
client net c = record {
  name = protocol_name;
  external_ip = λ ctx. external_ip (net ctx) c;
  map = λ ctx. map (net ctx) c;
  unmap = λ ctx. unmap (net ctx) c;
}
