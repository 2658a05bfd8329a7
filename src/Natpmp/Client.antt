-- ===== src/Natpmp/Client.antt =====
-- internal/portmapper/natpmp/natpmp.go: the client's methods. `Net` stands for the socket, the
-- context and the clock.
use nat_pmp.Common.{ℕ, ◌*◌, String, List, [], ◌∷◌, none, some}
use nat_pmp.Common.{◌==◌, ◌!=◌, nat_eq, failed, Result, ok, err, reject_if}
use nat_pmp.Common.Int.{pos, second}
use nat_pmp.Common.Run.{Run, ◌>>=◌, ◌>>◌, lift, wrap_run}
use nat_pmp.Addr.{Addr, AddrPort, invalid, addr_from4}
use nat_pmp.Mapping.{Request, Lease, validate, lifetime_or, wire_seconds}
use nat_pmp.Portmapper.{Client, Context}
use nat_pmp.Network.{Net, History, listened, asked_time, closed}
use nat_pmp.Network.Exchange.{attempts}
use nat_pmp.Natpmp.Codec.{
  encode_external_address_request, decode_external_address_response, encode_map_request,
  decode_map_response,
}

abbrev pub protocol_name : String
protocol_name = "natpmp"

abbrev pub port : ℕ
port = 5351

-- One hour, in nanoseconds.
abbrev pub default_lease : ℕ
default_lease = 3600 * second

abbrev pub buffer_len : ℕ
buffer_len = 16

-- The client's settings; the dial function and the clock are those of `Net`.
pub record Settings : Type 0 where
  pub gateway : Addr
  pub initial_timeout : ℕ
  pub max_attempts : ℕ

-- `New` without options: 250 ms and four attempts.
unfoldable pub new : Addr → Settings
new gateway = record { gateway = gateway; initial_timeout = 250_000_000; max_attempts = 4 }

abbrev pub server_addr : Settings → AddrPort
server_addr c = record { addr = c.gateway; port = port }

-- `encodeMapRequest` whose error the callers drop: its value is then nil.
abbrev pub bytes_or_nil : Result (List ℕ) → List ℕ
bytes_or_nil (ok b) = b
bytes_or_nil (err e) = []

module _ (net : Net) where
  -- A socket that is bound to the address if that is valid.
  unfoldable pub default_dial : Addr → Run History (Unit {0})
  default_dial bind_addr h =
      (elim (net.listen h bind_addr) [ none ↦ ok tt | some e ↦ err e ], listened bind_addr ∷ h)

  -- `c.now()`
  abbrev now : Run History ℕ
  now h = (ok (net.now h), asked_time ∷ h)

  module _ (c : Settings) where
    -- The loop over a dialled socket, and the deferred `Close`.
    unfoldable pub exchange_on : List ℕ → ℕ → Run History (List ℕ)
    exchange_on req resp_len h =
        let (r, h') =
          attempts net "natpmp" (server_addr c) buffer_len resp_len c.max_attempts req
            c.initial_timeout h in
        (r, closed ∷ h')

    unfoldable pub exchange : Addr → List ℕ → ℕ → Run History (List ℕ)
    exchange bind_addr req resp_len = do
      wrap_run "natpmp: dial" (default_dial bind_addr)
      exchange_on req resp_len

    unfoldable pub external_ip : Run History Addr
    external_ip = do
      resp ← exchange invalid encode_external_address_request 12
      decoded ← lift (decode_external_address_response resp)
      lift (ok (addr_from4 decoded.external_ip))

    unfoldable pub map : Request → Run History Lease
    map r = do
      lift (validate r)
      let lifetime = lifetime_or default_lease r
      let req =
          bytes_or_nil
            (encode_map_request r.protocol r.internal_port r.external_port (wire_seconds lifetime))
      resp ← exchange r.internal_address req 16
      decoded ← lift (decode_map_response resp r.protocol)
      lift (
          reject_if (decoded.internal_port != r.internal_port)
            (failed "natpmp: response internal port does not match request"))
      lift (
          reject_if (decoded.external_port == 0)
            (failed "natpmp: response external port must be non-zero"))
      lift (
          reject_if (decoded.lifetime_sec == 0)
            (failed "natpmp: response lifetime must be positive"))
      ext_ip ← external_ip
      acquired ← now
      lift (
          ok (record {
            protocol = r.protocol;
            internal_port = decoded.internal_port;
            external_port = decoded.external_port;
            external_ip = ext_ip;
            lifetime = pos (decoded.lifetime_sec * second);
            acquired = acquired;
          }))

    unfoldable pub unmap : Request → Run History (Unit {0})
    unmap r = do
      lift (validate r)
      let req = bytes_or_nil (encode_map_request r.protocol r.internal_port 0 0)
      resp ← exchange r.internal_address req 16
      decoded ← lift (decode_map_response resp r.protocol)
      lift (
          reject_if (decoded.internal_port != r.internal_port)
            (failed "natpmp: response internal port does not match request"))

-- The client, over the network as each context lets it be seen.
abbrev pub client : (Context → Net) → Settings → Client History
client net c = record {
  name = protocol_name;
  external_ip = λ ctx. external_ip (net ctx) c;
  map = λ ctx. map (net ctx) c;
  unmap = λ ctx. unmap (net ctx) c;
}
