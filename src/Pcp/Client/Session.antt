-- ===== src/Pcp/Client/Session.antt =====
-- internal/portmapper/pcp/pcp.go: the constants, settings and state of the client, the nonces that it
-- keeps, and the tests that it makes on a response.
use nat_pmp.Common.{
  ℕ, ◌*◌, String, true, false, List, ◌∷◌, Option, none, some, if◌then◌else◌, length, Eq, ◌==◌, ◌!=◌,
  ℕ_discrete, nat_eq, list_eq, string_eq, failed, Result, ok, err,
}
use nat_pmp.Common.Dict
use nat_pmp.Common.Int.{second}
use nat_pmp.Common.Run.{Run}
use nat_pmp.Addr.{Addr, AddrPort, unmap as unmap_addr, addr_from4, addr_from16}
use nat_pmp.Mapping.{Protocol, Request}
use nat_pmp.Network.{History, closed}
use nat_pmp.Pcp.Codec.{ip_protocol, MapResponse}

abbrev pub protocol_name : String
protocol_name = "pcp"

abbrev pub port : ℕ
port = 5351

-- One hour, in nanoseconds.
abbrev pub default_lease : ℕ
default_lease = 3600 * second

abbrev pub buffer_len : ℕ
buffer_len = 1100

pub record NonceKey : Type 0 where
  pub protocol : Protocol
  pub internal_port : ℕ

string_discrete : Discrete String
unfolding string_eq
string_discrete = string_eq.dec

NonceKey-discrete : Discrete NonceKey
unfolding string_discrete
NonceKey-discrete = hlevel (ℕ_discrete, string_discrete)

instance unfoldable pub nonce_key_eq : Eq NonceKey
unfolding NonceKey-discrete
nonce_key_eq = record { dec = NonceKey-discrete }

-- The settings never change; the calls made and the nonces are the state.
pub record Settings : Type 0 where
  pub gateway : Addr
  pub initial_timeout : ℕ
  pub max_attempts : ℕ

pub record State : Type 0 where
  pub history : History
  pub nonces : List (NonceKey × List ℕ)

unfoldable pub new : Addr → Settings
new gateway = record { gateway = gateway; initial_timeout = 250_000_000; max_attempts = 4 }

abbrev pub server_addr : Settings → AddrPort
server_addr c = record { addr = c.gateway; port = port }

abbrev pub key_of : Request → NonceKey
key_of r = record { protocol = r.protocol; internal_port = r.internal_port }

-- A call that touches the history only.
abbrev pub on_history {ℓ} : {A : Type ℓ} → Run History A → Run State A
on_history m s = let (r, h) = m s.history in (r, record s { history = h })

-- netip.AddrFromSlice and Unmap, on the address of the socket if that is a UDP address.
unfoldable pub local_from : Option (List ℕ) → Result Addr
local_from none = err (failed "pcp: cannot determine local address")
local_from (some ip) = elim (length ip == 4) [
  | true ↦ ok (unmap_addr (addr_from4 ip))
  | false ↦ elim (length ip == 16) [
    | true ↦ ok (unmap_addr (addr_from16 ip))
    | false ↦ err (failed "pcp: cannot determine local address")
  ]
]

unfoldable pub delete_nonce : Request → Run State (Unit {0})
delete_nonce r s = (ok tt, record s { nonces = Dict.erase (key_of r) s.nonces })

-- `proto, _ := ipProtocol(p)`
abbrev pub proto_or_zero : Result ℕ → ℕ
proto_or_zero (ok n) = n
proto_or_zero (err e) = 0

-- The tests that `Map` and `Unmap` make on a response before they use it.
unfoldable pub check_response : Request → List ℕ → MapResponse → Result (Unit {0})
check_response r nonce decoded =
    if decoded.nonce != nonce
    then err (failed "pcp: nonce mismatch in response")
    else if decoded.protocol != proto_or_zero (ip_protocol r.protocol)
    then err (failed "pcp: response protocol does not match request")
    else if decoded.internal_port != r.internal_port
    then err (failed "pcp: response internal port does not match request")
    else ok tt

-- `defer conn.Close()`: the socket is closed however the rest ends.
abbrev pub closing {ℓ} : {A : Type ℓ} → Run State A → Run State A
closing m s = let (r, s') = m s in (r, record s' { history = closed ∷ s'.history })
