-- ===== src/Upnp/Ssdp/Discover.antt =====
-- internal/portmapper/upnp/ssdp.go: the search, over the sockets, the context and the clock of `Net`,
-- which the packet clients use too.
pub mod Found
pub mod Ends
pub mod Arrivals
use nat_pmp.Common.{
  ℕ, zero, suc, ◌+◌, ◌*◌, ◌/◌, ◌%◌, String, true, false, List, [], ◌∷◌, ◌++◌, Option, none, some,
  length, take, ltb, ◌==◌, ◌!=◌, nat_eq, if◌then◌else◌,
}
use nat_pmp.Common.{failed, wrapped, Result, ok, err}
use nat_pmp.Common.Int.{second}
use nat_pmp.Common.Text.{codes}
use nat_pmp.Common.Text.Decimal.{decimal}
use nat_pmp.Addr.{AddrPort, v4}
use nat_pmp.Network.{
  Net, History, datagram, timed_out, read_error, checked, listened, wrote, asked_time, set_deadline,
  received, closed,
}
use nat_pmp.Upnp.Ssdp.{or_results, location_of, next_results}

-- 239.255.255.250
abbrev pub ssdp_multicast : AddrPort
ssdp_multicast = record { addr = v4 0xeffffffa; port = 1900 }

abbrev pub search_type : String
search_type = "urn:schemas-upnp-org:device:InternetGatewayDevice:1"

-- In nanoseconds.
abbrev pub default_search_timeout : ℕ
default_search_timeout = 2 * second

abbrev pub buffer_len : ℕ
buffer_len = 2048

abbrev crlf : List ℕ
crlf = 13 ∷ 10 ∷ []

-- `max(int(timeout.Seconds()), 1)`
abbrev pub mx_of : ℕ → ℕ
mx_of timeout = if timeout / second == 0 then 1 else timeout / second

unfoldable pub build_search_request : ℕ → List ℕ
build_search_request timeout =
    codes "M-SEARCH * HTTP/1.1"
    ++ crlf
    ++ codes "HOST: 239.255.255.250:1900"
    ++ crlf
    ++ codes "MAN: \"ssdp:discover\""
    ++ crlf
    ++ codes "MX: "
    ++ codes (decimal (mx_of timeout))
    ++ crlf
    ++ codes "ST: "
    ++ codes search_type
    ++ crlf
    ++ crlf

-- A result, unless the fuel of the collection has run out.
abbrev pub Outcome : Type 0
Outcome = Option (Result (List (List ℕ)) × History)

-- `defer conn.Close()`
abbrev pub closing : Outcome → Outcome
closing none = none
closing (some (r, h)) = some (r, closed ∷ h)

module _ (net : Net) where
  -- `collectResults`, with the rounds of the loop as fuel.
  unfoldable pub collect : ℕ → List (List ℕ) → History → Outcome
  collect zero results h = none
  collect (suc fuel) results h =
      let h1 = checked ∷ h in
      elim (net.ctx_err h) [
        | some e ↦ some (or_results results e, h1)
        | none ↦
            let reply = net.read h1 in
            let h2 = received reply ∷ h1 in
            elim reply [
              | timed_out ↦ some (or_results results (failed "upnp: no SSDP responses"), h2)
              | read_error e ↦ some (err (wrapped "upnp: ssdp read" e), h2)
              | datagram d from ↦
                  collect fuel (next_results results (location_of (take buffer_len d))) h2
            ]
      ]

  -- now + timeout, or the context's deadline if that is earlier.
  unfoldable pub search_deadline : ℕ → ℕ → ℕ
  search_deadline now timeout = elim net.ctx_deadline [
    | none ↦ now + timeout
    | some dl ↦ if ltb dl (now + timeout) then dl else now + timeout
  ]

  unfoldable pub discover_with_conn : ℕ → ℕ → History → Outcome
  discover_with_conn fuel timeout h =
      let msg = build_search_request timeout in
      let h1 = wrote msg ssdp_multicast ∷ h in
      elim (net.write h msg ssdp_multicast) [
        | err e ↦ some (err (wrapped "upnp: ssdp write" e), h1)
        | ok n ↦ elim (n != length msg) [
          | true ↦ some (err (failed "upnp: ssdp short write"), h1)
          | false ↦
              let h2 = asked_time ∷ h1 in
              let deadline = search_deadline (net.now h1) timeout in
              let h3 = set_deadline deadline ∷ h2 in
              elim (net.refuse_deadline h2 deadline) [
                | some e ↦ some (err (wrapped "upnp: ssdp deadline" e), h3)
                | none ↦ collect fuel [] h3
              ]
        ]
      ]

  -- `net.IPv4zero` leaves the interface to the host.
  unfoldable pub discover : ℕ → ℕ → History → Outcome
  discover fuel timeout h =
      let h1 = checked ∷ h in
      elim (net.ctx_err h) [
        | some e ↦ some (err e, h1)
        | none ↦
            let h2 = listened (v4 0) ∷ h1 in
            elim (net.listen h1 (v4 0)) [
              | some e ↦ some (err (wrapped "upnp: ssdp listen" e), h2)
              | none ↦ closing (discover_with_conn fuel timeout h2)
            ]
      ]
