-- ===== src/Upnp/Client.antt =====
-- internal/portmapper/upnp/upnp.go: the client's methods. The mutex guards the cached target and
-- the client's address for one caller at a time, so a method runs on the state whole.
use nat_pmp.Common.{
  ℕ, ◌*◌, ◌/◌, String, List, [], ◌∷◌, Option, none, some, ◌==◌, ◌!=◌, ◌||◌, not, nat_eq, string_eq,
  if◌then◌else◌,
}
use nat_pmp.Common.{Error, failed, wrap, Result, ok, err, reject_if, value_or}
use nat_pmp.Common.Text.Decimal.{decimal}
use nat_pmp.Common.Int.{nanoseconds, second}
use nat_pmp.Common.Run.{Run, ◌>>=◌, ◌>>◌, lift}
use nat_pmp.Addr.{Addr, is_valid, is_unspecified}
use nat_pmp.Mapping.{Protocol, Request, Lease, tcp, udp, validate, lifetime_or}
use nat_pmp.Portmapper.{Client, Context}
use nat_pmp.Upnp.Soap.{
  History, searched, fetched, asked_time, ControlTarget, Net, SoapArg, call_soap,
  parse_string_field,
}
use nat_pmp.Upnp.Device.{Parsers, parse_control_target}

abbrev pub protocol_name : String
protocol_name = "upnp"

-- One hour, in nanoseconds.
abbrev pub default_lease : ℕ
default_lease = 3600 * second

abbrev pub wire_tcp : String
wire_tcp = "TCP"

abbrev pub wire_udp : String
wire_udp = "UDP"

pub record State : Type 0 where
  pub history : History
  pub target : Option ControlTarget
  pub internal_client : String

-- `New`: nothing is resolved, and no address is set.
unfoldable pub new : History → State
new h = record { history = h; target = none; internal_client = "" }

abbrev pub on_history {ℓ} : {A : Type ℓ} → Run History A → Run State A
on_history call s = let (r, h) = call s.history in (r, record s { history = h })

unfoldable pub protocol_string : Protocol → Result String
protocol_string p =
    if p == tcp
    then ok wire_tcp
    else if p == udp
    then ok wire_udp
    else err (failed "upnp: unsupported protocol")

abbrev pub external_port_of : Request → ℕ
external_port_of r = if r.external_port == 0 then r.internal_port else r.external_port

abbrev pub delete_args : Request → List SoapArg
delete_args r =
    record { name = "NewRemoteHost"; value = "" }
    ∷ record { name = "NewExternalPort"; value = decimal (external_port_of r) }
    ∷ record { name = "NewProtocol"; value = value_or "" (protocol_string r.protocol) }
    ∷ []

abbrev pub add_args : Request → String → List SoapArg
add_args r internal_client =
    record { name = "NewRemoteHost"; value = "" }
    ∷ record { name = "NewExternalPort"; value = decimal (external_port_of r) }
    ∷ record { name = "NewProtocol"; value = value_or "" (protocol_string r.protocol) }
    ∷ record { name = "NewInternalPort"; value = decimal r.internal_port }
    ∷ record { name = "NewInternalClient"; value = internal_client }
    ∷ record { name = "NewEnabled"; value = "1" }
    ∷ record { name = "NewPortMappingDescription"; value = r.description }
    ∷ record {
      name = "NewLeaseDuration";
      value = decimal (nanoseconds (lifetime_or default_lease r) / second);
    }
    ∷ []

module _ (net : Net) where
  unfoldable pub fetch_http : String → Run History String
  fetch_http url h = elim (net.request_error url) [
    | some e ↦ (err e, h)
    | none ↦ (
      elim (net.get h url) [
        | err e ↦ err e
        | ok resp ↦
            if resp.status != 200 then err (failed "upnp: descriptor fetch status") else resp.body
      ],
      fetched url ∷ h,
    )
  ]

  -- `c.search`
  abbrev search : Run History (List String)
  search h = (net.search h, searched ∷ h)

  abbrev now : Run History ℕ
  now h = (ok (net.now h), asked_time ∷ h)

  unfoldable pub set_internal_client : Addr → State → State
  set_internal_client addr s = record s {
    internal_client =
        if not (is_valid addr) || is_unspecified addr then "" else net.addr_string addr;
  }

  -- `internalClient` of `Map`.
  abbrev pub client_addr : Request → State → String
  client_addr r s =
      if is_valid r.internal_address then net.addr_string r.internal_address else s.internal_client

  module _ {U : Type 0} (parsers : Parsers U) where
    -- The loop over the search results, with the last error.
    unfoldable pub first_target : Option Error → List String → Run History ControlTarget
    first_target (some e) [] h = (err e, h)
    first_target none [] h = (err (failed "upnp: no usable gateway descriptor"), h)
    first_target last (location ∷ locations) h =
        let (descriptor, h') = fetch_http location h in
        elim descriptor [
          | err e ↦ first_target (some e) locations h'
          | ok text ↦ elim (parse_control_target parsers text location) [
            | err e ↦ first_target (some e) locations h'
            | ok target ↦ (ok target, h')
          ]
        ]

    -- The search, when nothing is cached.
    unfoldable pub search_target : Run History ControlTarget
    search_target = do results ← search; first_target none results

    unfoldable pub resolve_target : Run State ControlTarget
    resolve_target s = elim s.target [
      | some target ↦ (ok target, s)
      | none ↦
          let (found, h) = search_target s.history in
          elim found [
            | err e ↦ (err e, record s { history = h })
            | ok target ↦ (ok target, record s { history = h; target = some target })
          ]
    ]

    unfoldable pub external_ip : Run State Addr
    external_ip = do
      target ← resolve_target
      body ← on_history (call_soap net target "GetExternalIPAddress" [])
      value ← lift (parse_string_field (net.tokens body) "NewExternalIPAddress")
      lift (wrap "upnp: parse external IP" (net.parse_addr value))

    unfoldable pub map : Request → Run State Lease
    map r = do
      lift (validate r)
      target ← resolve_target
      internal_client ← (λ s. (ok (client_addr r s), s))
      lift (reject_if (internal_client == "") (failed "upnp: internal client address is required"))
      added ← on_history (call_soap net target "AddPortMapping" (add_args r internal_client))
      ext_ip ← external_ip
      acquired ← on_history now
      lift (
          ok (record {
            protocol = r.protocol;
            internal_port = r.internal_port;
            external_port = external_port_of r;
            external_ip = ext_ip;
            lifetime = lifetime_or default_lease r;
            acquired = acquired;
          }))

    unfoldable pub unmap : Request → Run State (Unit {0})
    unmap r = do
      lift (validate r)
      target ← resolve_target
      deleted ← on_history (call_soap net target "DeletePortMapping" (delete_args r))
      lift (ok tt)

-- The client, over the network as each context lets it be seen.
abbrev pub client : {U : Type 0} → (Context → Net) → Parsers U → Client State
client net parsers = record {
  name = protocol_name;
  external_ip = λ ctx. external_ip (net ctx) parsers;
  map = λ ctx. map (net ctx) parsers;
  unmap = λ ctx. unmap (net ctx) parsers;
}
