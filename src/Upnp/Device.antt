-- ===== src/Upnp/Device.antt =====
-- internal/portmapper/upnp/device.go: the WAN service in a device description.
use nat_pmp.Common.{String, Bool, List, [], ◌∷◌, ◌==◌, string_eq, Option, none, some, if◌then◌else◌}
use nat_pmp.Common.{failed, wrapped, wrap, Result, ok, err, ◌>>=◌}
use nat_pmp.Upnp.Soap.{ControlTarget}

abbrev pub wan_service_types : List String
wan_service_types =
    "urn:schemas-upnp-org:service:WANIPConnection:2"
    ∷ "urn:schemas-upnp-org:service:WANIPConnection:1"
    ∷ "urn:schemas-upnp-org:service:WANPPPConnection:1" ∷ []

pub record Service : Type 0 where
  pub service_type : String
  pub control_url : String

mutual
  pub data Device : Type 0 where
    device : (device_type : String) (services : List Service) (children : Devices) → Device

  -- `DeviceList`
  pub data Devices : Type 0 where
    no_devices : Devices
    and_device : Device → Devices → Devices

pub record Descriptor : Type 0 where
  pub url_base : String
  pub root : Device

-- The libraries' functions on XML and URLs, whose parsed form `U` is theirs, and on letters:
-- `xml.Unmarshal`, `url.Parse`, `ResolveReference`, `String`, `TrimSpace` and `EqualFold`.
pub record Parsers (U : Type 0) : Type 0 where
  pub unmarshal : String → Result Descriptor
  pub parse_url : String → Result U
  pub resolve : U → U → U
  pub url_string : U → String
  pub trim_space : String → String
  pub equal_fold : String → String → Bool

module _ {U : Type 0} (parsers : Parsers U) where
  unfoldable pub find_in_services : List Service → String → Option Service
  find_in_services [] want = none
  find_in_services (svc ∷ rest) want =
      let later = find_in_services rest want in
      if parsers.equal_fold svc.service_type want then some svc else later

  abbrev or_else : Option Service → Option Service → Option Service
  or_else (some svc) later = some svc
  or_else none later = later

  unfoldable mutual
    pub find_service : Device → String → Option Service
    find_service (device kind services children) want =
        or_else (find_in_services services want) (find_in_devices children want)

    pub find_in_devices : Devices → String → Option Service
    find_in_devices no_devices want = none
    find_in_devices (and_device d rest) want =
        or_else (find_service d want) (find_in_devices rest want)

  unfoldable pub resolve_url : U → String → Result String
  resolve_url base ref =
      let trimmed : String = parsers.trim_space ref in
      if trimmed == ""
      then err (failed "upnp: empty control URL")
      else elim (parsers.parse_url trimmed) [
        | err e ↦ err (wrapped "upnp: parse control URL" e)
        | ok u ↦ ok (parsers.url_string (parsers.resolve base u))
      ]

  unfoldable pub descriptor_base : String → String → Result U
  descriptor_base location raw_url_base = do
    base ← wrap "upnp: parse base URL" (parsers.parse_url location)
    let trimmed : String = parsers.trim_space raw_url_base
    if trimmed == "" then ok base else elim (parsers.parse_url trimmed) [
      | err e ↦ err (wrapped "upnp: parse URLBase" e)
      | ok url_base ↦ ok (parsers.resolve base url_base)
    ]

  -- The loop over the preferred types.
  unfoldable pub select_service : U → Device → List String → Result ControlTarget
  select_service base root [] = err (failed "upnp: no WAN connection service found in descriptor")
  select_service base root (want ∷ wants) = elim (find_service root want) [
    | none ↦ select_service base root wants
    | some svc ↦ do
      ctrl ← resolve_url base svc.control_url
      ok (record { url = ctrl; service_type = svc.service_type })
  ]

  unfoldable pub parse_control_target : String → String → Result ControlTarget
  parse_control_target descriptor base_url = do
    root ← wrap "upnp: parse descriptor" (parsers.unmarshal descriptor)
    base ← descriptor_base base_url root.url_base
    select_service base root.root wan_service_types
