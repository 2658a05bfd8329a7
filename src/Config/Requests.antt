-- ===== src/Config/Requests.antt =====
-- The configured mappings and their expansion into requests.
use nat_pmp.Common.{
  ℕ, String, Bool, true, false, not, ◌||◌, List, [], ◌∷◌, ◌++◌, map, ◌==◌, ◌!=◌, string_eq, nat_eq,
  if◌then◌else◌,
}
use nat_pmp.Common.{failed, wrapped, wrap, Result, ok, err, ◌>>=◌, value_or}
use nat_pmp.Common.Int.{ℤ}
use nat_pmp.Addr.{Addr, invalid, is4, is_loopback, is_link_local_unicast, unmap}
use nat_pmp.Mapping.{Protocol, tcp, udp, Request}

abbrev pub protocol_both : String
protocol_both = "both"

pub record Mapping : Type 0 where
  pub protocol : String
  pub internal_port : ℕ
  pub internal_address : String
  pub internal_iface : String
  pub external_port : ℕ
  pub description : String
  pub lease : ℤ
  pub require_listener : Bool

pub record Detect : Type 0 where
  pub order : List String
  pub timeout : ℤ

pub record Config : Type 0 where
  pub log_level : String
  pub internal_address : String
  pub internal_iface : String
  pub mappings : List Mapping
  pub detect : Detect

-- What the operating system and net/netip's parsers answer: the addresses of all interfaces and of
-- a named one, in CIDR notation, `ParseAddr`, and `ParsePrefix` followed by `Addr`.
pub record Host : Type 0 where
  pub interface_addrs : Result (List String)
  pub addrs_by_name : String → Result (List String)
  pub parse_addr : String → Result Addr
  pub parse_prefix : String → Result Addr

unfoldable pub protocols : Mapping → List Protocol
protocols m = if m.protocol == protocol_both then tcp ∷ udp ∷ [] else m.protocol ∷ []

-- The first IPv4 address, after unmapping, that is neither loopback nor link-local.
unfoldable pub first_usable_ipv4 : List Addr → Result Addr
first_usable_ipv4 [] = err (failed "config: interface has no usable IPv4 address")
first_usable_ipv4 (a ∷ addrs) =
    let rest = first_usable_ipv4 addrs in
    let a' = unmap a in
    if not (is4 a')
    then rest
    else if is_loopback a' || is_link_local_unicast a'
    then rest
    else ok a'

module _ (host : Host) where
  -- Entries that do not parse are skipped.
  unfoldable pub parse_interface_addrs : List String → List Addr
  parse_interface_addrs [] = []
  parse_interface_addrs (ia ∷ rest) = elim (host.parse_prefix ia) [
    | ok a ↦ a ∷ parse_interface_addrs rest
    | err e ↦ parse_interface_addrs rest
  ]

  unfoldable pub local_addresses : Result (List Addr)
  local_addresses = do addrs ← host.interface_addrs; ok (parse_interface_addrs addrs)

  unfoldable pub iface_addresses : String → Result (List Addr)
  iface_addresses name = do addrs ← host.addrs_by_name name; ok (parse_interface_addrs addrs)

  unfoldable pub resolve_iface : String → Result Addr
  resolve_iface name = wrap "config: interface" (iface_addresses name) >>= first_usable_ipv4

  -- The address and whether either source was set; an error is only met where one was.
  unfoldable pub resolve_internal_address : String → String → Result (Addr × Bool)
  resolve_internal_address address iface =
      if address != ""
      then elim (host.parse_addr address) [
        | err e ↦ err (wrapped "config: invalid internal_address" e)
        | ok a ↦ ok (a, true)
      ]
      else if iface != ""
      then elim (resolve_iface iface) [ err e ↦ err e | ok a ↦ ok (a, true) ]
      else ok (invalid, false)

  unfoldable pub internal_address : Mapping → Addr → Result Addr
  internal_address m default_addr =
      elim (resolve_internal_address m.internal_address m.internal_iface) [
        | err e ↦ err e
        | ok (a, set) ↦ ok (if set then a else default_addr)
      ]

  -- `Mapping.Requests`: an address that does not resolve is the zero address.
  unfoldable pub mapping_requests : Mapping → Addr → List Request
  mapping_requests m default_addr =
      map
        (λ proto. record {
          protocol = proto;
          internal_port = m.internal_port;
          internal_address = value_or invalid (internal_address m default_addr);
          external_port = m.external_port;
          description = m.description;
          lease = m.lease;
          require_listener = m.require_listener;
        })
        (protocols m)

  unfoldable pub default_internal_address : Config → Result Addr
  default_internal_address c = elim (resolve_internal_address c.internal_address c.internal_iface) [
    | err e ↦ err e
    | ok (a, set) ↦ ok a
  ]

  -- The loop of `Config.Requests`.
  unfoldable pub requests_of : List Mapping → Addr → List Request
  requests_of [] default_addr = []
  requests_of (m ∷ ms) default_addr = mapping_requests m default_addr ++ requests_of ms default_addr

  unfoldable pub requests : Config → List Request
  requests c = requests_of c.mappings (value_or invalid (default_internal_address c))
