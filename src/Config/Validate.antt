-- ===== src/Config/Validate.antt =====
-- `Config.Validate` of internal/config/config.go. The index of a mapping in an error is left out.
pub mod Ports
pub mod Wellformed
pub mod Targets
pub mod Bound
use nat_pmp.Common.{
  ℕ, String, Bool, true, false, not, ◌&&◌, ◌||◌, List, [], ◌∷◌, ◌++◌, length, Eq, ℕ_discrete, ◌==◌,
  ◌!=◌, contains, string_eq, nat_eq, if◌then◌else◌,
}
use nat_pmp.Common.{Error, failed, wrap, Result, ok, err, reject_if, ◌>>=◌, ◌>>◌}
use nat_pmp.Common.Int.{is_negative}
use nat_pmp.Addr.{Addr, addr_eq, is_valid}
use nat_pmp.Mapping.{Protocol, Request}
use nat_pmp.Mapping as Wire
use nat_pmp.Config.Requests.{
  Mapping, Detect, Config, Host, local_addresses, internal_address, default_internal_address,
  mapping_requests,
}
use nat_pmp.Config.Level.{validate_log_level}

-- `fmt.Sprintf("%s/%d", proto, port)`, which tells protocols and ports apart as a pair does.
pub record PortKey : Type 0 where
  pub protocol : Protocol
  pub port : ℕ

string_discrete : Discrete String
unfolding string_eq
string_discrete = string_eq.dec

PortKey-discrete : Discrete PortKey
unfolding string_discrete
PortKey-discrete = hlevel (ℕ_discrete, string_discrete)

instance unfoldable pub port_key_eq : Eq PortKey
unfolding PortKey-discrete
port_key_eq = record { dec = PortKey-discrete }

unfoldable pub validate_order : List String → List String → Result (Unit {0})
validate_order seen [] = ok tt
validate_order seen (name ∷ names) =
    let rest = validate_order (name ∷ seen) names in
    if not (name == "natpmp" || name == "pcp" || name == "upnp")
    then err (failed "config: detect.order: invalid protocol")
    else if contains seen name
    then err (failed "config: detect.order: duplicate protocol")
    else rest

unfoldable pub validate_detect : Detect → Result (Unit {0})
validate_detect d = do
  reject_if (is_negative d.timeout) (failed "config: detect.timeout must not be negative")
  validate_order [] d.order

unfoldable pub all_local : List Addr → List Addr → Result (Unit {0})
all_local local [] = ok tt
all_local local (a ∷ resolved) = do
  reject_if (not (contains local a))
      (failed "config: internal_address is not bound to any local interface")
  all_local local resolved

module _ (host : Host) where
  -- The loop over the mappings, with the addresses to check.
  unfoldable pub resolve_mappings : List Mapping → Addr → Result (List Addr)
  resolve_mappings [] default_addr = ok []
  resolve_mappings (m ∷ ms) default_addr = do
    reject_if (m.internal_address != "" && m.internal_iface != "")
        (failed "config: mapping: internal_address and internal_iface are mutually exclusive")
    addr ← wrap "config: mapping" (internal_address host m default_addr)
    rest ← resolve_mappings ms default_addr
    ok (if m.internal_address != "" && is_valid addr then addr ∷ rest else rest)

  unfoldable pub check_bound : List Addr → Result (Unit {0})
  check_bound [] = ok tt
  check_bound (a ∷ resolved) = do
    local ← wrap "config: list local interface addresses" (local_addresses host)
    all_local local (a ∷ resolved)

  unfoldable pub validate_internal_addresses : Config → Result Addr
  validate_internal_addresses c = do
    reject_if (c.internal_address != "" && c.internal_iface != "")
        (failed "config: internal_address and internal_iface are mutually exclusive")
    default_addr ← default_internal_address host c
    resolved ← resolve_mappings c.mappings default_addr
    check_bound (if c.internal_address != "" then default_addr ∷ resolved else resolved)
    ok default_addr

-- `seenInternal` and `seenExternal`.
pub record Seen : Type 0 where
  pub internal : List PortKey
  pub external : List PortKey

-- The first inner loop.
unfoldable pub validate_requests : List Request → Result (Unit {0})
validate_requests [] = ok tt
validate_requests (r ∷ reqs) = do wrap "config: mapping" (Wire.validate r); validate_requests reqs

unfoldable pub check_internal : Protocol → ℕ → Seen → Result Seen
check_internal proto port seen =
    let k : PortKey = record { protocol = proto; port = port } in
    if contains seen.internal k
    then err (failed "config: mapping: duplicate internal port")
    else ok (record seen { internal = k ∷ seen.internal })

unfoldable pub check_external : Protocol → ℕ → Seen → Result Seen
check_external proto port seen =
    let k : PortKey = record { protocol = proto; port = port } in
    if port == 0
    then ok seen
    else if contains seen.external k
    then err (failed "config: mapping: duplicate external port")
    else ok (record seen { external = k ∷ seen.external })

-- The second inner loop, over the requests of one mapping.
unfoldable pub check_ports : Mapping → List Request → Seen → Result Seen
check_ports m [] seen = ok seen
check_ports m (r ∷ reqs) seen = do
  seen1 ← check_internal r.protocol m.internal_port seen
  seen2 ← check_external r.protocol m.external_port seen1
  check_ports m reqs seen2

module _ (host : Host) where
  unfoldable pub validate_mappings : List Mapping → Addr → Seen → Result (Unit {0})
  validate_mappings [] default_addr seen = ok tt
  validate_mappings (m ∷ ms) default_addr seen = do
    let reqs = mapping_requests host m default_addr
    validate_requests reqs
    seen' ← check_ports m reqs seen
    validate_mappings ms default_addr seen'

  unfoldable pub validate : Config → Result (Unit {0})
  validate c = do
    reject_if (length c.mappings == 0) (failed "config: at least one mapping is required")
    validate_log_level c.log_level
    validate_detect c.detect
    default_addr ← validate_internal_addresses host c
    validate_mappings c.mappings default_addr (record { internal = []; external = [] })
