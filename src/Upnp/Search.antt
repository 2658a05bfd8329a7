-- ===== src/Upnp/Search.antt =====
-- internal/portmapper/upnp/upnp.go, `New`: the client searches with `discover` of ssdp.go.
pub mod Fetched
pub mod Origin
pub mod States
pub mod Described
use nat_pmp.Common.{ℕ, String, List, [], map, Option, none, some, failed, Result, ok, err}
use nat_pmp.Network as Network
use nat_pmp.Upnp.Soap.{History, Net}
use nat_pmp.Upnp.Ssdp.Discover.{Outcome, default_search_timeout, discover}

-- `text` makes a string of bytes.
unfoldable pub texts : (List ℕ → String) → Outcome → Result (List String)
texts text none = err (failed "upnp: the rounds given to the search have run out")
texts text (some (ok locations, h)) = ok (map text locations)
texts text (some (err e, h)) = err e

-- The network of the client, when its searches run over `sockets`, which depend on all that the
-- client has done before, with so many rounds of the collection as fuel.
abbrev pub with_discover : (List ℕ → String) → ℕ → (History → Network.Net) → Net → Net
with_discover text fuel sockets net = record net {
  search = λ h. texts text (discover (sockets h) fuel default_search_timeout []);
}
