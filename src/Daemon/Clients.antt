-- ===== src/Daemon/Clients.antt =====
-- `ensureMapping` of internal/daemon/reconcile.go, on the clients of internal/portmapper.
use nat_pmp.Common.{◌≡◌, ap, arith, inl, inr, Result-cases, ok}
use nat_pmp.Mapping.{Request}
use nat_pmp.Portmapper.{Client, Context, running, IsLawful}
use nat_pmp.Network.{Net, History}
use nat_pmp.Daemon.Ensure.{validate_lease, validate_lease_iff, ensure}
use nat_pmp.Natpmp.Client as Natpmp
use nat_pmp.Natpmp.Leases.{map-Fits}
use nat_pmp.Pcp.Client as Pcp
use nat_pmp.Pcp.Leases.{lease-Fits}
use nat_pmp.Upnp.Client as Upnp
use nat_pmp.Upnp.Device.{Parsers}
use nat_pmp.Upnp.Soap as Soap
use nat_pmp.Upnp.Leases.{map-Fits_upnp}

natpmp-IsLawful : (net : Context → Net) (c : Natpmp.Settings) → IsLawful (Natpmp.client net c)
natpmp-IsLawful net c = record { map-Fits = λ ctx. map-Fits (net ctx) c }

pcp-IsLawful : (net : Context → Net) (c : Pcp.Settings) → IsLawful (Pcp.client net c)
pcp-IsLawful net c = record { map-Fits = λ ctx. lease-Fits (net ctx) c }

upnp-IsLawful :
    {U : Type 0} (net : Context → Soap.Net) (parsers : Parsers U)
    → IsLawful (Upnp.client net parsers)
upnp-IsLawful net parsers = record { map-Fits = λ ctx. map-Fits_upnp (net ctx) parsers }

-- Of a lawful client, no lease is rejected.
pub ensure-map :
    {W : Type 0} (client : Client W)
    → IsLawful client
    → (req : Request) (w : W) → ensure client req w ≡ client.map running req w
unfolding ensure
ensure-map client lawful req w = elim (Result-cases (client.map running req w).0) [
  | inl (l, e) ↦
      let after = (client.map running req w).1 in
      let fits = lawful.map-Fits running req w after l (ap (λ r. (r, after)) e) in
      let accepted : validate_lease req l ≡ ok tt = (validate_lease_iff req l).1 fits in
      ground (arith, e, accepted)
  | inr (x, e) ↦ ground (arith, e)
]

-- On the three clients that detection chooses from, the check of the lease that `ensureMapping` makes
-- after `Map` never fails: it behaves as `Map` itself, in its result, its errors and its calls.
pub ensure-clients :
    {U : Type 0} (net : Context → Net) (soap : Context → Soap.Net) (parsers : Parsers U)
    (n : Natpmp.Settings) (p : Pcp.Settings) (req : Request) (h : History) (ps : Pcp.State)
    (us : Upnp.State)
    → (ensure (Natpmp.client net n) req h ≡ Natpmp.map (net running) n req h)
      × (ensure (Pcp.client net p) req ps ≡ Pcp.map (net running) p req ps)
      × (ensure (Upnp.client soap parsers) req us ≡ Upnp.map (soap running) parsers req us)
ensure-clients net soap parsers n p req h ps us = (
  ensure-map (Natpmp.client net n) (natpmp-IsLawful net n) req h,
  ensure-map (Pcp.client net p) (pcp-IsLawful net p) req ps,
  ensure-map (Upnp.client soap parsers) (upnp-IsLawful soap parsers) req us,
)
