-- ===== src/Daemon/Ensure.antt =====
-- internal/daemon/reconcile.go: one mapping is created or refreshed. Logging is left out.
use nat_pmp.Common.{◌==◌, ◌!=◌, string_eq, nat_eq, if◌then◌else◌, failed, Result, ok, err}
use nat_pmp.Common.{◌≡◌, ◌↔◌, arith}
use nat_pmp.Common.Int.{is_nonpositive}
use nat_pmp.Common.Run.{Run, ◌>>=◌, ◌>>◌, lift}
use nat_pmp.Mapping.{Request, Lease}
use nat_pmp.Portmapper.{Client, running, Fits}

unfoldable pub validate_lease : Request → Lease → Result (Unit {0})
validate_lease req lease =
    if lease.protocol != req.protocol
    then err (failed "lease protocol does not match request")
    else if lease.internal_port != req.internal_port
    then err (failed "lease internal port does not match request")
    else if lease.external_port == 0
    then err (failed "lease external port must be non-zero")
    else if is_nonpositive lease.lifetime
    then err (failed "lease lifetime must be positive")
    else ok tt

unfoldable pub ensure : {W : Type 0} → Client W → Request → Run W Lease
ensure client req = do
  lease ← client.map running req
  lift (validate_lease req lease)
  lift (ok lease)

-- `validateLease` accepts exactly the leases that fit the request.
pub validate_lease_iff :
    (req : Request) (lease : Lease) → (validate_lease req lease ≡ ok tt) ↔ Fits req lease
unfolding validate_lease
validate_lease_iff req lease = (λ h. ground arith, λ h. ground arith)

pub ensure-Fits :
    {W : Type 0} (client : Client W) (req : Request) (w w' : W) (l : Lease)
    → ensure client req w ≡ (ok l, w')
    → Fits req l
unfolding ensure
ensure-Fits client req w w' l h = ground (arith, validate_lease_iff req l)
