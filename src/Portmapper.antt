-- ===== src/Portmapper.antt =====
-- internal/portmapper/portmapper.go: the `Client` interface. Its four sentinel errors are the first
-- constructors of `Error`. A client runs in a world `W` that stands for the network, the clock and
-- the client's own fields.
use nat_pmp.Common.{ℕ, String, ◌≡◌, ◌≢◌, false}
use nat_pmp.Common.{ok}
use nat_pmp.Common.Int.{is_nonpositive}
use nat_pmp.Common.Run.{Run}
use nat_pmp.Addr.{Addr}
use nat_pmp.Mapping.{Request, Lease}

-- The contexts that the program passes to a client: the caller's own, the caller's with a timeout
-- (a probe), and a fresh one with a timeout, which the caller's cancellation does not reach.
pub data Context : Type 0 where
  running : Context
  bounded : ℕ → Context
  fresh : ℕ → Context

pub record Client (W : Type 0) : Type 0 where
  pub name : String
  pub external_ip : Context → Run W Addr
  pub map : Context → Request → Run W Lease
  pub unmap : Context → Request → Run W (Unit {0})

-- What a caller may rely on in the lease that `Map` returns for a request.
pub record Fits (r : Request) (l : Lease) : Type 0 where
  pub protocol : l.protocol ≡ r.protocol
  pub internal_port : l.internal_port ≡ r.internal_port
  pub external_port : l.external_port ≢ 0
  pub lifetime : is_nonpositive l.lifetime ≡ false

-- A client whose `Map` never returns a lease that does not fit the request.
pub record IsLawful {W : Type 0} (client : Client W) : Type 0 where
  pub map-Fits :
      (ctx : Context) (r : Request) (w w' : W) (l : Lease)
      → client.map ctx r w ≡ (ok l, w')
      → Fits r l
