-- ===== src/Daemon/Frame.antt =====
-- A property of the world that each call of the daemon of internal/daemon/daemon.go keeps holds
-- throughout its life.
pub mod Passes
pub mod Whole
use nat_pmp.Common.{
  All, ◌≡◌, subst, arith, ℕ, zero, suc, List, [], ◌∷◌, none, Option, ltb, length, ◌==◌, nat_eq, inl,
  inr, Error, Result, ok, Result-cases, Option-cases, Bool-cases,
}
use nat_pmp.Common.Dict.{lookup}
use nat_pmp.Addr.{Addr, invalid}
use nat_pmp.Mapping.{Protocol, Request}
use nat_pmp.Portmapper.{Client, Context, bounded, running, fresh}
use nat_pmp.Daemon.Ensure.{ensure}
use nat_pmp.Daemon.State.{
  Host, Daemon, Key, key_eq, key_of, release_timeout, retry_backoff, listener_poll_interval,
  release_request, schedule, refresh_local_addr, release_one, has_listener, map_request, renew_one,
  reconcile_one, reconcile_each, reconcile_all, time_until_next, soonest, renew_if_due, renew_each,
  renew_due, release_if_active, release_each, release_all, renew_round, renew_loop,
}
use nat_pmp.Daemon.Detect.{Candidate, detect}
use nat_pmp.Common.Run.{Run}
use nat_pmp.Daemon.Run.{launch, run}

-- The calls of a client keep the property.
pub record ClientKeeps {W : Type 0} (P : W → Type 0) (client : Client W) : Type 0 where
  pub external_ip : (ctx : Context) (w : W) → P w → P (client.external_ip ctx w).1
  pub map : (ctx : Context) (r : Request) (w : W) → P w → P (client.map ctx r w).1
  pub unmap : (ctx : Context) (r : Request) (w : W) → P w → P (client.unmap ctx r w).1

pub record HostKeeps {W : Type 0} (P : W → Type 0) (host : Host W) : Type 0 where
  pub client : ClientKeeps P host.client
  pub listener : (p : Protocol) (port : ℕ) (w : W) → P w → P (host.listener p port w).1
  pub local_addr : (a : Addr) (w : W) → P w → P (host.local_addr a w).1
  pub now : (w : W) → P w → P (host.now w).1
  pub advertise : (a : Addr) (w : W) → P w → P (host.advertise a w)
  pub sleep : (delay : ℕ) (w : W) → P w → P (host.sleep delay w)

-- The property holds after the detection, and the client that it found keeps it.
pub record Detected {W : Type 0} (P : W → Type 0) (r : Result (Client W) × W) : Type 0 where
  pub keeps : (client : Client W) → r.0 ≡ ok client → ClientKeeps P client
  pub holds : P r.1
