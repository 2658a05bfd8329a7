-- ===== src/Daemon/Run.antt =====
-- `Daemon.Run` of internal/daemon/daemon.go, and the states that it goes through.
pub mod Reach
use nat_pmp.Common.{ℕ, zero, suc, String, List, [], ◌∷◌, Error, wrapped, Result, ok, err}
use nat_pmp.Common.Run.{Run}
use nat_pmp.Addr.{Addr, invalid}
use nat_pmp.Portmapper.{Client}
use nat_pmp.Daemon.State.{Host, Daemon, refresh_local_addr, reconcile_all, renew_loop}

module _ {W : Type 0} where
  -- The daemon as `Run` has set it up when the client is known, after the first pass.
  unfoldable pub launch : Host W → Addr → W → Daemon W
  launch host gateway w = reconcile_all host (
      refresh_local_addr host
        (record { world = w; gateway_ip = gateway; local_ip = invalid; leases = []; next_at = [] }))

  -- `Run` with its gateway and detect functions, the timer firing `rounds` times before the context
  -- is done. The errors are the one that stops the daemon early, or those of the releases.
  unfoldable pub run :
      Run W Addr → (Addr → Run W (Client W)) → (Client W → Host W) → ℕ → W → List Error × W
  run gateway detect host_for rounds w =
      let (found, w1) = gateway w in
      elim found [
        | err e ↦ (wrapped "daemon: discover gateway" e ∷ [], w1)
        | ok addr ↦
            let (detected, w2) = detect addr w1 in
            elim detected [
              | err e ↦ (e ∷ [], w2)
              | ok client ↦
                  let host = host_for client in
                  let (errs, d) = renew_loop host rounds (launch host addr w2) in (errs, d.world)
            ]
      ]
