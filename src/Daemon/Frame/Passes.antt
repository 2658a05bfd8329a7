-- ===== src/Daemon/Frame/Passes.antt =====
-- The passes, the renewal loop and the launch of internal/daemon/daemon.go keep what the calls keep.
use nat_pmp.Common.{
  ◌≡◌, arith, ℕ, zero, suc, List, [], ◌∷◌, none, ltb, length, ◌==◌, nat_eq, inl, inr, Error,
  Result-cases, Option-cases, Bool-cases,
}
use nat_pmp.Common.Dict.{lookup}
use nat_pmp.Addr.{Addr, invalid}
use nat_pmp.Mapping.{Request}
use nat_pmp.Portmapper.{Client, running, fresh}
use nat_pmp.Daemon.Ensure.{ensure}
use nat_pmp.Daemon.State.{
  Host, Daemon, Key, key_eq, key_of, release_timeout, retry_backoff, listener_poll_interval,
  release_request, schedule, refresh_local_addr, release_one, has_listener, map_request, renew_one,
  reconcile_one, reconcile_each, reconcile_all, time_until_next, soonest, renew_if_due, renew_each,
  renew_due, release_if_active, release_each, release_all, renew_round, renew_loop,
}
use nat_pmp.Daemon.Run.{launch}
use nat_pmp.Daemon.Frame.{HostKeeps}

pub ensure-world :
    {W : Type 0} (client : Client W) (req : Request) (w : W)
    → (ensure client req w).1 ≡ (client.map running req w).1
unfolding ensure
ensure-world client req w = ground arith

module _ {W : Type 0} (P : W → Type 0) (host : Host W) (keeps : HostKeeps P host) where
  schedule-Keeps :
      (k : Key) (delay : ℕ) (d : Daemon W) → P d.world → P (schedule host k delay d).world
  unfolding schedule
  schedule-Keeps k delay d p = keeps.now d.world p

  pub refresh_local_addr-Keeps : (d : Daemon W) → P d.world → P (refresh_local_addr host d).world
  unfolding refresh_local_addr
  refresh_local_addr-Keeps d p =
      let found = host.local_addr d.gateway_ip d.world in
      let q = keeps.local_addr d.gateway_ip d.world p in
      elim (Result-cases found.0) [
        | inr (e, r) ↦ rw (r, refresh_local_addr) q
        | inl (a, r) ↦ rw (r, refresh_local_addr) (keeps.advertise a found.1 q)
      ]

  release_one-Keeps :
      (k : Key) (req : Request) (d : Daemon W) → P d.world → P (release_one host k req d).world
  unfolding release_one
  release_one-Keeps k req d p = elim (Option-cases (lookup k d.leases)) [
    | inl e ↦ rw (e, release_one) p
    | inr (l, e) ↦
        rw (e, release_one)
          (keeps.client.unmap (fresh release_timeout) (release_request req l) d.world p)
  ]

  renew_one-Keeps : (req : Request) (d : Daemon W) → P d.world → P (renew_one host req d).world
  unfolding renew_one
  renew_one-Keeps req d p =
      let m = map_request host (key_of req) req d in
      let w' = (ensure host.client m d.world).1 in
      let q : P w' =
        rw (ensure-world host.client m d.world) (keeps.client.map running m d.world p) in
      elim (Result-cases (ensure host.client m d.world).0) [
        | inr (e, r) ↦
            rw (r, renew_one)
              (schedule-Keeps (key_of req) retry_backoff (record d { world = w' }) q)
        | inl (a, r) ↦ rw (r, renew_one) q
      ]

  has_listener-Keeps :
      (k : Key) (req : Request) (d : Daemon W) → P d.world → P (has_listener host k req d).1.world
  unfolding has_listener
  has_listener-Keeps k req d p =
      let found = host.listener req.protocol req.internal_port d.world in
      let d1 : Daemon W = record d { world = found.1 } in
      let q : P d1.world = keeps.listener req.protocol req.internal_port d.world p in
      elim (Result-cases found.0) [
        | inr (e, r) ↦ rw (r, has_listener) q
        | inl (present, r) ↦ elim (Bool-cases present) [
          | inl yes_there ↦ rw (r, yes_there, has_listener) q
          | inr absent ↦
              rw (r, absent, has_listener)
                (schedule-Keeps k listener_poll_interval (release_one host k req d1)
                  (release_one-Keeps k req d1 q))
        ]
      ]

  pub reconcile_one-Keeps :
      (req : Request) (d : Daemon W) → P d.world → P (reconcile_one host req d).world
  unfolding reconcile_one
  reconcile_one-Keeps req d p =
      let (present, d1) = has_listener host (key_of req) req d in
      let q = has_listener-Keeps (key_of req) req d p in
      elim (Bool-cases req.require_listener) [
        | inr free ↦ rw (free, reconcile_one) (renew_one-Keeps req d p)
        | inl needed ↦ elim (Bool-cases (has_listener host (key_of req) req d).0) [
          | inl there ↦ rw (needed, there, reconcile_one) (renew_one-Keeps req d1 q)
          | inr absent ↦ rw (needed, absent, reconcile_one) q
        ]
      ]

  reconcile_each-Keeps :
      (reqs : List Request) (d : Daemon W) → P d.world → P (reconcile_each host reqs d).world
  unfolding reconcile_each
  reconcile_each-Keeps [] d p = p
  reconcile_each-Keeps (req ∷ reqs) d p = reconcile_each-Keeps reqs _ (reconcile_one-Keeps req d p)

  pub time_until_next-Keeps : (d : Daemon W) → P d.world → P (time_until_next host d).1.world
  unfolding time_until_next
  time_until_next-Keeps d p = elim (Option-cases (soonest host none d.next_at)) [
    | inl e ↦ rw (e, time_until_next) p
    | inr (at, e) ↦ rw (e, time_until_next) (keeps.now d.world p)
  ]

  pub renew_if_due-Keeps :
      (now : ℕ) (req : Request) (d : Daemon W) → P d.world → P (renew_if_due host now req d).world
  unfolding renew_if_due
  renew_if_due-Keeps now req d p = elim (Option-cases (lookup (key_of req) d.next_at)) [
    | inl e ↦ rw (e, renew_if_due) p
    | inr (at, e) ↦ elim (Bool-cases (ltb now at)) [
      | inl early ↦ rw (e, early, renew_if_due) p
      | inr due ↦ rw (e, due, renew_if_due) (reconcile_one-Keeps req d p)
    ]
  ]

  renew_each-Keeps :
      (now : ℕ) (reqs : List Request) (d : Daemon W)
      → P d.world
      → P (renew_each host now reqs d).world
  unfolding renew_each
  renew_each-Keeps now [] d p = p
  renew_each-Keeps now (req ∷ reqs) d p =
      renew_each-Keeps now reqs _ (renew_if_due-Keeps now req d p)

  renew_due-Keeps : (d : Daemon W) → P d.world → P (renew_due host d).world
  unfolding renew_due
  renew_due-Keeps d p =
      let d1 = refresh_local_addr host d in
      let (now, w) = host.now d1.world in
      renew_each-Keeps now (host.requests w) (record d1 { world = w })
        (keeps.now d1.world (refresh_local_addr-Keeps d p))

  release_if_active-Keeps :
      (req : Request) (errs : List Error) (d : Daemon W)
      → P d.world
      → P (release_if_active host req (errs, d)).1.world
  unfolding release_if_active
  release_if_active-Keeps req errs d p = elim (Option-cases (lookup (key_of req) d.leases)) [
    | inl e ↦ rw (e, release_if_active) p
    | inr (l, e) ↦
        let q = keeps.client.unmap (fresh release_timeout) (release_request req l) d.world p in
        elim (Result-cases
          (host.client.unmap (fresh release_timeout) (release_request req l) d.world).0) [
            | inl (u, r) ↦ rw (e, r, release_if_active) q
            | inr (x, r) ↦ rw (e, r, release_if_active) q
          ]
  ]

  release_each-Keeps :
      (reqs : List Request) (errs : List Error) (d : Daemon W)
      → P d.world
      → P (release_each host reqs (errs, d)).1.world
  unfolding release_each
  release_each-Keeps [] errs d p = p
  release_each-Keeps (req ∷ reqs) errs d p =
      release_each-Keeps reqs _ _ (release_if_active-Keeps req errs d p)

  release_all-Keeps : (d : Daemon W) → P d.world → P (release_all host d).1.world
  unfolding release_all
  release_all-Keeps d p = elim (Bool-cases (length d.leases == 0)) [
    | inl none_left ↦ rw (none_left, release_all) p
    | inr left ↦ rw (left, release_all) (release_each-Keeps (host.requests d.world) [] d p)
  ]

  pub renew_round-Keeps : (d : Daemon W) → P d.world → P (renew_round host d).world
  unfolding renew_round
  renew_round-Keeps d p =
      renew_due-Keeps (record (time_until_next host d).1 { world = _ })
        (keeps.sleep _ _ (time_until_next-Keeps d p))

  pub renew_loop-Keeps :
      (rounds : ℕ) (d : Daemon W) → P d.world → P (renew_loop host rounds d).1.world
  unfolding renew_loop
  renew_loop-Keeps zero d p = release_all-Keeps _ (time_until_next-Keeps d p)
  renew_loop-Keeps (suc rounds) d p = renew_loop-Keeps rounds _ (renew_round-Keeps d p)

  pub launch-Keeps : (gateway : Addr) (w : W) → P w → P (launch host gateway w).world
  unfolding launch reconcile_all
  launch-Keeps gateway w p =
      let start : Daemon W = record {
        world = w;
        gateway_ip = gateway;
        local_ip = invalid;
        leases = [];
        next_at = [];
      } in
      let d = refresh_local_addr host start in
      reconcile_each-Keeps (host.requests d.world) d (refresh_local_addr-Keeps start p)
