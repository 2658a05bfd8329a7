-- ===== src/Daemon/Punctual.antt =====
-- How long the methods of internal/daemon/daemon.go take, on a host whose calls take a bounded time.
use nat_pmp.Common.{
  ℕ, ◌+◌, ◌*◌, ◌≤◌, ◌≡◌, arith, true, List, [], ◌∷◌, length, map, none, ltb, nat_eq, string_eq, inl,
  inr, Result-cases, Option-cases, Bool-cases,
}
use nat_pmp.Common.Dict.{lookup}
use nat_pmp.Addr.{Addr}
use nat_pmp.Mapping.{Protocol, Request}
use nat_pmp.Portmapper.{Context, running, fresh}
use nat_pmp.Daemon.Ensure.{ensure}
use nat_pmp.Daemon.State.{
  Host, Daemon, Key, key_eq, key_of, release_timeout, retry_backoff, listener_poll_interval,
  release_request, schedule, refresh_local_addr, release_one, has_listener, map_request, renew_one,
  reconcile_one, reconcile_each, time_until_next, soonest, renew_if_due, renew_each,
}
use nat_pmp.Daemon.Frame.{HostKeeps}
use nat_pmp.Daemon.Frame.Passes.{ensure-world}

module _ {W : Type 0} where
  -- From `w` to `w'` the clock has advanced, by at most `tick`.
  abbrev pub Passes : (W → ℕ) → ℕ → W → W → Type 0
  Passes clock tick w w' = (clock w ≤ clock w') × (clock w' ≤ clock w + tick)

-- A host on which every call takes at most `tick`, and a timer is at most `lag` late.
pub record Punctual {W : Type 0} (host : Host W) (clock : W → ℕ) (tick lag : ℕ) : Type 0 where
  pub reads : (w : W) → (host.now w).0 ≡ clock w
  pub now : (w : W) → Passes clock tick w (host.now w).1
  pub external_ip : (ctx : Context) (w : W) → Passes clock tick w (host.client.external_ip ctx w).1
  pub maps : (ctx : Context) (r : Request) (w : W) → Passes clock tick w (host.client.map ctx r w).1
  pub unmaps :
      (ctx : Context) (r : Request) (w : W) → Passes clock tick w (host.client.unmap ctx r w).1
  pub listener : (p : Protocol) (port : ℕ) (w : W) → Passes clock tick w (host.listener p port w).1
  pub local_addr : (a : Addr) (w : W) → Passes clock tick w (host.local_addr a w).1
  pub advertise : (a : Addr) (w : W) → Passes clock tick w (host.advertise a w)
  pub sleeps : (delay : ℕ) (w : W) → Passes clock (delay + lag) w (host.sleep delay w)

-- Three calls for each request.
abbrev pub calls_time : ℕ → List Request → ℕ
calls_time tick [] = 0
calls_time tick (r ∷ reqs) = 3 * tick + calls_time tick reqs

pub calls_time_lem :
    (tick : ℕ) (reqs : List Request) → calls_time tick reqs ≡ length (map key_of reqs) * (3 * tick)
calls_time_lem tick [] = omega arith
calls_time_lem tick (r ∷ reqs) = grind (arith, calls_time_lem tick reqs)

module _ {W : Type 0} (host : Host W) (clock : W → ℕ) (tick lag : ℕ)
    (punctual : Punctual host clock tick lag) where
  -- Time does not run backwards.
  pub advances : (t : ℕ) → HostKeeps (λ w. t ≤ clock w) host
  advances t = record {
    client = record {
      external_ip = λ ctx w p. omega (arith, (punctual.external_ip ctx w).0);
      map = λ ctx r w p. omega (arith, (punctual.maps ctx r w).0);
      unmap = λ ctx r w p. omega (arith, (punctual.unmaps ctx r w).0);
    };
    listener = λ p port w q. omega (arith, (punctual.listener p port w).0);
    local_addr = λ a w p. omega (arith, (punctual.local_addr a w).0);
    now = λ w p. omega (arith, (punctual.now w).0);
    advertise = λ a w p. omega (arith, (punctual.advertise a w).0);
    sleep = λ d w p. omega (arith, (punctual.sleeps d w).0);
  }

  schedule-takes :
      (k : Key) (delay : ℕ) (d : Daemon W)
      → clock (schedule host k delay d).world ≤ clock d.world + tick
  unfolding schedule
  schedule-takes k delay d = (punctual.now d.world).1

  pub refresh_local_addr-takes :
      (d : Daemon W) → clock (refresh_local_addr host d).world ≤ clock d.world + 2 * tick
  unfolding refresh_local_addr
  refresh_local_addr-takes d =
      let found = host.local_addr d.gateway_ip d.world in
      let q = (punctual.local_addr d.gateway_ip d.world).1 in
      elim (Result-cases found.0) [
        | inr (e, r) ↦ rw (r, refresh_local_addr) (omega arith)
        | inl (a, r) ↦
            let p = (punctual.advertise a found.1).1 in rw (r, refresh_local_addr) (omega arith)
      ]

  release_one-takes :
      (k : Key) (req : Request) (d : Daemon W)
      → clock (release_one host k req d).world ≤ clock d.world + tick
  unfolding release_one
  release_one-takes k req d = elim (Option-cases (lookup k d.leases)) [
    | inl e ↦ rw (e, release_one) (omega arith)
    | inr (l, e) ↦
        rw (e, release_one)
          (punctual.unmaps (fresh release_timeout) (release_request req l) d.world).1
  ]

  renew_one-takes :
      (req : Request) (d : Daemon W) → clock (renew_one host req d).world ≤ clock d.world + 2 * tick
  unfolding renew_one
  renew_one-takes req d =
      let m = map_request host (key_of req) req d in
      let w' = (ensure host.client m d.world).1 in
      let q : clock w' ≤ clock d.world + tick =
        rw (ensure-world host.client m d.world) ((punctual.maps running m d.world).1) in
      elim (Result-cases (ensure host.client m d.world).0) [
        | inr (e, r) ↦
            let p = schedule-takes (key_of req) retry_backoff (record d { world = w' }) in
            rw (r, renew_one) (omega arith)
        | inl (a, r) ↦ rw (r, renew_one) (omega arith)
      ]

  -- One call, or three and nothing more.
  has_listener-takes :
      (k : Key) (req : Request) (d : Daemon W)
      → clock (has_listener host k req d).1.world
        ≤ clock d.world + (elim (has_listener host k req d).0 [ true ↦ tick | _ ↦ 3 * tick ])
  unfolding has_listener
  has_listener-takes k req d =
      let found = host.listener req.protocol req.internal_port d.world in
      let d1 : Daemon W = record d { world = found.1 } in
      let q = (punctual.listener req.protocol req.internal_port d.world).1 in
      elim (Result-cases found.0) [
        | inr (e, r) ↦ rw (r, has_listener) q
        | inl (present, r) ↦ elim (Bool-cases present) [
          | inl there ↦ rw (r, there, has_listener) q
          | inr absent ↦
              let p = release_one-takes k req d1 in
              let s = schedule-takes k listener_poll_interval (release_one host k req d1) in
              rw (r, absent, has_listener) (omega arith)
        ]
      ]

  pub reconcile_one-takes :
      (req : Request) (d : Daemon W)
      → clock (reconcile_one host req d).world ≤ clock d.world + 3 * tick
  unfolding reconcile_one
  reconcile_one-takes req d =
      let q = has_listener-takes (key_of req) req d in
      let d' = (has_listener host (key_of req) req d).1 in
      elim (Bool-cases req.require_listener) [
        | inr free ↦ rw (free, reconcile_one) (omega (arith, renew_one-takes req d))
        | inl gated ↦ elim (Bool-cases (has_listener host (key_of req) req d).0) [
          | inl there ↦
              let p = renew_one-takes req d' in rw (gated, there, reconcile_one) (ground arith)
          | inr absent ↦ rw (gated, absent, reconcile_one) (ground arith)
        ]
      ]

  pub reconcile_each-takes :
      (reqs : List Request) (d : Daemon W)
      → clock (reconcile_each host reqs d).world ≤ clock d.world + calls_time tick reqs
  unfolding reconcile_each
  reconcile_each-takes [] d = omega arith
  reconcile_each-takes (r ∷ reqs) d =
      omega (arith, reconcile_one-takes r d, reconcile_each-takes reqs (reconcile_one host r d))

  renew_if_due-takes :
      (now : ℕ) (req : Request) (d : Daemon W)
      → clock (renew_if_due host now req d).world ≤ clock d.world + 3 * tick
  unfolding renew_if_due
  renew_if_due-takes now req d = elim (Option-cases (lookup (key_of req) d.next_at)) [
    | inl e ↦ rw (e, renew_if_due) (omega arith)
    | inr (at, e) ↦ elim (Bool-cases (ltb now at)) [
      | inl later ↦ rw (e, later, renew_if_due) (omega arith)
      | inr due ↦ rw (e, due, renew_if_due) (reconcile_one-takes req d)
    ]
  ]

  pub renew_each-takes :
      (now : ℕ) (reqs : List Request) (d : Daemon W)
      → clock (renew_each host now reqs d).world ≤ clock d.world + calls_time tick reqs
  unfolding renew_each
  renew_each-takes now [] d = omega arith
  renew_each-takes now (r ∷ reqs) d =
      omega
        (arith, renew_if_due-takes now r d, renew_each-takes now reqs (renew_if_due host now r d))

  pub time_until_next-takes :
      (d : Daemon W) → clock (time_until_next host d).1.world ≤ clock d.world + tick
  unfolding time_until_next
  time_until_next-takes d = elim (Option-cases (soonest host none d.next_at)) [
    | inl e ↦ rw (e, time_until_next) (omega arith)
    | inr (at, e) ↦ rw (e, time_until_next) ((punctual.now d.world).1)
  ]
