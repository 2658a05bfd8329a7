-- ===== src/Daemon/Continuity/Unbroken.antt =====
-- From round to round of the renewal loop of internal/daemon/daemon.go no lease runs out.
use nat_pmp.Common.{
  All, All-both, ok, ℕ, ◌+◌, ◌-◌, ◌*◌, ◌/◌, ◌≤◌, ◌<◌, ◌≡◌, sym, ap, subst, arith, true, false, List,
  [], some, map, contains, length, nat_eq, string_eq, inr,
}
use nat_pmp.Common.Dict.{lookup}
use nat_pmp.Common.Int.{nanoseconds, is_nonpositive}
use nat_pmp.Addr.{Addr, invalid}
use nat_pmp.Mapping.{Lease, validate, renew_before}
use nat_pmp.Daemon.State.{
  Host, Daemon, Key, key_eq, key_of, refresh_local_addr, reconcile_all, time_until_next, renew_due,
  renew_round,
}
use nat_pmp.Daemon.Invariant.{requests-Within, refresh_local_addr-maps, time_until_next-maps}
use nat_pmp.Daemon.Scheduling.{time_until_next-least}
use nat_pmp.Daemon.Run.{launch}
use nat_pmp.Daemon.Run.Reach.{Reaches, launched, renewed}
use nat_pmp.Daemon.Punctual.{
  Punctual, calls_time, calls_time_lem, refresh_local_addr-takes, reconcile_each-takes,
  renew_each-takes, time_until_next-takes,
}
use nat_pmp.Daemon.Continuity.{IsServed, Serves, Kept-same, Kept-since}
use nat_pmp.Daemon.Continuity.Rounds.{AllKept, renew_each-Kept, reconcile_each-Kept}

-- A pass takes at most this long: three calls, and three for each mapping.
abbrev pub pass_time : ℕ → List Key → ℕ
pass_time tick keys = 3 * tick + length keys * (3 * tick)

module _ {W : Type 0} (host : Host W) (clock : W → ℕ) (tick lag : ℕ)
    (punctual : Punctual host clock tick lag) (keys : List Key) (life : ℕ)
    (serves : Serves host clock keys life) (stable : (w : W) → map key_of (host.requests w) ≡ keys)
    (valid : (w : W) → All (λ r. validate r ≡ ok tt) (host.requests w)) where
  requests-IsServed : (w : W) → All (IsServed keys) (host.requests w)
  requests-IsServed w =
      All-both _ _ (host.requests w) (requests-Within host keys stable w) (valid w)

  pass_time_lem : (w : W) → 3 * tick + calls_time tick (host.requests w) ≡ pass_time tick keys
  pass_time_lem w = rw (calls_time_lem tick (host.requests w), stable w)

  -- Since `b`, at most a pass ago, every mapping has been found not due, or renewed.
  record OnTime (d : Daemon W) : Type 0 where
    since : ℕ
    recent : clock d.world ≤ since + pass_time tick keys
    kept : AllKept host clock tick lag punctual keys life serves since d

  renew_due-OnTime :
      (d : Daemon W)
      → AllKept host clock tick lag punctual keys life serves 0 d
      → OnTime (renew_due host d)
        × (clock (renew_due host d).world ≤ clock d.world + pass_time tick keys)
  unfolding renew_due
  renew_due-OnTime d all =
      let d1 = refresh_local_addr host d in
      let now = (host.now d1.world).0 in
      let w = (host.now d1.world).1 in
      let d2 : Daemon W = record d1 { world = w } in
      let (p, q) = refresh_local_addr-maps host keys d in
      let reads = punctual.reads d1.world in
      let (from, to) = punctual.now d1.world in
      let takes = refresh_local_addr-takes host clock tick lag punctual d in
      let rest = renew_each-takes host clock tick lag punctual now (host.requests w) d2 in
      let total = pass_time_lem w in
      (
        record {
          since = now;
          recent = omega arith;
          kept = λ k h.
              renew_each-Kept host clock tick lag punctual keys life serves now (host.requests w) d2
                (requests-IsServed w) (omega arith)
                (λ j hj.
                  Kept-same host clock tick lag punctual keys life serves 0 j d d2 (ap (lookup j) p)
                    (ap (lookup j) q) (all j hj))
                k h (inr (subst (λ ks. contains ks k ≡ true) (sym (stable w)) h));
        },
        omega arith,
      )

  -- The state that the timer leaves, when it was set to `delay`.
  abbrev woken : ℕ → Daemon W → Daemon W
  woken delay d =
      let d' = (time_until_next host d).1 in record d' { world = host.sleep delay d'.world }

  renew_round-waits :
      (d : Daemon W) (delay : ℕ)
      → (time_until_next host d).0 ≡ some delay
      → renew_round host d ≡ renew_due host (woken delay d)
  unfolding renew_round
  renew_round-waits d delay e = rw (e, renew_round)

  -- A round ends soon after the time of each mapping.
  record EndsSoon (d : Daemon W) : Type 0 where
    next : OnTime (renew_round host d)
    soon :
        (k : Key) (at : ℕ)
        → lookup k d.next_at ≡ some at
        → clock d.world ≤ at + pass_time tick keys
        → clock (renew_round host d).world ≤ at + 2 * pass_time tick keys + tick + lag

  renew_round-EndsSoon : (d : Daemon W) (k : Key) → contains keys k ≡ true → OnTime d → EndsSoon d
  renew_round-EndsSoon d k h o =
      let own = o.kept k h in
      let (t, e, has, least) = time_until_next-least host d k (λ x. cc (x, own.time)) in
      let delay = t - (host.now d.world).0 in
      let d1 = woken delay d in
      let (p, q) = time_until_next-maps host keys d in
      let reads = punctual.reads d.world in
      let takes = time_until_next-takes host clock tick lag punctual d in
      let (from, to) = punctual.sleeps delay (time_until_next host d).1.world in
      let (next, ends) = renew_due-OnTime d1 (λ j hj.
        Kept-same host clock tick lag punctual keys life serves 0 j d d1 (ap (lookup j) p)
          (ap (lookup j) q)
          (Kept-since host clock tick lag punctual keys life serves o.since 0 j d (omega arith)
            (o.kept j hj))) in
      let waits = renew_round-waits d delay e in
      record {
        next = subst OnTime (sym waits) next;
        soon = λ j at f le.
            let low = least j at f in omega (arith, ap (λ (x : Daemon W). clock x.world) waits);
      }

  launch-OnTime : (gateway : Addr) (w : W) → OnTime (launch host gateway w)
  unfolding launch reconcile_all
  launch-OnTime gateway w =
      let fresh : Daemon W = record {
        world = w;
        gateway_ip = gateway;
        local_ip = invalid;
        leases = [];
        next_at = [];
      } in
      let d = refresh_local_addr host fresh in
      let reqs = host.requests d.world in
      let takes = reconcile_each-takes host clock tick lag punctual reqs d in
      let total = pass_time_lem d.world in
      record {
        since = clock d.world;
        recent = omega arith;
        kept = λ k h.
            reconcile_each-Kept host clock tick lag punctual keys life serves (clock d.world) reqs d
              (requests-IsServed d.world) (omega arith) k
              (inr (subst (λ ks. contains ks k ≡ true) (sym (stable d.world)) h));
      }

  Reaches-OnTime : {d : Daemon W} (k : Key) → contains keys k ≡ true → Reaches host d → OnTime d
  Reaches-OnTime k h (launched gateway w) = launch-OnTime gateway w
  Reaches-OnTime k h (renewed {d} r) =
      EndsSoon.next (renew_round-EndsSoon d k h (Reaches-OnTime k h r))

  -- Half of a lease, as `RenewBefore` halves it, is left after the renewal.
  half_left :
      (l : Lease)
      → life ≤ nanoseconds l.lifetime
      → is_nonpositive l.lifetime ≡ false
      → renew_before l + life ≤ l.acquired + nanoseconds l.lifetime + life / 2
  unfolding renew_before
  half_left l lasts positive = ground arith

  -- Say that every call of the host takes at most `tick`, a timer is at most `lag` late, the
  -- configured requests are valid, the gateway grants leases of at least `life` for valid requests,
  -- and no listener is missing. If twice the time of two
  -- passes, two calls and `lag` is less than `life`, then a mapping that is configured has a lease at
  -- the top of every round, and that lease has not run out at the end of the round, with a call to
  -- spare; by then the mapping has its next lease, or was not due. So no mapping is ever without one.
  -- The keys of the configured mappings do not change with the world.
  pub Reaches-unbroken :
      {d : Daemon W} (k : Key)
      → 2 * (2 * pass_time tick keys + 2 * tick + lag) < life
      → contains keys k ≡ true
      → Reaches host d
      → (l : Lease) × (lookup k d.leases ≡ some l)
        × (clock (renew_round host d).world + tick < l.acquired + nanoseconds l.lifetime)
  Reaches-unbroken {d} k enough h r =
      let o = Reaches-OnTime k h r in
      let own = o.kept k h in
      let half = half_left own.lease own.lasts own.positive in
      let at = renew_before own.lease in
      let after = own.after in
      let recent = o.recent in
      let soon = EndsSoon.soon (renew_round-EndsSoon d k h o) k at own.time (omega arith) in
      (own.lease, own.held, omega arith)
