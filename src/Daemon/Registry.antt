-- ===== src/Daemon/Registry.antt =====
-- An abstract registry of forwardings, which the daemon of internal/daemon/daemon.go implements. Its
-- state is a function from keys to leases: the order and the times of the daemon are forgotten.
use nat_pmp.Common.{
  ℕ, zero, suc, ◌≡◌, inl, inr, refl, ◌∙◌, sym, ap, arith, true, List, [], ◌∷◌, map, Option, none,
  some, contains, ◌==◌, if◌then◌else◌, ltb, length, nat_eq, string_eq, Bool-cases, Option-cases,
  Result-cases, Error, ok,
}
use nat_pmp.Common.Dict.{lookup, lookup-nil, lookup-erase}
use nat_pmp.Addr.{Addr, invalid}
use nat_pmp.Mapping.{Request, Lease}
use nat_pmp.Daemon.State.{
  map_request, Host, Daemon, Key, key_eq, key_of, refresh_local_addr, reconcile_one, reconcile_each,
  reconcile_all, time_until_next, renew_if_due, renew_each, renew_due, renew_round,
  release_if_active, release_each, release_all, renew_loop,
}
use nat_pmp.Portmapper.{Client, running}
use nat_pmp.Daemon.Ensure.{ensure}
use nat_pmp.Daemon.Outcomes.{
  Renews, renewed, retried, Outcome, ungated, present, absent, reconcile_one-Outcome,
}
use nat_pmp.Daemon.Effects.{
  FitsKey, ensured, asked, map_request_fields, Reconciles, reconcile_one-Reconciles,
}
use nat_pmp.Daemon.Release.{released}
use nat_pmp.Daemon.Invariant.{
  Within, requests-Within, refresh_local_addr-maps, time_until_next-maps,
}
use nat_pmp.Daemon.Run.{launch}
use nat_pmp.Daemon.Registry.Changes.{
  Registry, Step, Steps, done, more, grant, release, empty, view, same-Steps, trans-Steps,
  one-Steps, same_leases, changed_only, own_or_other,
}
pub mod Changes

module _ {W : Type 0} (host : Host W) (keys : List Key) where
  -- A lease that passes `ensureMapping` is what the client's `Map` returned.
  ensured-map :
      (req : Request) (d : Daemon W) (l : Lease)
      → (ensured host req d).0 ≡ ok l
      → (host.client.map running (map_request host (key_of req) req d) d.world).0 ≡ ok l
  unfolding ensure
  ensured-map req d l e = ground arith

  -- A reconciliation is one step, or none.
  Renews-Steps :
      (req : Request) (d d1 d' : Daemon W)
      → contains keys (key_of req) ≡ true
      → d1.leases ≡ d.leases
      → Reconciles (key_of req) d d'
      → Renews host req d1 d'
      → Steps host.client keys (view d) (view d')
  Renews-Steps req d d1 d' h unchanged s (renewed l e fits held time after before) =
      let (p, i) = map_request_fields host (key_of req) req d1 in
      one-Steps host.client keys (
        grant (key_of req) l (map_request host (key_of req) req d1) d1.world h fits p i
          (ensured-map req d1 l e)
          (changed_only host.client keys (key_of req) d d' (some l) s held))
  Renews-Steps req d d1 d' h unchanged s (retried x e same time) =
      let own : view d' (key_of req) ≡ view d (key_of req) =
        same ∙ ap (lookup (key_of req)) unchanged in
      done (λ j.
        changed_only host.client keys (key_of req) d d' (view d (key_of req)) s own j
        ∙ own_or_other host.client keys (key_of req) d j)

  Outcome-Steps :
      (req : Request) (d d' : Daemon W)
      → contains keys (key_of req) ≡ true
      → Reconciles (key_of req) d d'
      → Outcome host req d d'
      → Steps host.client keys (view d) (view d')
  Outcome-Steps req d d' h s (ungated free r) = Renews-Steps req d d d' h refl s r
  Outcome-Steps req d d' h s (present gated there r) =
      Renews-Steps req d (asked host req d) d' h refl s r
  Outcome-Steps req d d' h s (absent gated gone empty_there time) =
      let changed = changed_only host.client keys (key_of req) d d' none s empty_there in
      elim (Option-cases (view d (key_of req))) [
        | inl before ↦ done (λ j.
            changed j
            ∙ (ap (λ o. if j == key_of req then o else view d j) (sym before)
                ∙ own_or_other host.client keys (key_of req) d j))
        | inr (l, before) ↦ one-Steps host.client keys (release (key_of req) l before changed)
      ]

  reconcile_one-Steps :
      (req : Request) (d : Daemon W)
      → contains keys (key_of req) ≡ true
      → Steps host.client keys (view d) (view (reconcile_one host req d))
  reconcile_one-Steps req d h =
      Outcome-Steps req d _ h (reconcile_one-Reconciles host req d)
        (reconcile_one-Outcome host req d)

  reconcile_each-Steps :
      (reqs : List Request) (d : Daemon W)
      → Within keys reqs
      → Steps host.client keys (view d) (view (reconcile_each host reqs d))
  unfolding reconcile_each
  reconcile_each-Steps [] d h = done (λ j. refl)
  reconcile_each-Steps (req ∷ reqs) d h =
      trans-Steps host.client keys (reconcile_one-Steps req d h.0) (reconcile_each-Steps reqs _ h.1)

  renew_if_due-Steps :
      (now : ℕ) (req : Request) (d : Daemon W)
      → contains keys (key_of req) ≡ true
      → Steps host.client keys (view d) (view (renew_if_due host now req d))
  unfolding renew_if_due
  renew_if_due-Steps now req d h = elim (Option-cases (lookup (key_of req) d.next_at)) [
    | inl e ↦ rw (e, renew_if_due) (done (λ j. refl))
    | inr (at, e) ↦ elim (Bool-cases (ltb now at)) [
      | inl later ↦ rw (e, later, renew_if_due) (done (λ j. refl))
      | inr due ↦ rw (e, due, renew_if_due) (reconcile_one-Steps req d h)
    ]
  ]

  renew_each-Steps :
      (now : ℕ) (reqs : List Request) (d : Daemon W)
      → Within keys reqs
      → Steps host.client keys (view d) (view (renew_each host now reqs d))
  unfolding renew_each
  renew_each-Steps now [] d h = done (λ j. refl)
  renew_each-Steps now (req ∷ reqs) d h =
      trans-Steps host.client keys (renew_if_due-Steps now req d h.0)
        (renew_each-Steps now reqs _ h.1)

  release_if_active-Steps :
      (req : Request) (errs : List Error) (d : Daemon W)
      → Steps host.client keys (view d) (view (release_if_active host req (errs, d)).1)
  unfolding release_if_active
  release_if_active-Steps req errs d = elim (Option-cases (lookup (key_of req) d.leases)) [
    | inl e ↦ rw (e, release_if_active) (done (λ j. refl))
    | inr (l, e) ↦ elim (Result-cases (released host req l d).0) [
      | inl (u, o) ↦
          rw (e, o, release_if_active)
            (one-Steps host.client keys
              (release (key_of req) l e (λ j. lookup-erase j (key_of req) d.leases)))
      | inr (x, o) ↦ rw (e, o, release_if_active) (done (λ j. refl))
    ]
  ]

  release_each-Steps :
      (reqs : List Request) (errs : List Error) (d : Daemon W)
      → Steps host.client keys (view d) (view (release_each host reqs (errs, d)).1)
  unfolding release_each
  release_each-Steps [] errs d = done (λ j. refl)
  release_each-Steps (req ∷ reqs) errs d =
      trans-Steps host.client keys (release_if_active-Steps req errs d)
        (release_each-Steps reqs _ _)

  release_all-Steps : (d : Daemon W) → Steps host.client keys (view d) (view (release_all host d).1)
  unfolding release_all
  release_all-Steps d = elim (Bool-cases (length d.leases == 0)) [
    | inl none_left ↦ rw (none_left, release_all) (done (λ j. refl))
    | inr left ↦ rw (left, release_all) (release_each-Steps (host.requests d.world) [] d)
  ]

  module _ (stable : (w : W) → map key_of (host.requests w) ≡ keys) where
    renew_due-Steps : (d : Daemon W) → Steps host.client keys (view d) (view (renew_due host d))
    unfolding renew_due
    renew_due-Steps d =
        let d1 = refresh_local_addr host d in
        let (now, w) = host.now d1.world in
        trans-Steps host.client keys
          (same_leases host.client keys d (record d1 { world = w })
            (refresh_local_addr-maps host keys d).0)
          (renew_each-Steps now (host.requests w) (record d1 { world = w })
            (requests-Within host keys stable w))

    renew_round-Steps : (d : Daemon W) → Steps host.client keys (view d) (view (renew_round host d))
    unfolding renew_round
    renew_round-Steps d =
        same-Steps host.client keys {r = view d} {r1 = view (time_until_next host d).1}
          (λ j. ap (lookup j) (time_until_next-maps host keys d).0) (renew_due-Steps _)

    renew_loop-Steps :
        (rounds : ℕ) (d : Daemon W)
        → Steps host.client keys (view d) (view (renew_loop host rounds d).1)
    unfolding renew_loop
    renew_loop-Steps zero d =
        trans-Steps host.client keys
          (same_leases host.client keys d (time_until_next host d).1
            (time_until_next-maps host keys d).0)
          (release_all-Steps (time_until_next host d).1)
    renew_loop-Steps (suc rounds) d =
        trans-Steps host.client keys (renew_round-Steps d) (renew_loop-Steps rounds _)

    launch-Steps :
        (gateway : Addr) (w : W) → Steps host.client keys empty (view (launch host gateway w))
    unfolding launch reconcile_all
    launch-Steps gateway w =
        let fresh : Daemon W = record {
          world = w;
          gateway_ip = gateway;
          local_ip = invalid;
          leases = [];
          next_at = [];
        } in
        let d = refresh_local_addr host fresh in
        same-Steps host.client keys
          (λ j. ap (lookup j) (refresh_local_addr-maps host keys fresh).0 ∙ lookup-nil j)
          (reconcile_each-Steps (host.requests d.world) d
            (requests-Within host keys stable d.world))

    -- A daemon that is launched, renews for any number of rounds and stops, implements the registry:
    -- from the empty registry its leases change only by grants to configured keys, of fitting leases
    -- that the client's `Map` returned for a request of that protocol and internal port, and by
    -- releases of keys that have a lease, whatever the client, the listeners and the clock answer. The
    -- keys of the configured mappings do not change with the world.
    pub renew_loop-refines :
        (rounds : ℕ) (gateway : Addr) (w : W)
        → Steps host.client keys empty (view (renew_loop host rounds (launch host gateway w)).1)
    renew_loop-refines rounds gateway w =
        trans-Steps host.client keys (launch-Steps gateway w)
          (renew_loop-Steps rounds (launch host gateway w))
