-- ===== src/Daemon/Outcomes.antt =====
-- How `reconcileOne` of internal/daemon/daemon.go ends, on every branch.
use nat_pmp.Common.{
  ◌+◌, ◌*◌, ◌≤◌, ◌<◌, ◌≡◌, ◌≢◌, refl, sym, subst, arith, ap, ◌∙◌, true, false, none, some, nat_eq,
  string_eq, inl, inr, Error, ok, err, Result-cases, Bool-cases,
}
use nat_pmp.Common.Dict.{lookup, lookup-insert}
use nat_pmp.Common.Int.{is_nonpositive, nanoseconds, second}
use nat_pmp.Mapping.{Request, Lease, renew_before}
use nat_pmp.Daemon.State.{
  Host, Daemon, key_eq, key_of, retry_backoff, listener_poll_interval, schedule, release_one,
  has_listener, renew_one, reconcile_one,
}
use nat_pmp.Daemon.Effects.{
  FitsKey, ensured, ensured-FitsKey, asked, has_listener-cases, release_one-leases,
}

-- The renewal of a lease that lasts comes when it has been acquired and before it ends.
renew_before-within :
    (l : Lease)
    → is_nonpositive l.lifetime ≡ false
    → (l.acquired ≤ renew_before l) × (renew_before l < l.acquired + nanoseconds l.lifetime)
unfolding renew_before
renew_before-within l positive = ground arith

module _ {W : Type 0} (host : Host W) where
  -- The mapping's lease, and its time, after the client was asked for a lease from `d1` on.
  pub data Renews (req : Request) (d1 d' : Daemon W) : Type 0 where
    renewed :
        (l : Lease)
        → (ensured host req d1).0 ≡ ok l
        → FitsKey (key_of req) l
        → lookup (key_of req) d'.leases ≡ some l
        → lookup (key_of req) d'.next_at ≡ some (renew_before l)
        → l.acquired ≤ renew_before l
        → renew_before l < l.acquired + nanoseconds l.lifetime
        → Renews req d1 d'
    retried :
        (e : Error)
        → (ensured host req d1).0 ≡ err e
        → lookup (key_of req) d'.leases ≡ lookup (key_of req) d1.leases
        → lookup (key_of req) d'.next_at ≡ some ((host.now (ensured host req d1).1).0 + 30 * second)
        → Renews req d1 d'

  pub data Outcome (req : Request) (d d' : Daemon W) : Type 0 where
    ungated : req.require_listener ≡ false → Renews req d d' → Outcome req d d'
    present :
        req.require_listener ≡ true
        → (host.listener req.protocol req.internal_port d.world).0 ≢ ok false
        → Renews req (asked host req d) d'
        → Outcome req d d'
    absent :
        req.require_listener ≡ true
        → (host.listener req.protocol req.internal_port d.world).0 ≡ ok false
        → lookup (key_of req) d'.leases ≡ none
        → lookup (key_of req) d'.next_at
          ≡ some (
              (host.now (release_one host (key_of req) req (asked host req d)).world).0
              + 15 * second)
        → Outcome req d d'

  renew_one-Renews : (req : Request) (d : Daemon W) → Renews req d (renew_one host req d)
  unfolding renew_one schedule
  renew_one-Renews req d =
      let k = key_of req in
      elim (Result-cases (ensured host req d).0) [
        | inl (l, e) ↦
            let fits = ensured-FitsKey host req d l e in
            let (after, before) = renew_before-within l fits.lifetime in
            rw (e, renew_one)
              (renewed l e fits (lookup-insert k k l d.leases ∙ ground arith)
                (lookup-insert k k (renew_before l) d.next_at ∙ ground arith) after before)
        | inr (x, e) ↦
            let at = (host.now (ensured host req d).1).0 + retry_backoff in
            rw (e, renew_one) (retried x e refl (lookup-insert k k at d.next_at ∙ ground arith))
      ]

  reconcile_one-ungated :
      (req : Request) (d : Daemon W)
      → req.require_listener ≡ false
      → reconcile_one host req d ≡ renew_one host req d
  unfolding reconcile_one
  reconcile_one-ungated req d free = ground (arith, free)

  reconcile_one-present :
      (req : Request) (d : Daemon W)
      → req.require_listener ≡ true
      → (has_listener host (key_of req) req d).0 ≡ true
      → reconcile_one host req d ≡ renew_one host req (has_listener host (key_of req) req d).1
  unfolding reconcile_one
  reconcile_one-present req d gated there = ground (arith, gated, there)

  reconcile_one-absent :
      (req : Request) (d : Daemon W)
      → req.require_listener ≡ true
      → (has_listener host (key_of req) req d).0 ≡ false
      → reconcile_one host req d ≡ (has_listener host (key_of req) req d).1
  unfolding reconcile_one
  reconcile_one-absent req d gated gone = ground (arith, gated, gone)

  suspended-Outcome :
      (req : Request) (d : Daemon W)
      → req.require_listener ≡ true
      → (host.listener req.protocol req.internal_port d.world).0 ≡ ok false
      → Outcome req d (
          schedule host
            (key_of req)
            listener_poll_interval
            (release_one host (key_of req) req (asked host req d)))
  unfolding schedule
  suspended-Outcome req d gated gone =
      let k = key_of req in
      let r = release_one host k req (asked host req d) in
      let now = (host.now r.world).0 in
      absent gated gone (release_one-leases host k req (asked host req d) k ∙ ground arith)
        (lookup-insert k k (now + listener_poll_interval) r.next_at ∙ ground arith)

  -- `reconcileOne` asks the client for a lease unless the mapping wants a listener and the check has
  -- found none; a check that fails counts as found. If the client returns a lease, the mapping has that
  -- lease, and its next time is the renewal, at the lease's acquisition or later, and before its end. If
  -- the client fails, the lease is as before, and the next time is 30 s from then. With no listener the
  -- mapping has no lease, whatever the client says to its release, and the next time is 15 s after the
  -- reading of the clock that follows the release.
  pub reconcile_one-Outcome :
      (req : Request) (d : Daemon W) → Outcome req d (reconcile_one host req d)
  reconcile_one-Outcome req d = elim (Bool-cases req.require_listener) [
    | inr free ↦
        subst (Outcome req d) (sym (reconcile_one-ungated req d free))
          (ungated free (renew_one-Renews req d))
    | inl gated ↦ elim (has_listener-cases host (key_of req) req d) [
      | inl (found, e) ↦
          subst (Outcome req d)
            (sym (
              reconcile_one-present req d gated (ap (λ p. p.0) e)
              ∙ ap (λ p. renew_one host req p.1) e))
            (present gated found (renew_one-Renews req (asked host req d)))
      | inr (gone, e) ↦
          subst (Outcome req d)
            (sym (reconcile_one-absent req d gated (ap (λ p. p.0) e) ∙ ap (λ p. p.1) e))
            (suspended-Outcome req d gated gone)
    ]
  ]
