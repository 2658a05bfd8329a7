-- ===== src/Daemon/Effects.antt =====
-- What a reconciliation does to its own mapping, and to the others.
use nat_pmp.Common.{
  ℕ, ◌+◌, ◌≡◌, ◌≢◌, ◌⊎◌, inl, inr, refl, arith, ap, ◌∙◌, true, false, none, some, ◌==◌, nat_eq,
  string_eq, if◌then◌else◌, Result, ok, Result-cases, Option-cases, Bool-cases,
}
use nat_pmp.Common.Dict.{lookup, lookup-insert, lookup-erase}
use nat_pmp.Common.Int.{is_nonpositive}
use nat_pmp.Mapping.{Request, Lease, renew_before}
use nat_pmp.Daemon.Ensure.{ensure, ensure-Fits}
use nat_pmp.Daemon.State.{
  Host, Daemon, Key, key_eq, key_of, retry_backoff, listener_poll_interval, schedule, release_one,
  has_listener, map_request, renew_one, reconcile_one,
}

-- A lease that may stand under a key.
pub record FitsKey (k : Key) (l : Lease) : Type 0 where
  pub protocol : l.protocol ≡ k.protocol
  pub internal_port : l.internal_port ≡ k.internal_port
  pub external_port : l.external_port ≢ 0
  pub lifetime : is_nonpositive l.lifetime ≡ false

-- From `d` to `d'` only the mapping `k` has changed: its lease is the old one, or gone, or a new
-- one that fits; and it has a next time.
pub record Reconciles {W : Type 0} (k : Key) (d d' : Daemon W) : Type 0 where
  pub other_leases : (j : Key) → j ≢ k → lookup j d'.leases ≡ lookup j d.leases
  pub other_times : (j : Key) → j ≢ k → lookup j d'.next_at ≡ lookup j d.next_at
  pub lease :
      (lookup k d'.leases ≡ lookup k d.leases)
      ⊎ ((lookup k d'.leases ≡ none) ⊎ ((l : Lease) × (lookup k d'.leases ≡ some l) × FitsKey k l))
  pub scheduled : lookup k d'.next_at ≢ none

module _ {W : Type 0} (host : Host W) where
  pub map_request_fields :
      (k : Key) (req : Request) (d : Daemon W)
      → ((map_request host k req d).protocol ≡ req.protocol)
        × ((map_request host k req d).internal_port ≡ req.internal_port)
  unfolding map_request
  map_request_fields k req d = ground arith

  abbrev pub ensured : Request → Daemon W → Result Lease × W
  ensured req d = ensure host.client (map_request host (key_of req) req d) d.world

  pub ensured-FitsKey :
      (req : Request) (d : Daemon W) (l : Lease) → (ensured req d).0 ≡ ok l → FitsKey (key_of req) l
  ensured-FitsKey req d l e =
      let m = map_request host (key_of req) req d in
      let f =
        ensure-Fits host.client m d.world (ensured req d).1 l (λ i. (e i, (ensured req d).1)) in
      let (p, q) = map_request_fields (key_of req) req d in
      record {
        protocol = f.protocol ∙ p;
        internal_port = f.internal_port ∙ q;
        external_port = f.external_port;
        lifetime = f.lifetime;
      }

  schedule-leases :
      (k : Key) (delay : ℕ) (d : Daemon W) → (schedule host k delay d).leases ≡ d.leases
  unfolding schedule
  schedule-leases k delay d = refl

  schedule-Reconciles :
      (k : Key) (delay : ℕ) (d : Daemon W) → Reconciles k d (schedule host k delay d)
  unfolding schedule
  schedule-Reconciles k delay d =
      let at = (host.now d.world).0 + delay in
      record {
        other_leases = λ j n. refl;
        other_times = λ j n. ground (arith, lookup-insert j k at d.next_at);
        lease = inl refl;
        scheduled = λ e. ground (arith, lookup-insert k k at d.next_at);
      }

  renew_one-Reconciles :
      (req : Request) (d : Daemon W) → Reconciles (key_of req) d (renew_one host req d)
  unfolding renew_one
  renew_one-Reconciles req d = elim (Result-cases (ensured req d).0) [
    | inl (l, e) ↦
        rw (e, renew_one)
          (let k = key_of req in
            record {
              other_leases = λ j n. ground (arith, lookup-insert j k l d.leases);
              other_times = λ j n. ground (arith, lookup-insert j k (renew_before l) d.next_at);
              lease = inr (
                  inr (l, ground (arith, lookup-insert k k l d.leases), ensured-FitsKey req d l e));
              scheduled = λ x. ground (arith, lookup-insert k k (renew_before l) d.next_at);
            })
    | inr (x, e) ↦
        rw (e, renew_one)
          (let s =
              schedule-Reconciles (key_of req) retry_backoff
                (record d { world = (ensured req d).1 }) in
            record {
              other_leases = s.other_leases;
              other_times = s.other_times;
              lease = s.lease;
              scheduled = s.scheduled;
            })
  ]

  -- The lease of a mapping is released, and no other.
  pub release_one-leases :
      (k : Key) (req : Request) (d : Daemon W) (j : Key)
      → lookup j (release_one host k req d).leases ≡ (if j == k then none else lookup j d.leases)
  unfolding release_one
  release_one-leases k req d j = elim (Option-cases (lookup k d.leases)) [
    | inl e ↦ ground arith
    | inr (l, e) ↦ ground (arith, lookup-erase j k d.leases)
  ]

  release_one-next_at :
      (k : Key) (req : Request) (d : Daemon W) → (release_one host k req d).next_at ≡ d.next_at
  unfolding release_one
  release_one-next_at k req d = ground arith

  -- What the daemon does when there is no listener.
  absent-Reconciles :
      (k : Key) (req : Request) (d : Daemon W)
      → Reconciles k d (schedule host k listener_poll_interval (release_one host k req d))
  absent-Reconciles k req d =
      let r = release_one host k req d in
      let s = schedule-Reconciles k listener_poll_interval r in
      record {
        other_leases = λ j n. s.other_leases j n ∙ (release_one-leases k req d j ∙ ground arith);
        other_times = λ j n. s.other_times j n ∙ rw (release_one-next_at k req d);
        lease = inr (
            inl (
              ap (lookup k) (schedule-leases k listener_poll_interval r)
              ∙ (release_one-leases k req d k ∙ ground arith)));
        scheduled = s.scheduled;
      }

  -- The state after the daemon has asked whether there is a listener.
  abbrev pub asked : Request → Daemon W → Daemon W
  asked req d = record d { world = (host.listener req.protocol req.internal_port d.world).1 }

  -- `hasListener` says no only when the check has found no listener: an error counts as a yes.
  pub has_listener-cases :
      (k : Key) (req : Request) (d : Daemon W)
      → (((host.listener req.protocol req.internal_port d.world).0 ≢ ok false)
          × (has_listener host k req d ≡ (true, asked req d)))
        ⊎ (((host.listener req.protocol req.internal_port d.world).0 ≡ ok false)
            × (has_listener host k req d ≡ (
              false,
              schedule host k listener_poll_interval (release_one host k req (asked req d)),
            )))
  unfolding has_listener
  has_listener-cases k req d =
      elim (Result-cases (host.listener req.protocol req.internal_port d.world).0) [
        | inl (true, e) ↦ inl (λ x. cc (e, x), ground arith)
        | inl (false, e) ↦ inr (e, ground arith)
        | inr (x, e) ↦ inl (λ y. cc (e, y), ground arith)
      ]

  -- Asking changes no lease and no time.
  Reconciles-asked :
      (k : Key) (req : Request) (d d' : Daemon W)
      → Reconciles k (asked req d) d'
      → Reconciles k d d'
  Reconciles-asked k req d d' s = record {
    other_leases = s.other_leases;
    other_times = s.other_times;
    lease = s.lease;
    scheduled = s.scheduled;
  }

  -- `reconcileOne` leaves every other mapping's lease and next time alone. Its own mapping's lease
  -- is kept, dropped, or replaced by one that fits the key, and in every case, also when the client
  -- fails or there is no listener, the mapping has a next time.
  pub reconcile_one-Reconciles :
      (req : Request) (d : Daemon W) → Reconciles (key_of req) d (reconcile_one host req d)
  unfolding reconcile_one
  reconcile_one-Reconciles req d = elim (Bool-cases req.require_listener) [
    | inr free ↦ rw (free, reconcile_one) (renew_one-Reconciles req d)
    | inl gated ↦
        let k = key_of req in
        elim (has_listener-cases k req d) [
          | inl (found, e) ↦
              rw (gated, e, reconcile_one)
                (Reconciles-asked k req d _ (renew_one-Reconciles req (asked req d)))
          | inr (gone, e) ↦
              rw (gated, e, reconcile_one)
                (Reconciles-asked k req d _ (absent-Reconciles k req (asked req d)))
        ]
  ]
