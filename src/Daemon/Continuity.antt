-- ===== src/Daemon/Continuity.antt =====
-- The daemon of internal/daemon/daemon.go keeps the mappings alive.
pub mod Rounds
pub mod Unbroken
pub mod Natpmp
use nat_pmp.Common.{
  ℕ, ◌+◌, ◌-◌, ◌*◌, ◌/◌, ◌≤◌, ◌<◌, ◌≡◌, ◌≢◌, refl, sym, ◌∙◌, ap, subst, arith, true, false, List,
  [], ◌∷◌, none, some, map, contains, length, ltb, ltb→lt, ltb→le, ◌==◌, nat_eq, string_eq, inl,
  inr, ok, err, Result-cases, Option-cases, Bool-cases,
}
use nat_pmp.Common.Dict.{lookup}
use nat_pmp.Common.Int.{nanoseconds, is_nonpositive}
use nat_pmp.Addr.{Addr, invalid}
use nat_pmp.Mapping.{Protocol, Request, Lease, validate, renew_before}
use nat_pmp.Portmapper.{Client, running, Fits}
use nat_pmp.Daemon.Ensure.{ensure, validate_lease_iff}
use nat_pmp.Daemon.State.{
  Host, Daemon, Key, key_eq, key_of, refresh_local_addr, map_request, reconcile_one, reconcile_each,
  reconcile_all, time_until_next, renew_if_due, renew_each, renew_due, renew_round,
}
use nat_pmp.Daemon.Effects.{ensured, asked, map_request_fields, reconcile_one-Reconciles}
use nat_pmp.Daemon.Outcomes.{
  Renews, renewed, retried, Outcome, ungated, present, absent, reconcile_one-Outcome,
}
use nat_pmp.Daemon.Punctual.{Punctual, advances}

-- A gateway and listeners that serve the mappings with these keys: for a valid request `Map` returns
-- a lease that fits and lasts for at least `life`, counted from the call or later; and something
-- listens, or the check fails.
pub record Serves {W : Type 0} (host : Host W) (clock : W → ℕ) (keys : List Key) (life : ℕ)
    : Type 0 where
  pub grants :
      (k : Key) (r : Request) (w : W)
      → contains keys k ≡ true
      → r.protocol ≡ k.protocol
      → r.internal_port ≡ k.internal_port
      → validate r ≡ ok tt
      → (l : Lease) × ((host.client.map running r w).0 ≡ ok l)
        × Fits r l
        × (life ≤ nanoseconds l.lifetime)
        × (clock w ≤ l.acquired)
  pub listening : (p : Protocol) (port : ℕ) (w : W) → (host.listener p port w).0 ≢ ok false

-- A valid request of one of the mappings.
abbrev pub IsServed : List Key → Request → Type 0
IsServed keys req = (contains keys (key_of req) ≡ true) × (validate req ≡ ok tt)

-- The mapping has a lease of at least `life`, its next time is the renewal, and that is not before
-- `since`.
pub record Kept {W : Type 0} (life since : ℕ) (k : Key) (d : Daemon W) : Type 0 where
  pub lease : Lease
  pub held : lookup k d.leases ≡ some lease
  pub time : lookup k d.next_at ≡ some (renew_before lease)
  pub positive : is_nonpositive lease.lifetime ≡ false
  pub lasts : life ≤ nanoseconds lease.lifetime
  pub after : since ≤ renew_before lease

-- The external port is no part of what makes a request valid.
validate-map_request :
    {W : Type 0} (host : Host W) (req : Request) (d : Daemon W)
    → validate (map_request host (key_of req) req d) ≡ validate req
unfolding validate map_request
validate-map_request host req d = ground arith

module _ {W : Type 0} (host : Host W) (clock : W → ℕ) (tick lag : ℕ)
    (punctual : Punctual host clock tick lag) (keys : List Key) (life : ℕ)
    (serves : Serves host clock keys life) where
  ensured-granted :
      (req : Request) (d : Daemon W)
      → IsServed keys req
      → (l : Lease) × ((ensured host req d).0 ≡ ok l)
        × (life ≤ nanoseconds l.lifetime)
        × (clock d.world ≤ l.acquired)
  unfolding ensure
  ensured-granted req d h =
      let m = map_request host (key_of req) req d in
      let (p, i) = map_request_fields host (key_of req) req d in
      let (l, e, fits, lasts, acquired) =
        serves.grants (key_of req) m d.world h.0 p i (validate-map_request host req d ∙ h.1) in
      (l, ground (arith, (validate_lease_iff m l).1 fits), lasts, acquired)

  Renews-Kept :
      (req : Request) (d d1 d' : Daemon W)
      → IsServed keys req
      → clock d.world ≤ clock d1.world
      → Renews host req d1 d'
      → Kept life (clock d.world) (key_of req) d'
  Renews-Kept req d d1 d' h later (renewed l e fits held time after before) =
      let (l', e', lasts, acquired) = ensured-granted req d1 h in
      let same : l' ≡ l = cc in
      let lasts_l : life ≤ nanoseconds l.lifetime = rw (← same) lasts in
      let acquired_l : clock d1.world ≤ l.acquired = rw (← same) acquired in
      record {
        lease = l;
        held = held;
        time = time;
        positive = fits.lifetime;
        lasts = lasts_l;
        after = omega arith;
      }
  Renews-Kept req d d1 d' h later (retried x e same time) =
      let (l', e', lasts, acquired) = ensured-granted req d1 h in absurd (cc)

  pub reconcile_one-Kept :
      (req : Request) (d : Daemon W)
      → IsServed keys req
      → Kept life (clock d.world) (key_of req) (reconcile_one host req d)
  reconcile_one-Kept req d h = elim (reconcile_one-Outcome host req d) [
    | ungated free r ↦ Renews-Kept req d d _ h (omega arith) r
    | present gated there r ↦
        Renews-Kept req d (asked host req d) _ h
          (punctual.listener req.protocol req.internal_port d.world).0 r
    | absent gated gone empty time ↦
        absurd (serves.listening req.protocol req.internal_port d.world gone)
  ]

  pub Kept-same :
      (since : ℕ) (k : Key) (d d' : Daemon W)
      → lookup k d'.leases ≡ lookup k d.leases
      → lookup k d'.next_at ≡ lookup k d.next_at
      → Kept life since k d
      → Kept life since k d'
  Kept-same since k d d' p q s = record {
    lease = s.lease;
    held = p ∙ s.held;
    time = q ∙ s.time;
    positive = s.positive;
    lasts = s.lasts;
    after = s.after;
  }

  pub Kept-since : (b b' : ℕ) (k : Key) (d : Daemon W) → b' ≤ b → Kept life b k d → Kept life b' k d
  Kept-since b b' k d le s = record {
    lease = s.lease;
    held = s.held;
    time = s.time;
    positive = s.positive;
    lasts = s.lasts;
    after = omega (arith, s.after);
  }

  pub reconcile_one-keeps :
      (req : Request) (d : Daemon W) (k : Key) (b : ℕ)
      → IsServed keys req
      → b ≤ clock d.world
      → Kept life b k d
      → Kept life b k (reconcile_one host req d)
  reconcile_one-keeps req d k b h le s = elim (key_eq.dec k (key_of req)) [
    | yes same ↦
        rw same (Kept-since (clock d.world) b (key_of req) _ le (reconcile_one-Kept req d h))
    | no other ↦
        let r = reconcile_one-Reconciles host req d in
        Kept-same b k d _ (r.other_leases k other) (r.other_times k other) s
  ]
