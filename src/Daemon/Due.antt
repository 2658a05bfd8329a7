-- ===== src/Daemon/Due.antt =====
-- Which mappings a pass of `renewDue` (internal/daemon/daemon.go) works on.
use nat_pmp.Common.{
  ℕ, ◌≤◌, ◌<◌, ◌≡◌, ◌≢◌, ◌⊎◌, inl, inr, refl, sym, ◌∙◌, ap, subst, arith, true, false, List, [],
  ◌∷◌, map, some, contains, ltb, ltb→lt, ltb→le, nat_eq, string_eq, Bool-cases, Option-cases,
}
use nat_pmp.Common.Dict.{lookup}
use nat_pmp.Mapping.{Request}
use nat_pmp.Daemon.State.{
  Host, Daemon, Key, key_eq, key_of, refresh_local_addr, reconcile_one, renew_if_due, renew_each,
  renew_due,
}
use nat_pmp.Daemon.Effects.{reconcile_one-Reconciles}
use nat_pmp.Daemon.Invariant.{refresh_local_addr-maps}

-- The mapping `k` has the same lease and the same next time in both.
pub record SameAt {W : Type 0} (k : Key) (d d' : Daemon W) : Type 0 where
  pub lease : lookup k d'.leases ≡ lookup k d.leases
  pub time : lookup k d'.next_at ≡ lookup k d.next_at

-- No key stands twice.
abbrev pub AreDistinct : List Key → Type 0
AreDistinct [] = Unit
AreDistinct (k ∷ ks) = (contains ks k ≡ false) × AreDistinct ks

module _ {W : Type 0} where
  trans-SameAt : (k : Key) (d d1 d' : Daemon W) → SameAt k d d1 → SameAt k d1 d' → SameAt k d d'
  trans-SameAt k d d1 d' s t = record { lease = t.lease ∙ s.lease; time = t.time ∙ s.time }

module _ {W : Type 0} (host : Host W) where
  renew_if_due-other :
      (now : ℕ) (req : Request) (d : Daemon W) (k : Key)
      → k ≢ key_of req
      → SameAt k d (renew_if_due host now req d)
  unfolding renew_if_due
  renew_if_due-other now req d k n = elim (Option-cases (lookup (key_of req) d.next_at)) [
    | inl e ↦ rw (e, renew_if_due) (record { lease = refl; time = refl })
    | inr (at, e) ↦ elim (Bool-cases (ltb now at)) [
      | inl later ↦ rw (e, later, renew_if_due) (record { lease = refl; time = refl })
      | inr due ↦
          let s = reconcile_one-Reconciles host req d in
          rw (e, due, renew_if_due)
            (record { lease = s.other_leases k n; time = s.other_times k n })
    ]
  ]

  renew_if_due-early :
      (now : ℕ) (req : Request) (d : Daemon W) (k : Key) (at : ℕ)
      → lookup k d.next_at ≡ some at
      → now < at
      → SameAt k d (renew_if_due host now req d)
  unfolding renew_if_due
  renew_if_due-early now req d k at e early = elim (key_eq.dec k (key_of req)) [
    | no other ↦ renew_if_due-other now req d k other
    | yes same ↦
        let skipped : renew_if_due host now req d ≡ d = ground (arith, same) in
        rw skipped (record { lease = refl; time = refl })
  ]

  renew_each-early :
      (now : ℕ) (reqs : List Request) (d : Daemon W) (k : Key) (at : ℕ)
      → lookup k d.next_at ≡ some at
      → now < at
      → SameAt k d (renew_each host now reqs d)
  unfolding renew_each
  renew_each-early now [] d k at e early = record { lease = refl; time = refl }
  renew_each-early now (req ∷ reqs) d k at e early =
      let s = renew_if_due-early now req d k at e early in
      trans-SameAt k d (renew_if_due host now req d) _ s
        (renew_each-early now reqs (renew_if_due host now req d) k at (s.time ∙ e) early)

  renew_each-absent :
      (now : ℕ) (reqs : List Request) (d : Daemon W) (k : Key)
      → contains (map key_of reqs) k ≡ false
      → SameAt k d (renew_each host now reqs d)
  unfolding renew_each
  renew_each-absent now [] d k h = record { lease = refl; time = refl }
  renew_each-absent now (req ∷ reqs) d k h =
      trans-SameAt k d (renew_if_due host now req d) _
        (renew_if_due-other now req d k (λ same. ground arith))
        (renew_each-absent now reqs _ k (ground arith))

  -- One of the requests is `req`.
  abbrev pub HasRequest : Request → List Request → Type 0
  HasRequest req [] = ⊥
  HasRequest req (r ∷ reqs) = (r ≡ req) ⊎ HasRequest req reqs

  HasRequest-contains :
      (req : Request) (reqs : List Request)
      → HasRequest req reqs
      → contains (map key_of reqs) (key_of req) ≡ true
  HasRequest-contains req [] x = elim x [ ]
  HasRequest-contains req (r ∷ reqs) (inl same) = rw same (ground arith)
  HasRequest-contains req (r ∷ reqs) (inr later) =
      ground (arith, HasRequest-contains req reqs later)

  -- In between, the mapping was reconciled, from a state in which it was as in `d`.
  abbrev pub ReconciledIn : Request → Daemon W → Daemon W → Type 0
  ReconciledIn req d d' =
      (d1 : Daemon W) × SameAt (key_of req) d d1
      × SameAt (key_of req) (reconcile_one host req d1) d'

  renew_if_due-due :
      (now : ℕ) (req : Request) (d : Daemon W) (at : ℕ)
      → lookup (key_of req) d.next_at ≡ some at
      → at ≤ now
      → renew_if_due host now req d ≡ reconcile_one host req d
  unfolding renew_if_due
  renew_if_due-due now req d at e due = ground arith

  renew_each-due :
      (now : ℕ) (reqs : List Request) (d : Daemon W) (req : Request) (at : ℕ)
      → AreDistinct (map key_of reqs)
      → HasRequest req reqs
      → lookup (key_of req) d.next_at ≡ some at
      → at ≤ now
      → ReconciledIn req d (renew_each host now reqs d)
  unfolding renew_each
  renew_each-due now [] d req at h x e due = elim x [ ]
  renew_each-due now (r ∷ reqs) d req at (new, h) (inl same) e due = rw same (
    d,
    record { lease = refl; time = refl },
    subst (λ d1. SameAt (key_of req) (reconcile_one host req d) (renew_each host now reqs d1))
        (sym (renew_if_due-due now req d at e due))
        (renew_each-absent now reqs (reconcile_one host req d) (key_of req) (rw same at new)),
  )
  renew_each-due now (r ∷ reqs) d req at (new, h) (inr later) e due =
      let there = HasRequest-contains req reqs later in
      let other : key_of req ≢ key_of r =
        λ same. cc (ap (contains (map key_of reqs)) same, there, new) in
      let s = renew_if_due-other now r d (key_of req) other in
      let (d1, before, after) =
        renew_each-due now reqs (renew_if_due host now r d) req at h later (s.time ∙ e) due in
      (d1, trans-SameAt (key_of req) d _ d1 s before, after)

  -- The clock as a pass reads it, with the world after that.
  abbrev pub pass_clock : Daemon W → ℕ × W
  pass_clock d = host.now (refresh_local_addr host d).world

  -- For the keys of the requests distinct, as `Config.Validate` makes them, and a request with a
  -- time `at` in the schedule, a pass of `renewDue` does one of two things. If the clock is before
  -- `at` it leaves the mapping's lease and time as they were. If not it reconciles the mapping once:
  -- the mapping is as before until `reconcileOne` runs on it, and as that leaves it from then on.
  pub renew_due-due :
      (d : Daemon W) (req : Request) (at : ℕ)
      → AreDistinct (map key_of (host.requests (pass_clock d).1))
      → HasRequest req (host.requests (pass_clock d).1)
      → lookup (key_of req) d.next_at ≡ some at
      → (((pass_clock d).0 < at) × SameAt (key_of req) d (renew_due host d))
        ⊎ ((at ≤ (pass_clock d).0) × ReconciledIn req d (renew_due host d))
  unfolding renew_due
  renew_due-due d req at distinct there e =
      let (p, q) = refresh_local_addr-maps host [] d in
      let now = (pass_clock d).0 in
      let d2 : Daemon W = record (refresh_local_addr host d) { world = (pass_clock d).1 } in
      let s : SameAt (key_of req) d d2 = record {
        lease = ap (lookup (key_of req)) p;
        time = ap (lookup (key_of req)) q;
      } in
      let reqs = host.requests (pass_clock d).1 in
      elim (Bool-cases (ltb now at)) [
        | inl later ↦
            let early = ltb→lt now at later in
            inl (
              early,
              trans-SameAt (key_of req) d d2 _ s
                  (renew_each-early now reqs d2 (key_of req) at (s.time ∙ e) early),
            )
        | inr due ↦
            let reached = ltb→le now at due in
            let (d1, before, after) =
              renew_each-due now reqs d2 req at distinct there (s.time ∙ e) reached in
            inr (reached, (d1, trans-SameAt (key_of req) d d2 d1 s before, after))
      ]
