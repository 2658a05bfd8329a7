-- ===== src/Daemon/Invariant.antt =====
-- The invariant of the daemon's state, kept by every step of the renewal loop.
use nat_pmp.Common.{
  ℕ, ◌≡◌, ◌≢◌, ◌⊎◌, inl, inr, arith, sym, ◌∙◌, subst, true, List, [], ◌∷◌, map, All, none, some,
  ltb, contains, nat_eq, string_eq, Option-cases, Bool-cases,
}
use nat_pmp.Common.Dict.{lookup}
use nat_pmp.Mapping.{Request, Lease}
use nat_pmp.Daemon.State.{
  Host, Daemon, Key, key_eq, key_of, refresh_local_addr, reconcile_one, reconcile_each,
  reconcile_all, time_until_next, renew_if_due, renew_each, renew_due, renew_round,
}
use nat_pmp.Daemon.Effects.{FitsKey, Reconciles, reconcile_one-Reconciles}

-- Every lease belongs to a configured mapping and fits it, and has a next time.
pub record IsSound {W : Type 0} (keys : List Key) (d : Daemon W) : Type 0 where
  pub fits : (k : Key) (l : Lease) → lookup k d.leases ≡ some l → FitsKey k l
  pub configured : (k : Key) → lookup k d.leases ≢ none → contains keys k ≡ true
  pub scheduled : (k : Key) → lookup k d.leases ≢ none → lookup k d.next_at ≢ none

-- Every configured mapping has a next time.
abbrev pub AllScheduled : {W : Type 0} → List Key → Daemon W → Type 0
AllScheduled keys d = (k : Key) → contains keys k ≡ true → lookup k d.next_at ≢ none

Key-cases : (j k : Key) → (j ≡ k) ⊎ (j ≢ k)
Key-cases j k = elim (key_eq.dec j k) [ yes p ↦ inl p | no n ↦ inr n ]

-- The requests' own keys are among the configured ones.
abbrev pub Within : List Key → List Request → Type 0
Within keys = All (λ r. contains keys (key_of r) ≡ true)

contains-cons :
    (k : Key) (keys : List Key) (reqs : List Request) → Within keys reqs → Within (k ∷ keys) reqs
contains-cons k keys [] h = tt
contains-cons k keys (r ∷ reqs) h = (ground arith, contains-cons k keys reqs h.1)

pub Within-map : (reqs : List Request) → Within (map key_of reqs) reqs
Within-map [] = tt
Within-map (r ∷ reqs) =
    (ground arith, contains-cons (key_of r) (map key_of reqs) reqs (Within-map reqs))

module _ {W : Type 0} (keys : List Key) where
  own_lease_fits :
      (k : Key) (d d' : Daemon W) (l : Lease)
      → Reconciles k d d'
      → IsSound keys d
      → lookup k d'.leases ≡ some l
      → FitsKey k l
  own_lease_fits k d d' l s i e = elim s.lease [
    | inl same ↦ i.fits k l (sym same ∙ e)
    | inr (inl gone) ↦ cc
    | inr (inr (l', e', f)) ↦ let same : l' ≡ l = cc in subst (FitsKey k) same f
  ]

  Reconciles-IsSound :
      (k : Key) (d d' : Daemon W)
      → contains keys k ≡ true
      → Reconciles k d d'
      → IsSound keys d
      → IsSound keys d'
  Reconciles-IsSound k d d' hk s i = record {
    fits = λ j l e. elim (Key-cases j k) [
      | inr n ↦ i.fits j l (sym (s.other_leases j n) ∙ e)
      | inl p ↦ rw p (own_lease_fits k d d' l s i (rw p at e))
    ];
    configured = λ j h. elim (Key-cases j k) [
      | inr n ↦ i.configured j (λ x. h (s.other_leases j n ∙ x))
      | inl p ↦ rw p hk
    ];
    scheduled = λ j h. elim (Key-cases j k) [
      | inr n ↦ λ x. i.scheduled j (λ y. h (s.other_leases j n ∙ y)) (sym (s.other_times j n) ∙ x)
      | inl p ↦ rw p s.scheduled
    ];
  }

module _ {W : Type 0} where
  pub Reconciles-scheduled :
      (k : Key) (d d' : Daemon W) (j : Key)
      → Reconciles k d d'
      → lookup j d.next_at ≢ none
      → lookup j d'.next_at ≢ none
  Reconciles-scheduled k d d' j s h = elim (Key-cases j k) [
    | inr n ↦ λ x. h (sym (s.other_times j n) ∙ x)
    | inl p ↦ rw p s.scheduled
  ]

module _ {W : Type 0} (host : Host W) (keys : List Key) where
  reconcile_one-IsSound :
      (req : Request) (d : Daemon W)
      → contains keys (key_of req) ≡ true
      → IsSound keys d
      → IsSound keys (reconcile_one host req d)
  reconcile_one-IsSound req d hk i =
      Reconciles-IsSound keys (key_of req) d _ hk (reconcile_one-Reconciles host req d) i

  reconcile_each-IsSound :
      (reqs : List Request) (d : Daemon W)
      → Within keys reqs
      → IsSound keys d
      → IsSound keys (reconcile_each host reqs d)
  unfolding reconcile_each
  reconcile_each-IsSound [] d h i = i
  reconcile_each-IsSound (req ∷ reqs) d h i =
      reconcile_each-IsSound reqs _ h.1 (reconcile_one-IsSound req d h.0 i)

  renew_if_due-IsSound :
      (now : ℕ) (req : Request) (d : Daemon W)
      → contains keys (key_of req) ≡ true
      → IsSound keys d
      → IsSound keys (renew_if_due host now req d)
  unfolding renew_if_due
  renew_if_due-IsSound now req d hk i = elim (Option-cases (lookup (key_of req) d.next_at)) [
    | inl e ↦ rw (e, renew_if_due) i
    | inr (at, e) ↦ elim (Bool-cases (ltb now at)) [
      | inl later ↦ rw (e, later, renew_if_due) i
      | inr due ↦ rw (e, due, renew_if_due) (reconcile_one-IsSound req d hk i)
    ]
  ]

  renew_each-IsSound :
      (now : ℕ) (reqs : List Request) (d : Daemon W)
      → Within keys reqs
      → IsSound keys d
      → IsSound keys (renew_each host now reqs d)
  unfolding renew_each
  renew_each-IsSound now [] d h i = i
  renew_each-IsSound now (req ∷ reqs) d h i =
      renew_each-IsSound now reqs _ h.1 (renew_if_due-IsSound now req d h.0 i)

module _ {W : Type 0} (host : Host W) (keys : List Key) where
  -- The invariant looks at the leases and the times only.
  pub IsSound-same :
      (d d' : Daemon W)
      → d'.leases ≡ d.leases
      → d'.next_at ≡ d.next_at
      → IsSound keys d
      → IsSound keys d'
  IsSound-same d d' p q i = record {
    fits = λ k l e. i.fits k l (rw p at e);
    configured = λ k h. i.configured k (rw p at h);
    scheduled = λ k h. rw q (i.scheduled k (rw p at h));
  }

  pub refresh_local_addr-maps :
      (d : Daemon W)
      → ((refresh_local_addr host d).leases ≡ d.leases)
        × ((refresh_local_addr host d).next_at ≡ d.next_at)
  unfolding refresh_local_addr
  refresh_local_addr-maps d = ground arith

  pub time_until_next-maps :
      (d : Daemon W)
      → ((time_until_next host d).1.leases ≡ d.leases)
        × ((time_until_next host d).1.next_at ≡ d.next_at)
  unfolding time_until_next
  time_until_next-maps d = ground arith

  module _ (stable : (w : W) → map key_of (host.requests w) ≡ keys) where
    pub requests-Within : (w : W) → Within keys (host.requests w)
    requests-Within w =
        subst (λ ks. Within ks (host.requests w)) (stable w) (Within-map (host.requests w))

    pub reconcile_all-IsSound :
        (d : Daemon W) → IsSound keys d → IsSound keys (reconcile_all host d)
    unfolding reconcile_all
    reconcile_all-IsSound d i =
        reconcile_each-IsSound host keys (host.requests d.world) d (requests-Within d.world) i

    -- A renewal pass keeps the invariant.
    pub renew_due-IsSound : (d : Daemon W) → IsSound keys d → IsSound keys (renew_due host d)
    unfolding renew_due
    renew_due-IsSound d i =
        let d1 = refresh_local_addr host d in
        let (p, q) = refresh_local_addr-maps d in
        renew_each-IsSound host keys _ _ _ (requests-Within (host.now d1.world).1)
          (IsSound-same d (record d1 { world = (host.now d1.world).1 }) p q i)

    pub renew_round-IsSound : (d : Daemon W) → IsSound keys d → IsSound keys (renew_round host d)
    unfolding renew_round
    renew_round-IsSound d i =
        let (p, q) = time_until_next-maps d in
        renew_due-IsSound _ (IsSound-same d (record (time_until_next host d).1 { world = _ }) p q i)
