-- ===== src/Daemon/Scheduling.antt =====
-- Every configured mapping has a next time, so the renewal loop always has something to wait for.
use nat_pmp.Common.{
  ℕ, ◌-◌, ◌≤◌, ◌≡◌, ◌≢◌, ◌⊎◌, inl, inr, refl, arith, true, List, [], ◌∷◌, map, All, Option, none,
  some, ◌==◌, ltb, contains, if◌then◌else◌, Option-cases, Bool-cases,
}
use nat_pmp.Common.Dict.{lookup}
use nat_pmp.Mapping.{Request}
use nat_pmp.Daemon.State.{
  Host, Daemon, Key, key_eq, key_of, reconcile_each, reconcile_all, soonest, time_until_next,
  renew_if_due, renew_each, renew_due, renew_round,
}
use nat_pmp.Daemon.Effects.{Reconciles, reconcile_one-Reconciles}
use nat_pmp.Daemon.Invariant.{Reconciles-scheduled, refresh_local_addr-maps, time_until_next-maps}

pub eq_of_== : (j k : Key) → (j == k) ≡ true → j ≡ k
eq_of_== j k h = ground arith

-- `t` is one of the times.
abbrev pub HasTime : ℕ → List (Key × ℕ) → Type 0
HasTime t [] = ⊥
HasTime t ((k, at) ∷ m) = (at ≡ t) ⊎ HasTime t m

-- `t` is at most each of the times.
abbrev IsLowest : ℕ → List (Key × ℕ) → Type 0
IsLowest t = All (λ e. t ≤ e.1)

abbrev IsBelow : ℕ → Option ℕ → Type 0
IsBelow t none = Unit
IsBelow t (some s) = t ≤ s

module _ {W : Type 0} (host : Host W) where
  soonest-IsLowest :
      (found : Option ℕ) (m : List (Key × ℕ)) (t : ℕ)
      → soonest host found m ≡ some t
      → IsBelow t found × IsLowest t m × ((found ≡ some t) ⊎ HasTime t m)
  unfolding soonest
  soonest-IsLowest none [] t e = cc
  soonest-IsLowest (some s) [] t e = ground arith
  soonest-IsLowest none ((k, at) ∷ m) t e =
      let (a, b, c) = soonest-IsLowest (some at) m t e in ground arith
  soonest-IsLowest (some s) ((k, at) ∷ m) t e =
      let (a, b, c) = soonest-IsLowest (some (if ltb at s then at else s)) m t e in ground arith

  soonest-ne-none : (s : ℕ) (m : List (Key × ℕ)) → soonest host (some s) m ≢ none
  unfolding soonest
  soonest-ne-none s [] = λ e. cc
  soonest-ne-none s ((k, at) ∷ m) = soonest-ne-none (if ltb at s then at else s) m

  lookup-IsLowest :
      (k : Key) (m : List (Key × ℕ)) (t at : ℕ) → IsLowest t m → lookup k m ≡ some at → t ≤ at
  unfolding lookup
  lookup-IsLowest k [] t at h e = absurd (cc)
  lookup-IsLowest k ((j, s) ∷ m) t at (h, hs) e = ground (arith, lookup-IsLowest k m t at hs)

  soonest_found :
      (k : Key) (m : List (Key × ℕ)) → lookup k m ≢ none → (t : ℕ) × (soonest host none m ≡ some t)
  unfolding soonest lookup
  soonest_found k [] h = absurd (h refl)
  soonest_found k ((j, at) ∷ m) h = elim (Option-cases (soonest host (some at) m)) [
    | inl e ↦ absurd (soonest-ne-none at m e)
    | inr found ↦ found
  ]

  -- As soon as one mapping has a next time, the wait is the distance to the least of all the next
  -- times, or 0 if that has passed; no scheduled mapping is due before the wait is over.
  pub time_until_next-least :
      (d : Daemon W) (k : Key)
      → lookup k d.next_at ≢ none
      → (t : ℕ) × ((time_until_next host d).0 ≡ some (t - (host.now d.world).0))
        × HasTime t d.next_at
        × ((j : Key) (at : ℕ) → lookup j d.next_at ≡ some at → t ≤ at)
  unfolding time_until_next
  time_until_next-least d k h =
      let (t, e) = soonest_found k d.next_at h in
      let (a, low, has) = soonest-IsLowest none d.next_at t e in
      (
        t,
        rw (e, time_until_next),
        elim has [ inl bad ↦ absurd (cc) | inr there ↦ there ],
        λ j at f. lookup-IsLowest j d.next_at t at low f,
      )

  reconcile_each-scheduled :
      (reqs : List Request) (d : Daemon W) (k : Key)
      → (lookup k d.next_at ≢ none) ⊎ (contains (map key_of reqs) k ≡ true)
      → lookup k (reconcile_each host reqs d).next_at ≢ none
  unfolding reconcile_each
  reconcile_each-scheduled [] d k (inl h) = h
  reconcile_each-scheduled [] d k (inr h) = cc
  reconcile_each-scheduled (req ∷ reqs) d k (inl h) =
      reconcile_each-scheduled reqs _ k
        (inl (Reconciles-scheduled (key_of req) d _ k (reconcile_one-Reconciles host req d) h))
  reconcile_each-scheduled (req ∷ reqs) d k (inr h) = elim (Bool-cases (k == key_of req)) [
    | inl same ↦ rw (eq_of_== k (key_of req) same) (
        reconcile_each-scheduled reqs _ (key_of req)
          (inl (Reconciles.scheduled (reconcile_one-Reconciles host req d))))
    | inr other ↦ reconcile_each-scheduled reqs _ k (inr (ground arith))
  ]

  renew_if_due-scheduled :
      (now : ℕ) (req : Request) (d : Daemon W) (k : Key)
      → lookup k d.next_at ≢ none
      → lookup k (renew_if_due host now req d).next_at ≢ none
  unfolding renew_if_due
  renew_if_due-scheduled now req d k h =
      let more = Reconciles-scheduled (key_of req) d _ k (reconcile_one-Reconciles host req d) h in
      ground arith

  renew_each-scheduled :
      (now : ℕ) (reqs : List Request) (d : Daemon W) (k : Key)
      → lookup k d.next_at ≢ none
      → lookup k (renew_each host now reqs d).next_at ≢ none
  unfolding renew_each
  renew_each-scheduled now [] d k h = h
  renew_each-scheduled now (req ∷ reqs) d k h =
      renew_each-scheduled now reqs _ k (renew_if_due-scheduled now req d k h)

  renew_due-scheduled :
      (d : Daemon W) (k : Key)
      → lookup k d.next_at ≢ none
      → lookup k (renew_due host d).next_at ≢ none
  unfolding renew_due
  renew_due-scheduled d k h =
      renew_each-scheduled _ _ _ k (rw ((refresh_local_addr-maps host [] d).1) h)

  pub renew_round-scheduled :
      (d : Daemon W) (k : Key)
      → lookup k d.next_at ≢ none
      → lookup k (renew_round host d).next_at ≢ none
  unfolding renew_round
  renew_round-scheduled d k h = renew_due-scheduled _ k (rw ((time_until_next-maps host [] d).1) h)

  -- After the first pass every configured mapping has a next time, whether the client has mapped
  -- it, has failed, or was not asked because nothing listens.
  pub reconcile_all-scheduled :
      (d : Daemon W) (k : Key)
      → contains (map key_of (host.requests d.world)) k ≡ true
      → lookup k (reconcile_all host d).next_at ≢ none
  unfolding reconcile_all
  reconcile_all-scheduled d k h = reconcile_each-scheduled (host.requests d.world) d k (inr h)
