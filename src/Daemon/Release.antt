-- ===== src/Daemon/Release.antt =====
-- Shutdown: what `releaseAll` leaves.
use nat_pmp.Common.{
  ◌≡◌, ◌≢◌, ◌⊎◌, inl, inr, arith, sym, ◌∙◌, subst, true, List, [], ◌∷◌, ◌++◌, map, length, none,
  ◌==◌, nat_eq, contains, Error, Result, Result-cases, Option-cases, Bool-cases,
}
use nat_pmp.Common.Dict.{lookup, lookup-nil, lookup-erase}
use nat_pmp.Mapping.{Request, Lease}
use nat_pmp.Portmapper.{fresh}
use nat_pmp.Daemon.State.{
  Host, Daemon, Key, key_eq, key_of, release_timeout, release_request, release_if_active,
  release_each, release_all,
}
use nat_pmp.Daemon.Invariant.{IsSound}
use nat_pmp.Daemon.Scheduling.{eq_of_==}

append-nil_inv {ℓ} : {A : Type ℓ} (xs : List A) (a : A) → xs ++ (a ∷ []) ≢ []
append-nil_inv [] a = λ e. cc
append-nil_inv (x ∷ xs) a = λ e. cc

lookup_empty : (k : Key) (m : List (Key × Lease)) → (length m == 0) ≡ true → lookup k m ≡ none
lookup_empty k [] h = lookup-nil k
lookup_empty k (e ∷ m) h = absurd (ground arith)

module _ {W : Type 0} (host : Host W) where
  abbrev pub released : Request → Lease → Daemon W → Result (Unit {0}) × W
  released req lease d =
      host.client.unmap (fresh release_timeout) (release_request req lease) d.world

  release_if_active-own :
      (req : Request) (errs : List Error) (d : Daemon W)
      → (release_if_active host req (errs, d)).0 ≡ []
      → lookup (key_of req) (release_if_active host req (errs, d)).1.leases ≡ none
  unfolding release_if_active
  release_if_active-own req errs d e = elim (Option-cases (lookup (key_of req) d.leases)) [
    | inl n ↦ ground arith
    | inr (l, s) ↦ elim (Result-cases (released req l d).0) [
      | inl (u, o) ↦ ground (arith, lookup-erase (key_of req) (key_of req) d.leases)
      | inr (x, o) ↦ absurd (append-nil_inv errs x (ground arith))
    ]
  ]

  release_if_active-errors :
      (req : Request) (errs : List Error) (d : Daemon W)
      → (release_if_active host req (errs, d)).0 ≡ []
      → errs ≡ []
  unfolding release_if_active
  release_if_active-errors req errs d e = elim (Option-cases (lookup (key_of req) d.leases)) [
    | inl n ↦ ground arith
    | inr (l, s) ↦ elim (Result-cases (released req l d).0) [
      | inl (u, o) ↦ ground arith
      | inr (x, o) ↦ absurd (append-nil_inv errs x (ground arith))
    ]
  ]

  -- No release brings back or changes a lease: each is kept as it is, or gone.
  release_if_active-shrinks :
      (req : Request) (errs : List Error) (d : Daemon W) (k : Key)
      → let after = lookup k (release_if_active host req (errs, d)).1.leases in
        (after ≡ lookup k d.leases) ⊎ (after ≡ none)
  unfolding release_if_active
  release_if_active-shrinks req errs d k = elim (Option-cases (lookup (key_of req) d.leases)) [
    | inl n ↦ inl (ground arith)
    | inr (l, s) ↦ elim (Result-cases (released req l d).0) [
      | inl (u, o) ↦ ground (arith, lookup-erase k (key_of req) d.leases)
      | inr (x, o) ↦ inl (ground arith)
    ]
  ]

  release_each-errors :
      (reqs : List Request) (errs : List Error) (d : Daemon W)
      → (release_each host reqs (errs, d)).0 ≡ []
      → errs ≡ []
  unfolding release_each
  release_each-errors [] errs d e = e
  release_each-errors (req ∷ reqs) errs d e =
      release_if_active-errors req errs d (release_each-errors reqs _ _ e)

  release_each-shrinks :
      (reqs : List Request) (errs : List Error) (d : Daemon W) (k : Key)
      → lookup k d.leases ≡ none
      → lookup k (release_each host reqs (errs, d)).1.leases ≡ none
  unfolding release_each
  release_each-shrinks [] errs d k h = h
  release_each-shrinks (req ∷ reqs) errs d k h =
      release_each-shrinks reqs _ _ k
        (elim (release_if_active-shrinks req errs d k) [ inl same ↦ same ∙ h | inr gone ↦ gone ])

  release_each-all :
      (reqs : List Request) (errs : List Error) (d : Daemon W) (k : Key)
      → contains (map key_of reqs) k ≡ true
      → (release_each host reqs (errs, d)).0 ≡ []
      → lookup k (release_each host reqs (errs, d)).1.leases ≡ none
  unfolding release_each
  release_each-all [] errs d k h e = cc
  release_each-all (req ∷ reqs) errs d k h e = elim (Bool-cases (k == key_of req)) [
    | inl same ↦
        let p = eq_of_== k (key_of req) same in
        release_each-shrinks reqs _ _ k
          (rw p (release_if_active-own req errs d (release_each-errors reqs _ _ e)))
    | inr other ↦ release_each-all reqs _ _ k (ground arith) e
  ]

  -- In a sound state, whose leases belong to the mappings that are configured now: if `releaseAll`
  -- reports no error, no lease is left.
  pub release_all-none_left :
      (keys : List Key) (d : Daemon W)
      → map key_of (host.requests d.world) ≡ keys
      → IsSound keys d
      → (release_all host d).0 ≡ []
      → (k : Key) → lookup k (release_all host d).1.leases ≡ none
  unfolding release_all
  release_all-none_left keys d stable i e k = elim (Bool-cases (length d.leases == 0)) [
    | inl empty ↦ rw (empty, release_all) (lookup_empty k d.leases empty)
    | inr some_left ↦
        let reqs = host.requests d.world in
        let e' : (release_each host reqs ([], d)).0 ≡ [] = ground arith in
        rw (some_left, release_all)
          (elim (Option-cases (lookup k d.leases)) [
            | inl n ↦ release_each-shrinks reqs [] d k n
            | inr (l, s) ↦
                let mine : contains keys k ≡ true = i.configured k (λ x. cc (s, x)) in
                release_each-all reqs [] d k (subst (λ ks. contains ks k ≡ true) (sym stable) mine)
                  e'
          ])
  ]
