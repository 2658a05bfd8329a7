-- ===== src/Daemon/Registry/Changes.antt =====
-- The abstract registry of forwardings: its state, its steps, and the registry that a daemon of
-- internal/daemon/daemon.go stands for.
use nat_pmp.Common.{
  ◌≡◌, refl, ◌∙◌, sym, ap, arith, true, List, Option, none, some, contains, ◌==◌, if◌then◌else◌,
  nat_eq, string_eq, ok,
}
use nat_pmp.Common.Dict.{lookup}
use nat_pmp.Mapping.{Request, Lease}
use nat_pmp.Daemon.State.{Daemon, Key, key_eq}
use nat_pmp.Portmapper.{Client, running}
use nat_pmp.Daemon.Effects.{FitsKey, Reconciles}

abbrev pub Registry : Type 0
Registry = Key → Option Lease

abbrev pub empty : Registry
empty k = none

-- The registry grants to one of the keys a lease that fits, which the client has returned for a request
-- of that protocol and internal port; or it releases a key that has a lease.
pub data Step {W : Type 0} (client : Client W) (keys : List Key)
    : Registry → Registry → Type 0 where
  grant :
      {r r' : Registry} (k : Key) (l : Lease) (req : Request) (w : W)
      → contains keys k ≡ true
      → FitsKey k l
      → req.protocol ≡ k.protocol
      → req.internal_port ≡ k.internal_port
      → (client.map running req w).0 ≡ ok l
      → ((j : Key) → r' j ≡ (if j == k then some l else r j))
      → Step client keys r r'
  release :
      {r r' : Registry} (k : Key) (l : Lease)
      → r k ≡ some l
      → ((j : Key) → r' j ≡ (if j == k then none else r j))
      → Step client keys r r'

pub data Steps {W : Type 0} (client : Client W) (keys : List Key)
    : Registry → Registry → Type 0 where
  done : {r r' : Registry} → ((j : Key) → r' j ≡ r j) → Steps client keys r r'
  more :
      {r r1 r' : Registry}
      → Step client keys r r1
      → Steps client keys r1 r'
      → Steps client keys r r'

-- What the registry keeps of a daemon.
abbrev pub view : {W : Type 0} → Daemon W → Registry
view d k = lookup k d.leases

module _ {W : Type 0} (client : Client W) (keys : List Key) where
  pub same-Steps :
      {r r1 r' : Registry}
      → ((j : Key) → r1 j ≡ r j)
      → Steps client keys r1 r'
      → Steps client keys r r'
  same-Steps e (done f) = done (λ j. f j ∙ e j)
  same-Steps e (more (grant k l req w h f p i m g) s) =
      more (grant k l req w h f p i m (λ j. g j ∙ ground (arith, e j))) s
  same-Steps e (more (release k l held g) s) =
      more (release k l (sym (e k) ∙ held) (λ j. g j ∙ ground (arith, e j))) s

  pub trans-Steps :
      {r r1 r' : Registry}
      → Steps client keys r r1
      → Steps client keys r1 r'
      → Steps client keys r r'
  trans-Steps (done e) s = same-Steps e s
  trans-Steps (more x y) s = more x (trans-Steps y s)

  pub one-Steps : {r r' : Registry} → Step client keys r r' → Steps client keys r r'
  one-Steps s = more s (done (λ j. refl))

  pub same_leases : (d d' : Daemon W) → d'.leases ≡ d.leases → Steps client keys (view d) (view d')
  same_leases d d' e = done (λ j. ap (lookup j) e)

  pub changed_only :
      (k : Key) (d d' : Daemon W) (o : Option Lease)
      → Reconciles k d d'
      → view d' k ≡ o
      → (j : Key) → view d' j ≡ (if j == k then o else view d j)
  changed_only k d d' o s e j = elim (key_eq.dec j k) [
    | yes same ↦ rw same (e ∙ ground arith)
    | no other ↦ s.other_leases j other ∙ ground arith
  ]

  pub own_or_other :
      (k : Key) (d : Daemon W) (j : Key) → (if j == k then view d k else view d j) ≡ view d j
  own_or_other k d j = elim (key_eq.dec j k) [
    | yes same ↦ rw same (ground arith)
    | no other ↦ ground arith
  ]
