-- ===== src/Daemon/Continuity/Rounds.antt =====
-- The passes of internal/daemon/daemon.go, on a host that is punctual and serves the mappings.
use nat_pmp.Common.{
  All, ℕ, ◌≤◌, ◌≡◌, ◌⊎◌, arith, true, List, [], ◌∷◌, map, contains, ltb, ltb→lt, ◌==◌, nat_eq,
  string_eq, inl, inr, Option-cases, Bool-cases,
}
use nat_pmp.Common.Dict.{lookup}
use nat_pmp.Mapping.{Request, renew_before}
use nat_pmp.Daemon.State.{
  Host, Daemon, Key, key_eq, key_of, reconcile_one, reconcile_each, renew_if_due, renew_each,
}
use nat_pmp.Daemon.Scheduling.{eq_of_==}
use nat_pmp.Daemon.Frame.Passes.{reconcile_one-Keeps, renew_if_due-Keeps}
use nat_pmp.Daemon.Punctual.{Punctual, advances}
use nat_pmp.Daemon.Continuity.{
  IsServed, Serves, Kept, reconcile_one-Kept, Kept-since, reconcile_one-keeps,
}

module _ {W : Type 0} (host : Host W) (clock : W → ℕ) (tick lag : ℕ)
    (punctual : Punctual host clock tick lag) (keys : List Key) (life : ℕ)
    (serves : Serves host clock keys life) where
  abbrev pub AllKept : ℕ → Daemon W → Type 0
  AllKept b d = (k : Key) → contains keys k ≡ true → Kept life b k d

  renew_if_due-keeps :
      (now : ℕ) (req : Request) (d : Daemon W) (k : Key) (b : ℕ)
      → IsServed keys req
      → b ≤ clock d.world
      → Kept life b k d
      → Kept life b k (renew_if_due host now req d)
  unfolding renew_if_due
  renew_if_due-keeps now req d k b h le s = elim (Option-cases (lookup (key_of req) d.next_at)) [
    | inl e ↦ rw (e, renew_if_due) s
    | inr (at, e) ↦ elim (Bool-cases (ltb now at)) [
      | inl later ↦ rw (e, later, renew_if_due) s
      | inr due ↦
          rw (e, due, renew_if_due)
            (reconcile_one-keeps host clock tick lag punctual keys life serves req d k b h le s)
    ]
  ]

  renew_if_due-Kept :
      (now : ℕ) (req : Request) (d : Daemon W)
      → IsServed keys req
      → now ≤ clock d.world
      → Kept life 0 (key_of req) d
      → Kept life now (key_of req) (renew_if_due host now req d)
  unfolding renew_if_due
  renew_if_due-Kept now req d h le s = elim (Bool-cases (ltb now (renew_before s.lease))) [
    | inl later ↦
        rw (s.time, later, renew_if_due)
          (record {
            lease = s.lease;
            held = s.held;
            time = s.time;
            positive = s.positive;
            lasts = s.lasts;
            after = omega (arith, ltb→lt _ _ later);
          })
    | inr due ↦
        rw (s.time, due, renew_if_due)
          (Kept-since host clock tick lag punctual keys life serves (clock d.world) now (key_of req)
            _ le (reconcile_one-Kept host clock tick lag punctual keys life serves req d h))
  ]

  pub renew_each-Kept :
      (now : ℕ) (reqs : List Request) (d : Daemon W)
      → All (IsServed keys) reqs
      → now ≤ clock d.world
      → AllKept 0 d
      → (k : Key) → contains keys k ≡ true
      → Kept life now k d ⊎ (contains (map key_of reqs) k ≡ true)
      → Kept life now k (renew_each host now reqs d)
  unfolding renew_each
  renew_each-Kept now [] d w le all k h (inl s) = s
  renew_each-Kept now [] d w le all k h (inr x) = absurd (cc)
  renew_each-Kept now (r ∷ reqs) d w le all k h s =
      let d1 = renew_if_due host now r d in
      let le1 : now ≤ clock d1.world =
        renew_if_due-Keeps (λ v. now ≤ clock v) host (advances host clock tick lag punctual now) now
          r d le in
      renew_each-Kept now reqs d1 w.1 le1
        (λ j hj. renew_if_due-keeps now r d j 0 w.0 (omega arith) (all j hj)) k h
        (elim s [
          | inl kept ↦ inl (renew_if_due-keeps now r d k now w.0 le kept)
          | inr there ↦ elim (Bool-cases (k == key_of r)) [
            | inl same ↦ inl (
                rw (eq_of_== k (key_of r) same)
                  (renew_if_due-Kept now r d w.0 le (all (key_of r) w.0.0)))
            | inr other ↦ inr (ground arith)
          ]
        ])

  pub reconcile_each-Kept :
      (b : ℕ) (reqs : List Request) (d : Daemon W)
      → All (IsServed keys) reqs
      → b ≤ clock d.world
      → (k : Key) → Kept life b k d ⊎ (contains (map key_of reqs) k ≡ true)
      → Kept life b k (reconcile_each host reqs d)
  unfolding reconcile_each
  reconcile_each-Kept b [] d w le k (inl s) = s
  reconcile_each-Kept b [] d w le k (inr x) = absurd (cc)
  reconcile_each-Kept b (r ∷ reqs) d w le k s =
      let d1 = reconcile_one host r d in
      let le1 : b ≤ clock d1.world =
        reconcile_one-Keeps (λ v. b ≤ clock v) host (advances host clock tick lag punctual b) r d
          le in
      reconcile_each-Kept b reqs d1 w.1 le1 k (elim s [
        | inl kept ↦
            inl (
              reconcile_one-keeps host clock tick lag punctual keys life serves r d k b w.0 le kept)
        | inr there ↦ elim (Bool-cases (k == key_of r)) [
          | inl same ↦ inl (
              rw (eq_of_== k (key_of r) same) (
                Kept-since host clock tick lag punctual keys life serves (clock d.world) b
                  (key_of r) _ le
                  (reconcile_one-Kept host clock tick lag punctual keys life serves r d w.0)))
          | inr other ↦ inr (ground arith)
        ]
      ])
