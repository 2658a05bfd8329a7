-- ===== src/Daemon/Configured.antt =====
-- A daemon that runs on the requests of a configuration: internal/cli/cli.go passes the validated
-- configuration to `New`, and `requests` of daemon.go expands it anew on each pass.
use nat_pmp.Common.{
  ◌≡◌, ◌≢◌, refl, sym, ap, ◌∙◌, subst, arith, true, false, List, [], ◌∷◌, map, contains, ◌==◌, inl,
  inr, Bool-cases, ok, nat_eq, string_eq, none,
}
use nat_pmp.Common.Dict.{lookup}
use nat_pmp.Mapping.{Request}
use nat_pmp.Config.Requests.{Config, requests}
use nat_pmp.Config.Requests as Expansion
use nat_pmp.Config.Expansion.{requests-keys}
use nat_pmp.Config.Validate.{PortKey, port_key_eq, validate}
use nat_pmp.Config.Validate.Ports.{internal_keys, Distinct}
use nat_pmp.Config.Validate.Wellformed.{validate-requests}
use nat_pmp.Daemon.State.{Key, key_eq, key_of, Host, Daemon}
use nat_pmp.Daemon.Scheduling.{eq_of_==}
use nat_pmp.Daemon.Run.Reach.{Reaches, Reaches-IsSound}

abbrev pub internal_port_of : Key → PortKey
internal_port_of k = record { protocol = k.protocol; port = k.internal_port }

internal_keys-map :
    (reqs : List Request) → internal_keys reqs ≡ map internal_port_of (map key_of reqs)
internal_keys-map [] = refl
internal_keys-map (r ∷ reqs) = rw (internal_keys-map reqs) refl

contains-map :
    (ks : List Key) (k : Key)
    → contains ks k ≡ true
    → contains (map internal_port_of ks) (internal_port_of k) ≡ true
contains-map [] k h = h
contains-map (j ∷ ks) k h = ground (arith, contains-map ks k)

Distinct-injective :
    (ks : List Key) (j k : Key)
    → Distinct (map internal_port_of ks)
    → contains ks j ≡ true
    → contains ks k ≡ true
    → internal_port_of j ≡ internal_port_of k
    → j ≡ k
Distinct-injective [] j k d hj hk e = cc
Distinct-injective (i ∷ ks) j k (new, d) hj hk e = elim (Bool-cases (j == i)) [
  | inl p ↦ elim (Bool-cases (k == i)) [
    | inl q ↦ eq_of_== j i p ∙ sym (eq_of_== k i q)
    | inr q ↦ absurd (clash k q hk (ap internal_port_of (sym (eq_of_== j i p)) ∙ e))
  ]
  | inr p ↦ elim (Bool-cases (k == i)) [
    | inl q ↦ absurd (clash j p hj (ap internal_port_of (sym (eq_of_== k i q)) ∙ sym e))
    | inr q ↦ Distinct-injective ks j k d (rw p at hj) (rw q at hk) e
  ]
]
  where
    clash :
        (l : Key)
        → (l == i) ≡ false
        → contains (i ∷ ks) l ≡ true
        → internal_port_of i ≢ internal_port_of l
    clash l other h same =
        let there : contains (map internal_port_of ks) (internal_port_of l) ≡ true =
          contains-map ks l (rw other at h) in
        cc (subst (λ k. contains (map internal_port_of ks) k ≡ false) same new, there)

module _ {W : Type 0} (host : Host W) (c : Config) (interfaces : W → Expansion.Host)
    (configured : (w : W) → host.requests w ≡ requests (interfaces w) c) where
  -- A daemon that expands a valid configuration anew on each pass, while the addresses of the
  -- interfaces may change at any time, never holds two leases for one protocol and internal port, and
  -- every lease that it holds is under the key of a mapping that the configuration has on any host.
  pub Reaches-one_lease :
      (start : Expansion.Host) {d : Daemon W}
      → validate start c ≡ ok tt
      → Reaches host d
      → (j k : Key) → lookup j d.leases ≢ none
      → lookup k d.leases ≢ none
      → (contains (map key_of (requests start c)) j ≡ true)
        × (internal_port_of j ≡ internal_port_of k → j ≡ k)
  Reaches-one_lease start valid r j k hj hk =
      let keys = map key_of (requests start c) in
      let stable : (w : _) → map key_of (host.requests w) ≡ keys =
        λ w. ap (map key_of) (configured w) ∙ requests-keys (interfaces w) start c in
      let sound = (Reaches-IsSound host keys stable r).0 in
      let distinct : Distinct (map internal_port_of keys) =
        subst Distinct (internal_keys-map (requests start c)) (validate-requests start c valid).1 in
      (
        sound.configured j hj,
        Distinct-injective keys j k distinct (sound.configured j hj) (sound.configured k hk),
      )
