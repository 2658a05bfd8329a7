-- ===== src/Config/Validate/Wellformed.antt =====
-- What `Config.Validate` promises of `Config.Requests` (internal/config/config.go).
use nat_pmp.Common.{
  ◌≡◌, refl, sym, ◌∙◌, arith, List, [], ◌∷◌, ◌++◌, map, All, All-append, string_eq, nat_eq,
}
use nat_pmp.Common.{ok, ◌>>=◌, >>=-ok, wrap, wrap-ok, Result-cases, inl, inr}
use nat_pmp.Addr.{Addr}
use nat_pmp.Mapping.{Protocol, Request}
use nat_pmp.Mapping as Wire
use nat_pmp.Config.Requests.{
  Mapping, Config, Host, protocols, default_internal_address, mapping_requests, requests_of,
  requests,
}
use nat_pmp.Config.Validate.{
  port_key_eq, Seen, validate_requests, check_internal, check_external, check_ports,
  validate_mappings, validate_internal_addresses, validate,
}
use nat_pmp.Config.Validate.Ports.{
  internal_keys, external_keys, Distinct, check_all, check_all-internal, check_all-external,
}

check_all-append :
    (xs ys : List Request) (seen : Seen)
    → check_all (xs ++ ys) seen ≡ (check_all xs seen >>= λ seen'. check_all ys seen')
unfolding check_all
check_all-append [] ys seen = refl
check_all-append (x ∷ xs) ys seen =
    elim (Result-cases (check_internal x.protocol x.internal_port seen)) [
      | inl (s1, e1) ↦ elim (Result-cases (check_external x.protocol x.external_port s1)) [
        | inl (s2, e2) ↦ rw (e1, e2) (check_all-append xs ys s2)
        | inr (e, e2) ↦ rw (e1, e2) refl
      ]
      | inr (e, e1) ↦ rw e1 refl
    ]

validate_requests-Valid :
    (reqs : List Request) → validate_requests reqs ≡ ok tt → All (λ r. Wire.validate r ≡ ok tt) reqs
unfolding validate_requests
validate_requests-Valid [] e = tt
validate_requests-Valid (r ∷ reqs) e =
    let (u, e1, f1) =
      >>=-ok (wrap "config: mapping" (Wire.validate r)) (λ _. validate_requests reqs) e in
    (wrap-ok "config: mapping" (Wire.validate r) e1, validate_requests-Valid reqs f1)

-- The requests of a mapping carry its ports.
abbrev HasPorts : Mapping → List Request → Type 0
HasPorts m = All (λ r. (r.internal_port ≡ m.internal_port) × (r.external_port ≡ m.external_port))

pub All-map {ℓ κ} :
    {A : Type ℓ} {B : Type κ} (P : B → Type 0) (f : A → B)
    → ((a : A) → P (f a))
    → (xs : List A) → All P (map f xs)
All-map P f h [] = tt
All-map P f h (x ∷ xs) = (h x, All-map P f h xs)

mapping_requests-HasPorts :
    (host : Host) (m : Mapping) (a : Addr) → HasPorts m (mapping_requests host m a)
unfolding mapping_requests
mapping_requests-HasPorts host m a = All-map _ _ (λ proto. (refl, refl)) (protocols m)

check_ports-check_all :
    (m : Mapping) (reqs : List Request) (seen : Seen)
    → HasPorts m reqs
    → check_ports m reqs seen ≡ check_all reqs seen
unfolding check_ports check_all
check_ports-check_all m [] seen h = refl
check_ports-check_all m (r ∷ reqs) seen ((ei, ee), hs) =
    rw (sym ei, sym ee)
      elim (Result-cases (check_internal r.protocol r.internal_port seen)) [
        | inl (s1, e1) ↦ elim (Result-cases (check_external r.protocol r.external_port s1)) [
          | inl (s2, e2) ↦ rw (e1, e2) (check_ports-check_all m reqs s2 hs)
          | inr (e, e2) ↦ rw (e1, e2) refl
        ]
        | inr (e, e1) ↦ rw e1 refl
      ]

-- The two tests on all the requests, in one run.
mapping-checked :
    (host : Host) (m : Mapping) (ms : List Mapping) (a : Addr) (seen : Seen)
    → validate_mappings host (m ∷ ms) a seen ≡ ok tt
    → (validate_requests (mapping_requests host m a) ≡ ok tt)
      × (next : Seen) × (check_all (mapping_requests host m a) seen ≡ ok next)
      × (validate_mappings host ms a next ≡ ok tt)
unfolding validate_mappings
mapping-checked host m ms a seen e =
    let reqs = mapping_requests host m a in
    let (u, e1, f1) = >>=-ok (validate_requests reqs) _ e in
    let (next, e2, f2) = >>=-ok (check_ports m reqs seen) _ f1 in
    (
      e1,
      next,
      sym (check_ports-check_all m reqs seen (mapping_requests-HasPorts host m a)) ∙ e2,
      f2,
    )

requests_of-checked :
    (host : Host) (ms : List Mapping) (a : Addr) (seen : Seen)
    → validate_mappings host ms a seen ≡ ok tt
    → All (λ r. Wire.validate r ≡ ok tt) (requests_of host ms a)
      × (last : Seen) × (check_all (requests_of host ms a) seen ≡ ok last)
unfolding requests_of check_all
requests_of-checked host [] a seen e = (tt, seen, refl)
requests_of-checked host (m ∷ ms) a seen e =
    let (valid, next, checked, e') = mapping-checked host m ms a seen e in
    let (valid', last, checked') = requests_of-checked host ms a next e' in
    (
      All-append _ _ _ (validate_requests-Valid _ valid) valid',
      last,
      check_all-append (mapping_requests host m a) (requests_of host ms a) seen
          ∙ rw checked checked',
    )

pub validate_internal_addresses-default :
    (host : Host) (c : Config) (a : Addr)
    → validate_internal_addresses host c ≡ ok a
    → default_internal_address host c ≡ ok a
unfolding validate_internal_addresses
validate_internal_addresses-default host c a e = ground arith

validate-mappings :
    (host : Host) (c : Config)
    → validate host c ≡ ok tt
    → (a : Addr) × (default_internal_address host c ≡ ok a)
      × (validate_mappings host c.mappings a (record { internal = []; external = [] }) ≡ ok tt)
unfolding validate
validate-mappings host c e = elim (Result-cases (validate_internal_addresses host c)) [
  | inl (a, e4) ↦ (a, validate_internal_addresses-default host c a e4, ground arith)
  | inr (x, e4) ↦ ground arith
]

-- A configuration that validates expands into requests each of which is valid, no two of which share
-- a protocol and internal port, and no two of which share a protocol and a nonzero external port.
pub validate-requests :
    (host : Host) (c : Config)
    → validate host c ≡ ok tt
    → All (λ r. Wire.validate r ≡ ok tt) (requests host c)
      × Distinct (internal_keys (requests host c))
      × Distinct (external_keys (requests host c))
unfolding requests
validate-requests host c e =
    let (a, known, checked) = validate-mappings host c e in
    let (valid, last, unique) = requests_of-checked host c.mappings a _ checked in
    rw known (valid, (check_all-internal _ _ last unique).1, (check_all-external _ _ last unique).1)
