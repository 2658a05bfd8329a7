-- ===== src/Config/Validate/Ports.antt =====
-- What a valid configuration promises of its requests.
use nat_pmp.Common.{
  ◌≡◌, ◌≢◌, refl, sym, subst, arith, false, List, [], ◌∷◌, map, All, ◌==◌, contains, string_eq,
  nat_eq, if◌then◌else◌,
}
use nat_pmp.Common.{Result, ok, ◌>>=◌, >>=-ok, ◌⊎◌, inl, inr}
use nat_pmp.Mapping.{Request}
use nat_pmp.Config.Validate.{PortKey, port_key_eq, Seen, check_internal, check_external}

abbrev pub internal_keys : List Request → List PortKey
internal_keys = map (λ r. record { protocol = r.protocol; port = r.internal_port })

-- Only the external ports that are asked for.
abbrev pub external_keys : List Request → List PortKey
external_keys [] = []
external_keys (r ∷ reqs) =
    let rest = external_keys reqs in
    if r.external_port == 0
    then rest
    else record { protocol = r.protocol; port = r.external_port } ∷ rest

abbrev pub Distinct : List PortKey → Type 0
Distinct [] = Unit
Distinct (k ∷ ks) = (contains ks k ≡ false) × Distinct ks

abbrev Fresh : List PortKey → List PortKey → Type 0
Fresh seen = All (λ k. contains seen k ≡ false)

-- Keys that are fresh after `k` was seen are fresh before it, and are not `k`.
Fresh-cons :
    (seen : List PortKey) (k : PortKey) (ks : List PortKey)
    → Fresh (k ∷ seen) ks
    → Fresh seen ks × (contains ks k ≡ false)
Fresh-cons seen k [] h = (tt, refl)
Fresh-cons seen k (j ∷ ks) (h, hs) = let (f, c) = Fresh-cons seen k ks hs in ground arith

-- The same checks, request by request.
unfoldable pub check_all : List Request → Seen → Result Seen
check_all [] seen = ok seen
check_all (r ∷ reqs) seen = do
  seen1 ← check_internal r.protocol r.internal_port seen
  seen2 ← check_external r.protocol r.external_port seen1
  check_all reqs seen2

-- What a successful step over one request has tested and recorded.
record Passed (r : Request) (seen next : Seen) : Type 0 where
  new_internal :
      contains seen.internal (record { protocol = r.protocol; port = r.internal_port }) ≡ false
  internal :
      next.internal ≡ record { protocol = r.protocol; port = r.internal_port } ∷ seen.internal
  external :
      ((r.external_port ≡ 0) × (next.external ≡ seen.external))
      ⊎ ((r.external_port ≢ 0)
          × (contains seen.external (record { protocol = r.protocol; port = r.external_port })
              ≡ false)
          × (next.external
              ≡ record { protocol = r.protocol; port = r.external_port } ∷ seen.external))

check_all-cons :
    (r : Request) (reqs : List Request) (seen seen' : Seen)
    → check_all (r ∷ reqs) seen ≡ ok seen'
    → (next : Seen) × Passed r seen next × (check_all reqs next ≡ ok seen')
unfolding check_all check_internal check_external
check_all-cons r reqs seen seen' e =
    let (s1, e1, f1) = >>=-ok (check_internal r.protocol r.internal_port seen) _ e in
    let (s2, e2, f2) = >>=-ok (check_external r.protocol r.external_port s1) _ f1 in
    (s2, ground arith, f2)

pub check_all-internal :
    (reqs : List Request) (seen seen' : Seen)
    → check_all reqs seen ≡ ok seen'
    → Fresh seen.internal (internal_keys reqs) × Distinct (internal_keys reqs)
check_all-internal [] seen seen' e = (tt, tt)
check_all-internal (r ∷ reqs) seen seen' e =
    let (next, p, f) = check_all-cons r reqs seen seen' e in
    let (fresh, distinct) = check_all-internal reqs next seen' f in
    let (old, new) = Fresh-cons seen.internal _ (internal_keys reqs) (rw p.internal at fresh) in
    ((p.new_internal, old), (new, distinct))

external_keys-zero :
    (r : Request) (reqs : List Request)
    → r.external_port ≡ 0
    → external_keys (r ∷ reqs) ≡ external_keys reqs
external_keys-zero r reqs e = ground arith

external_keys-some :
    (r : Request) (reqs : List Request)
    → r.external_port ≢ 0
    → external_keys (r ∷ reqs)
      ≡ record { protocol = r.protocol; port = r.external_port } ∷ external_keys reqs
external_keys-some r reqs ne = ground arith

pub check_all-external :
    (reqs : List Request) (seen seen' : Seen)
    → check_all reqs seen ≡ ok seen'
    → Fresh seen.external (external_keys reqs) × Distinct (external_keys reqs)
check_all-external [] seen seen' e = (tt, tt)
check_all-external (r ∷ reqs) seen seen' e =
    let (next, p, f) = check_all-cons r reqs seen seen' e in
    let (fresh, distinct) = check_all-external reqs next seen' f in
    elim p.external [
      | inl (zero_port, same) ↦
          subst (λ ks. Fresh seen.external ks × Distinct ks)
            (sym (external_keys-zero r reqs zero_port)) (rw same at fresh, distinct)
      | inr (some_port, new_external, more) ↦
          let (old, new) = Fresh-cons seen.external _ (external_keys reqs) (rw more at fresh) in
          subst (λ ks. Fresh seen.external ks × Distinct ks)
            (sym (external_keys-some r reqs some_port)) ((new_external, old), (new, distinct))
    ]
