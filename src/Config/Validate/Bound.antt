-- ===== src/Config/Validate/Bound.antt =====
-- Where the requests of a validated configuration (internal/config/config.go) forward to.
use nat_pmp.Common.{
  ◌≡◌, ◌⊎◌, inl, inr, refl, sym, ap, subst, arith, String, true, false, ◌&&◌, List, [], ◌∷◌, All,
  All-append, ◌!=◌, string_eq, if◌then◌else◌, Bool-cases, Result-cases,
}
use nat_pmp.Common.{ok, >>=-ok, wrap, wrap-ok, value_or, reject_if}
use nat_pmp.Addr.{Addr, invalid, v4, v6, is_valid, addr_eq}
use nat_pmp.Config.Requests.{
  Mapping, Config, Host, protocols, resolve_internal_address, internal_address, mapping_requests,
  default_internal_address, requests_of, requests,
}
use nat_pmp.Config.Validate.{resolve_mappings, check_bound, validate_internal_addresses, validate}
use nat_pmp.Config.Validate.Wellformed.{All-map}
use nat_pmp.Config.Validate.Targets.{
  IsLocal, IsTarget, check_bound-IsLocal, resolve_internal_address-IsTarget,
}

module _ (host : Host) where
  -- Blank, or given.
  text-cases : (s : String) → (s ≡ "") ⊎ ((s != "") ≡ true)
  text-cases s = elim (Bool-cases (s != "")) [
    | inl given ↦ inr given
    | inr blank ↦ inl (ground (arith, blank))
  ]

  default-IsTarget :
      (c : Config) (a : Addr) (resolved : List Addr)
      → default_internal_address host c ≡ ok a
      → All (IsLocal host) (if c.internal_address != "" then a ∷ resolved else resolved)
      → IsTarget host a
  unfolding default_internal_address
  default-IsTarget c a resolved e p = elim (text-cases c.internal_address) [
    | inl blank ↦ elim (Result-cases (resolve_internal_address host "" c.internal_iface)) [
      | inl ((b, set), q) ↦
          let same : b ≡ a = ground (arith, blank, q, e) in
          subst (IsTarget host) same
            (resolve_internal_address-IsTarget host c.internal_iface b set q)
      | inr (x, q) ↦ absurd (ground (arith, blank, q, e))
    ]
    | inr given ↦ inr (inl ((rw given at p).0))
  ]

  not_valid : (a : Addr) → is_valid a ≡ false → a ≡ invalid
  not_valid invalid e = refl
  not_valid (v4 n) e = cc (e)
  not_valid (v6 bs zone) e = cc (e)

  -- What the loop over the mappings has found of the first of them.
  resolve_mappings-cons :
      (m : Mapping) (ms : List Mapping) (default_addr : Addr) (resolved : List Addr)
      → resolve_mappings host (m ∷ ms) default_addr ≡ ok resolved
      → (a : Addr) × (rest : List Addr) × (internal_address host m default_addr ≡ ok a)
        × (resolve_mappings host ms default_addr ≡ ok rest)
        × (resolved ≡ (if m.internal_address != "" && is_valid a then a ∷ rest else rest))
  unfolding resolve_mappings
  resolve_mappings-cons m ms default_addr resolved e =
      let (u, p, e1) =
        >>=-ok (reject_if (m.internal_address != "" && m.internal_iface != "") _) _ e in
      let (a, q, e2) =
        >>=-ok (wrap "config: mapping" (internal_address host m default_addr)) _ e1 in
      let (rest, r, e3) = >>=-ok (resolve_mappings host ms default_addr) _ e2 in
      (
        a,
        rest,
        wrap-ok "config: mapping" (internal_address host m default_addr) q,
        r,
        ground (arith, e3),
      )

  mapping-IsTarget :
      (m : Mapping) (default_addr a : Addr) (rest : List Addr)
      → internal_address host m default_addr ≡ ok a
      → IsTarget host default_addr
      → All (IsLocal host) (if m.internal_address != "" && is_valid a then a ∷ rest else rest)
      → IsTarget host a × All (IsLocal host) rest
  unfolding internal_address
  mapping-IsTarget m default_addr a rest e d p = elim (text-cases m.internal_address) [
    | inr given ↦ elim (Bool-cases (is_valid a)) [
      | inl real ↦ let (l, ls) = rw (given, real) at p in (inr (inl l), ls)
      | inr nothing ↦ (inl (not_valid a nothing), rw (given, nothing) at p)
    ]
    | inl blank ↦
        let test : (m.internal_address != "") ≡ false = ground (arith, blank) in
        let ls : All (IsLocal host) rest = rw test at p in
        elim (Result-cases (resolve_internal_address host "" m.internal_iface)) [
          | inr (x, q) ↦ absurd (ground (arith, blank, q, e))
          | inl ((b, set), q) ↦ elim (Bool-cases set) [
            | inl own ↦
                let same : b ≡ a = ground (arith, blank, q, own, e) in
                (
                  subst (IsTarget host) same
                      (resolve_internal_address-IsTarget host m.internal_iface b set q),
                  ls,
                )
            | inr default ↦
                let same : default_addr ≡ a = ground (arith, blank, q, default, e) in
                (subst (IsTarget host) same d, ls)
          ]
        ]
  ]

  mapping_requests-IsTarget :
      (m : Mapping) (default_addr a : Addr)
      → internal_address host m default_addr ≡ ok a
      → IsTarget host a
      → All (λ r. IsTarget host r.internal_address) (mapping_requests host m default_addr)
  unfolding mapping_requests
  mapping_requests-IsTarget m default_addr a e t =
      let value : value_or invalid (internal_address host m default_addr) ≡ a =
        ap (value_or invalid) e in
      All-map (λ r. IsTarget host r.internal_address) _
        (λ proto. subst (IsTarget host) (sym value) t) (protocols m)

  requests_of-IsTarget :
      (ms : List Mapping) (default_addr : Addr) (resolved : List Addr)
      → resolve_mappings host ms default_addr ≡ ok resolved
      → IsTarget host default_addr
      → All (IsLocal host) resolved
      → All (λ r. IsTarget host r.internal_address) (requests_of host ms default_addr)
  unfolding requests_of
  requests_of-IsTarget [] default_addr resolved e d p = tt
  requests_of-IsTarget (m ∷ ms) default_addr resolved e d p =
      let (a, rest, q, r, s) = resolve_mappings-cons m ms default_addr resolved e in
      let (t, ls) = mapping-IsTarget m default_addr a rest q d (subst (All (IsLocal host)) s p) in
      All-append _ _ _ (mapping_requests-IsTarget m default_addr a q t)
        (requests_of-IsTarget ms default_addr rest r d ls)

  -- The addresses that the validation has checked.
  validate_internal_addresses-checked :
      (c : Config) (a : Addr)
      → validate_internal_addresses host c ≡ ok a
      → (resolved : List Addr) × (default_internal_address host c ≡ ok a)
        × (resolve_mappings host c.mappings a ≡ ok resolved)
        × All (IsLocal host) (if c.internal_address != "" then a ∷ resolved else resolved)
  unfolding validate_internal_addresses
  validate_internal_addresses-checked c a e =
      let (u, p, e1) =
        >>=-ok (reject_if (c.internal_address != "" && c.internal_iface != "") _) _ e in
      let (b, q, e2) = >>=-ok (default_internal_address host c) _ e1 in
      let (resolved, r, e3) = >>=-ok (resolve_mappings host c.mappings b) _ e2 in
      let (v, s, e4) =
        >>=-ok (check_bound host (if c.internal_address != "" then b ∷ resolved else resolved)) _
          e3 in
      let same : b ≡ a = cc (e4) in
      subst
        (λ a'.
          (resolved : List Addr) × (default_internal_address host c ≡ ok a')
          × (resolve_mappings host c.mappings a' ≡ ok resolved)
          × All (IsLocal host) (if c.internal_address != "" then a' ∷ resolved else resolved))
        same (resolved, q, r, check_bound-IsLocal host _ s)

  checked_rest :
      (c : Config) (a : Addr) (resolved : List Addr)
      → All (IsLocal host) (if c.internal_address != "" then a ∷ resolved else resolved)
      → All (IsLocal host) resolved
  checked_rest c a resolved p = elim (Bool-cases (c.internal_address != "")) [
    | inl given ↦ (rw given at p).1
    | inr blank ↦ rw blank at p
  ]

  -- On the host that a configuration was validated on, each of its requests forwards to no address of
  -- its own, or to one that is bound to an interface of this host, or to the first usable IPv4 address
  -- of a named interface, neither loopback nor link-local.
  pub validate-IsTarget :
      (c : Config)
      → validate host c ≡ ok tt
      → All (λ r. IsTarget host r.internal_address) (requests host c)
  unfolding validate requests
  validate-IsTarget c e = elim (Result-cases (validate_internal_addresses host c)) [
    | inr (x, q) ↦ absurd (ground (arith, q, e))
    | inl (a, q) ↦
        let (resolved, known, r, p) = validate_internal_addresses-checked c a q in
        let value : value_or invalid (default_internal_address host c) ≡ a =
          ap (value_or invalid) known in
        subst (λ b. All (λ r. IsTarget host r.internal_address) (requests_of host c.mappings b))
          (sym value)
          (requests_of-IsTarget c.mappings a resolved r (default-IsTarget c a resolved known p)
            (checked_rest c a resolved p))
  ]
