-- ===== src/Config/Validate/Targets.antt =====
-- The addresses that internal/config/config.go resolves and checks.
use nat_pmp.Common.{
  ◌≡◌, ◌⊎◌, inl, inr, ◌∙◌, ap, arith, String, Bool, true, false, List, [], ◌∷◌, contains, All, ◌!=◌,
  string_eq, Bool-cases, Result-cases,
}
use nat_pmp.Common.{ok, >>=-ok, wrap, wrap-ok}
use nat_pmp.Addr.{Addr, invalid, is4, is_loopback, is_link_local_unicast, addr_eq}
use nat_pmp.Config.Requests.{
  Host, first_usable_ipv4, local_addresses, iface_addresses, resolve_iface,
  resolve_internal_address,
}
use nat_pmp.Config.Validate.{all_local, check_bound}

-- An IPv4 address that a forwarding may target.
abbrev pub IsUsable : Addr → Type 0
IsUsable a = (is4 a ≡ true) × (is_loopback a ≡ false) × (is_link_local_unicast a ≡ false)

first_usable_ipv4-IsUsable :
    (addrs : List Addr) (a : Addr) → first_usable_ipv4 addrs ≡ ok a → IsUsable a
unfolding first_usable_ipv4
first_usable_ipv4-IsUsable [] a e = cc (e)
first_usable_ipv4-IsUsable (x ∷ addrs) a e = ground (arith, first_usable_ipv4-IsUsable addrs a)

module _ (host : Host) where
  -- The address is bound to an interface of this host.
  abbrev pub IsLocal : Addr → Type 0
  IsLocal a = (local : List Addr) × (local_addresses host ≡ ok local) × (contains local a ≡ true)

  -- None given, so that the protocol's client chooses; an address of this host; or the usable address
  -- of a named interface.
  abbrev pub IsTarget : Addr → Type 0
  IsTarget a =
      (a ≡ invalid)
      ⊎ (IsLocal a ⊎ ((name : String) × (resolve_iface host name ≡ ok a) × IsUsable a))

  resolve_iface-IsUsable : (name : String) (a : Addr) → resolve_iface host name ≡ ok a → IsUsable a
  unfolding resolve_iface
  resolve_iface-IsUsable name a e =
      let (addrs, p, q) =
        >>=-ok (wrap "config: interface" (iface_addresses host name)) first_usable_ipv4 e in
      first_usable_ipv4-IsUsable addrs a q

  all_local-contains :
      (local addrs : List Addr)
      → all_local local addrs ≡ ok tt
      → All (λ a. contains local a ≡ true) addrs
  unfolding all_local
  all_local-contains local [] e = tt
  all_local-contains local (a ∷ addrs) e = elim (Bool-cases (contains local a)) [
    | inl there ↦ (there, all_local-contains local addrs (ground (arith, there, e)))
    | inr gone ↦ absurd (ground (arith, gone, e))
  ]

  All-IsLocal :
      (local addrs : List Addr)
      → local_addresses host ≡ ok local
      → All (λ a. contains local a ≡ true) addrs
      → All IsLocal addrs
  All-IsLocal local [] e p = tt
  All-IsLocal local (a ∷ addrs) e (q, p) = ((local, e, q), All-IsLocal local addrs e p)

  pub check_bound-IsLocal : (addrs : List Addr) → check_bound host addrs ≡ ok tt → All IsLocal addrs
  unfolding check_bound
  check_bound-IsLocal [] e = tt
  check_bound-IsLocal (a ∷ addrs) e =
      let (local, p, q) =
        >>=-ok (wrap "config: list local interface addresses" (local_addresses host)) _ e in
      All-IsLocal local (a ∷ addrs)
        (wrap-ok "config: list local interface addresses" (local_addresses host) p)
        (all_local-contains local (a ∷ addrs) q)

  -- Where an address that neither an address nor an interface gives comes from.
  pub resolve_internal_address-IsTarget :
      (iface : String) (a : Addr) (set : Bool)
      → resolve_internal_address host "" iface ≡ ok (a, set)
      → IsTarget a
  unfolding resolve_internal_address
  resolve_internal_address-IsTarget iface a set e = elim (Bool-cases (iface != "")) [
    | inr none_named ↦ inl (ground (arith, none_named, e))
    | inl named ↦ elim (Result-cases (resolve_iface host iface)) [
      | inl (b, q) ↦
          let same : b ≡ a = ground (arith, named, q, e) in
          inr (inr (iface, q ∙ ap ok same, resolve_iface-IsUsable iface a (q ∙ ap ok same)))
      | inr (x, q) ↦ absurd (ground (arith, named, q, e))
    ]
  ]
