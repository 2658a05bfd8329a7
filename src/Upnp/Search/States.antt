-- ===== src/Upnp/Search/States.antt =====
-- The states in which the methods of internal/portmapper/upnp/upnp.go may end.
use nat_pmp.Common.{
  ◌≡◌, ◌⊎◌, inl, inr, arith, String, List, [], ◌∷◌, Bool-cases, Result-cases, ◌==◌, string_eq,
}
use nat_pmp.Mapping.{Request, validate}
use nat_pmp.Upnp.Soap.{asked_time, ControlTarget, Net, SoapArg, call_soap}
use nat_pmp.Upnp.Device.{Parsers}
use nat_pmp.Upnp.Client.{
  State, on_history, resolve_target, delete_args, add_args, client_addr, external_ip, map, unmap,
}

module _ {U : Type 0} (net : Net) (parsers : Parsers U) where
  -- The state once the target is resolved, and after a SOAP call from there.
  abbrev pub resolved : State → State
  resolved s = (resolve_target net parsers s).1

  abbrev pub called : ControlTarget → String → List SoapArg → State → State
  called t action args s = (on_history (call_soap net t action args) s).1

  pub external_ip-states :
      (s : State)
      → let s' = (external_ip net parsers s).1 in
        (s' ≡ resolved s)
        ⊎ ((t : ControlTarget) × (s' ≡ called t "GetExternalIPAddress" [] (resolved s)))
  unfolding external_ip
  external_ip-states s = elim (Result-cases (resolve_target net parsers s).0) [
    | inr (e, q) ↦ inl (ground (arith, q))
    | inl (t, q) ↦ inr (t, ground (arith, q))
  ]

  pub unmap-states :
      (r : Request) (s : State)
      → let s' = (unmap net parsers r s).1 in
        (s' ≡ s)
        ⊎ (s' ≡ resolved s)
        ⊎ ((t : ControlTarget) × (s' ≡ called t "DeletePortMapping" (delete_args r) (resolved s)))
  unfolding unmap
  unmap-states r s = elim (Result-cases (validate r)) [
    | inr (e, q) ↦ inl (ground (arith, q))
    | inl (u, v) ↦ elim (Result-cases (resolve_target net parsers s).0) [
      | inr (e, q) ↦ inr (inl (ground (arith, v, q)))
      | inl (t, q) ↦ inr (inr (t, ground (arith, v, q)))
    ]
  ]

  -- The state after the request to add a mapping, and after the query of the address behind it.
  abbrev pub added : Request → ControlTarget → State → State
  added r t s = called t "AddPortMapping" (add_args r (client_addr net r (resolved s))) (resolved s)

  abbrev pub queried : Request → ControlTarget → State → State
  queried r t s = (external_ip net parsers (added r t s)).1

  pub map-states :
      (r : Request) (s : State)
      → let s' = (map net parsers r s).1 in
        (s' ≡ s)
        ⊎ (s' ≡ resolved s)
        ⊎ ((t : ControlTarget) × ((s' ≡ added r t s)
              ⊎ (s' ≡ queried r t s)
              ⊎ (s' ≡ record (queried r t s) { history = asked_time ∷ (queried r t s).history })))
  unfolding map
  map-states r s = elim (Result-cases (validate r)) [
    | inr (e, q) ↦ inl (ground (arith, q))
    | inl (u, v) ↦ elim (Result-cases (resolve_target net parsers s).0) [
      | inr (e, q) ↦ inr (inl (ground (arith, v, q)))
      | inl (t, q) ↦
          let addr = client_addr net r (resolved s) in
          elim (Bool-cases (addr == "")) [
            | inl none_set ↦ inr (inl (ground (arith, v, q, none_set)))
            | inr set ↦ inr (inr (t, ground (arith, v, q, set)))
          ]
    ]
  ]
