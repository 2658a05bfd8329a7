-- ===== src/Upnp/Targets.antt =====
-- The control target, once it is resolved, and what the methods do with it.
use nat_pmp.Common.{
  ℕ, suc, ◌≡◌, refl, arith, String, List, [], ◌∷◌, some, ok, string_eq, nat_eq, Option-cases, inl,
  inr,
}
use nat_pmp.Mapping.{Request}
use nat_pmp.Upnp.Soap.{History, searched, fetched, ControlTarget, Net, SoapArg, call_soap}
use nat_pmp.Upnp.Device.{Parsers}
use nat_pmp.Upnp.Client.{
  State, resolve_target, external_ip, map, unmap, delete_args, add_args, client_addr,
}

-- The searches and the fetches of descriptors that were made.
abbrev pub lookups : History → ℕ
lookups [] = 0
lookups (searched ∷ h) = suc (lookups h)
lookups (fetched url ∷ h) = suc (lookups h)
lookups (_ ∷ h) = lookups h

-- The target is still cached, and nothing was looked up.
pub record Keeps (t : ControlTarget) (s s' : State) : Type 0 where
  pub target : s'.target ≡ some t
  pub lookups_same : lookups s'.history ≡ lookups s.history

module _ (net : Net) where
  call_soap-lookups :
      (t : ControlTarget) (action : String) (args : List SoapArg) (h : History)
      → lookups (call_soap net t action args h).1 ≡ lookups h
  unfolding call_soap
  call_soap-lookups t action args h = elim (Option-cases (net.request_error t.url)) [
    | inl e ↦ rw (e, call_soap) refl
    | inr (x, e) ↦ rw (e, call_soap) refl
  ]

  module _ {U : Type 0} (parsers : Parsers U) where
    pub resolve_target-cached :
        (t : ControlTarget) (s : State)
        → s.target ≡ some t
        → resolve_target net parsers s ≡ (ok t, s)
    unfolding resolve_target
    resolve_target-cached t s e = rw e refl

    external_ip-Keeps :
        (t : ControlTarget) (s : State)
        → s.target ≡ some t
        → Keeps t s (external_ip net parsers s).1
    unfolding external_ip
    external_ip-Keeps t s e =
        ground (
          arith,
          resolve_target-cached t s,
          call_soap-lookups t "GetExternalIPAddress" [] s.history,
        )

    unmap-Keeps :
        (r : Request) (t : ControlTarget) (s : State)
        → s.target ≡ some t
        → Keeps t s (unmap net parsers r s).1
    unfolding unmap
    unmap-Keeps r t s e = ground (
      arith,
      resolve_target-cached t s,
      call_soap-lookups t "DeletePortMapping" (delete_args r) s.history,
    )

    -- The state after the request to add a mapping.
    abbrev added : Request → ControlTarget → State → State
    added r t s = record s {
      history = (call_soap net t "AddPortMapping" (add_args r (client_addr net r s)) s.history).1;
    }

    map-Keeps :
        (r : Request) (t : ControlTarget) (s : State)
        → s.target ≡ some t
        → Keeps t s (map net parsers r s).1
    unfolding map
    map-Keeps r t s e =
        let k = external_ip-Keeps t (added r t s) e in
        ground (
          arith,
          resolve_target-cached t s,
          call_soap-lookups t "AddPortMapping" (add_args r (client_addr net r s)) s.history,
          k.target,
          k.lookups_same,
        )

    -- Once the control target is cached, no method looks it up again or changes it, whatever the
    -- gateway answers: no search is sent and no descriptor is fetched.
    pub methods-Keeps :
        (r : Request) (t : ControlTarget) (s : State)
        → s.target ≡ some t
        → Keeps t s (external_ip net parsers s).1
          × Keeps t s (map net parsers r s).1
          × Keeps t s (unmap net parsers r s).1
    methods-Keeps r t s e = (external_ip-Keeps t s e, map-Keeps r t s e, unmap-Keeps r t s e)
