-- ===== src/Upnp/Leases.antt =====
-- The leases that UPnP's `Map` returns, and what `Unmap` deletes.
use Prim.Native.String.{◌++◌ as ◌<>◌}
use nat_pmp.Common.{
  ◌≡◌, ◌≢◌, ◌↔◌, ◌⊎◌, refl, arith, String, true, false, ◌∷◌, ◌==◌, ◌!=◌, take, none, some, Result,
  ok, err, is_ok, string_eq, nat_eq, Result-cases, inl, inr, Bool-cases,
}
use nat_pmp.Common.Int.{pos, is_nonpositive}
use nat_pmp.Mapping.{Request, Lease, validate, lifetime_or}
use nat_pmp.Mapping.Validity.{validate_iff}
use nat_pmp.Portmapper.{Fits}
use nat_pmp.Daemon.State.{release_request}
use nat_pmp.Upnp.Soap.{
  posted, ControlTarget, Net, Response, SoapFault, build_envelope, call_soap, soap_result,
  parse_fault, fault_error,
}
use nat_pmp.Upnp.Device.{Parsers}
use nat_pmp.Upnp.Client.{State, default_lease, external_port_of, add_args, delete_args, map, unmap}
use nat_pmp.Upnp.Targets.{resolve_target-cached}

validated-port : (r : Request) → validate r ≡ ok tt → r.internal_port ≢ 0
validated-port r h = ((validate_iff r).0 h).has_port

lifetime_or-positive : (r : Request) → is_nonpositive (lifetime_or default_lease r) ≡ false
unfolding lifetime_or
lifetime_or-positive r = ground arith

module _ (net : Net) {U : Type 0} (parsers : Parsers U) where
  map-lease :
      (r : Request) (s s' : State) (l : Lease)
      → map net parsers r s ≡ (ok l, s')
      → (validate r ≡ ok tt)
        × (l.protocol ≡ r.protocol)
        × (l.internal_port ≡ r.internal_port)
        × (l.external_port ≡ external_port_of r)
        × (l.lifetime ≡ lifetime_or default_lease r)
  unfolding map
  map-lease r s s' l e = ground arith

  -- A lease that UPnP's `Map` returns is for the request's protocol and internal port, has an
  -- external port, also when the request leaves that open, and lasts.
  pub map-Fits_upnp :
      (r : Request) (s s' : State) (l : Lease) → map net parsers r s ≡ (ok l, s') → Fits r l
  map-Fits_upnp r s s' l e =
      let (valid, proto, internal, external, lifetime) = map-lease r s s' l e in
      record {
        protocol = proto;
        internal_port = internal;
        external_port = ground (arith, validated-port r valid);
        lifetime = rw lifetime (lifetime_or-positive r);
      }

  -- The request that the daemon passes to `Unmap` for a lease that `Map` has returned is valid, and
  -- the mapping that it deletes is the one that was added: the same remote host, external port and
  -- protocol, whatever the client's address then was.
  pub delete_args-release_request :
      (r : Request) (s s' : State) (l : Lease) (internal_client : String)
      → map net parsers r s ≡ (ok l, s')
      → (validate (release_request r l) ≡ ok tt)
        × (delete_args (release_request r l) ≡ take 3 (add_args r internal_client))
  unfolding validate
  delete_args-release_request r s s' l c e =
      let (valid, proto, internal, external, lifetime) = map-lease r s s' l e in
      let same : external_port_of (release_request r l) ≡ external_port_of r =
        ground (arith, validated-port r valid) in
      let proto_same : (release_request r l).protocol ≡ r.protocol = ground arith in
      (
        elim (Bool-cases (l.external_port != 0)) [ inl y ↦ rw y valid | inr n ↦ rw n valid ],
        rw (same, proto_same) refl,
      )

  -- A response that `Unmap` takes as success: it can be read, and it is a good one, or a fault that
  -- says that there is no such entry.
  abbrev pub Deletes : Response → Type 0
  Deletes resp =
      (body : String) × (resp.body ≡ ok body)
      × ((resp.status ≡ 200)
          ⊎ ((f : SoapFault) × (parse_fault net body ≡ ok f) × (f.code ≡ pos 714)))

  fault_error-delete :
      (f : SoapFault) → (fault_error "DeletePortMapping" f ≡ ok tt) ↔ (f.code ≡ pos 714)
  unfolding fault_error string_eq nat_eq
  fault_error-delete f = (λ h. ground arith, λ h. rw (h, fault_error) refl)

  Result-unit : (r : Result (Unit {0})) → is_ok r ≡ true → r ≡ ok tt
  Result-unit (ok u) h = refl
  Result-unit (err e) h = cc

  soap_result→Deletes :
      (resp : Response) → is_ok (soap_result net "DeletePortMapping" resp) ≡ true → Deletes resp
  unfolding soap_result
  soap_result→Deletes resp h = elim (Result-cases resp.body) [
    | inr (x, e) ↦ absurd (ground arith)
    | inl (body, e) ↦ elim (Bool-cases (resp.status == 200)) [
      | inl good ↦ (body, e, inl (ground arith))
      | inr bad ↦ elim (Result-cases (parse_fault net body)) [
        | inl (f, p) ↦
            (body, e, inr (f, p, (fault_error-delete f).0 (Result-unit _ (ground arith))))
        | inr (x, p) ↦ absurd (ground arith)
      ]
    ]
  ]

  Deletes→soap_result :
      (resp : Response) → Deletes resp → is_ok (soap_result net "DeletePortMapping" resp) ≡ true
  unfolding soap_result
  Deletes→soap_result resp (body, e, inl good) = ground arith
  Deletes→soap_result resp (body, e, inr (f, p, code)) =
      let gone = (fault_error-delete f).1 code in ground arith

  -- For a valid request and a cached target whose URL is good, `Unmap` makes exactly one call, the
  -- deletion of the request's external port and protocol, and it succeeds exactly if the gateway's
  -- response can be read and is a good one or the fault that there is no such entry.
  pub unmap_iff :
      (r : Request) (t : ControlTarget) (s : State)
      → validate r ≡ ok tt
      → s.target ≡ some t
      → net.request_error t.url ≡ none
      → let soap_action : String = "\"" <> t.service_type <> "#" <> "DeletePortMapping" <> "\"" in
        let body = build_envelope t.service_type "DeletePortMapping" (delete_args r) in
        ((unmap net parsers r s).1.history ≡ posted t.url soap_action body ∷ s.history)
        × (((unmap net parsers r s).0 ≡ ok tt) ↔ (
            (resp : Response) × (net.post s.history t.url soap_action body ≡ ok resp)
            × Deletes resp))
  unfolding unmap call_soap
  unmap_iff r t s valid cached good =
      let soap_action : String = "\"" <> t.service_type <> "#" <> "DeletePortMapping" <> "\"" in
      let body : String = build_envelope t.service_type "DeletePortMapping" (delete_args r) in
      (
        ground (arith, resolve_target-cached net parsers t s),
        (
          λ h. elim (Result-cases (net.post s.history t.url soap_action body)) [
            | inl (resp, p) ↦ (
              resp,
              p,
              soap_result→Deletes resp (ground (arith, resolve_target-cached net parsers t s)),
            )
            | inr (x, p) ↦ absurd (ground (arith, resolve_target-cached net parsers t s))
          ],
          λ h. ground (arith, resolve_target-cached net parsers t s, Deletes→soap_result h.0),
        ),
      )
