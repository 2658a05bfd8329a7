-- ===== src/Upnp/Preference.antt =====
-- Which service `parseControlTarget` of internal/portmapper/upnp/device.go selects.
use nat_pmp.Common.{
  ◌≡◌, refl, sym, ◌∙◌, ap, arith, String, true, false, List, [], ◌∷◌, ◌++◌, none, some, All, inl,
  inr, Bool-cases, Option-cases, ok, >>=-ok, wrap, wrap-ok,
}
use nat_pmp.Upnp.Soap.{ControlTarget}
use nat_pmp.Upnp.Device.{
  wan_service_types, Service, Device, device, Devices, no_devices, and_device, Descriptor, Parsers,
  find_in_services, find_service, find_in_devices, resolve_url, descriptor_base, select_service,
  parse_control_target,
}

-- The services of the device tree: a device's own before those of its children, in the document's
-- order.
mutual
  pub services_of : Device → List Service
  services_of (device kind services children) = services ++ services_of_all children

  services_of_all : Devices → List Service
  services_of_all no_devices = []
  services_of_all (and_device d rest) = services_of d ++ services_of_all rest

module _ {U : Type 0} (parsers : Parsers U) where
  -- No service of the list has the type.
  abbrev pub Lacks : List Service → String → Type 0
  Lacks services want = All (λ svc. parsers.equal_fold svc.service_type want ≡ false) services

  -- The first service of the list that has the type.
  pub record IsFirst (services : List Service) (want : String) (svc : Service) : Type 0 where
    pub before : List Service
    pub after : List Service
    pub splits : services ≡ before ++ (svc ∷ after)
    pub matches : parsers.equal_fold svc.service_type want ≡ true
    pub earlier : Lacks before want

  find_in_services-append :
      (xs ys : List Service) (want : String)
      → find_in_services parsers (xs ++ ys) want ≡ elim (find_in_services parsers xs want) [
        | some svc ↦ some svc
        | none ↦ find_in_services parsers ys want
      ]
  unfolding find_in_services
  find_in_services-append [] ys want = refl
  find_in_services-append (x ∷ xs) ys want = ground (arith, find_in_services-append xs ys want)

  mutual
    unfolding find_service find_in_devices find_in_services services_of services_of_all

    find_service-flat :
        (d : Device) (want : String)
        → find_service parsers d want ≡ find_in_services parsers (services_of d) want
    find_service-flat (device kind services children) want = ground (
      arith,
      find_in_services-append services (services_of_all children) want,
      find_in_devices-flat children want,
    )

    find_in_devices-flat :
        (ds : Devices) (want : String)
        → find_in_devices parsers ds want ≡ find_in_services parsers (services_of_all ds) want
    find_in_devices-flat no_devices want = refl
    find_in_devices-flat (and_device d rest) want = ground (
      arith,
      find_in_services-append (services_of d) (services_of_all rest) want,
      find_service-flat d want,
      find_in_devices-flat rest want,
    )

  find_in_services-IsFirst :
      (services : List Service) (want : String) (svc : Service)
      → find_in_services parsers services want ≡ some svc
      → IsFirst services want svc
  unfolding find_in_services
  find_in_services-IsFirst [] want svc e = cc (e)
  find_in_services-IsFirst (x ∷ rest) want svc e =
      elim (Bool-cases (parsers.equal_fold x.service_type want)) [
        | inl yes_match ↦
            let same : x ≡ svc = ground (arith, yes_match, e) in
            record {
              before = [];
              after = rest;
              splits = rw same refl;
              matches = rw (sym same) yes_match;
              earlier = tt;
            }
        | inr other ↦
            let i = find_in_services-IsFirst rest want svc (ground (arith, other, e)) in
            record {
              before = x ∷ i.before;
              after = i.after;
              splits = ap (λ l. x ∷ l) i.splits;
              matches = i.matches;
              earlier = (other, i.earlier);
            }
      ]

  find_in_services-Lacks :
      (services : List Service) (want : String)
      → find_in_services parsers services want ≡ none
      → Lacks services want
  unfolding find_in_services
  find_in_services-Lacks [] want e = tt
  find_in_services-Lacks (x ∷ rest) want e =
      elim (Bool-cases (parsers.equal_fold x.service_type want)) [
        | inl yes_match ↦ absurd (ground (arith, yes_match, e))
        | inr other ↦ (other, find_in_services-Lacks rest want (ground (arith, other, e)))
      ]

  -- The target is the first service of the most preferred type that is there.
  pub record IsPreferred (base : U) (services : List Service) (wants : List String)
      (t : ControlTarget) : Type 0 where
    pub want : String
    pub better : List String
    pub worse : List String
    pub order : wants ≡ better ++ (want ∷ worse)
    pub none_better : All (Lacks services) better
    pub service : Service
    pub first : IsFirst services want service
    pub url : resolve_url parsers base service.control_url ≡ ok t.url
    pub service_type : t.service_type ≡ service.service_type

  select_service-IsPreferred :
      (base : U) (root : Device) (wants : List String) (t : ControlTarget)
      → select_service parsers base root wants ≡ ok t
      → IsPreferred base (services_of root) wants t
  unfolding select_service
  select_service-IsPreferred base root [] t e = cc (e)
  select_service-IsPreferred base root (want ∷ wants) t e =
      elim (Option-cases (find_service parsers root want)) [
        | inl absent ↦
            let p = select_service-IsPreferred base root wants t (ground (arith, absent, e)) in
            let lacks =
              find_in_services-Lacks (services_of root) want
                (sym (find_service-flat root want) ∙ absent) in
            record {
              want = p.want;
              better = want ∷ p.better;
              worse = p.worse;
              order = ap (λ l. want ∷ l) p.order;
              none_better = (lacks, p.none_better);
              service = p.service;
              first = p.first;
              url = p.url;
              service_type = p.service_type;
            }
        | inr (svc, there) ↦
            let resolved : resolve_url parsers base svc.control_url ≡ ok t.url =
              ground (arith, there, e) in
            record {
              want = want;
              better = [];
              worse = wants;
              order = refl;
              none_better = tt;
              service = svc;
              first =
                  find_in_services-IsFirst (services_of root) want svc
                    (sym (find_service-flat root want) ∙ there);
              url = resolved;
              service_type = ground (arith, there, e);
            }
      ]

  -- The control target of a description is the first service, in the document's order of the device
  -- tree, of the most preferred WAN type that any device of the tree has: none of the types before it
  -- occurs. Its control URL is resolved against the base of the description, and its service type is
  -- spelt as the description spells it.
  pub parse_control_target-IsPreferred :
      (text location : String) (t : ControlTarget)
      → parse_control_target parsers text location ≡ ok t
      → (description : Descriptor) × (base : U) × (parsers.unmarshal text ≡ ok description)
        × (descriptor_base parsers location description.url_base ≡ ok base)
        × IsPreferred base (services_of description.root) wan_service_types t
  unfolding parse_control_target
  parse_control_target-IsPreferred text location t e =
      let (d, p, e1) = >>=-ok (wrap "upnp: parse descriptor" (parsers.unmarshal text)) _ e in
      let (base, q, e2) = >>=-ok (descriptor_base parsers location d.url_base) _ e1 in
      (
        d,
        base,
        wrap-ok "upnp: parse descriptor" (parsers.unmarshal text) p,
        q,
        select_service-IsPreferred base d.root wan_service_types t e2,
      )
