-- ===== src/Upnp/Posts.antt =====
-- What `Map` of internal/portmapper/upnp/upnp.go sends to the gateway, and what the gateway reads.
use Prim.Native.String.{◌++◌ as ◌<>◌}
use nat_pmp.Common.{
  ◌∙◌, ◌≤◌, ◌<◌, ◌^◌, ℕ, ◌*◌, ◌/◌, Option, ◌==◌, if◌then◌else◌, list_eq, ap, value_or, ◌≡◌, ◌≢◌,
  ◌⊎◌, refl, arith, String, List, [], ◌∷◌, map as map_list, none, some, All, length, nat_eq,
  string_eq, ok,
}
use nat_pmp.Common.Text.{codes, parse_uint}
use nat_pmp.Common.Text.Decimal.{decimal, IsDigit, AreDigits-decimal, parse_uint-decimal}
use nat_pmp.Common.Dict.{lookup}
use nat_pmp.Common.Int.{is_nonpositive, nanoseconds, second}
use nat_pmp.Mapping.{Request, tcp, validate, valid, lifetime_or}
use nat_pmp.Mapping.Validity.{validate_iff}
use nat_pmp.Upnp.Xml.{in_character_range}
use nat_pmp.Upnp.Soap.{
  Event, posted, asked_time, ControlTarget, Net, SoapArg, build_envelope, call_soap,
}
use nat_pmp.Upnp.Device.{Parsers}
use nat_pmp.Upnp.Client.{
  State, external_ip, map, add_args, client_addr, protocol_string, default_lease,
}
use nat_pmp.Upnp.Targets.{resolve_target-cached}
use nat_pmp.Upnp.Envelope.{
  IsName, strip, read_elements, header, footer, as_read, build_envelope-arguments,
}
use nat_pmp.Upnp.Xml.Reader.{clean}

-- An action of a target, as it is posted.
abbrev pub post_of : ControlTarget → String → List SoapArg → Event
post_of t action args =
    posted t.url ("\"" <> t.service_type <> "#" <> action <> "\"")
      (build_envelope t.service_type action args)

-- What a reader of XML finds in the body of the action: elements, between the header and the footer.
abbrev pub Carries : ControlTarget → String → List SoapArg → List (List ℕ × List ℕ) → Type 0
Carries t action args elements =
    (s : List ℕ) × (strip (codes (header t.service_type action))
        (codes (build_envelope t.service_type action args))
      ≡ some s)
    × (read_elements (length elements) s ≡ some (elements, codes (footer action)))

-- A value as it is read.
abbrev pub text : String → Option (List ℕ)
text value = some (map_list clean (codes value))

-- An element that is read as a number of at most `max`.
abbrev pub Number : String → ℕ → ℕ → List (List ℕ × List ℕ) → Type 0
Number name max n elements =
    (v : List ℕ) × (lookup (codes name) elements ≡ some v) × (parse_uint v 10 max ≡ ok n)

-- The elements that ask for the mapping of a request to the address of a client.
pub record Adds (r : Request) (client : String) (elements : List (List ℕ × List ℕ)) : Type 0 where
  pub count : length elements ≡ 8
  pub remote_host : lookup (codes "NewRemoteHost") elements ≡ text ""
  pub external_port :
      Number "NewExternalPort" 65_535
        (if r.external_port == 0 then r.internal_port else r.external_port)
        elements
  pub protocol :
      lookup (codes "NewProtocol") elements ≡ text (if r.protocol == tcp then "TCP" else "UDP")
  pub internal_port : Number "NewInternalPort" 65_535 r.internal_port elements
  pub internal_client : lookup (codes "NewInternalClient") elements ≡ text client
  pub enabled : lookup (codes "NewEnabled") elements ≡ text "1"
  pub description : lookup (codes "NewPortMappingDescription") elements ≡ text r.description
  pub lease :
      Number "NewLeaseDuration" 4_294_967_295
        ((if is_nonpositive r.lease then 3600 * second else nanoseconds r.lease) / second)
        elements

clean-digit : (c : ℕ) → IsDigit c → clean c ≡ c
unfolding in_character_range
clean-digit c h = ground arith

clean-digits : (s : List ℕ) → All IsDigit s → map_list clean s ≡ s
clean-digits [] h = refl
clean-digits (c ∷ s) (h, hs) =
    ap (λ d. d ∷ map_list clean s) (clean-digit c h) ∙ ap (λ t. c ∷ t) (clean-digits s hs)

-- A number that was written is read.
Number-decimal :
    (name : String) (max n : ℕ) (elements : List (List ℕ × List ℕ))
    → lookup (codes name) elements ≡ text (decimal n)
    → n ≤ max
    → max < 10 ^ 20
    → Number name max n elements
Number-decimal name max n elements e le small = (
  codes (decimal n),
  e ∙ ap some (clean-digits (codes (decimal n)) (AreDigits-decimal n)),
  parse_uint-decimal max n le (omega arith),
)

module _ (net : Net) {U : Type 0} (parsers : Parsers U) where
  add_args-names :
      (r : Request) (client : String) → All (λ arg. IsName (codes arg.name)) (add_args r client)
  add_args-names r client = ground arith

  call_soap-posted :
      (t : ControlTarget) (action : String) (args : List SoapArg) (h : List Event)
      → net.request_error t.url ≡ none
      → (call_soap net t action args h).1 ≡ post_of t action args ∷ h
  unfolding call_soap
  call_soap-posted t action args h good = ground (arith, good)

  external_ip-posts :
      (t : ControlTarget) (s : State)
      → s.target ≡ some t
      → net.request_error t.url ≡ none
      → (external_ip net parsers s).1
        ≡ record s { history = post_of t "GetExternalIPAddress" [] ∷ s.history }
  unfolding external_ip
  external_ip-posts t s cached good = ground (
    arith,
    resolve_target-cached net parsers t s cached,
    call_soap-posted t "GetExternalIPAddress" [] s.history good,
  )

  -- The protocol of a valid request.
  wire_protocol :
      (r : Request)
      → validate r ≡ ok tt
      → value_or "" (protocol_string r.protocol) ≡ (if r.protocol == tcp then "TCP" else "UDP")
  unfolding validate valid protocol_string
  wire_protocol r e = ground arith

  lease_nanoseconds :
      (r : Request)
      → nanoseconds (lifetime_or default_lease r)
        ≡ (if is_nonpositive r.lease then 3600 * second else nanoseconds r.lease)
  unfolding lifetime_or
  lease_nanoseconds r = ground arith

  lease_seconds :
      (r : Request)
      → validate r ≡ ok tt
      → (if is_nonpositive r.lease then 3600 * second else nanoseconds r.lease) / second
        ≤ 4_294_967_295
  lease_seconds r valid = ground (arith, (validate_iff r).0 valid)

  add_args-Adds :
      (r : Request) (client : String)
      → validate r ≡ ok tt
      → r.internal_port < 2 ^ 16
      → r.external_port < 2 ^ 16
      → Adds r client (map_list as_read (add_args r client))
  unfolding lookup list_eq nat_eq
  add_args-Adds r client valid hi he =
      let elements = map_list as_read (add_args r client) in
      record {
        count = refl;
        remote_host = refl;
        external_port =
            Number-decimal "NewExternalPort" _ _ elements refl (ground arith) (omega arith);
        protocol = ap text (wire_protocol r valid);
        internal_port =
            Number-decimal "NewInternalPort" _ _ elements refl (omega arith) (omega arith);
        internal_client = refl;
        enabled = refl;
        description = refl;
        lease =
            Number-decimal "NewLeaseDuration" _ _ elements
              (ap (λ n. text (decimal (n / second))) (lease_nanoseconds r)) (lease_seconds r valid)
              (omega arith);
      }

  -- For a valid request with ports of 16 bits, a cached target whose URL is good, and a client
  -- address, `Map` posts the addition of the mapping. A reader of XML and of decimal numbers finds
  -- eight elements in its body, with an empty remote host, the external port asked for, or else the
  -- internal one, the protocol, the internal port, the client address, that it is enabled, the
  -- description, and the lease in seconds, an hour if none is asked for; a character that XML does not
  -- have is replaced. Then perhaps it posts the query of the external address, and perhaps it reads
  -- the clock. It makes no other call, whatever the gateway answers.
  pub map-Posts :
      (r : Request) (t : ControlTarget) (s : State)
      → validate r ≡ ok tt
      → r.internal_port < 2 ^ 16
      → r.external_port < 2 ^ 16
      → s.target ≡ some t
      → net.request_error t.url ≡ none
      → client_addr net r s ≢ ""
      → let args = add_args r (client_addr net r s) in
        let h1 = post_of t "AddPortMapping" args ∷ s.history in
        let h2 = post_of t "GetExternalIPAddress" [] ∷ h1 in
        let h' = (map net parsers r s).1.history in
        (elements : List (List ℕ × List ℕ)) × Carries t "AddPortMapping" args elements
        × Adds r (client_addr net r s) elements
        × ((h' ≡ h1) ⊎ ((h' ≡ h2) ⊎ (h' ≡ asked_time ∷ h2)))
  unfolding map
  map-Posts r t s valid hi he cached good client =
      let args = add_args r (client_addr net r s) in
      let h1 = post_of t "AddPortMapping" args ∷ s.history in
      (
        map_list as_read args,
        build_envelope-arguments t.service_type "AddPortMapping" args
            (add_args-names r (client_addr net r s)),
        add_args-Adds r (client_addr net r s) valid hi he,
        ground (
          arith,
          resolve_target-cached net parsers t s cached,
          call_soap-posted t "AddPortMapping" args s.history good,
          external_ip-posts t (record s { history = h1 }) cached good,
        ),
      )
