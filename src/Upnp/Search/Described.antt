-- ===== src/Upnp/Search/Described.antt =====
-- The methods of internal/portmapper/upnp/upnp.go keep a control target only if it has an origin.
use nat_pmp.Common.{
  ℕ, ◌≡◌, ◌∙◌, inl, inr, String, List, [], some, Option-cases, Result-cases, string_eq, ok,
}
use nat_pmp.Addr.{Addr}
use nat_pmp.Mapping.{Request}
use nat_pmp.Portmapper.{Context}
use nat_pmp.Network as Network
use nat_pmp.Upnp.Soap.{History, asked_time, ControlTarget, Net, SoapArg, call_soap}
use nat_pmp.Upnp.Device.{Parsers}
use nat_pmp.Upnp.Search.Fetched.{same, later, call_soap-Before}
use nat_pmp.Upnp.Search.Origin.{net_of, Origin, IsDescribed, Origin-later, search_target-Origin}
use nat_pmp.Upnp.Search.States.{resolved, added, external_ip-states, unmap-states, map-states}
use nat_pmp.Upnp.Client.{
  State, on_history, new, set_internal_client, search_target, resolve_target, delete_args, add_args,
  client_addr, external_ip, map, unmap,
}

module _ {U : Type 0} (parsers : Parsers U) (text : List ℕ → String) (fuel : ℕ)
    (sockets : Context → History → Network.Net) (nets : Context → Net) where
  -- The network that the client sees under a context.
  abbrev pub client_net : Context → Net
  client_net = net_of parsers text fuel sockets nets

  -- The states that the methods of a new client lead to, each method under a context of its own.
  pub data Reaches : State → Type 0 where
    created : (h : History) → Reaches (new h)
    addressed :
        {s : State} (ctx : Context) (a : Addr)
        → Reaches s
        → Reaches (set_internal_client (client_net ctx) a s)
    asked :
        {s : State} (ctx : Context) → Reaches s → Reaches (external_ip (client_net ctx) parsers s).1
    mapped :
        {s : State} (ctx : Context) (r : Request)
        → Reaches s
        → Reaches (map (client_net ctx) parsers r s).1
    unmapped :
        {s : State} (ctx : Context) (r : Request)
        → Reaches s
        → Reaches (unmap (client_net ctx) parsers r s).1

  abbrev Described : State → Type 0
  Described = IsDescribed parsers text fuel sockets nets

  call_soap-Described :
      (ctx : Context) (target : ControlTarget) (action : String) (args : List SoapArg) (s : State)
      → Described s
      → Described (on_history (call_soap (client_net ctx) target action args) s).1
  call_soap-Described ctx target action args s i = record {
    origin = λ t e.
        Origin-later parsers text fuel sockets nets t s.history _
          (call_soap-Before _ target action args s.history) (i.origin t e);
  }

  resolve_target-Described :
      (ctx : Context) (s : State)
      → Described s
      → Described (resolve_target (client_net ctx) parsers s).1
  unfolding resolve_target
  resolve_target-Described ctx s i =
      let net = client_net ctx in
      elim (Option-cases s.target) [
        | inr (t, e) ↦ rw (e, resolve_target) i
        | inl empty_yet ↦ elim (Result-cases (search_target net parsers s.history).0) [
          | inr (x, q) ↦
              rw (empty_yet, q, resolve_target) (record { origin = λ t e. cc (empty_yet, e) })
          | inl (found, q) ↦
              rw (empty_yet, q, resolve_target)
                (record {
                  origin = λ t e.
                      let same_target : ok found ≡ ok t = cc (e) in
                      search_target-Origin parsers text fuel sockets nets ctx s.history t
                        (q ∙ same_target);
                })
        ]
      ]

  external_ip-Described :
      (ctx : Context) (s : State)
      → Described s
      → Described (external_ip (client_net ctx) parsers s).1
  external_ip-Described ctx s i =
      let r = resolve_target-Described ctx s i in
      elim (external_ip-states (client_net ctx) parsers s) [
        | inl q ↦ rw q r
        | inr (t, q) ↦ rw q (
            call_soap-Described ctx t "GetExternalIPAddress" []
              (resolved (client_net ctx) parsers s) r)
      ]

  unmap-Described :
      (ctx : Context) (r : Request) (s : State)
      → Described s
      → Described (unmap (client_net ctx) parsers r s).1
  unmap-Described ctx r s i =
      let d = resolve_target-Described ctx s i in
      elim (unmap-states (client_net ctx) parsers r s) [
        | inl q ↦ rw q i
        | inr (inl q) ↦ rw q d
        | inr (inr (t, q)) ↦ rw q (
            call_soap-Described ctx t "DeletePortMapping" (delete_args r)
              (resolved (client_net ctx) parsers s) d)
      ]

  map-Described :
      (ctx : Context) (r : Request) (s : State)
      → Described s
      → Described (map (client_net ctx) parsers r s).1
  map-Described ctx r s i =
      let d = resolve_target-Described ctx s i in
      elim (map-states (client_net ctx) parsers r s) [
        | inl q ↦ rw q i
        | inr (inl q) ↦ rw q d
        | inr (inr (t, q)) ↦
            let net = client_net ctx in
            let a =
              call_soap-Described ctx t "AddPortMapping"
                (add_args r (client_addr net r (resolved (client_net ctx) parsers s)))
                (resolved (client_net ctx) parsers s) d in
            let b = external_ip-Described ctx (added (client_net ctx) parsers r t s) a in
            elim q [
              | inl e ↦ rw e a
              | inr (inl e) ↦ rw e b
              | inr (inr e) ↦ rw e (record {
                origin = λ t e.
                    Origin-later parsers text fuel sockets nets _ _ _ (later asked_time same)
                      (b.origin _ e);
              })
            ]
      ]

  Reaches-Described : {s : State} → Reaches s → Described s
  unfolding new set_internal_client
  Reaches-Described (created h) = record { origin = λ t e. cc (e) }
  Reaches-Described (addressed ctx a r) = record { origin = (Reaches-Described r).origin }
  Reaches-Described (asked {s} ctx r) = external_ip-Described ctx s (Reaches-Described r)
  Reaches-Described (mapped {s} ctx q r) = map-Described ctx q s (Reaches-Described r)
  Reaches-Described (unmapped {s} ctx q r) = unmap-Described ctx q s (Reaches-Described r)

  -- A control target that the client has cached, after any calls of its methods under any contexts,
  -- was looked up: a search by `discover` received a datagram that names, in its first 2048 bytes,
  -- the location of a description, and returned exactly the locations that its datagrams name; after
  -- the search the client fetched the description from there, with a response of status 200; and
  -- parsing the description gives the target. The search may be given any number of rounds.
  pub Reaches-IsDescribed :
      {s : State} (t : ControlTarget)
      → Reaches s
      → s.target ≡ some t
      → Origin parsers text fuel sockets nets t s.history
  Reaches-IsDescribed t r e = (Reaches-Described r).origin t e
