-- ===== src/Upnp/Search/Origin.antt =====
-- Where the control target comes from that the client of internal/portmapper/upnp/upnp.go caches:
-- the search of ssdp.go, the fetch of a descriptor and its parsing, composed.
use nat_pmp.Common.{
  ℕ, ◌≡◌, refl, sym, ◌∙◌, ap, inl, inr, String, List, [], ◌∷◌, map, none, some, contains, list_eq,
  nat_eq, string_eq, Result-cases, Error, ok, err,
}
use nat_pmp.Portmapper.{Context}
use nat_pmp.Network as Network
use nat_pmp.Upnp.Soap.{History, searched, ControlTarget, Net}
use nat_pmp.Upnp.Device.{Parsers}
use nat_pmp.Upnp.Ssdp.Discover.{Outcome, default_search_timeout, discover}
use nat_pmp.Upnp.Ssdp.Discover.Found.{names, discover-found}
use nat_pmp.Upnp.Search.{texts, with_discover}
use nat_pmp.Upnp.Search.Fetched.{Before, Fetches, Fetches-later, first_target-Fetches}
use nat_pmp.Upnp.Client.{State, first_target, search_target}

texts-ok :
    (text : List ℕ → String) (o : Outcome) (out : List String)
    → texts text o ≡ ok out
    → (locations : List (List ℕ)) × (calls : Network.History) × (o ≡ some (ok locations, calls))
      × (map text locations ≡ out)
unfolding texts
texts-ok text none out q = cc
texts-ok text (some (ok locations, calls)) out q = (locations, calls, refl, cc (q))
texts-ok text (some (err e, calls)) out q = cc

module _ {U : Type 0} (parsers : Parsers U) (text : List ℕ → String) (fuel : ℕ)
    (sockets : Context → History → Network.Net) (nets : Context → Net) where
  -- The network that the client sees under a context.
  abbrev pub net_of : Context → Net
  net_of ctx = with_discover text fuel (sockets ctx) (nets ctx)

  -- A search found the locations that its datagrams named, and the descriptor fetched from one of
  -- them gave the target.
  pub record Origin (t : ControlTarget) (h : History) : Type 0 where
    pub ctx : Context
    pub start : History
    pub locations : List (List ℕ)
    pub calls : Network.History
    pub finds :
        discover (sockets ctx start) fuel default_search_timeout [] ≡ some (ok locations, calls)
    pub fetches : Fetches parsers text (net_of ctx) locations t (searched ∷ start) h
    pub named : (loc : List ℕ) → contains locations loc ≡ names calls loc

  -- The cached target, if there is one, has an origin in the history.
  pub record IsDescribed (s : State) : Type 0 where
    pub origin : (t : ControlTarget) → s.target ≡ some t → Origin t s.history

  pub Origin-later : (t : ControlTarget) (h h' : History) → Before h h' → Origin t h → Origin t h'
  Origin-later t h h' b o = record {
    ctx = o.ctx;
    start = o.start;
    locations = o.locations;
    calls = o.calls;
    finds = o.finds;
    fetches = Fetches-later parsers text (net_of o.ctx) o.locations t _ h h' b o.fetches;
    named = o.named;
  }

  search_target-found :
      (net : Net) (h : History) (out : List String)
      → net.search h ≡ ok out
      → search_target net parsers h ≡ first_target net parsers none out (searched ∷ h)
  unfolding search_target
  search_target-found net h out q = rw (q, search_target) refl

  search_target-refused :
      (net : Net) (h : History) (e : Error)
      → net.search h ≡ err e
      → search_target net parsers h ≡ (err e, searched ∷ h)
  unfolding search_target
  search_target-refused net h e q = rw (q, search_target) refl

  pub search_target-Origin :
      (ctx : Context) (h : History) (t : ControlTarget)
      → (search_target (net_of ctx) parsers h).0 ≡ ok t
      → Origin t (search_target (net_of ctx) parsers h).1
  search_target-Origin ctx h t found = elim (Result-cases ((net_of ctx).search h)) [
    | inr (e, q) ↦ let refused = search_target-refused (net_of ctx) h e q in cc (refused, found)
    | inl (out, q) ↦
        let (locations, calls, finds, same_out) = texts-ok text _ out q in
        let eq = search_target-found (net_of ctx) h out q in
        rw (eq, sym same_out)
          (let f = first_target-Fetches parsers text (net_of ctx) none locations (searched ∷ h) t (
              sym (
                ap (λ z. z.0)
                  (eq
                    ∙ ap (λ o. first_target (net_of ctx) parsers none o (searched ∷ h))
                        (sym same_out)))
              ∙ found) in
            record {
              ctx = ctx;
              start = h;
              locations = locations;
              calls = calls;
              finds = finds;
              fetches = f;
              named =
                  (discover-found (sockets ctx h) fuel default_search_timeout locations calls
                    finds).2;
            })
  ]
