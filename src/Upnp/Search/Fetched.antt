-- ===== src/Upnp/Search/Fetched.antt =====
-- What the loop over the search results of internal/portmapper/upnp/upnp.go fetches before it finds the
-- control target, and the history that its calls leave.
use nat_pmp.Common.{
  ℕ, ◌≡◌, ◌⊎◌, refl, sym, ◌∙◌, ap, inl, inr, true, String, List, [], ◌∷◌, map, Option, none, some,
  contains, list_eq, nat_eq, arith, Option-cases, Result-cases, Error, ok,
}
use nat_pmp.Upnp.Soap.{Event, History, fetched, ControlTarget, Net, SoapArg, call_soap}
use nat_pmp.Upnp.Device.{Parsers, parse_control_target}
use nat_pmp.Upnp.Client.{fetch_http, first_target}

-- The one history is the other, or what it was some calls ago.
pub data Before (h : History) : History → Type 0 where
  same : Before h h
  later : {h' : History} (e : Event) → Before h h' → Before h (e ∷ h')

pub Before-trans : {h h1 h2 : History} → Before h h1 → Before h1 h2 → Before h h2
Before-trans p same = p
Before-trans p (later e q) = later e (Before-trans p q)

module _ (net : Net) where
  fetch_http-Before : (url : String) (h : History) → Before h (fetch_http net url h).1
  unfolding fetch_http
  fetch_http-Before url h = elim (Option-cases (net.request_error url)) [
    | inl e ↦ rw (e, fetch_http) (later _ same)
    | inr (x, e) ↦ rw (e, fetch_http) same
  ]

  -- A descriptor comes from a response of status 200, and the fetch is remembered.
  fetch_http-ok :
      (url descriptor : String) (h : History)
      → (fetch_http net url h).0 ≡ ok descriptor
      → (net.get h url ≡ ok (record { status = 200; body = ok descriptor }))
        × ((fetch_http net url h).1 ≡ fetched url ∷ h)
  unfolding fetch_http
  fetch_http-ok url descriptor h e = ground arith

  pub call_soap-Before :
      (t : ControlTarget) (action : String) (args : List SoapArg) (h : History)
      → Before h (call_soap net t action args h).1
  unfolding call_soap
  call_soap-Before t action args h = elim (Option-cases (net.request_error t.url)) [
    | inl e ↦ rw (e, call_soap) (later _ same)
    | inr (x, e) ↦ rw (e, call_soap) same
  ]

module _ {U : Type 0} (parsers : Parsers U) (text : List ℕ → String) where
  -- One of the locations gave the target, by a descriptor fetched between the two histories.
  pub record Fetches (net : Net) (locations : List (List ℕ)) (t : ControlTarget) (h h' : History)
      : Type 0 where
    pub location : List ℕ
    pub listed : contains locations location ≡ true
    pub before : History
    pub descriptor : String
    pub response :
        net.get before (text location) ≡ ok (record { status = 200; body = ok descriptor })
    pub describes : parse_control_target parsers descriptor (text location) ≡ ok t
    pub since : Before h before
    pub until : Before (fetched (text location) ∷ before) h'

  module _ (net : Net) where
    pub Fetches-later :
        (locations : List (List ℕ)) (t : ControlTarget) (h h1 h' : History)
        → Before h1 h'
        → Fetches net locations t h h1
        → Fetches net locations t h h'
    Fetches-later locations t h h1 h' b f = record {
      location = f.location;
      listed = f.listed;
      before = f.before;
      descriptor = f.descriptor;
      response = f.response;
      describes = f.describes;
      since = f.since;
      until = Before-trans f.until b;
    }

    Fetches-cons :
        (new : List ℕ) (locations : List (List ℕ)) (t : ControlTarget) (h h1 h' : History)
        → Before h h1
        → Fetches net locations t h1 h'
        → Fetches net (new ∷ locations) t h h'
    Fetches-cons new locations t h h1 h' b f = record {
      location = f.location;
      listed = ground (arith, f.listed);
      before = f.before;
      descriptor = f.descriptor;
      response = f.response;
      describes = f.describes;
      since = Before-trans b f.since;
      until = f.until;
    }

    first_target-hit :
        (last : Option Error) (location d : String) (locations : List String) (h : History)
        (t : ControlTarget)
        → (fetch_http net location h).0 ≡ ok d
        → parse_control_target parsers d location ≡ ok t
        → first_target net parsers last (location ∷ locations) h
          ≡ (ok t, (fetch_http net location h).1)
    unfolding first_target
    first_target-hit last location d locations h t q p = rw (q, p, first_target) refl

    first_target-cases :
        (last : Option Error) (location : String) (locations : List String) (h : History)
        → ((d : String) × (t : ControlTarget) × ((fetch_http net location h).0 ≡ ok d)
            × (parse_control_target parsers d location ≡ ok t))
          ⊎ ((e : Error) × (first_target net parsers last (location ∷ locations) h
                ≡ first_target net parsers (some e) locations (fetch_http net location h).1))
    unfolding first_target
    first_target-cases last location locations h =
        elim (Result-cases (fetch_http net location h).0) [
          | inr (e, q) ↦ inr (e, rw (q, first_target) refl)
          | inl (d, q) ↦ elim (Result-cases (parse_control_target parsers d location)) [
            | inl (t, p) ↦ inl (d, t, q, p)
            | inr (e, p) ↦ inr (e, rw (q, p, first_target) refl)
          ]
        ]

    pub first_target-Before :
        (last : Option Error) (locations : List String) (h : History)
        → Before h (first_target net parsers last locations h).1
    unfolding first_target
    first_target-Before (some e) [] h = same
    first_target-Before none [] h = same
    first_target-Before last (location ∷ locations) h =
        let b = fetch_http-Before net location h in
        elim (first_target-cases last location locations h) [
          | inl (d, t, q, p) ↦ rw (first_target-hit last location d locations h t q p) b
          | inr (e, q) ↦ rw q (
              Before-trans b (first_target-Before (some e) locations (fetch_http net location h).1))
        ]

    pub first_target-Fetches :
        (last : Option Error) (locations : List (List ℕ)) (h : History) (t : ControlTarget)
        → (first_target net parsers last (map text locations) h).0 ≡ ok t
        → Fetches net locations t h (first_target net parsers last (map text locations) h).1
    unfolding first_target
    first_target-Fetches (some e) [] h t found = cc
    first_target-Fetches none [] h t found = cc
    first_target-Fetches last (location ∷ locations) h t found =
        let rest = map text locations in
        elim (first_target-cases last (text location) rest h) [
          | inl (d, t', q, p) ↦
              let hit = first_target-hit last (text location) d rest h t' q p in
              let (got, remembered) = fetch_http-ok net (text location) d h q in
              record {
                location = location;
                listed = ground arith;
                before = h;
                descriptor = d;
                response = got;
                describes = p ∙ sym (ap (λ z. z.0) hit) ∙ found;
                since = same;
                until = rw (hit, remembered) same;
              }
          | inr (e, q) ↦
              let h1 = (fetch_http net (text location) h).1 in
              rw q (
                Fetches-cons location locations t h h1 _ (fetch_http-Before net (text location) h)
                  (first_target-Fetches (some e) locations h1 t (sym (ap (λ z. z.0) q) ∙ found)))
        ]
