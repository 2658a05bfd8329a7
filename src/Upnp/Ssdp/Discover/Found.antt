-- ===== src/Upnp/Ssdp/Discover/Found.antt =====
-- What the search of internal/portmapper/upnp/ssdp.go finds, and that it ends.
use nat_pmp.Common.{
  ◌⊎◌, inl, inr, subst, ℕ, zero, suc, ◌≡◌, ◌≢◌, refl, sym, ◌∙◌, arith, Bool, false, ◌&&◌, ◌||◌,
  List, [], ◌∷◌, none, some, length, take, contains, ◌==◌, ◌!=◌, list_eq, nat_eq, Error, ok, err,
  Result-cases, Option-cases, Bool-cases,
}
use nat_pmp.Addr.{AddrPort, v4}
use nat_pmp.Network.{
  Net, History, Read, datagram, timed_out, read_error, checked, wrote, asked_time, set_deadline,
  received, closed,
}
use nat_pmp.Upnp.Ssdp.{or_results, location_of, next_results}
use nat_pmp.Upnp.Ssdp.Collected.{
  AreDistinct, contains-snoc, or_results-ok, next_results-AreDistinct,
}
use nat_pmp.Upnp.Ssdp.Discover.{
  buffer_len, ssdp_multicast, build_search_request, Outcome, closing, collect, search_deadline,
  discover_with_conn, discover,
}

-- Whether the calls received a datagram that names the location.
abbrev pub names : History → List ℕ → Bool
names [] loc = false
names (received (datagram d from) ∷ h) loc =
    (loc != [] && location_of (take buffer_len d) == loc) || names h loc
names (_ ∷ h) loc = names h loc

next_results-names :
    (results : List (List ℕ)) (new loc : List ℕ)
    → contains (next_results results new) loc ≡ ((loc != [] && new == loc) || contains results loc)
next_results-names results new loc = ground (arith, contains-snoc results new loc)

-- The results are the locations of the datagrams so far, each once.
pub record IsCollected (results : List (List ℕ)) (h : History) : Type 0 where
  distinct : AreDistinct results
  exact : (loc : List ℕ) → contains results loc ≡ names h loc

-- An outcome that is a success has at least one location, and exactly those that were named.
Finds : Outcome → Type 0
Finds r =
    (out : List (List ℕ)) (h : History) → r ≡ some (ok out, h) → (out ≢ []) × IsCollected out h

or_results-Finds :
    (results : List (List ℕ)) (h h' : History) (e : Error)
    → IsCollected results h
    → ((loc : List ℕ) → names h' loc ≡ names h loc)
    → Finds (some (or_results results e, h'))
unfolding Finds
or_results-Finds results h h' e i same out h2 q =
    let (s, full) = or_results-ok results e out (cc (q)) in
    let ends : h' ≡ h2 = cc (q) in
    (
      full,
      record {
        distinct = rw (sym s) i.distinct;
        exact = λ loc. rw (sym s, sym ends) (i.exact loc ∙ sym (same loc));
      },
    )

err-Finds : (e : Error) (h : History) → Finds (some (err e, h))
unfolding Finds
err-Finds e h out h' q = cc

none-Finds : Finds none
unfolding Finds
none-Finds out h q = cc

IsCollected-next :
    (results : List (List ℕ)) (h : History) (d : List ℕ) (from : AddrPort)
    → IsCollected results h
    → IsCollected
        (next_results results (location_of (take buffer_len d)))
        (received (datagram d from) ∷ checked ∷ h)
IsCollected-next results h d from i =
    let new = location_of (take buffer_len d) in
    record {
      distinct = next_results-AreDistinct results new i.distinct;
      exact = λ loc. ground (arith, next_results-names results new loc, i.exact loc);
    }

closing-Finds : (r : Outcome) → Finds r → Finds (closing r)
unfolding Finds
closing-Finds none f out h q = cc
closing-Finds (some (r, h1)) f out h q =
    let found : r ≡ ok out = cc (q) in
    let ends : closed ∷ h1 ≡ h = cc (q) in
    let (full, i) = f out h1 (rw found refl) in
    (full, record { distinct = i.distinct; exact = λ loc. rw (sym ends) (i.exact loc) })

pub Read-cases :
    (r : Read)
    → (r ≡ timed_out)
      ⊎ ((e : Error) × (r ≡ read_error e))
      ⊎ ((d : List ℕ) × (from : AddrPort) × (r ≡ datagram d from))
Read-cases timed_out = inl refl
Read-cases (read_error e) = inr (inl (e, refl))
Read-cases (datagram d from) = inr (inr (d, from, refl))

module _ (net : Net) where
  -- The state after a round in which a datagram arrives.
  abbrev pub after_datagram : List ℕ → AddrPort → History → History
  after_datagram d from h = received (datagram d from) ∷ checked ∷ h

  pub collect-datagram :
      (fuel : ℕ) (results : List (List ℕ)) (h : History) (d : List ℕ) (from : AddrPort)
      → net.ctx_err h ≡ none
      → net.read (checked ∷ h) ≡ datagram d from
      → collect net (suc fuel) results h
        ≡ collect net fuel
            (next_results results (location_of (take buffer_len d)))
            (after_datagram d from h)
  unfolding collect
  collect-datagram fuel results h d from alive q = ground (arith, alive, q)

  collect-Finds :
      (fuel : ℕ) (results : List (List ℕ)) (h : History)
      → IsCollected results h
      → Finds (collect net fuel results h)
  unfolding collect
  collect-Finds zero results h i = none-Finds
  collect-Finds (suc fuel) results h i = elim (Option-cases (net.ctx_err h)) [
    | inr (e, done) ↦ rw (done, collect) (or_results-Finds results h _ e i (λ loc. refl))
    | inl alive ↦ elim (Read-cases (net.read (checked ∷ h))) [
      | inl q ↦
          rw (alive, q, collect)
            (or_results-Finds results h (received (net.read (checked ∷ h)) ∷ checked ∷ h) _ i
              (λ loc. rw q refl))
      | inr (inl (e, q)) ↦ rw (alive, q, collect) (err-Finds _ _)
      | inr (inr (d, from, q)) ↦
          subst Finds (sym (collect-datagram fuel results h d from alive q))
            (collect-Finds fuel _ (after_datagram d from h) (IsCollected-next results h d from i))
    ]
  ]

  discover_with_conn-Finds :
      (fuel timeout : ℕ) (h : History)
      → IsCollected [] h
      → Finds (discover_with_conn net fuel timeout h)
  unfolding discover_with_conn
  discover_with_conn-Finds fuel timeout h i =
      let msg = build_search_request timeout in
      let h1 = wrote msg ssdp_multicast ∷ h in
      let h3 = set_deadline (search_deadline net (net.now h1) timeout) ∷ asked_time ∷ h1 in
      elim (Result-cases (net.write h msg ssdp_multicast)) [
        | inr (e, q) ↦ rw (q, discover_with_conn) (err-Finds _ _)
        | inl (n, q) ↦ elim (Bool-cases (n != length msg)) [
          | inl short ↦ rw (q, short, discover_with_conn) (err-Finds _ _)
          | inr whole ↦
              elim (Option-cases (
                net.refuse_deadline (asked_time ∷ h1) (search_deadline net (net.now h1) timeout))) [
                  | inr (e, p) ↦ rw (q, whole, p, discover_with_conn) (err-Finds _ _)
                  | inl set ↦
                      rw (q, whole, set, discover_with_conn)
                        (collect-Finds fuel [] h3
                          (record { distinct = tt; exact = λ loc. i.exact loc }))
                ]
        ]
      ]

  discover-Finds : (fuel timeout : ℕ) → Finds (discover net fuel timeout [])
  unfolding discover
  discover-Finds fuel timeout = elim (Option-cases (net.ctx_err [])) [
    | inr (e, q) ↦ rw (q, discover) (err-Finds _ _)
    | inl alive ↦ elim (Option-cases (net.listen (checked ∷ []) (v4 0))) [
      | inr (e, q) ↦ rw (alive, q, discover) (err-Finds _ _)
      | inl bound ↦
          rw (alive, bound, discover)
            (closing-Finds _ (
              discover_with_conn-Finds fuel timeout _
                (record { distinct = tt; exact = λ loc. refl })))
    ]
  ]

  -- A successful search, however many rounds it is given, has found at least one location; it returns
  -- no location twice and no empty one, and it returns a location exactly if one of the datagrams that
  -- it received names it, in the first 2048 bytes.
  pub discover-found :
      (fuel timeout : ℕ) (out : List (List ℕ)) (h : History)
      → discover net fuel timeout [] ≡ some (ok out, h)
      → (out ≢ []) × AreDistinct out × ((loc : List ℕ) → contains out loc ≡ names h loc)
  unfolding Finds
  discover-found fuel timeout out h e =
      let (full, i) = discover-Finds fuel timeout out h e in (full, i.distinct, i.exact)
