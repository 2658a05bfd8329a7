-- ===== src/Upnp/Ssdp/Discover/Ends.antt =====
-- The loop of `collectResults` in internal/portmapper/upnp/ssdp.go ends.
use nat_pmp.Common.{
  subst, ℕ, zero, suc, ◌+◌, ◌≤◌, ◌<◌, ◌≡◌, refl, sym, arith, List, [], ◌∷◌, none, some, length,
  ◌!=◌, nat_eq, inl, inr, Result-cases, Option-cases, Bool-cases,
}
use nat_pmp.Addr.{AddrPort, v4}
use nat_pmp.Network.{
  Net, History, datagram, checked, listened, wrote, asked_time, set_deadline, received,
}
use nat_pmp.Upnp.Ssdp.Discover.{
  ssdp_multicast, build_search_request, Outcome, closing, collect, search_deadline,
  discover_with_conn, discover,
}
use nat_pmp.Upnp.Ssdp.Discover.Found.{Read-cases, collect-datagram, after_datagram}

-- The datagrams received.
abbrev pub datagrams : History → ℕ
datagrams [] = 0
datagrams (received (datagram d from) ∷ h) = suc (datagrams h)
datagrams (_ ∷ h) = datagrams h

-- The outcome is there, and at most `n` datagrams have been received in it.
abbrev pub EndsWithin : ℕ → Outcome → Type 0
EndsWithin n none = ⊥
EndsWithin n (some (r, h)) = datagrams h ≤ n

module _ (net : Net) (n : ℕ)
    (quiet : (h : History) (d : List ℕ) (from : AddrPort)
      → net.read h ≡ datagram d from
      → datagrams h < n) where
  collect-ends :
      (fuel : ℕ) (results : List (List ℕ)) (h : History)
      → datagrams h ≤ n
      → n < datagrams h + fuel
      → EndsWithin n (collect net fuel results h)
  unfolding collect
  collect-ends zero results h b f = omega arith
  collect-ends (suc fuel) results h b f = elim (Option-cases (net.ctx_err h)) [
    | inr (e, done) ↦ rw (done, collect) b
    | inl alive ↦ elim (Read-cases (net.read (checked ∷ h))) [
      | inl q ↦ rw (alive, q, collect) (rw q b)
      | inr (inl (e, q)) ↦ rw (alive, q, collect) (rw q b)
      | inr (inr (d, from, q)) ↦
          subst (EndsWithin n) (sym (collect-datagram net fuel results h d from alive q)) (
            collect-ends fuel _ (after_datagram net d from h) (quiet (checked ∷ h) d from q)
              (omega arith))
    ]
  ]

  closing-ends : (r : Outcome) → EndsWithin n r → EndsWithin n (closing r)
  closing-ends none b = b
  closing-ends (some (r, h)) b = b

  discover_with_conn-ends :
      (fuel timeout : ℕ) (h : History)
      → datagrams h ≡ 0
      → n < fuel
      → EndsWithin n (discover_with_conn net fuel timeout h)
  unfolding discover_with_conn
  discover_with_conn-ends fuel timeout h b f =
      let msg = build_search_request timeout in
      let h1 = wrote msg ssdp_multicast ∷ h in
      let deadline = search_deadline net (net.now h1) timeout in
      let start : datagrams h ≤ n = omega arith in
      elim (Result-cases (net.write h msg ssdp_multicast)) [
        | inr (e, q) ↦ rw (q, discover_with_conn) start
        | inl (m, q) ↦ elim (Bool-cases (m != length msg)) [
          | inl short ↦ rw (q, short, discover_with_conn) start
          | inr whole ↦ elim (Option-cases (net.refuse_deadline (asked_time ∷ h1) deadline)) [
            | inr (e, p) ↦ rw (q, whole, p, discover_with_conn) start
            | inl set ↦
                rw (q, whole, set, discover_with_conn)
                  (collect-ends fuel [] (set_deadline deadline ∷ asked_time ∷ h1) start
                    (omega arith))
          ]
        ]
      ]

  -- If a read brings a datagram only as long as fewer than `n` have arrived, a search that is given
  -- more than `n` rounds ends, with a result or an error, after at most `n` datagrams.
  pub discover-ends : (fuel timeout : ℕ) → n < fuel → EndsWithin n (discover net fuel timeout [])
  unfolding discover
  discover-ends fuel timeout f = elim (Option-cases (net.ctx_err [])) [
    | inr (e, q) ↦ rw (q, discover) (omega arith)
    | inl alive ↦ elim (Option-cases (net.listen (checked ∷ []) (v4 0))) [
      | inr (e, q) ↦ rw (alive, q, discover) (omega arith)
      | inl bound ↦
          rw (alive, bound, discover)
            (closing-ends (discover_with_conn net fuel timeout (listened (v4 0) ∷ checked ∷ []))
              (discover_with_conn-ends fuel timeout (listened (v4 0) ∷ checked ∷ []) refl f))
    ]
  ]
