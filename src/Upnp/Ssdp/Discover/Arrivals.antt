-- ===== src/Upnp/Ssdp/Discover/Arrivals.antt =====
-- The loop of `collectResults` in internal/portmapper/upnp/ssdp.go, on the calls of its connection and
-- on what arrives.
use nat_pmp.Common.{
  ℕ, zero, suc, ◌≡◌, sym, ◌∙◌, ap, arith, List, [], ◌∷◌, none, some, take, inl, inr, Option-cases,
  Result,
}
use nat_pmp.Network.{Net, History, datagram, timed_out, read_error, checked, received}
use nat_pmp.Upnp.Ssdp.{Arrival, cancelled, read_failed, collect_results, location_of, next_results}
use nat_pmp.Upnp.Ssdp as Ssdp
use nat_pmp.Upnp.Ssdp.Discover.{buffer_len, collect}
use nat_pmp.Upnp.Ssdp.Discover.Found.{Read-cases, collect-datagram, after_datagram}

module _ (net : Net) where
  -- What the loop meets in its rounds from `h` on, each datagram as far as the buffer takes it.
  pub arrivals : ℕ → History → List Arrival
  arrivals zero h = []
  arrivals (suc fuel) h = elim (net.ctx_err h) [
    | some e ↦ cancelled e ∷ []
    | none ↦
        let reply = net.read (checked ∷ h) in
        elim reply [
          | timed_out ↦ []
          | read_error e ↦ read_failed e ∷ []
          | datagram d from ↦
              Ssdp.datagram (take buffer_len d)
              ∷ arrivals fuel (received (datagram d from) ∷ checked ∷ h)
        ]
  ]

  arrivals-datagram :
      (fuel : ℕ) (h : History) (d : List ℕ) (from : _)
      → net.ctx_err h ≡ none
      → net.read (checked ∷ h) ≡ datagram d from
      → arrivals (suc fuel) h
        ≡ Ssdp.datagram (take buffer_len d) ∷ arrivals fuel (after_datagram net d from h)
  unfolding arrivals
  arrivals-datagram fuel h d from alive q = ground (arith, alive, q)

  -- A search that ends has the result that the collection has of what arrived.
  pub collect-arrivals :
      (fuel : ℕ) (results : List (List ℕ)) (h : History) (r : Result (List (List ℕ))) (h' : History)
      → collect net fuel results h ≡ some (r, h')
      → collect_results results (arrivals fuel h) ≡ r
  unfolding collect arrivals collect_results
  collect-arrivals zero results h r h' e = cc (e)
  collect-arrivals (suc fuel) results h r h' e = elim (Option-cases (net.ctx_err h)) [
    | inr (x, done) ↦ ground (arith, done, e)
    | inl alive ↦ elim (Read-cases (net.read (checked ∷ h))) [
      | inl q ↦ ground (arith, alive, q, e)
      | inr (inl (x, q)) ↦ ground (arith, alive, q, e)
      | inr (inr (d, from, q)) ↦
          ap (collect_results results) (arrivals-datagram fuel h d from alive q)
          ∙ collect-arrivals fuel (next_results results (location_of (take buffer_len d)))
              (after_datagram net d from h) r h'
              (sym (collect-datagram net fuel results h d from alive q) ∙ e)
    ]
  ]
