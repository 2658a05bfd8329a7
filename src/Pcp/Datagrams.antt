-- ===== src/Pcp/Datagrams.antt =====
-- The datagrams that PCP's `Map` and `Unmap` send.
use nat_pmp.Common.{
  ℕ, ◌≡◌, ◌⊎◌, ◌++◌, ◌∙◌, refl, sym, some, ap, inl, inr, arith, List, [], value_or, replicate,
  nat_eq, string_eq, list_eq,
}
use nat_pmp.Addr.{Addr, invalid}
use nat_pmp.Mapping.{Request, lifetime_or, wire_seconds}
use nat_pmp.Network.{Net, History}
use nat_pmp.Network.Exchange.Answer.{sent, reads, Sends, attempts-Sends}
use nat_pmp.Pcp.Codec.{encode_map_request, response_len}
use nat_pmp.Pcp.Client.{
  Settings, State, key_of, nonce_key_eq, server_addr, buffer_len, local_addr, default_dial, dial,
  draw_nonce, nonce_for, delete_nonce, exchange_on, map_request, default_lease, map, unmap,
}
use nat_pmp.Common.Dict.{lookup}
use nat_pmp.Pcp.Nonces.{dialled, nonce_for-known, map-nonces}

-- Nothing was sent or read in between.
abbrev pub Quiet : History → History → Type 0
Quiet h h' = (sent h' ≡ sent h) × (reads h' ≡ reads h)

module _ (net : Net) (c : Settings) where
  pub dial-Quiet : (a : Addr) (h : History) → Quiet h (dial net c a h).1
  unfolding dial default_dial local_addr
  dial-Quiet a h = ground arith

  nonce_for-Quiet : (r : Request) (s : State) → Quiet s.history (nonce_for net r s).1.history
  unfolding nonce_for draw_nonce
  nonce_for-Quiet r s = ground arith

  -- The bytes that a call sends for the mapping `r`, with the external port and the seconds asked
  -- for, from the state in which it is made: the nonce is the one kept for the mapping, or a new one.
  abbrev pub call_bytes : Request → ℕ → State → List ℕ
  call_bytes r seconds s = value_or [] (
      encode_map_request (
        map_request net c (value_or [] (nonce_for net r (dialled net c r s)).0) r.protocol
          r.internal_port r.external_port
          (value_or invalid (dial net c r.internal_address s.history).0) seconds))

  abbrev called : Request → ℕ → State → History
  called r seconds s =
      (exchange_on net c (call_bytes r seconds s) (nonce_for net r (dialled net c r s)).1.history).1

  called-Sends :
      (r : Request) (seconds : ℕ) (s : State)
      → Sends (call_bytes r seconds s) (server_addr c) c.max_attempts s.history (called r seconds s)
  unfolding exchange_on
  called-Sends r seconds s =
      let h = (nonce_for net r (dialled net c r s)).1.history in
      let (d1, d2) = dial-Quiet r.internal_address s.history in
      let (n1, n2) = nonce_for-Quiet r (dialled net c r s) in
      let x =
        attempts-Sends net "pcp" (server_addr c) buffer_len response_len c.max_attempts
          (call_bytes r seconds s) c.initial_timeout h in
      record {
        times = x.times;
        within = x.within;
        only =
            x.only
            ∙ ap (λ y. replicate x.times (call_bytes r seconds s, server_addr c) ++ y) (n1 ∙ d1);
        read_within = omega (arith, x.read_within, n2, d2);
      }

  -- The calls of a method are those of the exchange and some that send and read nothing, or no
  -- exchange was made.
  unmap-history :
      (r : Request) (s : State)
      → Quiet (called r 0 s) (unmap net c r s).1.history
        ⊎ Quiet s.history (unmap net c r s).1.history
  unfolding unmap delete_nonce
  unmap-history r s =
      ground (arith, dial-Quiet r.internal_address s.history, nonce_for-Quiet r (dialled net c r s))

  abbrev lease_seconds : Request → ℕ
  lease_seconds r = wire_seconds (lifetime_or default_lease r)

  map-history :
      (r : Request) (s : State)
      → Quiet (called r (lease_seconds r) s) (map net c r s).1.history
        ⊎ Quiet s.history (map net c r s).1.history
  unfolding map
  map-history r s =
      ground (arith, dial-Quiet r.internal_address s.history, nonce_for-Quiet r (dialled net c r s))

  pub Sends-Quiet :
      (req : List ℕ) (h h1 h' : History)
      → Sends req (server_addr c) c.max_attempts h h1
      → Quiet h1 h' ⊎ Quiet h h'
      → Sends req (server_addr c) c.max_attempts h h'
  Sends-Quiet req h h1 h' x (inl (q, p)) = record {
    times = x.times;
    within = x.within;
    only = q ∙ x.only;
    read_within = omega (arith, x.read_within, p);
  }
  Sends-Quiet req h h1 h' x (inr (q, p)) = record {
    times = 0;
    within = omega arith;
    only = q;
    read_within = omega (arith, p);
  }

  -- Whatever comes back, PCP's `Map` and `Unmap` send nothing but one request, the same in every
  -- attempt, to the gateway only and at most once for each attempt: that for the mapping's protocol
  -- and ports with its nonce, from the dialled address, with the lease in seconds or with 0.
  pub methods-Sends :
      (r : Request) (s : State)
      → Sends
          (call_bytes r (wire_seconds (lifetime_or default_lease r)) s)
          (server_addr c)
          c.max_attempts
          s.history
          (map net c r s).1.history
        × Sends
            (call_bytes r 0 s)
            (server_addr c)
            c.max_attempts
            s.history
            (unmap net c r s).1.history
  methods-Sends r s = (
    Sends-Quiet _ s.history _ _ (called-Sends r (lease_seconds r) s) (map-history r s),
    Sends-Quiet _ s.history _ _ (called-Sends r 0 s) (unmap-history r s),
  )

  -- The request with the nonce `n` for the mapping `r`, from the address dialled in the state `s`.
  abbrev pub nonce_bytes : List ℕ → Request → ℕ → State → List ℕ
  nonce_bytes n r seconds s = value_or [] (
      encode_map_request (
        map_request net c n r.protocol r.internal_port r.external_port
          (value_or invalid (dial net c r.internal_address s.history).0) seconds))

  call_bytes-known :
      (r : Request) (seconds : ℕ) (s : State) (n : List ℕ)
      → lookup (key_of r) s.nonces ≡ some n
      → call_bytes r seconds s ≡ nonce_bytes n r seconds s
  call_bytes-known r seconds s n e = rw (nonce_for-known net r (dialled net c r s) n e) refl

  -- Once a nonce is kept for a mapping, `Map` of this or any other mapping, whether it succeeds or
  -- fails, leaves it kept. The next `Map` of the mapping sends nothing but the request that carries
  -- this nonce, to the gateway only and at most once for each attempt, and so does `Unmap`.
  pub map-renews :
      (r other : Request) (s : State) (n : List ℕ)
      → lookup (key_of r) s.nonces ≡ some n
      → let s' = (map net c other s).1 in
        (lookup (key_of r) s'.nonces ≡ some n)
        × Sends
            (nonce_bytes n r (wire_seconds (lifetime_or default_lease r)) s')
            (server_addr c)
            c.max_attempts
            s'.history
            (map net c r s').1.history
        × Sends
            (nonce_bytes n r 0 s')
            (server_addr c)
            c.max_attempts
            s'.history
            (unmap net c r s').1.history
  map-renews r other s n e =
      let s' = (map net c other s).1 in
      let kept = map-nonces net c other s (key_of r) n e in
      let (mapped, unmapped) = methods-Sends r s' in
      (
        kept,
        rw (sym (call_bytes-known r (lease_seconds r) s' n kept)) mapped,
        rw (sym (call_bytes-known r 0 s' n kept)) unmapped,
      )
