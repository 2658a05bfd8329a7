-- ===== src/Natpmp/Leases.antt =====
-- The leases that NAT-PMP's `Map` returns, and the datagrams that its methods send.
use nat_pmp.Common.{
  ℕ, ◌≡◌, ◌⊎◌, inl, inr, refl, arith, List, ◌∷◌, ok, nat_eq, string_eq, Option-cases,
}
use nat_pmp.Addr.{Addr, invalid}
use nat_pmp.Mapping.{Request, Lease, validate, lifetime_or, wire_seconds}
use nat_pmp.Portmapper.{Fits}
use nat_pmp.Network.{Net, History, listened, asked_time}
use nat_pmp.Network.Exchange.Answer.{Sends, attempts-Sends}
use nat_pmp.Natpmp.Codec.{map_opcode, encode_external_address_request}
use nat_pmp.Natpmp.Wire.{map_request_bytes, encode_map_request_lem}
use nat_pmp.Natpmp.Client.{
  Settings, server_addr, buffer_len, default_lease, default_dial, exchange_on, exchange,
  external_ip, map, unmap,
}

Sends-none :
    (req : List ℕ) (c : Settings) (h : History) → Sends req (server_addr c) c.max_attempts h h
Sends-none req c h = record {
  times = 0;
  within = omega arith;
  only = refl;
  read_within = omega arith;
}

module _ (net : Net) (c : Settings) where
  -- A lease that `Map` returns is for the request's protocol and internal port, has an external
  -- port, and lasts.
  pub map-Fits : (r : Request) (h h' : History) (l : Lease) → map net c r h ≡ (ok l, h') → Fits r l
  unfolding map
  map-Fits r h h' l e = ground arith

  pub exchange-Sends :
      (bind_addr : Addr) (req : List ℕ) (resp_len : ℕ) (h : History)
      → Sends req (server_addr c) c.max_attempts h (exchange net c bind_addr req resp_len h).1
  unfolding exchange default_dial exchange_on
  exchange-Sends bind_addr req resp_len h = elim (Option-cases (net.listen h bind_addr)) [
    | inl bound ↦
        let s =
          attempts-Sends net "natpmp" (server_addr c) buffer_len resp_len c.max_attempts req
            c.initial_timeout (listened bind_addr ∷ h) in
        rw bound (record {
          times = s.times;
          within = s.within;
          only = s.only;
          read_within = s.read_within;
        })
    | inr (e, failed) ↦
        rw failed
          (record { times = 0; within = omega arith; only = refl; read_within = omega arith })
  ]

  -- The request that `Map` sends.
  abbrev pub map_bytes : ℕ → Request → List ℕ
  map_bytes op r =
      map_request_bytes op r.internal_port r.external_port
        (wire_seconds (lifetime_or default_lease r))

  unmap-history :
      (op : ℕ) (r : Request) (h : History)
      → validate r ≡ ok tt
      → map_opcode r.protocol ≡ ok op
      → (unmap net c r h).1
        ≡ (exchange net c r.internal_address (map_request_bytes op r.internal_port 0 0) 16 h).1
  unfolding unmap
  unmap-history op r h valid hop =
      ground (arith, encode_map_request_lem r.protocol op r.internal_port 0 0 hop)

  -- For a valid request, whatever comes back, `Unmap` sends nothing but the deletion request of RFC
  -- 6886 section 3.4 (external port 0, lifetime 0), to the gateway only, and at most once for each
  -- attempt.
  pub unmap-Sends :
      (op : ℕ) (r : Request) (h : History)
      → validate r ≡ ok tt
      → map_opcode r.protocol ≡ ok op
      → Sends
          (map_request_bytes op r.internal_port 0 0)
          (server_addr c)
          c.max_attempts
          h
          (unmap net c r h).1
  unmap-Sends op r h valid hop =
      rw (unmap-history op r h valid hop) (exchange-Sends r.internal_address _ 16 h)

  external_ip-history :
      (h : History)
      → (external_ip net c h).1 ≡ (exchange net c invalid encode_external_address_request 12 h).1
  unfolding external_ip
  external_ip-history h = ground arith

  pub external_ip-Sends :
      (h : History)
      → Sends encode_external_address_request
          (server_addr c)
          c.max_attempts
          h
          (external_ip net c h).1
  external_ip-Sends h = rw external_ip-history (exchange-Sends invalid _ 12 h)

  -- After the mapping exchange `Map` stops, or it asks for the external address, and then perhaps
  -- for the time.
  map-history :
      (op : ℕ) (r : Request) (h : History)
      → validate r ≡ ok tt
      → map_opcode r.protocol ≡ ok op
      → let h1 = (exchange net c r.internal_address (map_bytes op r) 16 h).1 in
        let h2 = (external_ip net c h1).1 in
        ((map net c r h).1 ≡ h1)
        ⊎ (((map net c r h).1 ≡ h2) ⊎ ((map net c r h).1 ≡ asked_time ∷ h2))
  unfolding map
  map-history op r h valid hop = ground (
    arith,
    encode_map_request_lem r.protocol op r.internal_port r.external_port
        (wire_seconds (lifetime_or default_lease r)) hop,
  )

  -- For a valid request, whatever comes back, `Map` sends the gateway the mapping request with the
  -- requested ports and lease, then perhaps external address requests, each at most once for each
  -- attempt, and nothing else to anybody.
  pub map-Sends :
      (op : ℕ) (r : Request) (h : History)
      → validate r ≡ ok tt
      → map_opcode r.protocol ≡ ok op
      → (h1 : History) × Sends (map_bytes op r) (server_addr c) c.max_attempts h h1
        × Sends encode_external_address_request (server_addr c) c.max_attempts h1 (map net c r h).1
  map-Sends op r h valid hop =
      let h1 = (exchange net c r.internal_address (map_bytes op r) 16 h).1 in
      let s = external_ip-Sends h1 in
      (
        h1,
        exchange-Sends r.internal_address _ 16 h,
        elim (map-history op r h valid hop) [
          | inl e ↦ rw e (Sends-none _ c h1)
          | inr (inl e) ↦ rw e s
          | inr (inr e) ↦ rw e (record {
            times = s.times;
            within = s.within;
            only = s.only;
            read_within = s.read_within;
          })
        ],
      )
