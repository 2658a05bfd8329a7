-- ===== src/Natpmp/Destination.antt =====
-- The methods of internal/portmapper/natpmp/natpmp.go send to the gateway only, also for a request
-- that is not valid.
use nat_pmp.Common.{ℕ, ◌≡◌, ◌⊎◌, inl, inr, refl, arith, List, ◌∷◌, nat_eq, string_eq}
use nat_pmp.Mapping.{Request, lifetime_or, wire_seconds}
use nat_pmp.Network.{Net, History, asked_time}
use nat_pmp.Network.Exchange.Destination.{SendsOnlyTo, Sends-SendsOnlyTo, same_sent-SendsOnlyTo}
use nat_pmp.Natpmp.Codec.{encode_map_request}
use nat_pmp.Natpmp.Client.{
  Settings, server_addr, default_lease, bytes_or_nil, exchange, external_ip, map, unmap,
}
use nat_pmp.Natpmp.Leases.{exchange-Sends, external_ip-Sends}

module _ (net : Net) (c : Settings) where
  pub external_ip-SendsOnlyTo :
      (h : History)
      → SendsOnlyTo (server_addr c) h
      → SendsOnlyTo (server_addr c) (external_ip net c h).1
  external_ip-SendsOnlyTo h p =
      Sends-SendsOnlyTo _ (server_addr c) c.max_attempts h _ (external_ip-Sends net c h) p

  asked : Request → List ℕ → History → History
  asked r req h = (exchange net c r.internal_address req 16 h).1

  asked-SendsOnlyTo :
      (r : Request) (req : List ℕ) (h : History)
      → SendsOnlyTo (server_addr c) h
      → SendsOnlyTo (server_addr c) (asked r req h)
  unfolding asked
  asked-SendsOnlyTo r req h p =
      Sends-SendsOnlyTo req (server_addr c) c.max_attempts h _
        (exchange-Sends net c r.internal_address req 16 h) p

  map_request_bytes : Request → List ℕ
  map_request_bytes r = bytes_or_nil (
      encode_map_request r.protocol r.internal_port r.external_port
        (wire_seconds (lifetime_or default_lease r)))

  map-calls :
      (r : Request) (h : History)
      → let h1 = asked r (map_request_bytes r) h in
        let h2 = (external_ip net c h1).1 in
        ((map net c r h).1 ≡ h)
        ⊎ (((map net c r h).1 ≡ h1)
            ⊎ (((map net c r h).1 ≡ h2) ⊎ ((map net c r h).1 ≡ asked_time ∷ h2)))
  unfolding map asked map_request_bytes
  map-calls r h = ground arith

  pub map-SendsOnlyTo :
      (r : Request) (h : History)
      → SendsOnlyTo (server_addr c) h
      → SendsOnlyTo (server_addr c) (map net c r h).1
  map-SendsOnlyTo r h p =
      let h1 = asked r (map_request_bytes r) h in
      let h2 = (external_ip net c h1).1 in
      let p1 = asked-SendsOnlyTo r (map_request_bytes r) h p in
      let p2 = external_ip-SendsOnlyTo h1 p1 in
      elim (map-calls r h) [
        | inl e ↦ rw e p
        | inr (inl e) ↦ rw e p1
        | inr (inr (inl e)) ↦ rw e p2
        | inr (inr (inr e)) ↦
            rw e (same_sent-SendsOnlyTo (server_addr c) h2 (asked_time ∷ h2) refl p2)
      ]

  unmap_bytes : Request → List ℕ
  unmap_bytes r = bytes_or_nil (encode_map_request r.protocol r.internal_port 0 0)

  unmap-calls :
      (r : Request) (h : History)
      → ((unmap net c r h).1 ≡ h) ⊎ ((unmap net c r h).1 ≡ asked r (unmap_bytes r) h)
  unfolding unmap asked unmap_bytes
  unmap-calls r h = ground arith

  pub unmap-SendsOnlyTo :
      (r : Request) (h : History)
      → SendsOnlyTo (server_addr c) h
      → SendsOnlyTo (server_addr c) (unmap net c r h).1
  unmap-SendsOnlyTo r h p = elim (unmap-calls r h) [
    | inl e ↦ rw e p
    | inr e ↦ rw e (asked-SendsOnlyTo r (unmap_bytes r) h p)
  ]
