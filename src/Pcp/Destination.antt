-- ===== src/Pcp/Destination.antt =====
-- The methods of internal/portmapper/pcp/pcp.go send to the gateway only.
use nat_pmp.Common.{ℕ, ◌≡◌, ◌⊎◌, inl, inr, arith, List, [], value_or, list_eq, nat_eq}
use nat_pmp.Addr.{invalid}
use nat_pmp.Mapping.{Request, tcp}
use nat_pmp.Network.{Net, History}
use nat_pmp.Network.Exchange.Answer.{sent, attempts-Sends}
use nat_pmp.Network.Exchange.Destination.{SendsOnlyTo, Sends-SendsOnlyTo, same_sent-SendsOnlyTo}
use nat_pmp.Pcp.Codec.{encode_map_request, response_len}
use nat_pmp.Pcp.Client.{
  Settings, State, server_addr, buffer_len, dial, draw_nonce, exchange_on, map_request, external_ip,
  map, unmap,
}
use nat_pmp.Pcp.Datagrams.{Quiet, dial-Quiet, methods-Sends}

module _ (net : Net) (c : Settings) where
  exchange_on-SendsOnlyTo :
      (req : List ℕ) (h : History)
      → SendsOnlyTo (server_addr c) h
      → SendsOnlyTo (server_addr c) (exchange_on net c req h).1
  unfolding exchange_on
  exchange_on-SendsOnlyTo req h p =
      Sends-SendsOnlyTo req (server_addr c) c.max_attempts h _
        (attempts-Sends net "pcp" (server_addr c) buffer_len response_len c.max_attempts req
          c.initial_timeout h)
        p

  -- What `ExternalIP` sends, and the calls before that.
  abbrev probe_bytes : State → List ℕ
  probe_bytes s = value_or [] (
      encode_map_request (
        map_request net c (value_or [] (draw_nonce net (dial net c invalid s.history).1).0) tcp 0 0
          (value_or invalid (dial net c invalid s.history).0) 0))

  abbrev drawn : State → History
  drawn s = (draw_nonce net (dial net c invalid s.history).1).1

  external_ip-history :
      (s : State)
      → Quiet (exchange_on net c (probe_bytes s) (drawn s)).1 (external_ip net c s).1.history
        ⊎ Quiet s.history (external_ip net c s).1.history
  unfolding external_ip draw_nonce
  external_ip-history s = ground (arith, dial-Quiet net c invalid s.history)

  drawn-sent : (s : State) → sent (drawn s) ≡ sent s.history
  unfolding draw_nonce
  drawn-sent s = (dial-Quiet net c invalid s.history).0

  pub external_ip-SendsOnlyTo :
      (s : State)
      → SendsOnlyTo (server_addr c) s.history
      → SendsOnlyTo (server_addr c) (external_ip net c s).1.history
  external_ip-SendsOnlyTo s p =
      let before = same_sent-SendsOnlyTo (server_addr c) s.history (drawn s) (drawn-sent s) p in
      let after = exchange_on-SendsOnlyTo (probe_bytes s) (drawn s) before in
      elim (external_ip-history s) [
        | inl (q, r) ↦ same_sent-SendsOnlyTo (server_addr c) _ _ q after
        | inr (q, r) ↦ same_sent-SendsOnlyTo (server_addr c) _ _ q p
      ]

  pub map-SendsOnlyTo :
      (r : Request) (s : State)
      → SendsOnlyTo (server_addr c) s.history
      → SendsOnlyTo (server_addr c) (map net c r s).1.history
  map-SendsOnlyTo r s p =
      Sends-SendsOnlyTo _ (server_addr c) c.max_attempts s.history _ (methods-Sends net c r s).0 p

  pub unmap-SendsOnlyTo :
      (r : Request) (s : State)
      → SendsOnlyTo (server_addr c) s.history
      → SendsOnlyTo (server_addr c) (unmap net c r s).1.history
  unmap-SendsOnlyTo r s p =
      Sends-SendsOnlyTo _ (server_addr c) c.max_attempts s.history _ (methods-Sends net c r s).1 p
