-- ===== src/Pcp/Gateway/Ready.antt =====
-- What a ready host gives the methods of internal/portmapper/pcp/pcp.go: an address and nonces.
use nat_pmp.Common.{
  none, ℕ, ◌<◌, ◌^◌, ◌≡◌, ◌⊎◌, inl, inr, refl, arith, List, ◌∷◌, some, length, string_eq, nat_eq,
  list_eq, ok, Option-cases,
}
use nat_pmp.Common.Bytes.{uint}
use nat_pmp.Common.Dict.{lookup, lookup-insert}
use nat_pmp.Addr.{Addr, AddrPort, invalid, v4, v6}
use nat_pmp.Mapping.{Request}
use nat_pmp.Network.{Net, History, listened}
use nat_pmp.Pcp.Wire.{IsAddress}
use nat_pmp.Pcp.Client.{
  Settings, State, NonceKey, nonce_key_eq, key_of, server_addr, local_from, local_addr,
  default_dial, dial, draw_nonce, nonce_for,
}

-- The host draws nonces of twelve bytes, and finds its IPv4 address on the route to the server.
pub record IsReady (net : Net) (server : AddrPort) : Type 0 where
  pub draws : (h : History) → (n : List ℕ) × (net.nonce h ≡ ok n) × (length n ≡ 12)
  pub finds :
      (h : History)
      → (ip : List ℕ) × (net.probe h server ≡ ok (some ip)) × (length ip ≡ 4) × (uint ip < 2 ^ 32)

-- The nonces that are kept have twelve bytes.
abbrev pub AreNonces : List (NonceKey × List ℕ) → Type 0
AreNonces m = (k : NonceKey) (n : List ℕ) → lookup k m ≡ some n → length n ≡ 12

module _ (net : Net) (c : Settings) (listens : (h : History) (a : Addr) → net.listen h a ≡ none)
    (ready : IsReady net (server_addr c)) where
  local_addr-ready : (h : History) → (a : Addr) × ((local_addr net c h).0 ≡ ok a) × IsAddress a
  unfolding local_addr local_from
  local_addr-ready h =
      let (ip, e, four, range) = ready.finds h in (v4 (uint ip), ground arith, range)

  pub dial-ready :
      (bind_addr : Addr) (h : History)
      → (bind_addr ≡ invalid) ⊎ IsAddress bind_addr
      → (a : Addr) × ((dial net c bind_addr h).0 ≡ ok a) × IsAddress a
  unfolding dial default_dial
  dial-ready invalid h x =
      let (a, e, address) = local_addr-ready (listened invalid ∷ h) in
      (a, ground (arith, listens h invalid), address)
  dial-ready (v4 n) h (inl e) = absurd (cc)
  dial-ready (v4 n) h (inr x) = (v4 n, ground (arith, listens h (v4 n)), x)
  dial-ready (v6 bs zone) h (inl e) = absurd (cc)
  dial-ready (v6 bs zone) h (inr x) = (v6 bs zone, ground (arith, listens h (v6 bs zone)), x)

  pub nonce_for-ready :
      (r : Request) (s : State)
      → AreNonces s.nonces
      → (n : List ℕ) × ((nonce_for net r s).0 ≡ ok n) × (length n ≡ 12)
  unfolding nonce_for draw_nonce
  nonce_for-ready r s kept = elim (Option-cases (lookup (key_of r) s.nonces)) [
    | inr (n, e) ↦ (n, rw (e, nonce_for) refl, kept (key_of r) n e)
    | inl e ↦ let (n, d, twelve) = ready.draws s.history in (n, rw (e, d, nonce_for) refl, twelve)
  ]

  pub nonce_for-AreNonces :
      (r : Request) (s : State) → AreNonces s.nonces → AreNonces (nonce_for net r s).1.nonces
  unfolding nonce_for draw_nonce
  nonce_for-AreNonces r s kept k n e =
      let (fresh, d, twelve) = ready.draws s.history in
      ground (arith, kept k n, lookup-insert k (key_of r) fresh s.nonces)
