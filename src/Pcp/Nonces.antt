-- ===== src/Pcp/Nonces.antt =====
-- One nonce for each mapping, from the first request until the mapping is released.
use nat_pmp.Common.{
  ℕ, ◌≡◌, refl, arith, List, none, some, ok, nat_eq, string_eq, list_eq, ◌&&◌, inl, inr, is_ok,
  Result-cases, ◌==◌, if◌then◌else◌,
}
use nat_pmp.Common.Dict.{lookup, lookup-insert, lookup-erase}
use nat_pmp.Mapping.{Request}
use nat_pmp.Network.{Net}
use nat_pmp.Pcp.Client.{
  Settings, State, NonceKey, key_of, nonce_key_eq, draw_nonce, nonce_for, delete_nonce, dial, map,
  unmap,
}

module _ (net : Net) where
  -- The nonce that is kept for the mapping is the one returned.
  pub nonce_for-known :
      (r : Request) (s : State) (n : List ℕ)
      → lookup (key_of r) s.nonces ≡ some n
      → (nonce_for net r s).0 ≡ ok n
  unfolding nonce_for
  nonce_for-known r s n e = rw (e, nonce_for) refl

  -- Whatever `nonceFor` returns is kept for the mapping: asked again, it draws nothing and returns
  -- the same nonce.
  nonce_for-again :
      (r : Request) (s s' : State) (n : List ℕ)
      → nonce_for net r s ≡ (ok n, s')
      → nonce_for net r s' ≡ (ok n, s')
  unfolding nonce_for
  nonce_for-again r s s' n e = ground (arith, lookup-insert (key_of r) (key_of r) n s.nonces)

  pub nonce_for-stored :
      (r : Request) (s : State) (n : List ℕ)
      → (nonce_for net r s).0 ≡ ok n
      → lookup (key_of r) (nonce_for net r s).1.nonces ≡ some n
  unfolding nonce_for
  nonce_for-stored r s n e = ground (arith, lookup-insert (key_of r) (key_of r) n s.nonces)

  nonce_for-kept :
      (r : Request) (s : State) (k : NonceKey) (n : List ℕ)
      → lookup k s.nonces ≡ some n
      → lookup k (nonce_for net r s).1.nonces ≡ some n
  unfolding nonce_for
  nonce_for-kept r s k n e = elim (Result-cases (draw_nonce net s.history).0) [
    | inl (fresh, drawn) ↦ ground (arith, lookup-insert k (key_of r) fresh s.nonces)
    | inr (x, drawn) ↦ ground arith
  ]

  module _ (c : Settings) where
    -- The state in which `Map` and `Unmap` ask for the nonce.
    abbrev pub dialled : Request → State → State
    dialled r s = record s { history = (dial net c r.internal_address s.history).1 }

    -- `Map` never changes the nonce of a mapping that has one, its own or another's, whether it
    -- succeeds or fails.
    pub map-nonces :
        (r : Request) (s : State) (k : NonceKey) (n : List ℕ)
        → lookup k s.nonces ≡ some n
        → lookup k (map net c r s).1.nonces ≡ some n
    unfolding map
    map-nonces r s k n e = ground (arith, nonce_for-kept r (dialled r s) k n)

    -- `Unmap` forgets the nonce of its own mapping if it succeeds, and changes none otherwise.
    pub unmap-nonces :
        (r : Request) (s : State) (k : NonceKey) (n : List ℕ)
        → lookup k s.nonces ≡ some n
        → lookup k (unmap net c r s).1.nonces
          ≡ (if k == key_of r && is_ok (unmap net c r s).0 then none else some n)
    unfolding unmap delete_nonce
    unmap-nonces r s k n e = ground (
      arith,
      nonce_for-kept r (dialled r s) k n,
      lookup-erase k (key_of r) (nonce_for net r (dialled r s)).1.nonces,
    )
