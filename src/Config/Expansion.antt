-- ===== src/Config/Expansion.antt =====
-- `Config.Requests` (internal/config/config.go) expands the same mappings on every call; only the
-- internal addresses may differ.
use nat_pmp.Common.{◌≡◌, refl, List, [], ◌∷◌, map, map-append}
use nat_pmp.Addr.{Addr}
use nat_pmp.Config.Requests.{
  Mapping, Config, Host, protocols, mapping_requests, requests_of, requests,
}
use nat_pmp.Daemon.State.{key_of}

map-map_congr {ℓ κ μ} :
    {A : Type ℓ} {B : Type κ} {C : Type μ} (g : B → C) (f f' : A → B)
    → ((a : A) → g (f a) ≡ g (f' a))
    → (xs : List A) → map g (map f xs) ≡ map g (map f' xs)
map-map_congr g f f' h [] = refl
map-map_congr g f f' h (x ∷ xs) = rw (h x, map-map_congr g f f' h xs) refl

mapping_requests-keys :
    (host host' : Host) (m : Mapping) (a a' : Addr)
    → map key_of (mapping_requests host m a) ≡ map key_of (mapping_requests host' m a')
unfolding mapping_requests
mapping_requests-keys host host' m a a' = map-map_congr key_of _ _ (λ proto. refl) (protocols m)

requests_of-keys :
    (host host' : Host) (ms : List Mapping) (a a' : Addr)
    → map key_of (requests_of host ms a) ≡ map key_of (requests_of host' ms a')
unfolding requests_of
requests_of-keys host host' [] a a' = refl
requests_of-keys host host' (m ∷ ms) a a' =
    rw
      (
        map-append key_of (mapping_requests host m a) (requests_of host ms a),
        map-append key_of (mapping_requests host' m a') (requests_of host' ms a'),
        mapping_requests-keys host host' m a a',
        requests_of-keys host host' ms a a',
      )
      refl

-- Whatever the interfaces hold when the requests are expanded, and whichever addresses resolve, the
-- requests have the same protocols and ports in the same order.
pub requests-keys :
    (host host' : Host) (c : Config) → map key_of (requests host c) ≡ map key_of (requests host' c)
unfolding requests
requests-keys host host' c = requests_of-keys host host' c.mappings _ _
