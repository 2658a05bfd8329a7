-- ===== src/Netgw/Found.antt =====
-- `parseDefaultGateway` of internal/netgw/netgw.go finds the gateway of a table that has one.
use nat_pmp.Common.{All, ℕ, ◌≡◌, ◌≤◌, ◌⊎◌, inl, inr, refl, List, [], ◌∷◌, none, ok}
use nat_pmp.Addr.{Addr}
use nat_pmp.Netgw.{gateway_found, parse_default_gateway}
use nat_pmp.Netgw.Lines.{IsRoute, IsReadable}
use nat_pmp.Netgw.Lines.Reading.{route_of-some, route_of-IsRoute, IsReadable-is_ok}
use nat_pmp.Netgw.Least.{HasRoute, AllRead, scan_routes-Found, parse_default_gateway-least}

-- One of the lines is a default route through `a` with the metric `m`, by its fields.
abbrev pub Lists : Addr → ℕ → List (List ℕ) → Type 0
Lists a m [] = ⊥
Lists a m (line ∷ lines) = IsRoute line a m ⊎ Lists a m lines

HasRoute-Lists : (a : Addr) (m : ℕ) (lines : List (List ℕ)) → Lists a m lines → HasRoute a m lines
HasRoute-Lists a m [] h = absurd h
HasRoute-Lists a m (line ∷ lines) (inl r) = inl (route_of-IsRoute line a m r)
HasRoute-Lists a m (line ∷ lines) (inr h) = inr (HasRoute-Lists a m lines h)

Lists-HasRoute : (a : Addr) (m : ℕ) (lines : List (List ℕ)) → HasRoute a m lines → Lists a m lines
Lists-HasRoute a m [] h = absurd h
Lists-HasRoute a m (line ∷ lines) (inl r) = inl (route_of-some line a m r)
Lists-HasRoute a m (line ∷ lines) (inr h) = inr (Lists-HasRoute a m lines h)

AllRead-IsReadable : (lines : List (List ℕ)) → All IsReadable lines → AllRead lines
AllRead-IsReadable [] h = tt
AllRead-IsReadable (line ∷ lines) (h, rest) =
    (IsReadable-is_ok line h, AllRead-IsReadable lines rest)

-- Take a table that the scanner reads to its end, with a default route below the header line: a
-- line of at least eight fields, with zeros for destination and mask, flags in hexadecimal of which
-- the two lowest are set, a next hop of eight hexadecimal digits, whose bytes in reverse are an address
-- that is not zero, and a decimal metric. Let each line be such a route or one that is passed over: it
-- has fewer fields, another destination or mask, readable flags of which one of the two is unset, or
-- readable flags, a next hop of zero and a readable metric. Then the result is the address of such a
-- route, and no such route has a smaller metric.
pub parse_default_gateway-found :
    (header : List ℕ) (lines : List (List ℕ)) (b : Addr) (k : ℕ)
    → All IsReadable lines
    → Lists b k lines
    → (a : Addr) × (m : ℕ) × (parse_default_gateway (header ∷ lines) none ≡ ok a)
      × Lists a m lines
      × ((c : Addr) (l : ℕ) → Lists c l lines → m ≤ l)
unfolding parse_default_gateway gateway_found
parse_default_gateway-found header lines b k readable h =
    let (r, e, (a, m, found)) =
      scan_routes-Found none lines (AllRead-IsReadable lines readable)
        (inr (b, k, HasRoute-Lists b k lines h)) in
    let result : parse_default_gateway (header ∷ lines) none ≡ ok a = rw (e, found) refl in
    let (least, route, smallest) = parse_default_gateway-least header lines none a result in
    (
      a,
      least,
      result,
      Lists-HasRoute a least lines route,
      λ c l there. smallest c l (HasRoute-Lists c l lines there),
    )
