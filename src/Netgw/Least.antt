-- ===== src/Netgw/Least.antt =====
-- Which of the default routes `parseDefaultGateway` takes.
use nat_pmp.Common.{
  All, is_ok, true, Result-cases, ℕ, ◌≤◌, ◌≡◌, refl, arith, ap, ◌∙◌, List, [], ◌∷◌, Option, none,
  some, ◌⊎◌, inl, inr, ltb, Bool-cases, Error, ok, >>=-ok,
}
use nat_pmp.Addr.{Addr}
use nat_pmp.Netgw.{route_of, better, scan_routes, gateway_found, parse_default_gateway}

-- One of the lines is a usable default route through `a` with the metric `m`.
abbrev pub HasRoute : Addr → ℕ → List (List ℕ) → Type 0
HasRoute a m [] = ⊥
HasRoute a m (line ∷ lines) = (route_of line ≡ ok (some (a, m))) ⊎ HasRoute a m lines

-- `best` is the first of the candidates, or a route with the least metric of all.
record IsBest (start : Option (Addr × ℕ)) (lines : List (List ℕ)) (a : Addr) (m : ℕ) : Type 0 where
  from : (start ≡ some (a, m)) ⊎ HasRoute a m lines
  least_start : (b : Addr) (k : ℕ) → start ≡ some (b, k) → m ≤ k
  least : (b : Addr) (k : ℕ) → HasRoute b k lines → m ≤ k

better-cases :
    (start found : Option (Addr × ℕ)) (a : Addr) (m : ℕ)
    → better start found ≡ some (a, m)
    → (start ≡ some (a, m)) ⊎ (found ≡ some (a, m))
unfolding better
better-cases start none a m e = inl e
better-cases none (some f) a m e = inr e
better-cases (some (b, k)) (some (c, l)) a m e = ground arith

-- Whatever comes out is at most both.
better-le :
    (start found : Option (Addr × ℕ))
    → (b : Addr) (k : ℕ) → (start ≡ some (b, k)) ⊎ (found ≡ some (b, k))
    → (a : Addr) × (m : ℕ) × (better start found ≡ some (a, m)) × (m ≤ k)
unfolding better
better-le none none b k (inl e) = cc
better-le none none b k (inr e) = cc
better-le none (some (c, l)) b k h = (c, l, refl, ground arith)
better-le (some (c, l)) none b k h = (c, l, refl, ground arith)
better-le (some (c, l)) (some (d, j)) b k h = elim (Bool-cases (ltb j l)) [
  | inl less ↦ (d, j, ground arith, ground arith)
  | inr more ↦ (c, l, ground arith, ground arith)
]

scan_routes-IsBest :
    (start : Option (Addr × ℕ)) (lines : List (List ℕ)) (a : Addr) (m : ℕ)
    → scan_routes start lines ≡ ok (some (a, m))
    → IsBest start lines a m
unfolding scan_routes
scan_routes-IsBest start [] a m e = record {
  from = inl (ground arith);
  least_start = λ b k h. ground arith;
  least = λ b k h. absurd h;
}
scan_routes-IsBest start (line ∷ lines) a m e =
    let (found, row, e') = >>=-ok (route_of line) _ e in
    let i = scan_routes-IsBest (better start found) lines a m e' in
    let below : (b : Addr) (k : ℕ) → (start ≡ some (b, k)) ⊎ (found ≡ some (b, k)) → m ≤ k =
      λ b k h.
        let (c, l, kept, le) = better-le start found b k h in
        omega (arith, le, i.least_start c l kept) in
    record {
      from = elim i.from [
        | inl first ↦ elim (better-cases start found a m first) [
          | inl old ↦ inl old
          | inr new ↦ inr (inl (row ∙ ap ok new))
        ]
        | inr later ↦ inr (inr later)
      ];
      least_start = λ b k h. below b k (inl h);
      least = λ b k h. elim h [
        | inl here ↦ below b k (inr (cc (row, here)))
        | inr later ↦ i.least b k later
      ];
    }

gateway_found-some :
    (stopped : Option Error) (best : Option (Addr × ℕ)) (a : Addr)
    → gateway_found stopped best ≡ ok a
    → (m : ℕ) × (best ≡ some (a, m))
unfolding gateway_found
gateway_found-some (some x) best a e = cc
gateway_found-some none none a e = cc
gateway_found-some none (some (b, m)) a e = (m, ground arith)

-- The gateway that is returned is that of a usable default route below the header line, and no
-- usable default route has a smaller metric.
pub parse_default_gateway-least :
    (header : List ℕ) (lines : List (List ℕ)) (stopped : Option Error) (a : Addr)
    → parse_default_gateway (header ∷ lines) stopped ≡ ok a
    → (m : ℕ) × HasRoute a m lines × ((b : Addr) (k : ℕ) → HasRoute b k lines → m ≤ k)
unfolding parse_default_gateway
parse_default_gateway-least header lines stopped a e =
    let (best, scanned, e') = >>=-ok (scan_routes none lines) _ e in
    let (m, is_best) = gateway_found-some stopped best a e' in
    let i = scan_routes-IsBest none lines a m (scanned ∙ ap ok is_best) in
    (m, elim i.from [ inl start ↦ cc | inr later ↦ later ], i.least)

-- No line is refused.
abbrev pub AllRead : List (List ℕ) → Type 0
AllRead = All (λ line. is_ok (route_of line) ≡ true)

abbrev pub Found : Option (Addr × ℕ) → Type 0
Found r = (a : Addr) × (m : ℕ) × (r ≡ some (a, m))

better-Found :
    (start found : Option (Addr × ℕ)) → Found start ⊎ Found found → Found (better start found)
better-Found start found (inl (b, k, e)) =
    let (a, m, h, le) = better-le start found b k (inl e) in (a, m, h)
better-Found start found (inr (b, k, e)) =
    let (a, m, h, le) = better-le start found b k (inr e) in (a, m, h)

pub scan_routes-Found :
    (start : Option (Addr × ℕ)) (lines : List (List ℕ))
    → AllRead lines
    → Found start ⊎ ((b : Addr) × (k : ℕ) × HasRoute b k lines)
    → (r : Option (Addr × ℕ)) × (scan_routes start lines ≡ ok r) × Found r
unfolding scan_routes
scan_routes-Found start [] readable (inl found) = (start, refl, found)
scan_routes-Found start [] readable (inr (b, k, h)) = absurd h
scan_routes-Found start (line ∷ lines) (now, later) h = elim (Result-cases (route_of line)) [
  | inl (r, e) ↦ rw e (scan_routes-Found (better start r) lines later (next r e h))
  | inr (x, e) ↦ cc (e, now)
]
  where
    next :
        (r : Option (Addr × ℕ))
        → route_of line ≡ ok r
        → Found start ⊎ ((b : Addr) × (k : ℕ) × HasRoute b k (line ∷ lines))
        → Found (better start r) ⊎ ((b : Addr) × (k : ℕ) × HasRoute b k lines)
    next r e (inl found) = inl (better-Found start r (inl found))
    next r e (inr (b, k, inl here)) = inl (better-Found start r (inr (b, k, cc (e, here))))
    next r e (inr (b, k, inr there)) = inr (b, k, there)
