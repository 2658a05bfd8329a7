-- ===== src/Daemon/Probes.antt =====
-- Which candidate `detect` of internal/daemon/detect.go chooses.
use nat_pmp.Common.{
  ℕ, ◌≡◌, refl, ap, inl, inr, List, [], ◌∷◌, ◌++◌, Option, none, some, Option-cases, Result-cases,
}
use nat_pmp.Common.{Error, failed, Result, ok, err}
use nat_pmp.Addr.{Addr}
use nat_pmp.Portmapper.{Client, bounded}
use nat_pmp.Daemon.Detect.{Candidate, detect}

module _ {W : Type 0} (ctx_err : W → Option Error) (gateway : Addr) (timeout : ℕ) where
  abbrev pub probe : Candidate W → W → Result Addr × W
  probe c = (c.new gateway).external_ip (bounded timeout)

  -- The candidates fail one after the other, from the first world to the second, and the context is
  -- alive after each.
  pub data AllFail : List (Candidate W) → W → W → Type 0 where
    untried : {w : W} → AllFail [] w w
    fails :
        {c : Candidate W} {cs : List (Candidate W)} {w w' : W} (e : Error)
        → (probe c w).0 ≡ err e
        → ctx_err (probe c w).1 ≡ none
        → AllFail cs (probe c w).1 w'
        → AllFail (c ∷ cs) w w'

  -- How a detection over the candidates `cs` that is at the world `w` with `before` tried ends.
  pub data Ends (cs before : List (Candidate W)) (w : W) : Result (Client W) × W → Type 0 where
    found :
        (c : Candidate W) (after : List (Candidate W)) (a : Addr)
        → cs ≡ before ++ (c ∷ after)
        → (probe c w).0 ≡ ok a
        → Ends cs before w (ok (c.new gateway), (probe c w).1)
    stopped :
        (c : Candidate W) (after : List (Candidate W)) (x e : Error)
        → cs ≡ before ++ (c ∷ after)
        → (probe c w).0 ≡ err x
        → ctx_err (probe c w).1 ≡ some e
        → Ends cs before w (err e, (probe c w).1)
    exhausted :
        cs ≡ before
        → Ends cs before w
            (err (failed "daemon: no supported port-mapping protocol found on gateway"), w)

  later :
      (c : Candidate W) {cs before : List (Candidate W)} {w : W} {r : Result (Client W) × W}
      → Ends cs before w r
      → Ends (c ∷ cs) (c ∷ before) w r
  later c (found d after a e o) = found d after a (ap (λ cs. c ∷ cs) e) o
  later c (stopped d after x e p o q) = stopped d after x e (ap (λ cs. c ∷ cs) p) o q
  later c (exhausted e) = exhausted (ap (λ cs. c ∷ cs) e)

  -- `detect` probes the candidates in their order and stops at the first that answers, whose client it
  -- returns. All before that one have failed, each with the context still alive after it. If there is no
  -- such candidate, the result is the context's error after the first failed probe that ends with the
  -- context done, or else, with every candidate tried, the error that no protocol was found.
  pub detect-Ends :
      (cs : List (Candidate W)) (w : W)
      → (before : List (Candidate W)) × (w1 : W) × AllFail before w w1
        × Ends cs before w1 (detect ctx_err gateway cs timeout w)
  unfolding detect
  detect-Ends [] w = ([], w, untried, exhausted refl)
  detect-Ends (c ∷ cs) w = elim (Result-cases (probe c w).0) [
    | inl (a, o) ↦ ([], w, untried, rw (o, detect) (found c cs a refl o))
    | inr (x, o) ↦ elim (Option-cases (ctx_err (probe c w).1)) [
      | inl alive ↦
          let (before, w1, f, e) = detect-Ends cs (probe c w).1 in
          (c ∷ before, w1, fails x o alive f, rw (o, alive, detect) (later c e))
      | inr (y, done) ↦ ([], w, untried, rw (o, done, detect) (stopped c cs x y refl o done))
    ]
  ]
