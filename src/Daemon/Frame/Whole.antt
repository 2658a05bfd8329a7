-- ===== src/Daemon/Frame/Whole.antt =====
-- The detection and the whole of `Run` of internal/daemon keep what the calls keep.
use nat_pmp.Common.{
  All, ◌≡◌, subst, ℕ, List, [], ◌∷◌, Option, nat_eq, inl, inr, Error, ok, Result-cases,
  Option-cases,
}
use nat_pmp.Addr.{Addr}
use nat_pmp.Portmapper.{Client, bounded}
use nat_pmp.Daemon.State.{Host, key_eq}
use nat_pmp.Daemon.Detect.{Candidate, detect}
use nat_pmp.Common.Run.{Run}
use nat_pmp.Daemon.Run.{launch, run}
use nat_pmp.Daemon.Frame.{ClientKeeps, HostKeeps, Detected}
use nat_pmp.Daemon.Frame.Passes.{renew_loop-Keeps, launch-Keeps}

module _ {W : Type 0} (P : W → Type 0) (ctx_err : W → Option Error) (gateway : Addr)
    (timeout : ℕ) where
  pub detect-Detected :
      (cs : List (Candidate W)) (w : W)
      → All (λ c. ClientKeeps P (c.new gateway)) cs
      → P w
      → Detected P (detect ctx_err gateway cs timeout w)
  unfolding detect
  detect-Detected [] w all p = record { keeps = λ client e. cc (e); holds = p }
  detect-Detected (c ∷ cs) w (k, all) p =
      let answer = (c.new gateway).external_ip (bounded timeout) w in
      let q = k.external_ip (bounded timeout) w p in
      elim (Result-cases answer.0) [
        | inl (a, e) ↦
            rw (e, detect)
              (record { keeps = λ client same. subst (ClientKeeps P) (cc (same)) k; holds = q })
        | inr (x, e) ↦ elim (Option-cases (ctx_err answer.1)) [
          | inr (y, done) ↦
              rw (e, done, detect) (record { keeps = λ client same. cc (same); holds = q })
          | inl alive ↦ rw (e, alive, detect) (detect-Detected cs answer.1 all q)
        ]
      ]

-- The whole of `Run`, once the gateway is found.
pub run-Keeps :
    {W : Type 0} (P : W → Type 0) (gateway : Run W Addr) (detect : Addr → Run W (Client W))
    (host_for : Client W → Host W) (rounds : ℕ) (w : W) (addr : Addr)
    → (gateway w).0 ≡ ok addr
    → Detected P (detect addr (gateway w).1)
    → ((client : Client W) → ClientKeeps P client → HostKeeps P (host_for client))
    → P (run gateway detect host_for rounds w).1
unfolding run
run-Keeps P gateway detect host_for rounds w addr found d host_keeps =
    let detected = detect addr (gateway w).1 in
    elim (Result-cases detected.0) [
      | inr (e, q) ↦ rw (found, q, run) d.holds
      | inl (client, q) ↦
          let keeps = host_keeps client (d.keeps client q) in
          rw (found, q, run)
            (renew_loop-Keeps P (host_for client) keeps rounds
              (launch (host_for client) addr detected.1)
              (launch-Keeps P (host_for client) keeps addr detected.1 d.holds))
    ]
