-- ===== src/Network/Exchange/Served.antt =====
-- The request loop against a server, over a network that loses datagrams.
use nat_pmp.Common.{
  ℕ, zero, suc, ◌+◌, ◌*◌, ◌≤◌, ◌<◌, ◌≡◌, arith, ap, ◌∙◌, String, Bool, true, false, List, ◌∷◌, none,
  inl, inr, if◌then◌else◌, length, take, Bool-cases, nat_eq, ok,
}
use nat_pmp.Addr.{Addr, AddrPort, addr_port_eq}
use nat_pmp.Network.{Net, History, datagram, timed_out, checked, received}
use nat_pmp.Network.Exchange.{got, give_up, await_response, attempts}
use nat_pmp.Network.Exchange.Calm.{IsCalm, attempt-waits, sent-waiting}
use nat_pmp.Network.Exchange.Answer.{sent, waiting}

-- A network on which no call fails, between a client and a server: what the server answers to the
-- datagram that was sent last arrives, or nothing does, for the n-th datagram as `arrives n` says.
pub record Delivers (net : Net) (server : AddrPort) (serve : List ℕ → List ℕ) (arrives : ℕ → Bool)
    : Type 0 where
  pub calm : IsCalm net
  pub listens : (h : History) (a : Addr) → net.listen h a ≡ none
  pub reads :
      (h : History) (b : List ℕ) (to : AddrPort) (rest : List (List ℕ × AddrPort))
      → sent h ≡ (b, to) ∷ rest
      → net.read h ≡ (if arrives (length (sent h)) then datagram (serve b) server else timed_out)

-- Of any `limit` datagrams in a row, one is answered.
abbrev pub IsFair : ℕ → (ℕ → Bool) → Type 0
IsFair limit arrives = (n : ℕ) → (k : ℕ) × (k < limit) × (arrives (suc (n + k)) ≡ true)

module _ (net : Net) (proto : String) (server : AddrPort) (buf_len resp_len : ℕ)
    (serve : List ℕ → List ℕ) (arrives : ℕ → Bool) (w : Delivers net server serve arrives)
    (req : List ℕ) (enough : resp_len ≤ length (take buf_len (serve req))) where
  await_response-arrived :
      (left : ℕ) (h : History) (rest : List (List ℕ × AddrPort))
      → sent h ≡ (req, server) ∷ rest
      → arrives (length (sent h)) ≡ true
      → (await_response net proto server buf_len resp_len (suc left) h).0
        ≡ got (take buf_len (serve req))
  unfolding await_response
  await_response-arrived left h rest e there =
      ground (arith, w.calm.alive h, w.reads (checked ∷ h) req server rest e)

  await_response-lost :
      (left : ℕ) (h : History) (rest : List (List ℕ × AddrPort))
      → sent h ≡ (req, server) ∷ rest
      → arrives (length (sent h)) ≡ false
      → await_response net proto server buf_len resp_len (suc left) h
        ≡ (give_up, received timed_out ∷ checked ∷ h)
  unfolding await_response
  await_response-lost left h rest e gone =
      ground (arith, w.calm.alive h, w.reads (checked ∷ h) req server rest e)

  pub attempts-served :
      (left timeout : ℕ) (h : History) (k : ℕ)
      → k < left
      → arrives (suc (length (sent h) + k)) ≡ true
      → (attempts net proto server buf_len resp_len left req timeout h).0
        ≡ ok (take buf_len (serve req))
  unfolding attempts
  attempts-served zero timeout h k lt there = absurd (omega arith)
  attempts-served (suc left) timeout h zero lt there =
      let h1 = waiting net proto server buf_len resp_len req timeout h in
      let e = sent-waiting net proto server buf_len resp_len w.calm req timeout h in
      let now : arrives (length (sent h1)) ≡ true =
        ap arrives (omega (arith, ap length e)) ∙ there in
      ground (
        arith,
        attempt-waits net proto server buf_len resp_len w.calm req timeout h,
        await_response-arrived 15 h1 (sent h) e now,
      )
  attempts-served (suc left) timeout h (suc k) lt there =
      let h1 = waiting net proto server buf_len resp_len req timeout h in
      let e = sent-waiting net proto server buf_len resp_len w.calm req timeout h in
      let count : length (sent h1) ≡ suc (length (sent h)) = ap length e in
      elim (Bool-cases (arrives (length (sent h1)))) [
        | inl now ↦ ground (
          arith,
          attempt-waits net proto server buf_len resp_len w.calm req timeout h,
          await_response-arrived 15 h1 (sent h) e now,
        )
        | inr lost ↦
            rw
              (
                attempt-waits net proto server buf_len resp_len w.calm req timeout h,
                await_response-lost 15 h1 (sent h) e lost,
              )
              (attempts-served left (timeout * 2) (received timed_out ∷ checked ∷ h1) k
                (omega arith) (ap arrives (omega arith) ∙ there))
      ]
