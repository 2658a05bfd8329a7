-- ===== src/Network/Exchange/Loss.antt =====
-- Lost datagrams.
use nat_pmp.Common.{ℕ, zero, suc, ◌+◌, ◌*◌, ◌≤◌, ◌<◌, ◌≡◌, ap, arith, String, List, ◌∷◌, inl, inr}
use nat_pmp.Common.{length, take, ltb, ltb→lt, ltb→le, Bool-cases, nat_eq, ok}
use nat_pmp.Addr.{AddrPort, addr_port_eq}
use nat_pmp.Network.{Net, History, datagram, timed_out, checked, received}
use nat_pmp.Network.Exchange.{got, give_up, await_response, attempts}
use nat_pmp.Network.Exchange.Calm.{IsCalm, attempt-waits, sent-waiting}
use nat_pmp.Network.Exchange.Answer.{sent, waiting}

-- A network on which nothing fails, but which answers with `d` only once `lost` more datagrams
-- than the ones already sent have gone out; until then every read times out.
pub record AnswersAfter (net : Net) (server : AddrPort) (d : List ℕ) (lost : ℕ) : Type 0 where
  pub calm : IsCalm net
  pub silent : (h : History) → length (sent h) ≤ lost → net.read h ≡ timed_out
  pub answers : (h : History) → lost < length (sent h) → net.read h ≡ datagram d server

module _ (net : Net) (proto : String) (server : AddrPort) (buf_len resp_len : ℕ) (d : List ℕ)
    (lost : ℕ) (w : AnswersAfter net server d lost)
    (enough : resp_len ≤ length (take buf_len d)) where
  await_response-answers :
      (left : ℕ) (h : History)
      → lost < length (sent h)
      → (await_response net proto server buf_len resp_len (suc left) h).0 ≡ got (take buf_len d)
  unfolding await_response
  await_response-answers left h late = ground (arith, w.calm.alive h, w.answers (checked ∷ h))

  await_response-silent :
      (left : ℕ) (h : History)
      → length (sent h) ≤ lost
      → await_response net proto server buf_len resp_len (suc left) h
        ≡ (give_up, received timed_out ∷ checked ∷ h)
  unfolding await_response
  await_response-silent left h early = ground (arith, w.calm.alive h, w.silent (checked ∷ h))

  -- On a network on which nothing fails, with an answer that is long enough: if nothing has been
  -- answered yet and the answer comes within the attempts that are left, the
  -- loop returns it, however many datagrams were lost before.
  pub attempts-answers :
      (left : ℕ) (req : List ℕ) (timeout : ℕ) (h : History)
      → length (sent h) ≤ lost
      → lost < length (sent h) + left
      → (attempts net proto server buf_len resp_len left req timeout h).0 ≡ ok (take buf_len d)
  unfolding attempts
  attempts-answers zero req timeout h early late = absurd (omega arith)
  attempts-answers (suc left) req timeout h early late =
      let h1 = waiting net proto server buf_len resp_len req timeout h in
      let count : length (sent h1) ≡ suc (length (sent h)) =
        ap length (sent-waiting net proto server buf_len resp_len w.calm req timeout h) in
      elim (Bool-cases (ltb lost (length (sent h1)))) [
        | inl due ↦ ground (
          arith,
          attempt-waits net proto server buf_len resp_len w.calm req timeout h,
          await_response-answers 15 h1 (ltb→lt _ _ due),
        )
        | inr still ↦
            rw
              (
                attempt-waits net proto server buf_len resp_len w.calm req timeout h,
                await_response-silent 15 h1 (ltb→le _ _ still),
              )
              (attempts-answers left req (timeout * 2) (received timed_out ∷ checked ∷ h1)
                (ltb→le _ _ still) (omega arith))
      ]
