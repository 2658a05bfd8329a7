-- ===== src/Network/Exchange/Calm.antt =====
-- Attempts on a network on which no call fails.
use nat_pmp.Common.{ℕ, ◌≡◌, refl, arith, String, List, ◌∷◌, none, length, nat_eq, ok}
use nat_pmp.Addr.{AddrPort}
use nat_pmp.Network.{Net, History, checked, wrote, asked_time}
use nat_pmp.Network.Exchange.{await_response, attempt, deadline_for}
use nat_pmp.Network.Exchange.Answer.{sent, waiting}

-- The context lives, every datagram is written whole, and every deadline can be set.
pub record IsCalm (net : Net) : Type 0 where
  pub alive : (h : History) → net.ctx_err h ≡ none
  pub writes_all : (h : History) (b : List ℕ) (to : AddrPort) → net.write h b to ≡ ok (length b)
  pub sets_deadline : (h : History) (dl : ℕ) → net.refuse_deadline h dl ≡ none

module _ (net : Net) (proto : String) (server : AddrPort) (buf_len resp_len : ℕ) (calm : IsCalm net)
    (req : List ℕ) (timeout : ℕ) (h : History) where
  -- An attempt sends the request and waits.
  pub attempt-waits :
      attempt net proto server buf_len resp_len req timeout h
      ≡ await_response net proto server buf_len resp_len 16
          (waiting net proto server buf_len resp_len req timeout h)
  unfolding attempt waiting
  attempt-waits =
      let h2 = wrote req server ∷ checked ∷ h in
      let dl = deadline_for net proto server buf_len resp_len (net.now h2) timeout in
      ground (
        arith,
        calm.alive h,
        calm.writes_all (checked ∷ h) req server,
        calm.sets_deadline (asked_time ∷ h2) dl,
      )

  pub sent-waiting :
      sent (waiting net proto server buf_len resp_len req timeout h) ≡ (req, server) ∷ sent h
  unfolding waiting
  sent-waiting = refl
