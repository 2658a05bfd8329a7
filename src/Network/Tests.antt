-- ===== src/Network/Tests.antt =====
-- A host on whose network some datagrams are lost, and runs of the request loop on it.
use nat_pmp.Common.{
  ℕ, ◌≡◌, refl, arith, List, [], ◌∷◌, none, some, length, ltb, if◌then◌else◌, nat_eq, ok, replicate,
}
use nat_pmp.Addr.{Addr, AddrPort, v4, addr_port_eq, addr_eq}
use nat_pmp.Network.{Net, History, datagram, timed_out}
use nat_pmp.Network.Exchange.{attempts, await_response, attempt, take_response, deadline_for}
use nat_pmp.Network.Exchange.Answer.{sent, Sends, attempts-Sends}
use nat_pmp.Network.Exchange.Backoff.{BacksOff, attempts-BacksOff}
use nat_pmp.Network.Exchange.Loss.{AnswersAfter, attempts-answers}

abbrev pub gateway : Addr
gateway = v4 0xc0a80101

abbrev pub server : AddrPort
server = record { addr = gateway; port = 5351 }

-- Nothing fails; once `lost` datagrams have gone out, the next ones are answered by `reply`.
abbrev pub lossy : ℕ → (History → List ℕ) → Net
lossy lost reply = record {
  ctx_err = λ h. none;
  ctx_deadline = none;
  listen = λ h a. none;
  probe = λ h to. ok (some (192 ∷ 168 ∷ 1 ∷ 2 ∷ []));
  nonce = λ h. ok (replicate 12 7);
  write = λ h b to. ok (length b);
  now = λ h. 0;
  refuse_deadline = λ h dl. none;
  read = λ h. if ltb lost (length (sent h)) then datagram (reply h) server else timed_out;
}

abbrev pong : List ℕ
pong = 1 ∷ 2 ∷ 3 ∷ 4 ∷ []

abbrev net : Net
net = lossy 2 (λ h. pong)

lossy-AnswersAfter : AnswersAfter net server pong 2
lossy-AnswersAfter = record {
  calm = record { alive = λ h. refl; writes_all = λ h b to. refl; sets_deadline = λ h dl. refl };
  silent = λ h early. ground arith;
  answers = λ h late. ground arith;
}

attempts-answers_test : (attempts net "test" server 8 4 4 (9 ∷ []) 250 []).0 ≡ ok pong
attempts-answers_test =
    attempts-answers net "test" server 8 4 pong 2 lossy-AnswersAfter (omega arith) 4 (9 ∷ []) 250 []
      (omega arith) (omega arith)

attempts-Sends_example :
    Sends (9 ∷ []) server 4 [] (attempts net "test" server 8 4 4 (9 ∷ []) 250 []).1
attempts-Sends_example = attempts-Sends net "test" server 8 4 4 (9 ∷ []) 250 []

attempts-BacksOff_example : BacksOff net 250 0 (attempts net "test" server 8 4 4 (9 ∷ []) 250 []).1
attempts-BacksOff_example = attempts-BacksOff net "test" server 8 4 4 (9 ∷ []) 250 []

-- Three datagrams go out: two are lost.
three_sent : length (sent (attempts net "test" server 8 4 4 (9 ∷ []) 250 []).1) ≡ 3
unfolding attempts await_response attempt take_response deadline_for addr_port_eq addr_eq nat_eq
three_sent = refl
