-- ===== src/Network/Exchange/Answer.antt =====
-- What an exchange returns, and what it has done to get it.
use nat_pmp.Common.{
  ℕ, zero, suc, ◌+◌, ◌*◌, ◌≤◌, ◌≡◌, refl, arith, String, List, [], ◌∷◌, ◌++◌, ◌⊎◌, inl, inr, ap,
  ◌∙◌,
}
use nat_pmp.Common.{length, take, replicate, nat_eq, Result, ok}
use nat_pmp.Addr.{AddrPort, addr_port_eq}
use nat_pmp.Network.{Net, History, datagram, checked, wrote, asked_time, set_deadline, received}
use nat_pmp.Network.Exchange.{
  Wait, got, stop, give_up, resume, await_response, deadline_for, attempt, attempts,
}

-- The datagrams that were sent, the newest first, and the count of the reads.
abbrev pub sent : History → List (List ℕ × AddrPort)
sent [] = []
sent (wrote b to ∷ h) = (b, to) ∷ sent h
sent (_ ∷ h) = sent h

abbrev pub reads : History → ℕ
reads [] = 0
reads (received r ∷ h) = suc (reads h)
reads (_ ∷ h) = reads h

-- The newest call is a read that brought `b` from the server, cut off at the buffer's length.
abbrev pub IsAnswer : AddrPort → ℕ → ℕ → List ℕ → History → Type 0
IsAnswer server buf_len resp_len b (received (datagram d from) ∷ h) =
    (from ≡ server) × (b ≡ take buf_len d) × (resp_len ≤ length b)
IsAnswer server buf_len resp_len b _ = ⊥

module _ (net : Net) (proto : String) (server : AddrPort) (buf_len resp_len : ℕ) where
  await_response-sent :
      (left : ℕ) (h : History)
      → let h' = (await_response net proto server buf_len resp_len left h).1 in
        (sent h' ≡ sent h) × (reads h' ≤ reads h + left)
  unfolding await_response
  await_response-sent zero h = ground arith
  await_response-sent (suc left) h =
      ground (arith, await_response-sent left (received (net.read (checked ∷ h)) ∷ checked ∷ h))

  await_response-got :
      (left : ℕ) (h : History) (b : List ℕ)
      → let (w, h') = await_response net proto server buf_len resp_len left h in
        w ≡ got b → IsAnswer server buf_len resp_len b h'
  unfolding await_response
  await_response-got zero h b e = cc
  await_response-got (suc left) h b e =
      ground (arith, await_response-got left (received (net.read (checked ∷ h)) ∷ checked ∷ h) b)

  -- The calls made when an attempt begins to wait.
  unfoldable pub waiting : List ℕ → ℕ → History → History
  waiting req timeout h =
      let h2 = wrote req server ∷ checked ∷ h in
      set_deadline (deadline_for net proto server buf_len resp_len (net.now h2) timeout)
      ∷ asked_time
      ∷ h2

  attempt-sent :
      (req : List ℕ) (timeout : ℕ) (h : History)
      → let h' = (attempt net proto server buf_len resp_len req timeout h).1 in
        ((sent h' ≡ sent h) ⊎ (sent h' ≡ (req, server) ∷ sent h)) × (reads h' ≤ reads h + 16)
  unfolding attempt waiting
  attempt-sent req timeout h = ground (arith, await_response-sent 16 (waiting req timeout h))

  attempt-got :
      (req : List ℕ) (timeout : ℕ) (h : History) (b : List ℕ)
      → let (w, h') = attempt net proto server buf_len resp_len req timeout h in
        w ≡ got b → IsAnswer server buf_len resp_len b h'
  unfolding attempt waiting
  attempt-got req timeout h b e = ground (arith, await_response-got 16 (waiting req timeout h) b)

-- From `h` to `h'` the request was sent to the server at most `left` times, nothing else was sent,
-- and there were at most sixteen reads for each time.
pub record Sends (req : List ℕ) (server : AddrPort) (left : ℕ) (h h' : History) : Type 0 where
  pub times : ℕ
  pub within : times ≤ left
  pub only : sent h' ≡ replicate times (req, server) ++ sent h
  pub read_within : reads h' ≤ reads h + 16 * left

replicate-cons {ℓ} :
    {A : Type ℓ} (n : ℕ) (a : A) (xs : List A)
    → replicate n a ++ (a ∷ xs) ≡ a ∷ (replicate n a ++ xs)
replicate-cons zero a xs = refl
replicate-cons (suc n) a xs = ap (λ ys. a ∷ ys) (replicate-cons n a xs)

abbrev SentOnce : List ℕ → AddrPort → History → History → Type 0
SentOnce req server h h' =
    ((sent h' ≡ sent h) ⊎ (sent h' ≡ (req, server) ∷ sent h)) × (reads h' ≤ reads h + 16)

module _ (req : List ℕ) (server : AddrPort) where
  Sends-once :
      (left : ℕ) (h h' : History) → SentOnce req server h h' → Sends req server (suc left) h h'
  Sends-once left h h' (inl same, r) = record {
    times = 0;
    within = omega arith;
    only = same;
    read_within = omega arith;
  }
  Sends-once left h h' (inr more, r) = record {
    times = 1;
    within = omega arith;
    only = more;
    read_within = omega arith;
  }

  Sends-more :
      (left : ℕ) (h h1 h' : History)
      → SentOnce req server h h1
      → Sends req server left h1 h'
      → Sends req server (suc left) h h'
  Sends-more left h h1 h' (inl same, r) s = record {
    times = s.times;
    within = omega arith;
    only = s.only ∙ ap (λ xs. replicate s.times (req, server) ++ xs) same;
    read_within = omega arith;
  }
  Sends-more left h h1 h' (inr more, r) s = record {
    times = suc s.times;
    within = omega arith;
    only =
        s.only
        ∙ ap (λ xs. replicate s.times (req, server) ++ xs) more
        ∙ replicate-cons s.times (req, server) (sent h);
    read_within = omega arith;
  }

  Sends-resume :
      (left : ℕ) (h : History) (p : Wait × History) (again : History → Result (List ℕ) × History)
      → SentOnce req server h p.1
      → Sends req server left p.1 (again p.1).1
      → Sends req server (suc left) h (resume p again).1
  Sends-resume left h (got b, h') again once more = Sends-once left h h' once
  Sends-resume left h (stop e, h') again once more = Sends-once left h h' once
  Sends-resume left h (give_up, h') again once more = Sends-more left h h' _ once more

module _ (net : Net) (proto : String) (server : AddrPort) (buf_len resp_len : ℕ) where
  -- In at most `left` attempts the loop sends nothing but the request, to nobody but the server, at
  -- most `left` times, and it reads at most sixteen datagrams for each; so it ends, whatever
  -- datagrams others send.
  pub attempts-Sends :
      (left : ℕ) (req : List ℕ) (timeout : ℕ) (h : History)
      → Sends req server left h (attempts net proto server buf_len resp_len left req timeout h).1
  unfolding attempts
  attempts-Sends zero req timeout h =
      let last : (attempts net proto server buf_len resp_len 0 req timeout h).1 ≡ checked ∷ h =
        ground arith in
      rw last (record { times = 0; within = omega arith; only = refl; read_within = omega arith })
  attempts-Sends (suc left) req timeout h =
      let p = attempt net proto server buf_len resp_len req timeout h in
      Sends-resume req server left h p _
        (attempt-sent net proto server buf_len resp_len req timeout h)
        (attempts-Sends left req (timeout * 2) p.1)

  resume-got :
      (p : Wait × History) (again : History → Result (List ℕ) × History) (b : List ℕ)
      → (p.0 ≡ got b → IsAnswer server buf_len resp_len b p.1)
      → ((again p.1).0 ≡ ok b → IsAnswer server buf_len resp_len b (again p.1).1)
      → (resume p again).0 ≡ ok b
      → IsAnswer server buf_len resp_len b (resume p again).1
  resume-got (got c, h) again b now later e = now (cc)
  resume-got (stop x, h) again b now later e = cc
  resume-got (give_up, h) again b now later e = later e

  -- A response is what the newest call has read from the server, cut off at the buffer's length,
  -- and it has at least the length that was asked for.
  pub attempts-IsAnswer :
      (left : ℕ) (req : List ℕ) (timeout : ℕ) (h : History) (b : List ℕ)
      → (attempts net proto server buf_len resp_len left req timeout h).0 ≡ ok b
      → IsAnswer server buf_len resp_len b
          (attempts net proto server buf_len resp_len left req timeout h).1
  unfolding attempts
  attempts-IsAnswer zero req timeout h b e = absurd (ground arith)
  attempts-IsAnswer (suc left) req timeout h b e =
      let p = attempt net proto server buf_len resp_len req timeout h in
      resume-got p _ b (attempt-got net proto server buf_len resp_len req timeout h b)
        (attempts-IsAnswer left req (timeout * 2) p.1 b) e
