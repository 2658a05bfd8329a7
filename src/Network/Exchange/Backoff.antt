-- ===== src/Network/Exchange/Backoff.antt =====
-- How long an exchange waits in each attempt.
use native.Mathlib.Nat.{pow-suc}
use nat_pmp.Common.{
  ℕ, zero, suc, ◌+◌, ◌-◌, ◌*◌, ◌^◌, ◌≤◌, ◌≡◌, refl, arith, String, List, [], ◌∷◌, ◌⊎◌, inl, inr,
  some, Option-cases, nat_eq, Result,
}
use nat_pmp.Addr.{AddrPort, addr_port_eq}
use nat_pmp.Network.{Net, History, checked, wrote, asked_time, set_deadline, received}
use nat_pmp.Network.Exchange.{
  Wait, got, stop, give_up, resume, await_response, deadline_for, attempt, attempts,
}
use nat_pmp.Network.Exchange.Answer.{waiting}

doubled :
    (first timeout n m : ℕ) → timeout ≡ first * 2 ^ n → m ≡ suc n → timeout * 2 ≡ first * 2 ^ m
doubled first timeout n m e f = rw (e, f, pow-suc) (grind arith)

-- How often a read deadline was set.
abbrev pub deadlines : History → ℕ
deadlines [] = 0
deadlines (set_deadline dl ∷ h) = suc (deadlines h)
deadlines (_ ∷ h) = deadlines h

module _ (net : Net) where
  -- A deadline that is `wait` after the clock was read, or the context's if that is earlier.
  abbrev pub IsCut : ℕ → ℕ → Type 0
  IsCut dl until =
      (dl ≤ until)
      × ((dl ≡ until) ⊎ (net.ctx_deadline ≡ some dl))
      × ((c : ℕ) → net.ctx_deadline ≡ some c → dl ≤ c)

  -- The same, for a deadline that is set after these calls: the clock was read just before.
  abbrev pub WaitsFor : ℕ → ℕ → History → Type 0
  WaitsFor dl wait (asked_time ∷ h) = IsCut dl (net.now h + wait)
  WaitsFor dl wait _ = ⊥

  -- Since `base` deadlines had been set, the next one waited for `timeout`, and each later one for
  -- twice as long as the one before.
  abbrev pub BacksOff : ℕ → ℕ → History → Type 0
  BacksOff timeout base [] = Unit
  BacksOff timeout base (set_deadline dl ∷ h) =
      (base ≤ deadlines h → WaitsFor dl (timeout * 2 ^ (deadlines h - base)) h)
      × BacksOff timeout base h
  BacksOff timeout base (_ ∷ h) = BacksOff timeout base h

  past-BacksOff : (timeout base : ℕ) (h : History) → deadlines h ≤ base → BacksOff timeout base h
  past-BacksOff timeout base [] le = tt
  past-BacksOff timeout base (set_deadline dl ∷ h) le =
      (λ later. absurd (omega arith), past-BacksOff timeout base h (omega arith))
  past-BacksOff timeout base (_ ∷ h) le = past-BacksOff timeout base h le

module _ (net : Net) (proto : String) (server : AddrPort) (buf_len resp_len : ℕ) where
  deadline_for-IsCut :
      (now timeout : ℕ)
      → IsCut net (deadline_for net proto server buf_len resp_len now timeout) (now + timeout)
  unfolding deadline_for
  deadline_for-IsCut now timeout = elim (Option-cases net.ctx_deadline) [
    | inl e ↦ rw (e, deadline_for) (omega arith, inl refl, λ c x. cc)
    | inr (dl, e) ↦ ground arith
  ]

  await_response-quiet :
      (timeout base left : ℕ) (h : History)
      → BacksOff net timeout base h
      → let h' = (await_response net proto server buf_len resp_len left h).1 in
        BacksOff net timeout base h' × (deadlines h' ≡ deadlines h)
  unfolding await_response
  await_response-quiet timeout base zero h b = (b, refl)
  await_response-quiet timeout base (suc left) h b = ground (
    arith,
    await_response-quiet timeout base left (received (net.read (checked ∷ h)) ∷ checked ∷ h) b,
  )

  waiting-BacksOff :
      (first base : ℕ) (req : List ℕ) (timeout : ℕ) (h : History)
      → timeout ≡ first * 2 ^ (deadlines h - base)
      → BacksOff net first base h
      → let h' = waiting net proto server buf_len resp_len req timeout h in
        BacksOff net first base h' × (deadlines h' ≡ suc (deadlines h))
  unfolding waiting
  waiting-BacksOff first base req timeout h e b =
      let now = net.now (wrote req server ∷ checked ∷ h) in
      ((λ later. rw (← e) (deadline_for-IsCut now timeout), b), refl)

  -- One attempt sets one deadline, unless it ends the exchange.
  attempt-BacksOff :
      (first base : ℕ) (req : List ℕ) (timeout : ℕ) (h : History)
      → timeout ≡ first * 2 ^ (deadlines h - base)
      → BacksOff net first base h
      → let p = attempt net proto server buf_len resp_len req timeout h in
        BacksOff net first base p.1 × (p.0 ≡ give_up → deadlines p.1 ≡ suc (deadlines h))
  unfolding attempt waiting
  attempt-BacksOff first base req timeout h e b =
      let (c, d) = waiting-BacksOff first base req timeout h e b in
      let w = waiting net proto server buf_len resp_len req timeout h in
      ground (arith, await_response-quiet first base 16 w c)

  resume-BacksOff :
      (first base : ℕ) (p : Wait × History) (again : History → Result (List ℕ) × History)
      → BacksOff net first base p.1
      → (p.0 ≡ give_up → BacksOff net first base (again p.1).1)
      → BacksOff net first base (resume p again).1
  resume-BacksOff first base (got b, h) again now later = now
  resume-BacksOff first base (stop e, h) again now later = now
  resume-BacksOff first base (give_up, h) again now later = later refl

  attempts-continue :
      (first base left : ℕ) (req : List ℕ) (timeout : ℕ) (h : History)
      → base ≤ deadlines h
      → timeout ≡ first * 2 ^ (deadlines h - base)
      → BacksOff net first base h
      → BacksOff net first base (attempts net proto server buf_len resp_len left req timeout h).1
  unfolding attempts
  attempts-continue first base zero req timeout h le e b =
      let last : (attempts net proto server buf_len resp_len 0 req timeout h).1 ≡ checked ∷ h =
        ground arith in
      rw last b
  attempts-continue first base (suc left) req timeout h le e b =
      let p = attempt net proto server buf_len resp_len req timeout h in
      let (c, d) = attempt-BacksOff first base req timeout h e b in
      resume-BacksOff first base p _ c (λ gone.
        attempts-continue first base left req (timeout * 2) p.1 (omega (arith, d gone))
          (doubled first timeout _ _ e (omega (arith, d gone))) c)

  -- The first read deadline that the loop sets is `timeout` after the reading of the clock just
  -- before, and each later one is twice as long after its own reading as the one before, however the
  -- attempts end; only a deadline of the context that is earlier takes the place of one.
  pub attempts-BacksOff :
      (left : ℕ) (req : List ℕ) (timeout : ℕ) (h : History)
      → BacksOff net timeout
          (deadlines h)
          (attempts net proto server buf_len resp_len left req timeout h).1
  attempts-BacksOff left req timeout h =
      attempts-continue timeout (deadlines h) left req timeout h (omega arith) (grind arith)
        (past-BacksOff net timeout (deadlines h) h (omega arith))
