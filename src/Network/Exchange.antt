-- ===== src/Network/Exchange.antt =====
-- The request loop that internal/portmapper/natpmp/natpmp.go (`exchange`) and
-- internal/portmapper/pcp/pcp.go (`exchangeOn`) both have: send, wait, retransmit with a doubled
-- timeout. The two differ in the buffer's size, the least response, and the prefix of the errors.
pub mod Answer
pub mod Backoff
pub mod Destination
pub mod Calm
pub mod Loss
pub mod Served
use nat_pmp.Common.{
  ℕ, zero, suc, ◌+◌, ◌*◌, String, Bool, true, false, List, [], ◌∷◌, Option, none, some,
}
use nat_pmp.Common.{length, take, ltb, ◌==◌, ◌!=◌, nat_eq, if◌then◌else◌}
use nat_pmp.Common.{Error, failed, wrapped, Result, ok, err}
use nat_pmp.Addr.{AddrPort, addr_port_eq}
use nat_pmp.Network.{
  Net, History, Read, datagram, timed_out, read_error, checked, wrote, asked_time, set_deadline,
  received,
}
use Prim.Native.String.{◌++◌ as ◌<>◌}

-- `maxIgnoredResponses` of both clients.
abbrev pub max_ignored_responses : ℕ
max_ignored_responses = 16

-- How the inner loop ends: with a response, with an early return, or by `break`.
pub data Wait : Type 0 where
  got : List ℕ → Wait
  stop : Error → Wait
  give_up : Wait

-- What the outer loop does with the end of an attempt.
abbrev pub resume :
    Wait × History → (History → Result (List ℕ) × History) → Result (List ℕ) × History
resume (got b, h) again = (ok b, h)
resume (stop e, h) again = (err e, h)
resume (give_up, h) again = again h

module _ (net : Net) (proto : String) (server : AddrPort) (buf_len resp_len : ℕ) where
  -- A response from the server, which `buf` cuts off at its own length.
  unfoldable pub take_response : List ℕ → Wait
  take_response d =
      if ltb (length d) resp_len then stop (failed (proto <> ": short response")) else got d

  -- The inner loop. `left` is `maxIgnoredResponses - ignored`, so `ignored++` and the test
  -- `ignored >= maxIgnoredResponses` are the step down to 0 and the clause for 0.
  unfoldable pub await_response : ℕ → History → Wait × History
  unfolding take_response
  await_response zero h = (give_up, h)
  await_response (suc left) h =
      let h' = checked ∷ h in
      elim (net.ctx_err h) [
        | some e ↦ (stop e, h')
        | none ↦
            let reply = net.read h' in
            let after = received reply ∷ h' in
            elim reply [
              | timed_out ↦ (give_up, after)
              | read_error e ↦ (stop (wrapped (proto <> ": read") e), after)
              | datagram d from ↦ elim (from != server) [
                | true ↦ await_response left after
                | false ↦ (take_response (take buf_len d), after)
              ]
            ]
      ]

  -- now + timeout, or the context's deadline if that is earlier.
  unfoldable pub deadline_for : ℕ → ℕ → ℕ
  deadline_for now timeout = elim net.ctx_deadline [
    | none ↦ now + timeout
    | some dl ↦ if ltb dl (now + timeout) then dl else now + timeout
  ]

  -- One attempt, up to the inner loop: the context, the write, the deadline.
  unfoldable pub attempt : List ℕ → ℕ → History → Wait × History
  unfolding deadline_for
  attempt req timeout h =
      let h1 = checked ∷ h in
      elim (net.ctx_err h) [
        | some e ↦ (stop e, h1)
        | none ↦
            let h2 = wrote req server ∷ h1 in
            elim (net.write h1 req server) [
              | err e ↦ (stop (wrapped (proto <> ": write") e), h2)
              | ok n ↦ elim (n != length req) [
                | true ↦ (stop (failed (proto <> ": short write")), h2)
                | false ↦
                    let h3 = asked_time ∷ h2 in
                    let deadline = deadline_for (net.now h2) timeout in
                    let h4 = set_deadline deadline ∷ h3 in
                    elim (net.refuse_deadline h3 deadline) [
                      | some e ↦ (stop (wrapped (proto <> ": set deadline") e), h4)
                      | none ↦ await_response max_ignored_responses h4
                    ]
              ]
            ]
      ]

  -- The outer loop, with the attempts that are left, and the check behind it. A timeout is a
  -- number of nanoseconds without a wrap: `New` starts it at 250 ms and doubles it four times.
  unfoldable pub attempts : ℕ → List ℕ → ℕ → History → Result (List ℕ) × History
  attempts zero req timeout h =
      let h' = checked ∷ h in
      elim (net.ctx_err h) [
        | some e ↦ (err e, h')
        | none ↦ (err (failed (proto <> ": no response")), h')
      ]
  attempts (suc left) req timeout h =
      resume (attempt req timeout h) (attempts left req (timeout * 2))
