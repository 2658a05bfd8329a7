-- ===== src/Network.antt =====
-- The socket, context and clock calls of the packet clients. Each call is answered by the host
-- and the network, a parameter, from all that happened before; the calls made so far are a
-- history, the newest first.
pub mod Exchange
pub mod Tests
use nat_pmp.Common.{ℕ, String, Option, List, [], ◌∷◌, Result, ok, err, Error, failed, wrapped}
use nat_pmp.Addr.{Addr, AddrPort, invalid, v4, v6}

-- What `ReadFromUDPAddrPort` brings: a datagram with its sender, a timeout, or another error.
pub data Read : Type 0 where
  datagram : List ℕ → AddrPort → Read
  timed_out : Read
  read_error : Error → Read

pub data Event : Type 0 where
  checked : Event
  listened : Addr → Event
  probed : Event
  drew_nonce : Event
  wrote : List ℕ → AddrPort → Event
  asked_time : Event
  set_deadline : ℕ → Event
  received : Read → Event
  closed : Event

abbrev pub History : Type 0
History = List Event

pub record Net : Type 0 where
  -- ctx.Err() and ctx.Deadline()
  pub ctx_err : History → Option Error
  pub ctx_deadline : Option ℕ
  -- net.ListenUDP at a source address; the zero address leaves the choice to the host
  pub listen : History → Addr → Option Error
  -- net.Dial to the server: the local IP as bytes, if the local address is a UDP address
  pub probe : History → AddrPort → Result (Option (List ℕ))
  -- rand.Read into twelve bytes
  pub nonce : History → Result (List ℕ)
  -- the count of bytes written
  pub write : History → List ℕ → AddrPort → Result ℕ
  pub now : History → ℕ
  pub refuse_deadline : History → ℕ → Option Error
  pub read : History → Read
