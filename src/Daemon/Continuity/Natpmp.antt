-- ===== src/Daemon/Continuity/Natpmp.antt =====
-- The whole program of internal/daemon/wiring.go, with the NAT-PMP client, a gateway that speaks RFC
-- 6886, and a network that loses datagrams between them.
use nat_pmp.Common.{
  ℕ, ◌+◌, ◌*◌, ◌≤◌, ◌<◌, ◌^◌, ◌%◌, ◌≡◌, ◌≢◌, refl, arith, Bool, true, false, List, map, some,
  contains, ok, nat_eq, string_eq,
}
use nat_pmp.Common.Dict.{lookup}
use nat_pmp.Common.Int.{pos, is_nonpositive, nanoseconds, second}
use nat_pmp.Addr.{Addr, v4}
use nat_pmp.Mapping.{Protocol, Lease, lifetime_or, wire_seconds}
use nat_pmp.Portmapper.{running}
use nat_pmp.Network.{History}
use nat_pmp.Network.Exchange.Served.{Delivers, IsFair}
use nat_pmp.Natpmp.Client as Client
use nat_pmp.Natpmp.Gateway.{Gateway, IsProper, serve}
use nat_pmp.Natpmp.Gateway.Served.{known_opcode, map-served}
use nat_pmp.Config.Requests.{Config, requests}
use nat_pmp.Config.Requests as Expansion
use nat_pmp.Config.Expansion.{requests-keys}
use nat_pmp.Config.Validate.{validate}
use nat_pmp.Config.Validate.Wellformed.{validate-requests}
use nat_pmp.Portcheck as Portcheck
use nat_pmp.Daemon.State.{Host, Daemon, Key, key_eq, key_of, renew_round}
use nat_pmp.Daemon.Wiring.{World, System, within, natpmp_client, new}
use nat_pmp.Daemon.Run.Reach.{Reaches}
use nat_pmp.Daemon.Punctual.{Punctual}
use nat_pmp.Daemon.Continuity.{Serves}
use nat_pmp.Daemon.Continuity.Unbroken.{pass_time, Reaches-unbroken}

lasting : (n : ℕ) → n ≢ 0 → is_nonpositive (pos (n * second)) ≡ false
lasting n h = ground arith

module _ {O U : Type 0} (sys : System O U) (cfg : Config) (gateway : Addr) where
  -- The daemon's parts, with the client that detection has chosen.
  abbrev pub host : Host (World O)
  host = new sys cfg (natpmp_client sys gateway)

  -- The environment, from the daemon's calls of `Map` on: no call of the network fails, the context
  -- is never done, and no datagram comes but the gateway's answers; these are as RFC 6886 says, with
  -- leases of at least `life`, and of any four datagrams in a row one is answered; the clock that a
  -- call reads is not behind; and something listens, or the check fails.
  pub record IsServed (g : Gateway) (clock : World O → ℕ) (life : ℕ) : Type 0 where
    pub arrives : World O → ℕ → Bool
    pub delivers :
        (w : World O)
        → Delivers
            (sys.net w running)
            (Client.server_addr (Client.new gateway))
            (serve g)
            (arrives w)
    pub fair : (w : World O) → IsFair 4 (arrives w)
    pub proper : IsProper g
    pub lasts : (s : ℕ) → life ≤ g.lifetime s * second
    pub reads : (w : World O) (h : History) → clock w ≤ (sys.net w running).now h
    pub listening :
        (p : Protocol) (port : ℕ) (w : World O)
        → Portcheck.has_listener (sys.open_file w) p port ≢ ok false

  module _ (clock : World O → ℕ) (keys : List Key)
      (ports : (k : Key) → contains keys k ≡ true → k.internal_port < 2 ^ 16) where
    host-Serves : (g : Gateway) (life : ℕ) → IsServed g clock life → Serves host clock keys life
    unfolding new natpmp_client within Client.new
    host-Serves g life s = record {
      grants = λ k r w h p i valid.
          let (op, hop) = known_opcode r valid in
          let in_range : r.internal_port < 2 ^ 16 = rw i (ports k h) in
          let c = Client.new gateway in
          let (read, e) =
            map-served (sys.net w running) c g (s.arrives w) (s.delivers w) (s.fair w) s.proper op r
              w.network valid hop in_range in
          let port = (s.proper.assigned r.internal_port (r.external_port % 2 ^ 16)).0 in
          let seconds = wire_seconds (lifetime_or Client.default_lease r) in
          let some_time = (s.proper.lifetime seconds).0 in
          (
            record {
              protocol = r.protocol;
              internal_port = r.internal_port;
              external_port = g.assigned r.internal_port (r.external_port % 2 ^ 16);
              external_ip = v4 g.address;
              lifetime = pos (g.lifetime seconds * second);
              acquired = (sys.net w running).now read;
            },
            e,
            record {
              protocol = refl;
              internal_port = refl;
              external_port = port;
              lifetime = lasting (g.lifetime seconds) some_time;
            },
            s.lasts seconds,
            s.reads w read,
          );
      listening = λ p port w e. s.listening p port w e;
    }

  -- Say that the program runs with the NAT-PMP client against a gateway that answers as RFC 6886
  -- says and grants what it is asked for, with leases of at least `life`; that under the contexts
  -- of `Map` no call of the network fails, that is no listening, no write and no setting of a
  -- deadline, the context is never done, and nothing is read but the gateway's answers; that of any
  -- four datagrams in a row one is answered, and what is not answered ends in a timeout; that each
  -- call of the host takes at most `tick`, a timer is at most `lag` late, and a call reads a clock
  -- that is not behind; that something listens on the ports, or the check fails; that the ports are
  -- of 16 bits, and the configuration is valid for the interfaces at any time. If twice the time of
  -- two passes, two calls and `lag` is less than `life`, then every configured mapping has a lease
  -- at the top of every round, and that lease has not run out at the end of the round.
  pub natpmp-unbroken :
      (g : Gateway) (clock : World O → ℕ) (tick lag life : ℕ) (start : Expansion.Host)
      → let keys = map key_of (requests start cfg) in
        Punctual host clock tick lag
        → IsServed g clock life
        → ((w : World O) → validate (sys.interfaces w) cfg ≡ ok tt)
        → ((k : Key) → contains keys k ≡ true → k.internal_port < 2 ^ 16)
        → 2 * (2 * pass_time tick keys + 2 * tick + lag) < life
        → (d : Daemon (World O)) (k : Key) → contains keys k ≡ true
        → Reaches host d
        → (l : Lease) × (lookup k d.leases ≡ some l)
          × (clock (renew_round host d).world + tick < l.acquired + nanoseconds l.lifetime)
  unfolding new
  natpmp-unbroken g clock tick lag life start punctual served valid ports enough d k h r =
      let keys = map key_of (requests start cfg) in
      Reaches-unbroken host clock tick lag punctual keys life
        (host-Serves clock keys ports g life served)
        (λ w. requests-keys (sys.interfaces w) start cfg)
        (λ w. (validate-requests (sys.interfaces w) cfg (valid w)).0) k enough h r
