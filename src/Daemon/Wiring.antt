-- ===== src/Daemon/Wiring.antt =====
-- internal/daemon/wiring.go, and `New` of daemon.go: the parts that the daemon is made of.
use nat_pmp.Common.{
  ℕ, String, true, false, List, [], Option, none, some, length, ◌==◌, nat_eq, string_eq,
  if◌then◌else◌,
}
use nat_pmp.Common.{Error, failed, wrapped, Result, ok, err}
use nat_pmp.Common.Int.{nanoseconds}
use nat_pmp.Common.Run.{Run}
use nat_pmp.Addr.{Addr, unmap, addr_from4, addr_from16}
use nat_pmp.Portmapper.{Client, Context, running}
use nat_pmp.Network.{Net, History}
use nat_pmp.Config.Requests.{Config, requests}
use nat_pmp.Config.Requests as Expansion
use nat_pmp.Netgw.{parse_default_gateway}
use nat_pmp.Portcheck as Portcheck
use nat_pmp.Natpmp.Client as Natpmp
use nat_pmp.Pcp.Client as Pcp
use nat_pmp.Upnp.Client as Upnp
use nat_pmp.Upnp.Device.{Parsers}
use nat_pmp.Upnp.Soap as Soap
use nat_pmp.Daemon.State.{Host}
use nat_pmp.Daemon.Detect.{default_candidates, default_detect}
use nat_pmp.Daemon.Run.{run}

-- The world of the program: the packet clients' calls, the fields of the PCP and the UPnP client, and
-- what stands outside, such as the time and the files.
pub record World (O : Type 0) : Type 0 where
  pub network : History
  pub nonces : List (Pcp.NonceKey × List ℕ)
  pub upnp : Upnp.State
  pub outside : O

-- Nothing has been called, and no field is set.
abbrev pub fresh_world : {O : Type 0} → O → World O
fresh_world o = record { network = []; nonces = []; upnp = Upnp.new []; outside = o }

-- What the host, the network and the libraries answer in a world.
pub record System (O U : Type 0) : Type 0 where
  pub net : World O → Context → Net
  pub soap : World O → Context → Soap.Net
  pub parsers : Parsers U
  pub interfaces : World O → Expansion.Host
  -- os.Open of the routing table, and what the scanner reads of it
  pub open_routes : World O → Result (List (List ℕ) × Option Error)
  pub open_file : World O → String → Portcheck.Opened
  -- net.Dial of a UDP socket to port 9: the local IP as bytes, if the local address is a UDP address
  pub dial_udp : World O → Addr → Result (Option (List ℕ))
  pub ctx_err : World O → Option Error
  -- The clock and a timer change only what stands outside.
  pub now : World O → ℕ × O
  pub sleep : ℕ → World O → O

unfoldable pub local_addr_from : Result (Option (List ℕ)) → Result Addr
local_addr_from (err e) = err (wrapped "daemon: determine local address" e)
local_addr_from (ok none) = err (failed "daemon: invalid local address")
local_addr_from (ok (some ip)) = elim (length ip == 4) [
  | true ↦ ok (unmap (addr_from4 ip))
  | false ↦ elim (length ip == 16) [
    | true ↦ ok (unmap (addr_from16 ip))
    | false ↦ err (failed "daemon: invalid local address")
  ]
]

-- A client whose state is a part of the world, and whose surroundings may depend on all of it.
module _ {W S : Type 0} (get : W → S) (put : S → W → W) where
  on_part : {A : Type 0} → Run S A → Run W A
  on_part call w = let (r, s) = call (get w) in (r, put s w)

  unfoldable pub within : String → (W → Client S) → Client W
  unfolding on_part
  within name client = record {
    name = name;
    external_ip = λ ctx w. on_part ((client w).external_ip ctx) w;
    map = λ ctx r w. on_part ((client w).map ctx r) w;
    unmap = λ ctx r w. on_part ((client w).unmap ctx r) w;
  }

module _ {O U : Type 0} (sys : System O U) where
  unfoldable pub natpmp_client : Addr → Client (World O)
  natpmp_client gateway =
      within (λ w. w.network) (λ h w. record w { network = h }) Natpmp.protocol_name
        (λ w. Natpmp.client (sys.net w) (Natpmp.new gateway))

  unfoldable pub pcp_client : Addr → Client (World O)
  pcp_client gateway =
      within (λ w. record { history = w.network; nonces = w.nonces })
        (λ s w. record w { network = s.history; nonces = s.nonces }) Pcp.protocol_name
        (λ w. Pcp.client (sys.net w) (Pcp.new gateway))

  unfoldable pub upnp_client : Client (World O)
  upnp_client =
      within (λ w. w.upnp) (λ s w. record w { upnp = s }) Upnp.protocol_name
        (λ w. Upnp.client (sys.soap w) sys.parsers)

  -- `netgw.Default`
  unfoldable pub default_gateway : Run (World O) Addr
  default_gateway w = elim (sys.open_routes w) [
    | err e ↦ (err (wrapped "netgw: open" e), w)
    | ok (lines, stopped) ↦ (parse_default_gateway lines stopped, w)
  ]

  unfoldable pub local_addr_for : Addr → Run (World O) Addr
  local_addr_for gateway w = (local_addr_from (sys.dial_udp w gateway), w)

  -- `SetInternalClient`, if the client is UPnP's, which its name tells.
  unfoldable pub advertise : Client (World O) → Addr → World O → World O
  advertise client local w =
      if client.name == Upnp.protocol_name
      then record w { upnp = Upnp.set_internal_client (sys.soap w running) local w.upnp }
      else w

  module _ (cfg : Config) where
    -- `New` without options, with the client that `Run` then stores.
    unfoldable pub new : Client (World O) → Host (World O)
    new client = record {
      client = client;
      requests = λ w. requests (sys.interfaces w) cfg;
      listener = λ protocol port w. (Portcheck.has_listener (sys.open_file w) protocol port, w);
      local_addr = local_addr_for;
      now = λ w. let (t, o) = sys.now w in (t, record w { outside = o });
      advertise = advertise client;
      sleep = λ delay w. record w { outside = sys.sleep delay w };
    }

    -- `d.detect`
    unfoldable pub detect_client : Addr → Run (World O) (Client (World O))
    detect_client gateway =
        default_detect sys.ctx_err (default_candidates natpmp_client pcp_client upnp_client)
          cfg.detect.order (nanoseconds cfg.detect.timeout) gateway

    -- `New(cfg, log).Run(ctx)`
    unfoldable pub run_new : ℕ → World O → List Error × World O
    run_new = run default_gateway detect_client new
