-- ===== src/Daemon/Destination.antt =====
-- Whom the whole daemon of internal/daemon sends datagrams to, on the three clients.
use nat_pmp.Common.{arith, ℕ, ◌≡◌, [], ◌==◌, nat_eq, string_eq, ok, Bool-cases, inl, inr}
use nat_pmp.Addr.{Addr, AddrPort}
use nat_pmp.Portmapper.{Client}
use nat_pmp.Network.Exchange.Answer.{sent}
use nat_pmp.Network.Exchange.Destination.{SendsOnlyTo, none_sent-SendsOnlyTo}
use nat_pmp.Config.Requests.{Config}
use nat_pmp.Natpmp.Client as Natpmp
use nat_pmp.Natpmp.Destination as NatpmpCalls
use nat_pmp.Pcp.Client as Pcp
use nat_pmp.Pcp.Destination as PcpCalls
use nat_pmp.Upnp.Client as Upnp
use nat_pmp.Daemon.Detect.{default_candidates, order_candidates, default_detect}
use nat_pmp.Daemon.Frame.{ClientKeeps, HostKeeps, Detected}
use nat_pmp.Daemon.Frame.Whole.{detect-Detected, run-Keeps}
use nat_pmp.Daemon.Members.{order_candidates-All}
use nat_pmp.Daemon.Wiring.{
  World, System, within, natpmp_client, pcp_client, upnp_client, default_gateway, local_addr_for,
  advertise, new, detect_client, run_new,
}

abbrev pub server : Addr → AddrPort
server gateway = record { addr = gateway; port = 5351 }

module _ {O U : Type 0} (sys : System O U) (gateway : Addr) where
  pub ToGateway : World O → Type 0
  ToGateway w = SendsOnlyTo (server gateway) w.network

  natpmp-Keeps : ClientKeeps ToGateway (natpmp_client sys gateway)
  unfolding natpmp_client within ToGateway Natpmp.new
  natpmp-Keeps = record {
    external_ip =
        λ ctx w. NatpmpCalls.external_ip-SendsOnlyTo (sys.net w ctx) (Natpmp.new gateway) w.network;
    map = λ ctx r w. NatpmpCalls.map-SendsOnlyTo (sys.net w ctx) (Natpmp.new gateway) r w.network;
    unmap =
        λ ctx r w. NatpmpCalls.unmap-SendsOnlyTo (sys.net w ctx) (Natpmp.new gateway) r w.network;
  }

  abbrev pcp_state : World O → Pcp.State
  pcp_state w = record { history = w.network; nonces = w.nonces }

  pcp-Keeps : ClientKeeps ToGateway (pcp_client sys gateway)
  unfolding pcp_client within ToGateway Pcp.new
  pcp-Keeps = record {
    external_ip =
        λ ctx w. PcpCalls.external_ip-SendsOnlyTo (sys.net w ctx) (Pcp.new gateway) (pcp_state w);
    map = λ ctx r w. PcpCalls.map-SendsOnlyTo (sys.net w ctx) (Pcp.new gateway) r (pcp_state w);
    unmap = λ ctx r w. PcpCalls.unmap-SendsOnlyTo (sys.net w ctx) (Pcp.new gateway) r (pcp_state w);
  }

  upnp-Keeps : ClientKeeps ToGateway (upnp_client sys)
  unfolding upnp_client within ToGateway
  upnp-Keeps = record { external_ip = λ ctx w p. p; map = λ ctx r w p. p; unmap = λ ctx r w p. p }

  new-Keeps :
      (cfg : Config) (client : Client (World O))
      → ClientKeeps ToGateway client
      → HostKeeps ToGateway (new sys cfg client)
  unfolding new local_addr_for advertise ToGateway
  new-Keeps cfg client keeps = record {
    client = keeps;
    listener = λ proto port w p. p;
    local_addr = λ a w p. p;
    now = λ w p. p;
    advertise = λ a w p. elim (Bool-cases (client.name == Upnp.protocol_name)) [
      | inl upnp ↦ rw upnp p
      | inr other ↦ rw other p
    ];
    sleep = λ delay w p. p;
  }

  detect_client-Detected :
      (cfg : Config) (w : World O)
      → ToGateway w
      → Detected ToGateway (detect_client sys cfg gateway w)
  unfolding detect_client default_detect default_candidates
  detect_client-Detected cfg w p =
      let all = default_candidates (natpmp_client sys) (pcp_client sys) (upnp_client sys) in
      detect-Detected ToGateway sys.ctx_err gateway _ (order_candidates all cfg.detect.order) w
        (order_candidates-All (λ c. ClientKeeps ToGateway (c.new gateway)) all cfg.detect.order
          (natpmp-Keeps, (pcp-Keeps, (upnp-Keeps, tt))))
        p

  default_gateway-world : (w : World O) → (default_gateway sys w).1 ≡ w
  unfolding default_gateway
  default_gateway-world w = ground arith

  -- `Run` with the default parts, if the gateway that it finds is this one: whichever protocols are
  -- tried and whichever is chosen, whatever the network, the files and the clock answer, and however
  -- often the timer fires, all datagrams of the packet clients go to the gateway's port 5351, from the
  -- first probe to the last release, if none had been sent before.
  pub run_new-SendsOnlyTo :
      (cfg : Config) (rounds : ℕ) (w : World O)
      → sent w.network ≡ []
      → (default_gateway sys w).0 ≡ ok gateway
      → SendsOnlyTo (server gateway) (run_new sys cfg rounds w).1.network
  unfolding run_new ToGateway
  run_new-SendsOnlyTo cfg rounds w fresh found =
      let start : ToGateway (default_gateway sys w).1 =
        rw (default_gateway-world w) (none_sent-SendsOnlyTo (server gateway) w.network fresh) in
      run-Keeps ToGateway (default_gateway sys) (detect_client sys cfg) (new sys cfg) rounds w
        gateway found (detect_client-Detected cfg (default_gateway sys w).1 start) (new-Keeps cfg)
