-- ===== src/Pcp/Tests/Served.antt =====
-- An RFC 6887 gateway, over a network that loses every second datagram.
use nat_pmp.Common.{
  ℕ, ◌+◌, ◌*◌, ◌%◌, ◌≡◌, inl, inr, refl, arith, Bool, List, [], ◌∷◌, none, some, ◌==◌,
  if◌then◌else◌, length, nat_eq, string_eq, ok, Bool-cases,
}
use nat_pmp.Common.Int.{pos, second}
use nat_pmp.Common.Dict.{lookup-nil}
use nat_pmp.Addr.{v4, ipv6_unspecified}
use nat_pmp.Mapping.{validate, valid}
use nat_pmp.Network.{History, Net, datagram, timed_out}
use nat_pmp.Network.Exchange.Answer.{sent}
use nat_pmp.Network.Exchange.Served.{Delivers, IsFair}
use nat_pmp.Network.Tests.{server}
use nat_pmp.Pcp.Codec.{ip_protocol}
use nat_pmp.Pcp.Client.{nonce_key_eq, server_addr, external_ip, map, unmap}
use nat_pmp.Pcp.Gateway.{Gateway, IsProper, serve}
use nat_pmp.Pcp.Gateway.Ready.{IsReady, AreNonces}
use nat_pmp.Pcp.Gateway.Served.{methods-answered}
use nat_pmp.Pcp.Tests.{c, dns, start, twelve}

abbrev home : Gateway
home = record {
  address = v4 0xcb007105;
  epoch = 5;
  assigned = λ p i e. if e == 0 then 40_000 else 40_001;
  lifetime = λ s. 1800;
}

home-IsProper : IsProper home
home-IsProper = record {
  address = omega arith;
  epoch = omega arith;
  assigned = λ p i e. ground arith;
  lifetime = λ s. (λ z. omega arith, omega arith);
}

abbrev every_second : ℕ → Bool
every_second n = n % 2 == 0

abbrev net : Net
net = record {
  ctx_err = λ h. none;
  ctx_deadline = none;
  listen = λ h a. none;
  probe = λ h to. ok (some (192 ∷ 168 ∷ 1 ∷ 2 ∷ []));
  nonce = λ h. ok twelve;
  write = λ h b to. ok (length b);
  now = λ h. 5;
  refuse_deadline = λ h dl. none;
  read = λ h. elim (sent h) [
    | [] ↦ timed_out
    | (b, to) ∷ rest ↦
        if every_second (length (sent h)) then datagram (serve home b) server else timed_out
  ];
}

net-Delivers : Delivers net (server_addr c) (serve home) every_second
net-Delivers = record {
  calm = record { alive = λ h. refl; writes_all = λ h b to. refl; sets_deadline = λ h dl. refl };
  listens = λ h a. refl;
  reads = λ h b to rest e. ground arith;
}

net-IsReady : IsReady net (server_addr c)
net-IsReady = record {
  draws = λ h. (twelve, refl, refl);
  finds = λ h. (192 ∷ 168 ∷ 1 ∷ 2 ∷ [], refl, refl, omega arith);
}

every_second-IsFair : IsFair 4 every_second
every_second-IsFair n = elim (Bool-cases (every_second (n + 1))) [
  | inl even ↦ (0, omega arith, ground arith)
  | inr odd ↦ (1, omega arith, ground arith)
]

start-AreNonces : AreNonces start.nonces
start-AreNonces k n e = cc (e, lookup-nil {V = List ℕ} k)

dns_valid : validate dns ≡ ok tt
unfolding validate valid string_eq nat_eq
dns_valid = refl

methods-answered_example :
    ((external_ip net c start).0 ≡ ok ipv6_unspecified)
    × ((p : ℕ) × (ip_protocol dns.protocol ≡ ok p)
        × ((read : History) × ((map net c dns start).0
              ≡ ok (record {
                protocol = dns.protocol;
                internal_port = 53;
                external_port = 40_001;
                external_ip = v4 0xcb007105;
                lifetime = pos (1800 * second);
                acquired = 5;
              }))))
    × ((unmap net c dns start).0 ≡ ok tt)
    × AreNonces (map net c dns start).1.nonces
unfolding nat_eq
methods-answered_example =
    methods-answered net c home every_second net-Delivers net-IsReady every_second-IsFair
      home-IsProper dns start dns_valid (inr (omega arith)) (omega arith) (omega arith)
      start-AreNonces
