-- ===== src/Natpmp/Tests/Served.antt =====
-- An RFC 6886 gateway, over a network that loses every second datagram.
use nat_pmp.Common.{
  ℕ, ◌+◌, ◌*◌, ◌%◌, ◌≡◌, inl, inr, refl, arith, Bool, [], ◌∷◌, none, ◌==◌, if◌then◌else◌, length,
  nat_eq, ok, Bool-cases,
}
use nat_pmp.Common.Int.{pos, second}
use nat_pmp.Addr.{v4}
use nat_pmp.Network.{History, Net, datagram, timed_out}
use nat_pmp.Network.Exchange.Answer.{sent}
use nat_pmp.Network.Exchange.Served.{Delivers, IsFair}
use nat_pmp.Network.Tests.{server}
use nat_pmp.Natpmp.Client.{server_addr, external_ip, map, unmap}
use nat_pmp.Natpmp.Gateway.{Gateway, IsProper, serve}
use nat_pmp.Natpmp.Gateway.Served.{methods-served}
use nat_pmp.Natpmp.Tests.{c, web, web_valid}

abbrev pub home : Gateway
home = record {
  address = 0xcb007105;
  epoch = 77;
  assigned = λ i e. if e == 0 then 40_000 else 40_001;
  lifetime = λ s. 600;
}

pub home-IsProper : IsProper home
home-IsProper = record {
  address = omega arith;
  epoch = omega arith;
  assigned = λ i e. ground arith;
  lifetime = λ s. (λ z. omega arith, omega arith);
}

abbrev pub every_second : ℕ → Bool
every_second n = n % 2 == 0

abbrev net : Net
net = record {
  ctx_err = λ h. none;
  ctx_deadline = none;
  listen = λ h a. none;
  probe = λ h to. ok none;
  nonce = λ h. ok [];
  write = λ h b to. ok (length b);
  now = λ h. 5;
  refuse_deadline = λ h dl. none;
  read = λ h. elim (sent h) [
    | [] ↦ timed_out
    | (b, to) ∷ rest ↦
        if every_second (length (sent h)) then datagram (serve home b) server else timed_out
  ];
}

net-Delivers : Delivers net (server_addr c) (serve home) every_second
net-Delivers = record {
  calm = record { alive = λ h. refl; writes_all = λ h b to. refl; sets_deadline = λ h dl. refl };
  listens = λ h a. refl;
  reads = λ h b to rest e. ground arith;
}

pub every_second-IsFair : IsFair 4 every_second
every_second-IsFair n = elim (Bool-cases (every_second (n + 1))) [
  | inl even ↦ (0, omega arith, ground arith)
  | inr odd ↦ (1, omega arith, ground arith)
]

methods-served_example :
    ((external_ip net c []).0 ≡ ok (v4 0xcb007105))
    × ((read : History) × ((map net c web []).0
          ≡ ok (record {
            protocol = web.protocol;
            internal_port = 8080;
            external_port = 40_000;
            external_ip = v4 0xcb007105;
            lifetime = pos (600 * second);
            acquired = 5;
          })))
    × ((unmap net c web []).0 ≡ ok tt)
unfolding nat_eq
methods-served_example =
    methods-served net c home every_second net-Delivers every_second-IsFair home-IsProper web []
      web_valid (omega arith) (omega arith)
