-- ===== src/Daemon/Tests/Alive.antt =====
-- A host on which a call takes a nanosecond, and a gateway that grants every request.
use nat_pmp.Common.{
  ℕ, suc, ◌+◌, ◌*◌, ◌<◌, ◌≡◌, refl, arith, true, [], ◌∷◌, some, nat_eq, string_eq, ok,
}
use nat_pmp.Common.Int.{nanoseconds, second}
use nat_pmp.Common.Dict.{lookup}
use nat_pmp.Addr.{v4}
use nat_pmp.Mapping.{Lease, validate, valid}
use nat_pmp.Daemon.State.{key_eq, key_of, Host, renew_round}
use nat_pmp.Daemon.Punctual.{Punctual}
use nat_pmp.Daemon.Continuity.{Serves}
use nat_pmp.Daemon.Continuity.Unbroken.{Reaches-unbroken}
use nat_pmp.Daemon.Run.{launch}
use nat_pmp.Daemon.Run.Reach.{launched, renewed}
use nat_pmp.Daemon.Tests.{web, game, keys, gateway, router, grant}

-- The host of Tests, where something listens.
abbrev busy_host : Host ℕ
busy_host = record {
  client = router;
  requests = λ w. web ∷ game ∷ [];
  listener = λ p port w. (ok true, suc w);
  local_addr = λ gateway w. (ok (v4 0xc0a80102), suc w);
  now = λ w. (w, suc w);
  advertise = λ a w. suc w;
  sleep = λ d w. w + d;
}

busy_host-Punctual : Punctual busy_host (λ w. w) 1 0
busy_host-Punctual = record {
  reads = λ w. refl;
  now = λ w. omega arith;
  external_ip = λ ctx w. omega arith;
  maps = λ ctx r w. omega arith;
  unmaps = λ ctx r w. omega arith;
  listener = λ p port w. omega arith;
  local_addr = λ a w. omega arith;
  advertise = λ a w. omega arith;
  sleeps = λ d w. omega arith;
}

busy_host-Serves : Serves busy_host (λ w. w) keys (600 * second)
busy_host-Serves = record {
  grants = λ k r w configured p i well_formed. (
    grant r w,
    refl,
    record {
      protocol = refl;
      internal_port = refl;
      external_port = λ e. ground arith;
      lifetime = refl;
    },
    omega arith,
    omega arith,
  );
  listening = λ p port w e. ground arith;
}

Reaches-unbroken_example :
    (l : Lease) × (lookup
        (key_of game)
        (renew_round busy_host (launch busy_host gateway 1000)).leases
      ≡ some l)
    × ((renew_round busy_host (renew_round busy_host (launch busy_host gateway 1000))).world + 1
        < l.acquired + nanoseconds l.lifetime)
unfolding validate valid key_eq string_eq nat_eq
Reaches-unbroken_example =
    Reaches-unbroken busy_host (λ w. w) 1 0 busy_host-Punctual keys (600 * second) busy_host-Serves
      (λ w. refl) (λ w. (refl, (refl, tt))) (key_of game) (omega arith) refl
      (renewed (launched gateway 1000))
