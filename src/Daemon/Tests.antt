-- ===== src/Daemon/Tests.antt =====
-- A daemon with two mappings, one of which nothing listens for, on a clock that each call advances.
mod Renewal
mod Alive
use nat_pmp.Common.{
  ℕ, suc, ◌+◌, ◌-◌, ◌*◌, ◌≤◌, ◌≡◌, ◌≢◌, ◌↔◌, refl, true, false, List, [], ◌∷◌, map, none, some,
  contains, ◌==◌, if◌then◌else◌, string_eq, nat_eq, ok,
}
use nat_pmp.Common.Int.{pos, second}
use nat_pmp.Common.Dict.{lookup, insert, erase}
use nat_pmp.Addr.{Addr, invalid, v4}
use nat_pmp.Mapping.{Request, Lease, tcp, udp, renew_before}
use nat_pmp.Portmapper.{Client, Fits}
use nat_pmp.Daemon.Ensure.{validate_lease, ensure, validate_lease_iff}
use nat_pmp.Daemon.State.{
  Key, key_eq, key_of, Host, Daemon, schedule, refresh_local_addr, release_one, has_listener,
  map_request, renew_one, reconcile_one, reconcile_each, reconcile_all, soonest, time_until_next,
  renew_if_due, renew_each, renew_due, release_if_active, release_each, release_all, renew_round,
  renew_loop,
}
use nat_pmp.Daemon.Effects.{Reconciles, reconcile_one-Reconciles}
use nat_pmp.Daemon.Invariant.{IsSound, AllScheduled}
use nat_pmp.Daemon.Scheduling.{HasTime, time_until_next-least, reconcile_all-scheduled}
use nat_pmp.Daemon.Release.{release_all-none_left}
use nat_pmp.Common.{String}
use nat_pmp.Daemon.Detect.{
  Candidate, default_candidates, index_by_name, pick_ordered, unused, order_candidates,
}
use nat_pmp.Daemon.Order.{NoRepeats, names, order_candidates-names}
use nat_pmp.Daemon.Run.{launch}
use nat_pmp.Daemon.Run.Reach.{Reaches, launched, renewed, Reaches-IsSound, renew_loop-none_left}

abbrev pub web : Request
web = record {
  protocol = tcp;
  internal_port = 8080;
  internal_address = invalid;
  external_port = 0;
  description = "web";
  lease = pos (600 * second);
  require_listener = false;
}

abbrev pub game : Request
game = record {
  protocol = udp;
  internal_port = 27_015;
  internal_address = invalid;
  external_port = 27_015;
  description = "game";
  lease = pos 0;
  require_listener = true;
}

abbrev pub grant : Request → ℕ → Lease
grant r now = record {
  protocol = r.protocol;
  internal_port = r.internal_port;
  external_port = if r.external_port == 0 then 40_000 else r.external_port;
  external_ip = v4 0xcb007105;
  lifetime = pos (600 * second);
  acquired = now;
}

abbrev pub router : Client ℕ
router = record {
  name = "test";
  external_ip = λ ctx w. (ok (v4 0xcb007105), suc w);
  map = λ ctx r w. (ok (grant r w), suc w);
  unmap = λ ctx r w. (ok tt, suc w);
}

abbrev pub host : Host ℕ
host = record {
  client = router;
  requests = λ w. web ∷ game ∷ [];
  listener = λ p port w. (ok false, w);
  local_addr = λ gateway w. (ok (v4 0xc0a80102), w);
  now = λ w. (w, suc w);
  advertise = λ a w. w;
  sleep = λ d w. w + d;
}

abbrev pub keys : List Key
keys = key_of web ∷ key_of game ∷ []

abbrev pub gateway : Addr
gateway = v4 0xc0a80101

abbrev pub started : Daemon ℕ
started = launch host gateway 1000

two_rounds : Reaches host (renew_round host (renew_round host started))
two_rounds = renewed (renewed (launched gateway 1000))

Reaches-IsSound_example :
    IsSound keys (renew_round host (renew_round host started))
    × AllScheduled keys (renew_round host (renew_round host started))
Reaches-IsSound_example = Reaches-IsSound host keys (λ w. refl) two_rounds

released_cleanly : (renew_loop host 2 started).0 ≡ []
unfolding launch schedule refresh_local_addr release_one has_listener map_request renew_one
    reconcile_one reconcile_each reconcile_all soonest time_until_next renew_if_due renew_each
    renew_due release_if_active release_each release_all renew_round renew_loop validate_lease
    ensure renew_before lookup insert erase key_eq string_eq nat_eq
released_cleanly = refl

renew_loop-none_left_example : lookup (key_of web) (renew_loop host 2 started).1.leases ≡ none
renew_loop-none_left_example =
    renew_loop-none_left host keys (λ w. refl) 2 started (launched gateway 1000) released_cleanly
      (key_of web)

game_configured : contains keys (key_of game) ≡ true
unfolding key_eq string_eq nat_eq
game_configured = refl

game_scheduled : lookup (key_of game) started.next_at ≢ none
game_scheduled =
    (Reaches-IsSound host keys (λ w. refl) (launched gateway 1000)).1 (key_of game) game_configured

time_until_next-least_example :
    (t : ℕ) × ((time_until_next host started).0 ≡ some (t - (host.now started.world).0))
    × HasTime t started.next_at
    × ((j : Key) (at : ℕ) → lookup j started.next_at ≡ some at → t ≤ at)
time_until_next-least_example = time_until_next-least host started (key_of game) game_scheduled

abbrev pub idle : Daemon ℕ
idle = record { world = 1000; gateway_ip = gateway; local_ip = invalid; leases = []; next_at = [] }

reconcile_one-Reconciles_test : Reconciles (key_of game) idle (reconcile_one host game idle)
reconcile_one-Reconciles_test = reconcile_one-Reconciles host game idle

abbrev pub tried : List (Candidate ℕ)
tried = default_candidates (λ a. router) (λ a. router) router

-- UPnP first, named twice, with a name that is not known.
abbrev wishes : List String
wishes = "upnp" ∷ "upnp" ∷ "igd" ∷ []

tried_differ : NoRepeats (names tried)
unfolding default_candidates string_eq
tried_differ = (refl, (refl, (refl, tt)))

order_candidates-names_example :
    ((n : String) → contains (names (order_candidates tried wishes)) n ≡ contains (names tried) n)
    × NoRepeats (names (order_candidates tried wishes))
order_candidates-names_example = order_candidates-names tried wishes tried_differ

order_test : names (order_candidates tried wishes) ≡ "upnp" ∷ "natpmp" ∷ "pcp" ∷ []
unfolding default_candidates index_by_name pick_ordered unused order_candidates lookup insert
    string_eq nat_eq
order_test = refl
