-- ===== src/Daemon/Tests/Renewal.antt =====
-- Passes of the daemon of Tests, and its detection.
use nat_pmp.Common.{
  ℕ, ◌+◌, ◌*◌, ◌≤◌, ◌<◌, ◌≡◌, ◌⊎◌, inl, refl, List, [], none, some, nat_eq, string_eq,
}
use nat_pmp.Common.Int.{second}
use nat_pmp.Common.Dict.{lookup, insert, erase}
use nat_pmp.Mapping.{renew_before}
use nat_pmp.Daemon.Ensure.{ensure, validate_lease}
use nat_pmp.Daemon.State.{
  Daemon, key_eq, key_of, schedule, refresh_local_addr, release_one, has_listener, map_request,
  renew_one, reconcile_one, reconcile_each, reconcile_all, renew_due, renew_loop,
}
use nat_pmp.Daemon.Detect.{Candidate, detect}
use nat_pmp.Daemon.Clients.{ensure-clients}
use nat_pmp.Natpmp.Client as Natpmp
use nat_pmp.Pcp.Client as Pcp
use nat_pmp.Upnp.Client as Upnp
use nat_pmp.Natpmp.Tests.{net as natpmp_net, web as forwarded}
use nat_pmp.Upnp.Tests.{net as soap_net, parsers}
use nat_pmp.Daemon.Due.{AreDistinct, SameAt, ReconciledIn, pass_clock, renew_due-due}
use nat_pmp.Daemon.Outcomes.{Outcome, reconcile_one-Outcome}
use nat_pmp.Daemon.Probes.{AllFail, Ends, detect-Ends}
use nat_pmp.Daemon.Registry.Changes.{Steps, empty, view}
use nat_pmp.Daemon.Registry.{renew_loop-refines}
use nat_pmp.Daemon.Run.{launch}
use nat_pmp.Daemon.Tests.{game, idle, web, host, keys, gateway, started, tried}

abbrev n : Natpmp.Settings
n = record { gateway = gateway; initial_timeout = second; max_attempts = 4 }

abbrev p : Pcp.Settings
p = record { gateway = gateway; initial_timeout = second; max_attempts = 4 }

abbrev ps : Pcp.State
ps = record { history = []; nonces = [] }

abbrev us : Upnp.State
us = record { history = []; target = none; internal_client = "192.168.1.2" }

renew_loop-refines_example : Steps host.client keys empty (view (renew_loop host 2 started).1)
renew_loop-refines_example = renew_loop-refines host keys (λ w. refl) 2 gateway 1000

keys_differ : AreDistinct keys
unfolding key_eq string_eq nat_eq
keys_differ = (refl, (refl, tt))

-- Halfway through the lease of 600 s that was granted at 1000.
web_scheduled : lookup (key_of web) started.next_at ≡ some (300 * second + 1000)
unfolding launch schedule refresh_local_addr release_one has_listener map_request renew_one
    reconcile_one reconcile_each reconcile_all validate_lease ensure renew_before lookup insert
    erase key_eq string_eq nat_eq
web_scheduled = refl

-- An hour later.
abbrev late : Daemon ℕ
late = record started { world = 3600 * second }

renew_due-due_example :
    (((pass_clock host late).0 < 300 * second + 1000)
      × SameAt (key_of web) late (renew_due host late))
    ⊎ ((300 * second + 1000 ≤ (pass_clock host late).0)
        × ReconciledIn host web late (renew_due host late))
renew_due-due_example =
    renew_due-due host late web (300 * second + 1000) keys_differ (inl refl) web_scheduled

detect-Ends_example :
    (before : List (Candidate ℕ)) × (w1 : ℕ) × AllFail (λ w. none) gateway 5 before 1000 w1
    × Ends (λ w. none) gateway 5 tried before w1 (detect (λ w. none) gateway tried 5 1000)
detect-Ends_example = detect-Ends (λ w. none) gateway 5 tried 1000

ensure-clients_example :
    (ensure (Natpmp.client (λ ctx. natpmp_net) n) forwarded []
      ≡ Natpmp.map natpmp_net n forwarded [])
    × (ensure (Pcp.client (λ ctx. natpmp_net) p) forwarded ps ≡ Pcp.map natpmp_net p forwarded ps)
    × (ensure (Upnp.client (λ ctx. soap_net) parsers) forwarded us
        ≡ Upnp.map soap_net parsers forwarded us)
ensure-clients_example =
    ensure-clients (λ ctx. natpmp_net) (λ ctx. soap_net) parsers n p forwarded [] ps us

-- Nothing listens for the game.
reconcile_one-Outcome_example : Outcome host game idle (reconcile_one host game idle)
reconcile_one-Outcome_example = reconcile_one-Outcome host game idle
