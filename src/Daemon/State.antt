-- ===== src/Daemon/State.antt =====
-- internal/daemon/daemon.go: the daemon's state and its methods. The functions that `New` stores
-- in the daemon, and the client that detection has chosen, are the record `Host`, over a world
-- `W`; only one goroutine touches the state. Logging is left out.
use nat_pmp.Common.{ℕ, zero, suc, ◌+◌, ◌-◌, ◌*◌, String, Bool, true, false, List, [], ◌∷◌, ◌++◌}
use nat_pmp.Common.{
  Option, none, some, length, ltb, Eq, ◌==◌, ◌!=◌, ℕ_discrete, nat_eq, string_eq, if◌then◌else◌,
}
use nat_pmp.Common.{Error, ok, err}
use nat_pmp.Common.Dict.{lookup, insert, erase}
use nat_pmp.Common.Int.{second}
use nat_pmp.Common.Run.{Run}
use nat_pmp.Addr.{Addr, addr_eq}
use nat_pmp.Mapping.{Protocol, Request, Lease, renew_before}
use nat_pmp.Portmapper.{Client, fresh}
use nat_pmp.Daemon.Ensure.{ensure}

-- In nanoseconds.
abbrev pub release_timeout : ℕ
release_timeout = 5 * second

abbrev pub retry_backoff : ℕ
retry_backoff = 30 * second

abbrev pub listener_poll_interval : ℕ
listener_poll_interval = 15 * second

pub record Key : Type 0 where
  pub protocol : Protocol
  pub internal_port : ℕ
  pub external_port : ℕ

string_discrete : Discrete String
unfolding string_eq
string_discrete = string_eq.dec

Key-discrete : Discrete Key
unfolding string_discrete
Key-discrete = hlevel (ℕ_discrete, string_discrete)

instance unfoldable pub key_eq : Eq Key
unfolding Key-discrete
key_eq = record { dec = Key-discrete }

abbrev pub key_of : Request → Key
key_of r = record {
  protocol = r.protocol;
  internal_port = r.internal_port;
  external_port = r.external_port;
}

-- What the daemon calls. The configured requests are expanded anew on each pass, since an
-- interface's address may have changed. `advertise` is `SetInternalClient`, if the client is
-- UPnP's, and `sleep` waits for a timer.
pub record Host (W : Type 0) : Type 0 where
  pub client : Client W
  pub requests : W → List Request
  pub listener : Protocol → ℕ → Run W Bool
  pub local_addr : Addr → Run W Addr
  pub now : W → ℕ × W
  pub advertise : Addr → W → W
  pub sleep : ℕ → W → W

pub record Daemon (W : Type 0) : Type 0 where
  pub world : W
  pub gateway_ip : Addr
  pub local_ip : Addr
  pub leases : List (Key × Lease)
  pub next_at : List (Key × ℕ)

abbrev pub release_request : Request → Lease → Request
release_request req lease =
    if lease.external_port != 0 then record req { external_port = lease.external_port } else req

module _ {W : Type 0} (host : Host W) where
  -- `d.nextAt[k] = d.now().Add(delay)`
  unfoldable pub schedule : Key → ℕ → Daemon W → Daemon W
  schedule k delay d =
      let (now, w) = host.now d.world in
      record d { world = w; next_at = insert k (now + delay) d.next_at }

  unfoldable pub refresh_local_addr : Daemon W → Daemon W
  refresh_local_addr d =
      let (found, w) = host.local_addr d.gateway_ip d.world in
      elim found [
        | err e ↦ record d { world = w }
        | ok local ↦ record d { world = host.advertise local w; local_ip = local }
      ]

  unfoldable pub release_one : Key → Request → Daemon W → Daemon W
  release_one k req d = elim (lookup k d.leases) [
    | none ↦ d
    | some lease ↦
        let (r, w) =
          host.client.unmap (fresh release_timeout) (release_request req lease) d.world in
        record d { world = w; leases = erase k d.leases }
  ]

  unfoldable pub has_listener : Key → Request → Daemon W → Bool × Daemon W
  has_listener k req d =
      let (found, w) = host.listener req.protocol req.internal_port d.world in
      let d' = record d { world = w } in
      elim found [
        | err e ↦ (true, d')
        | ok present ↦ elim present [
          | true ↦ (true, d')
          | false ↦ (false, schedule k listener_poll_interval (release_one k req d'))
        ]
      ]

  unfoldable pub map_request : Key → Request → Daemon W → Request
  map_request k req d = if req.external_port != 0 then req else elim (lookup k d.leases) [
    | none ↦ req
    | some lease ↦
        if lease.external_port == 0 then req else record req { external_port = lease.external_port }
  ]

  -- The part of `reconcileOne` behind the listener check.
  unfoldable pub renew_one : Request → Daemon W → Daemon W
  renew_one req d =
      let k = key_of req in
      let (r, w) = ensure host.client (map_request k req d) d.world in
      let d' = record d { world = w } in
      elim r [
        | err e ↦ schedule k retry_backoff d'
        | ok lease ↦ record d' {
          leases = insert k lease d.leases;
          next_at = insert k (renew_before lease) d.next_at;
        }
      ]

  unfoldable pub reconcile_one : Request → Daemon W → Daemon W
  reconcile_one req d = elim req.require_listener [
    | false ↦ renew_one req d
    | true ↦
        let (present, d') = has_listener (key_of req) req d in
        if present then renew_one req d' else d'
  ]

  -- The loops over the requests.
  unfoldable pub reconcile_each : List Request → Daemon W → Daemon W
  reconcile_each [] d = d
  reconcile_each (req ∷ reqs) d = reconcile_each reqs (reconcile_one req d)

  unfoldable pub reconcile_all : Daemon W → Daemon W
  reconcile_all d = reconcile_each (host.requests d.world) d

  -- The minimum over the scheduled times, in the order in which the map is walked.
  unfoldable pub soonest : Option ℕ → List (Key × ℕ) → Option ℕ
  soonest found [] = found
  soonest none ((k, at) ∷ rest) = soonest (some at) rest
  soonest (some best) ((k, at) ∷ rest) = soonest (some (if ltb at best then at else best)) rest

  -- `max(soonest.Sub(now), 0)` is the subtraction that stops at 0.
  unfoldable pub time_until_next : Daemon W → Option ℕ × Daemon W
  time_until_next d = elim (soonest none d.next_at) [
    | none ↦ (none, d)
    | some at ↦ let (now, w) = host.now d.world in (some (at - now), record d { world = w })
  ]

  -- One request of `renewDue`: skipped if it has no time, or if that is after `now`.
  unfoldable pub renew_if_due : ℕ → Request → Daemon W → Daemon W
  renew_if_due now req d = elim (lookup (key_of req) d.next_at) [
    | none ↦ d
    | some at ↦ if ltb now at then d else reconcile_one req d
  ]

  unfoldable pub renew_each : ℕ → List Request → Daemon W → Daemon W
  renew_each now [] d = d
  renew_each now (req ∷ reqs) d = renew_each now reqs (renew_if_due now req d)

  unfoldable pub renew_due : Daemon W → Daemon W
  renew_due d =
      let d1 = refresh_local_addr d in
      let (now, w) = host.now d1.world in renew_each now (host.requests w) (record d1 { world = w })

  -- One request of `releaseAll`. The error list is that of `errors.Join`.
  unfoldable pub release_if_active : Request → List Error × Daemon W → List Error × Daemon W
  release_if_active req (errs, d) = elim (lookup (key_of req) d.leases) [
    | none ↦ (errs, d)
    | some lease ↦
        let (r, w) =
          host.client.unmap (fresh release_timeout) (release_request req lease) d.world in
        elim r [
          | err e ↦ (errs ++ (e ∷ []), record d { world = w })
          | ok _ ↦ (errs, record d { world = w; leases = erase (key_of req) d.leases })
        ]
  ]

  unfoldable pub release_each : List Request → List Error × Daemon W → List Error × Daemon W
  release_each [] acc = acc
  release_each (req ∷ reqs) acc = release_each reqs (release_if_active req acc)

  unfoldable pub release_all : Daemon W → List Error × Daemon W
  release_all d =
      if length d.leases == 0 then ([], d) else release_each (host.requests d.world) ([], d)

  -- One round of `renewLoop` in which the timer fires before the context is done.
  unfoldable pub renew_round : Daemon W → Daemon W
  renew_round d =
      let (wait, d') = time_until_next d in
      let delay : ℕ = elim wait [ some t ↦ t | none ↦ retry_backoff ] in
      renew_due (record d' { world = host.sleep delay d'.world })

  -- `renewLoop` when the context is done after the timer has fired `rounds` times: which of the two
  -- comes first in each round is up to the environment. The last wait is cut short by the context.
  unfoldable pub renew_loop : ℕ → Daemon W → List Error × Daemon W
  renew_loop zero d = release_all (time_until_next d).1
  renew_loop (suc rounds) d = renew_loop rounds (renew_round d)
