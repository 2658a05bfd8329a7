-- ===== src/Daemon/Run/Reach.antt =====
-- Every state of the renewal loop is sound, and every mapping is scheduled in it.
use nat_pmp.Common.{ℕ, zero, suc, ◌≡◌, sym, subst, true, List, [], map, none, contains}
use nat_pmp.Common.Dict.{lookup, lookup-nil}
use nat_pmp.Addr.{Addr, invalid}
use nat_pmp.Mapping.{Lease}
use nat_pmp.Daemon.State.{
  Host, Daemon, Key, key_eq, key_of, refresh_local_addr, renew_round, renew_loop, time_until_next,
}
use nat_pmp.Daemon.Invariant.{
  IsSound, AllScheduled, IsSound-same, refresh_local_addr-maps, time_until_next-maps,
  reconcile_all-IsSound, renew_round-IsSound,
}
use nat_pmp.Daemon.Scheduling.{reconcile_all-scheduled, renew_round-scheduled}
use nat_pmp.Daemon.Release.{release_all-none_left}
use nat_pmp.Daemon.Run.{launch}

-- The states at the top of the renewal loop.
pub data Reaches {W : Type 0} (host : Host W) : Daemon W → Type 0 where
  launched : (gateway : Addr) (w : W) → Reaches host (launch host gateway w)
  renewed : {d : Daemon W} → Reaches host d → Reaches host (renew_round host d)

module _ {W : Type 0} (host : Host W) (keys : List Key)
    (stable : (w : W) → map key_of (host.requests w) ≡ keys) where
  launch-IsSound : (gateway : Addr) (w : W) → IsSound keys (launch host gateway w)
  unfolding launch
  launch-IsSound gateway w =
      let fresh : Daemon W = record {
        world = w;
        gateway_ip = gateway;
        local_ip = invalid;
        leases = [];
        next_at = [];
      } in
      let (p, q) = refresh_local_addr-maps host keys fresh in
      reconcile_all-IsSound host keys stable (refresh_local_addr host fresh) (
        IsSound-same host keys fresh _ p q (record {
          fits = λ k l e. cc (e, lookup-nil {V = Lease} k);
          configured = λ k h. absurd (h (lookup-nil k));
          scheduled = λ k h. absurd (h (lookup-nil k));
        }))

  launch-AllScheduled : (gateway : Addr) (w : W) → AllScheduled keys (launch host gateway w)
  unfolding launch
  launch-AllScheduled gateway w k h =
      reconcile_all-scheduled host _ k (subst (λ ks. contains ks k ≡ true) (sym (stable _)) h)

  -- Whatever the client, the listeners and the clock answer, at the top of every round each lease
  -- fits its key and belongs to a configured mapping, and every configured mapping has a next time.
  -- The keys of the configured mappings do not change with the world.
  pub Reaches-IsSound : {d : Daemon W} → Reaches host d → IsSound keys d × AllScheduled keys d
  Reaches-IsSound (launched gateway w) = (launch-IsSound gateway w, launch-AllScheduled gateway w)
  Reaches-IsSound (renewed {d} r) =
      let (i, s) = Reaches-IsSound r in
      (renew_round-IsSound host keys stable d i, λ k h. renew_round-scheduled host d k (s k h))

  -- From any state that the loop reaches, where the keys of the configured mappings do not change with
  -- the world: if the loop ends without an error, no lease is left, however many more rounds it makes.
  pub renew_loop-none_left :
      (rounds : ℕ) (d : Daemon W)
      → Reaches host d
      → (renew_loop host rounds d).0 ≡ []
      → (k : Key) → lookup k (renew_loop host rounds d).1.leases ≡ none
  unfolding renew_loop
  renew_loop-none_left zero d r e k =
      let (i, s) = Reaches-IsSound r in
      let (p, q) = time_until_next-maps host keys d in
      release_all-none_left host keys (time_until_next host d).1 (stable _)
        (IsSound-same host keys d _ p q i) e k
  renew_loop-none_left (suc rounds) d r e k =
      renew_loop-none_left rounds (renew_round host d) (renewed r) e k
