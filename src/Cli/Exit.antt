-- ===== src/Cli/Exit.antt =====
-- What the exit code of internal/cli/cli.go says.
use nat_pmp.Common.{
  subst, ℕ, String, ◌≡◌, refl, sym, ◌∙◌, ap, List, [], ◌∷◌, map, none, Error, ok, Result-cases, inl,
  inr, arith,
}
use nat_pmp.Common.Run.{Run}
use nat_pmp.Common.Dict.{lookup}
use nat_pmp.Addr.{Addr}
use nat_pmp.Portmapper.{Client}
use nat_pmp.Config.Requests.{Config, requests}
use nat_pmp.Config.Expansion.{requests-keys}
use nat_pmp.Config.Validate.{validate}
use nat_pmp.Config.Load.{Files, load}
use nat_pmp.Daemon.State.{Host, Daemon, Key, key_eq, key_of, renew_loop}
use nat_pmp.Daemon.Run as Daemon
use nat_pmp.Daemon.Run.{launch}
use nat_pmp.Daemon.Run.Reach.{launched, renew_loop-none_left}
use nat_pmp.Daemon.Wiring.{World, System, default_gateway, detect_client, new, run_new}
use nat_pmp.Cli.{
  Command, new_root_command, Parsed, selected, exit_code, run, execute_context, execute_command,
  execute,
}

-- A run of the daemon that ends without an error: what its parts returned, and where it stopped.
pub record IsClean {W : Type 0} (gateway : Run W Addr) (detect : Addr → Run W (Client W))
    (host_for : Client W → Host W) (rounds : ℕ) (w w' : W) : Type 0 where
  pub addr : Addr
  pub client : Client W
  pub found : (gateway w).0 ≡ ok addr
  pub detected : (detect addr (gateway w).1).0 ≡ ok client
  pub stopped : Daemon W
  pub released :
      renew_loop
        (host_for client)
        rounds
        (launch (host_for client) addr (detect addr (gateway w).1).1)
      ≡ ([], stopped)
  pub world : w' ≡ stopped.world

run-IsClean :
    {W : Type 0} (gateway : Run W Addr) (detect : Addr → Run W (Client W))
    (host_for : Client W → Host W) (rounds : ℕ) (w : W)
    → (Daemon.run gateway detect host_for rounds w).0 ≡ []
    → IsClean gateway detect host_for rounds w (Daemon.run gateway detect host_for rounds w).1
unfolding Daemon.run
run-IsClean gateway detect host_for rounds w e = elim (Result-cases (gateway w).0) [
  | inr (x, p) ↦ absurd (ground (arith, p))
  | inl (addr, p) ↦ elim (Result-cases (detect addr (gateway w).1).0) [
    | inr (x, q) ↦ absurd (ground (arith, p, q))
    | inl (client, q) ↦ record {
      addr = addr;
      client = client;
      found = p;
      detected = q;
      stopped =
          (renew_loop (host_for client) rounds
            (launch (host_for client) addr (detect addr (gateway w).1).1)).1;
      released = ground (arith, p, q);
      world = ground (arith, p, q);
    }
  ]
]

load-validated :
    (files : Files) (host : _) (path : String) (cfg : Config)
    → load files host path ≡ ok cfg
    → (files.read_config path ≡ ok cfg) × (validate host cfg ≡ ok tt)
unfolding load
load-validated files host path cfg e = ground arith

exit_code-zero : (errs : List Error) → exit_code errs ≡ 0 → errs ≡ []
exit_code-zero [] e = refl
exit_code-zero (x ∷ errs) e = absurd (omega arith)

-- How the program ends well: the configuration that it read is valid, and the daemon ran on it, from a
-- gateway and a client that were found, and stopped without a lease.
pub record EndsWell {O U : Type 0} (sys : System O U) (files : World O → Files) (rounds : ℕ)
    (path : String) (w w' : World O) : Type 0 where
  pub cfg : Config
  pub read : (files w).read_config path ≡ ok cfg
  pub valid : validate (sys.interfaces w) cfg ≡ ok tt
  pub clean : IsClean (default_gateway sys) (detect_client sys cfg) (new sys cfg) rounds w w'
  pub none_left : (k : Key) → lookup k clean.stopped.leases ≡ none

module _ {O U : Type 0} (sys : System O U) (files : World O → Files) where
  run_new-none_left :
      (cfg : Config) (rounds : ℕ) (w w' : World O)
      (c : IsClean (default_gateway sys) (detect_client sys cfg) (new sys cfg) rounds w w')
      (k : Key)
      → lookup k c.stopped.leases ≡ none
  unfolding new
  run_new-none_left cfg rounds w w' c k =
      let host = new sys cfg c.client in
      let w2 = (detect_client sys cfg c.addr (default_gateway sys w).1).1 in
      let keys = map key_of (requests (sys.interfaces w) cfg) in
      let start = launch host c.addr w2 in
      let left =
        renew_loop-none_left host keys
          (λ v. requests-keys (sys.interfaces v) (sys.interfaces w) cfg) rounds start
          (launched c.addr w2) (ap (λ p. p.0) c.released) k in
      ap (λ p. lookup k p.1.leases) (sym c.released) ∙ left

  run-EndsWell :
      (rounds : ℕ) (path : String) (w : World O)
      → (run sys files rounds path w).0 ≡ []
      → EndsWell sys files rounds path w (run sys files rounds path w).1
  unfolding run run_new
  run-EndsWell rounds path w e = elim (Result-cases (load (files w) (sys.interfaces w) path)) [
    | inr (x, p) ↦ absurd (ground (arith, p))
    | inl (cfg, p) ↦
        let (read, valid) = load-validated (files w) (sys.interfaces w) path cfg p in
        let clean =
          run-IsClean (default_gateway sys) (detect_client sys cfg) (new sys cfg) rounds w
            (rw (p, run) at e) in
        rw (p, run)
          (record {
            cfg = cfg;
            read = read;
            valid = valid;
            clean = clean;
            none_left = run_new-none_left cfg rounds w _ clean;
          })
  ]

  execute-selected :
      (parse : Command → List String → Parsed) (rounds : ℕ) (version path : String)
      (args : List String) (w : World O)
      → parse (new_root_command version) args ≡ selected path
      → execute sys files parse rounds version args w
        ≡ (exit_code (run sys files rounds path w).0, (run sys files rounds path w).1)
  unfolding execute execute_command execute_context
  execute-selected parse rounds version path args w p = ground (arith, p)

  -- If the arguments select a configuration file and the program exits with code 0, then the file was
  -- read and its configuration is valid, the daemon that ran on it found a gateway and a client and
  -- stopped in the world that the program ends in, and it holds no lease there, for no mapping. That
  -- holds however often the timer fired, and whatever the host and the network answered.
  pub execute-EndsWell :
      (parse : Command → List String → Parsed) (rounds : ℕ) (version path : String)
      (args : List String) (w : World O)
      → parse (new_root_command version) args ≡ selected path
      → (execute sys files parse rounds version args w).0 ≡ 0
      → EndsWell sys files rounds path w (execute sys files parse rounds version args w).1
  execute-EndsWell parse rounds version path args w p e =
      let runs = execute-selected parse rounds version path args w p in
      subst (EndsWell sys files rounds path w) (sym (ap (λ r. r.1) runs))
        (run-EndsWell rounds path w (exit_code-zero _ (ap (λ r. r.0) (sym runs) ∙ e)))
