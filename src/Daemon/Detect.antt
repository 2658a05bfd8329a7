-- ===== src/Daemon/Detect.antt =====
-- internal/daemon/detect.go and `defaultDetect` of wiring.go: the choice of the protocol.
use nat_pmp.Common.{
  ℕ, ◌*◌, String, true, false, List, [], ◌∷◌, ◌++◌, Option, none, some, length, ◌==◌, contains,
  nat_eq, string_eq, if◌then◌else◌,
}
use nat_pmp.Common.{Error, failed, ok, err}
use nat_pmp.Common.Dict.{lookup, insert}
use nat_pmp.Common.Int.{second}
use nat_pmp.Common.Run.{Run}
use nat_pmp.Addr.{Addr}
use nat_pmp.Portmapper.{Client, bounded}

pub record Candidate (W : Type 0) : Type 0 where
  pub name : String
  pub new : Addr → Client W

-- NAT-PMP and PCP before UPnP. The constructors are the three packages' `New`, in one world.
unfoldable pub default_candidates :
    {W : Type 0} → (Addr → Client W) → (Addr → Client W) → Client W → List (Candidate W)
default_candidates natpmp pcp upnp =
    record { name = "natpmp"; new = natpmp }
    ∷ record { name = "pcp"; new = pcp }
    ∷ record { name = "upnp"; new = λ _. upnp }
    ∷ []

module _ {W : Type 0} where
  -- `byName`
  unfoldable pub index_by_name :
      List (Candidate W) → List (String × Candidate W) → List (String × Candidate W)
  index_by_name [] m = m
  index_by_name (c ∷ cs) m = index_by_name cs (insert c.name c m)

  -- The first loop: the names that are known and not used yet, with the names used so far.
  unfoldable pub pick_ordered :
      List (String × Candidate W) → List String → List String → List (Candidate W) × List String
  pick_ordered by_name used [] = ([], used)
  pick_ordered by_name used (name ∷ names) = elim (lookup name by_name) [
    | none ↦ pick_ordered by_name used names
    | some c ↦ elim (contains used name) [
      | true ↦ pick_ordered by_name used names
      | false ↦ let (cs, used') = pick_ordered by_name (name ∷ used) names in (c ∷ cs, used')
    ]
  ]

  -- The second loop.
  unfoldable pub unused : List String → List (Candidate W) → List (Candidate W)
  unused used [] = []
  unused used (c ∷ cs) =
      let rest = unused used cs in if contains used c.name then rest else c ∷ rest

  unfoldable pub order_candidates : List (Candidate W) → List String → List (Candidate W)
  order_candidates all order =
      if length order == 0
      then all
      else let (ordered, used) = pick_ordered (index_by_name all []) [] order in
        ordered ++ unused used all

  -- The probes; `ctx_err` is the caller's `ctx.Err()`.
  unfoldable pub detect : (W → Option Error) → Addr → List (Candidate W) → ℕ → Run W (Client W)
  detect ctx_err gateway [] timeout w =
      (err (failed "daemon: no supported port-mapping protocol found on gateway"), w)
  detect ctx_err gateway (c ∷ cs) timeout w =
      let client = c.new gateway in
      let (answer, w') = client.external_ip (bounded timeout) w in
      elim answer [
        | ok _ ↦ (ok client, w')
        | err _ ↦ elim (ctx_err w') [
          | some e ↦ (err e, w')
          | none ↦ detect ctx_err gateway cs timeout w'
        ]
      ]

  -- `timeout == 0` selects the default of 3 s. `Config.Validate` has rejected a negative timeout.
  unfoldable pub default_detect :
      (W → Option Error) → List (Candidate W) → List String → ℕ → Addr → Run W (Client W)
  default_detect ctx_err all order timeout gateway =
      detect ctx_err gateway (order_candidates all order)
        (if timeout == 0 then 3 * second else timeout)
