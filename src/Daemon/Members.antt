-- ===== src/Daemon/Members.antt =====
-- `orderCandidates` of internal/daemon/detect.go yields only candidates that it was given.
use nat_pmp.Common.{
  ◌≡◌, arith, String, List, [], ◌∷◌, some, contains, length, ◌==◌, string_eq, nat_eq, All,
  All-append, inl, inr, subst, Bool-cases, Option-cases,
}
use nat_pmp.Common.Dict.{lookup, insert, lookup-insert, lookup-nil}
use nat_pmp.Daemon.Detect.{Candidate, index_by_name, pick_ordered, unused, order_candidates}

module _ {W : Type 0} (Q : Candidate W → Type 0) where
  -- What the map holds.
  AllIndexed : List (String × Candidate W) → Type 0
  AllIndexed m = (n : String) (c : Candidate W) → lookup n m ≡ some c → Q c

  AllIndexed-insert :
      (c : Candidate W) (m : List (String × Candidate W))
      → Q c
      → AllIndexed m
      → AllIndexed (insert c.name c m)
  unfolding AllIndexed
  AllIndexed-insert c m q i n d e = elim (Bool-cases (n == c.name)) [
    | inl same ↦ let found : c ≡ d = ground (arith, lookup-insert n c.name c m) in subst Q found q
    | inr other ↦ i n d (ground (arith, lookup-insert n c.name c m))
  ]

  index_by_name-AllIndexed :
      (cs : List (Candidate W)) (m : List (String × Candidate W))
      → All Q cs
      → AllIndexed m
      → AllIndexed (index_by_name cs m)
  unfolding index_by_name
  index_by_name-AllIndexed [] m p i = i
  index_by_name-AllIndexed (c ∷ cs) m (q, p) i =
      index_by_name-AllIndexed cs _ p (AllIndexed-insert c m q i)

  pick_ordered-All :
      (by_name : List (String × Candidate W)) (used order : List String)
      → AllIndexed by_name
      → All Q (pick_ordered by_name used order).0
  unfolding pick_ordered AllIndexed
  pick_ordered-All by_name used [] i = tt
  pick_ordered-All by_name used (name ∷ order) i = elim (Option-cases (lookup name by_name)) [
    | inl e ↦ rw (e, pick_ordered) (pick_ordered-All by_name used order i)
    | inr (c, e) ↦ elim (Bool-cases (contains used name)) [
      | inl again ↦ rw (e, again, pick_ordered) (pick_ordered-All by_name used order i)
      | inr new ↦
          rw (e, new, pick_ordered) (i name c e, pick_ordered-All by_name (name ∷ used) order i)
    ]
  ]

  unused-All : (used : List String) (cs : List (Candidate W)) → All Q cs → All Q (unused used cs)
  unfolding unused
  unused-All used [] p = tt
  unused-All used (c ∷ cs) (q, p) = elim (Bool-cases (contains used c.name)) [
    | inl old ↦ rw (old, unused) (unused-All used cs p)
    | inr new ↦ rw (new, unused) (q, unused-All used cs p)
  ]

  pub order_candidates-All :
      (all : List (Candidate W)) (order : List String)
      → All Q all
      → All Q (order_candidates all order)
  unfolding order_candidates AllIndexed
  order_candidates-All all order p = elim (Bool-cases (length order == 0)) [
    | inl default ↦ rw (default, order_candidates) p
    | inr given ↦
        let by_name = index_by_name all [] in
        let i =
          index_by_name-AllIndexed all [] p
            (λ n c e. absurd (cc (e, lookup-nil {V = Candidate W} n))) in
        rw (given, order_candidates)
          (All-append Q (pick_ordered by_name [] order).0 _ (pick_ordered-All by_name [] order i)
            (unused-All _ all p))
  ]
