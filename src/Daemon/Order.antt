-- ===== src/Daemon/Order.antt =====
-- The order in which detection tries the candidates.
use nat_pmp.Common.{
  ◌≡◌, ◌≢◌, inl, inr, refl, ap, ◌∙◌, arith, String, Bool, true, false, not, ◌&&◌, ◌||◌, List, [],
  ◌∷◌, ◌++◌, map, none, some, contains, length, ◌==◌, string_eq, nat_eq, Bool-cases, Option-cases,
}
use nat_pmp.Common.Dict.{lookup, insert, lookup-insert, lookup-nil}
use nat_pmp.Daemon.Detect.{Candidate, index_by_name, pick_ordered, unused, order_candidates}

-- No name stands twice.
abbrev pub NoRepeats : List String → Type 0
NoRepeats [] = Unit
NoRepeats (n ∷ ns) = (contains ns n ≡ false) × NoRepeats ns

contains-append :
    (xs ys : List String) (n : String) → contains (xs ++ ys) n ≡ (contains xs n || contains ys n)
contains-append [] ys n = refl
contains-append (x ∷ xs) ys n = ground (arith, contains-append xs ys n)

NoRepeats-append :
    (xs ys : List String)
    → NoRepeats xs
    → NoRepeats ys
    → ((n : String) → contains xs n ≡ true → contains ys n ≡ false)
    → NoRepeats (xs ++ ys)
NoRepeats-append [] ys hx hy apart = hy
NoRepeats-append (x ∷ xs) ys (new, hx) hy apart = (
  contains-append xs ys x ∙ ground (arith, apart x),
  NoRepeats-append xs ys hx hy (λ n h. apart n (ground arith)),
)

module _ {W : Type 0} where
  abbrev pub names : List (Candidate W) → List String
  names = map (λ c. c.name)

  names-append : (xs ys : List (Candidate W)) → names (xs ++ ys) ≡ names xs ++ names ys
  names-append [] ys = refl
  names-append (x ∷ xs) ys = ap (λ ns. x.name ∷ ns) (names-append xs ys)

  -- The map has each candidate under its name, and no other names.
  record Indexes (m : List (String × Candidate W)) (known : String → Bool) : Type 0 where
    named : (n : String) (c : Candidate W) → lookup n m ≡ some c → c.name ≡ n
    has : (n : String) → known n ≡ true → lookup n m ≢ none
    only : (n : String) → known n ≡ false → lookup n m ≡ none

  index_by_name-Indexes :
      (cs : List (Candidate W)) (m : List (String × Candidate W)) (known : String → Bool)
      → Indexes m known
      → Indexes (index_by_name cs m) (λ n. known n || contains (names cs) n)
  unfolding index_by_name
  index_by_name-Indexes [] m known i = record {
    named = i.named;
    has = λ n h. i.has n (ground arith);
    only = λ n h. i.only n (ground arith);
  }
  index_by_name-Indexes (c ∷ cs) m known i =
      let j =
        index_by_name-Indexes cs (insert c.name c m) (λ n. n == c.name || known n)
          (record {
            named = λ n d h. ground (arith, lookup-insert n c.name c m, i.named n d);
            has = λ n h e. ground (arith, lookup-insert n c.name c m, i.has n);
            only = λ n h. ground (arith, lookup-insert n c.name c m, i.only n);
          }) in
      record {
        named = j.named;
        has = λ n h. j.has n (ground arith);
        only = λ n h. j.only n (ground arith);
      }

  -- What the first loop has picked.
  record Picks (known : String → Bool) (used : List String) (cs : List (Candidate W))
      (used' : List String) : Type 0 where
    used_after : (n : String) → contains used' n ≡ (contains used n || contains (names cs) n)
    fresh : (n : String) → contains (names cs) n ≡ true → contains used n ≡ false
    is_known : (n : String) → contains (names cs) n ≡ true → known n ≡ true
    no_repeats : NoRepeats (names cs)

  Picks-cons :
      (known : String → Bool) (used : List String) (c : Candidate W) (cs : List (Candidate W))
      (used' : List String)
      → known c.name ≡ true
      → contains used c.name ≡ false
      → Picks known (c.name ∷ used) cs used'
      → Picks known used (c ∷ cs) used'
  Picks-cons known used c cs used' known_c new p = record {
    used_after = λ n. ground (arith, p.used_after n);
    fresh = λ n h. elim (Bool-cases (n == c.name)) [
      | inl same ↦ let e : n ≡ c.name = ground arith in rw e new
      | inr other ↦ ground (arith, p.fresh n)
    ];
    is_known = λ n h. elim (Bool-cases (n == c.name)) [
      | inl same ↦ let e : n ≡ c.name = ground arith in rw e known_c
      | inr other ↦ p.is_known n (ground arith)
    ];
    no_repeats = (
      elim (Bool-cases (contains (names cs) c.name)) [
        | inl twice ↦ let old = p.fresh c.name twice in absurd (ground arith)
        | inr once ↦ once
      ],
      p.no_repeats,
    );
  }

  pick_ordered-Picks :
      (by_name : List (String × Candidate W)) (known : String → Bool)
      → Indexes by_name known
      → (used order : List String)
      → Picks known used (pick_ordered by_name used order).0 (pick_ordered by_name used order).1
  unfolding pick_ordered
  pick_ordered-Picks by_name known i used [] = record {
    used_after = λ n. ground arith;
    fresh = λ n h. cc;
    is_known = λ n h. cc;
    no_repeats = tt;
  }
  pick_ordered-Picks by_name known i used (name ∷ order) =
      elim (Option-cases (lookup name by_name)) [
        | inl e ↦ rw (e, pick_ordered) (pick_ordered-Picks by_name known i used order)
        | inr (c, e) ↦ elim (Bool-cases (contains used name)) [
          | inl again ↦ rw (e, again, pick_ordered) (pick_ordered-Picks by_name known i used order)
          | inr new ↦
              let same : c.name ≡ name = i.named name c e in
              let known_name : known name ≡ true = elim (Bool-cases (known name)) [
                | inl y ↦ y
                | inr n ↦ absurd (cc (i.only name n, e))
              ] in
              rw (e, new, pick_ordered)
                (Picks-cons known used c _ _ (rw same known_name) (rw same new)
                  (rw same (pick_ordered-Picks by_name known i (name ∷ used) order)))
        ]
      ]

  unused-names :
      (used : List String) (cs : List (Candidate W)) (n : String)
      → contains (names (unused used cs)) n ≡ (contains (names cs) n && not (contains used n))
  unfolding unused
  unused-names used [] n = refl
  unused-names used (c ∷ cs) n = elim (Bool-cases (contains used c.name)) [
    | inl old ↦ elim (Bool-cases (n == c.name)) [
      | inl same ↦
          let e : n ≡ c.name = ground arith in rw e (ground (arith, unused-names used cs c.name))
      | inr other ↦ ground (arith, unused-names used cs n)
    ]
    | inr new ↦ elim (Bool-cases (n == c.name)) [
      | inl same ↦
          let e : n ≡ c.name = ground arith in rw e (ground (arith, unused-names used cs c.name))
      | inr other ↦ ground (arith, unused-names used cs n)
    ]
  ]

  unused-NoRepeats :
      (used : List String) (cs : List (Candidate W))
      → NoRepeats (names cs)
      → NoRepeats (names (unused used cs))
  unfolding unused
  unused-NoRepeats used [] h = tt
  unused-NoRepeats used (c ∷ cs) (new, h) =
      ground (arith, unused-names used cs c.name, unused-NoRepeats used cs h)

  Indexes-all :
      (all : List (Candidate W))
      → Indexes (index_by_name all []) (λ n. false || contains (names all) n)
  Indexes-all all =
      index_by_name-Indexes all [] (λ n. false)
        (record {
          named = λ n c h. cc (h, lookup-nil {V = Candidate W} n);
          has = λ n h. cc;
          only = λ n h. lookup-nil n;
        })

  -- Whatever order is configured, with unknown names or repeated ones, detection tries every
  -- candidate once: if the candidates have different names, the ordered ones have the same names, and
  -- none of them twice.
  pub order_candidates-names :
      (all : List (Candidate W)) (order : List String)
      → NoRepeats (names all)
      → ((n : String) → contains (names (order_candidates all order)) n ≡ contains (names all) n)
        × NoRepeats (names (order_candidates all order))
  unfolding order_candidates
  order_candidates-names all order h = elim (Bool-cases (length order == 0)) [
    | inl empty ↦ rw (empty, order_candidates) ((λ n. refl), h)
    | inr ordered ↦
        let p =
          pick_ordered-Picks (index_by_name all []) (λ n. false || contains (names all) n)
            (Indexes-all all) [] order in
        let picked = (pick_ordered (index_by_name all []) [] order).0 in
        let used = (pick_ordered (index_by_name all []) [] order).1 in
        let split : names (picked ++ unused used all) ≡ names picked ++ names (unused used all) =
          names-append picked (unused used all) in
        rw (ordered, order_candidates, split)
          (
            (λ n.
                contains-append (names picked) (names (unused used all)) n
                ∙ ground (arith, unused-names used all n, p.used_after n, p.is_known n)),
            NoRepeats-append (names picked) (names (unused used all)) p.no_repeats
                (unused-NoRepeats used all h)
                (λ n there. ground (arith, unused-names used all n, p.used_after n)),
          )
  ]
