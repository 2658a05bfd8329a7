-- ===== src/Upnp/Ssdp/Collected.antt =====
-- What the collection of SSDP responses returns.
use nat_pmp.Common.{
  ℕ, ◌≡◌, ◌≢◌, ◌⊎◌, inl, inr, refl, sym, ◌∙◌, arith, true, false, ◌||◌, List, [], ◌∷◌, ◌++◌,
  contains, ◌==◌, list_eq, nat_eq, Error, ok,
}
use nat_pmp.Upnp.Ssdp.{
  Arrival, cancelled, read_failed, datagram, location_of, or_results, next_results, collect_results,
}

-- No location stands twice, and none is empty.
abbrev pub AreDistinct : List (List ℕ) → Type 0
AreDistinct [] = Unit
AreDistinct (l ∷ ls) = (contains ls l ≡ false) × (l ≢ []) × AreDistinct ls

-- One of the datagrams names the location.
abbrev pub HasArrived : List ℕ → List Arrival → Type 0
HasArrived loc [] = ⊥
HasArrived loc (datagram d ∷ more) = (location_of d ≡ loc) ⊎ HasArrived loc more
HasArrived loc (_ ∷ more) = HasArrived loc more

pub contains-snoc :
    (ls : List (List ℕ)) (l k : List ℕ) → contains (ls ++ (l ∷ [])) k ≡ (contains ls k || k == l)
contains-snoc [] l k = ground arith
contains-snoc (x ∷ ls) l k = ground (arith, contains-snoc ls l k)

AreDistinct-snoc :
    (ls : List (List ℕ)) (l : List ℕ)
    → AreDistinct ls
    → contains ls l ≡ false
    → l ≢ []
    → AreDistinct (ls ++ (l ∷ []))
AreDistinct-snoc [] l h new full = (refl, full, tt)
AreDistinct-snoc (x ∷ ls) l (a, b, h) new full =
    (contains-snoc ls l x ∙ ground arith, b, AreDistinct-snoc ls l h (ground arith) full)

pub or_results-ok :
    (results : List (List ℕ)) (e : Error) (out : List (List ℕ))
    → or_results results e ≡ ok out
    → (results ≡ out) × (out ≢ [])
or_results-ok [] e out h = cc
or_results-ok (r ∷ results) e out h = (ground arith, λ x. cc (h, x))

pub next_results-AreDistinct :
    (results : List (List ℕ)) (loc : List ℕ)
    → AreDistinct results
    → AreDistinct (next_results results loc)
next_results-AreDistinct results loc h = ground (arith, AreDistinct-snoc results loc h)

next_results-contains :
    (results : List (List ℕ)) (loc k : List ℕ)
    → contains (next_results results loc) k ≡ true
    → (contains results k ≡ true) ⊎ (loc ≡ k)
next_results-contains results loc k h = ground (arith, contains-snoc results loc k)

-- What the loop returns from the results `results` on.
record Collects (results : List (List ℕ)) (arrivals : List Arrival) (out : List (List ℕ))
    : Type 0 where
  distinct : AreDistinct out
  some_found : out ≢ []
  arrived :
      (loc : List ℕ)
      → contains out loc ≡ true
      → (contains results loc ≡ true) ⊎ HasArrived loc arrivals

collect_results-Collects :
    (results : List (List ℕ)) (arrivals : List Arrival) (out : List (List ℕ))
    → AreDistinct results
    → collect_results results arrivals ≡ ok out
    → Collects results arrivals out
unfolding collect_results
collect_results-Collects results [] out h e =
    let (same, full) = or_results-ok results _ out e in
    record {
      distinct = rw (sym same) h;
      some_found = full;
      arrived = λ loc there. inl (rw same there);
    }
collect_results-Collects results (cancelled x ∷ more) out h e =
    let (same, full) = or_results-ok results x out e in
    record {
      distinct = rw (sym same) h;
      some_found = full;
      arrived = λ loc there. inl (rw same there);
    }
collect_results-Collects results (read_failed x ∷ more) out h e = cc
collect_results-Collects results (datagram d ∷ more) out h e =
    let i =
      collect_results-Collects (next_results results (location_of d)) more out
        (next_results-AreDistinct results (location_of d) h) e in
    record {
      distinct = i.distinct;
      some_found = i.some_found;
      arrived = λ loc there. elim (i.arrived loc there) [
        | inl now ↦ elim (next_results-contains results (location_of d) loc now) [
          | inl before ↦ inl before
          | inr here ↦ inr (inl here)
        ]
        | inr later ↦ inr (inr later)
      ];
    }

-- A successful collection returns at least one location, no location twice and no empty one, and
-- each was named by a datagram that arrived.
pub collect_results-arrived :
    (arrivals : List Arrival) (out : List (List ℕ))
    → collect_results [] arrivals ≡ ok out
    → (out ≢ [])
      × AreDistinct out
      × ((loc : List ℕ) → contains out loc ≡ true → HasArrived loc arrivals)
collect_results-arrived arrivals out e =
    let i = collect_results-Collects [] arrivals out tt e in
    (
      i.some_found,
      i.distinct,
      λ loc there. elim (i.arrived loc there) [ inl bad ↦ cc | inr found ↦ found ],
    )
