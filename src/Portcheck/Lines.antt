-- ===== src/Portcheck/Lines.antt =====
-- The lines of /proc/net that internal/portcheck/portcheck.go counts, described by their fields.
use nat_pmp.Common.{
  ℕ, ◌≡◌, ◌≤◌, ◌↔◌, ◌⊎◌, inl, inr, refl, ◌∙◌, ap, arith, Bool, true, false, List, [], ◌∷◌, ◌++◌,
  none, some, length, get_or, contains, nat_eq, list_eq, Bool-cases, Option-cases, Result-cases, ok,
}
use nat_pmp.Common.Text.{fields, parse_uint}
use nat_pmp.Portcheck.{after_last, parse_local_port, has_port, is_bound}

-- The address ends in a colon and hexadecimal digits of the port, and these have no colon.
pub record EndsInPort (port : ℕ) (local : List ℕ) : Type 0 where
  pub host : List ℕ
  pub hex : List ℕ
  pub joined : local ≡ host ++ (58 ∷ hex)
  pub last : contains hex 58 ≡ false
  pub number : parse_uint hex 16 65_535 ≡ ok port

-- A socket on the port, in the state 0A, which is LISTEN, where that is required.
pub record IsSocket (port : ℕ) (require : Bool) (line : List ℕ) : Type 0 where
  pub long : 4 ≤ length (fields line)
  pub bound : EndsInPort port (get_or (fields line) 1 [])
  pub listening : (require ≡ false) ⊎ (get_or (fields line) 3 [] ≡ 48 ∷ 65 ∷ [])

after_last-none : (b : ℕ) (s : List ℕ) → contains s b ≡ false → after_last b s ≡ none
unfolding after_last
after_last-none b [] h = refl
after_last-none b (c ∷ s) h =
    let rest = after_last-none b s (ground arith) in ground (arith, rest, h)

after_last-found :
    (b : ℕ) (host hex : List ℕ)
    → contains hex b ≡ false
    → after_last b (host ++ (b ∷ hex)) ≡ some hex
unfolding after_last
after_last-found b [] hex h = let rest = after_last-none b hex h in ground (arith, rest)
after_last-found b (c ∷ host) hex h =
    let rest = after_last-found b host hex h in ground (arith, rest)

after_last-absent : (b : ℕ) (s : List ℕ) → after_last b s ≡ none → contains s b ≡ false
unfolding after_last
after_last-absent b [] e = refl
after_last-absent b (c ∷ s) e = elim (Option-cases (after_last b s)) [
  | inr (r, q) ↦ absurd (ground (arith, q, e))
  | inl q ↦ let rest = after_last-absent b s q in ground (arith, q, e, rest)
]

after_last-splits :
    (b : ℕ) (s hex : List ℕ)
    → after_last b s ≡ some hex
    → (host : List ℕ) × (s ≡ host ++ (b ∷ hex)) × (contains hex b ≡ false)
unfolding after_last
after_last-splits b [] hex e = cc
after_last-splits b (c ∷ s) hex e = elim (Option-cases (after_last b s)) [
  | inr (r, q) ↦
      let same : r ≡ hex = ground (arith, q, e) in
      let (host, joined, last) = after_last-splits b s hex (q ∙ ap some same) in
      (c ∷ host, ap (λ l. c ∷ l) joined, last)
  | inl q ↦
      let absent = after_last-absent b s q in
      ([], ground (arith, q, e), ground (arith, q, e, absent))
]

parse_local_port_iff :
    (local : List ℕ) (port : ℕ) → (parse_local_port local ≡ some port) ↔ EndsInPort port local
unfolding parse_local_port
parse_local_port_iff local port = (
  λ e. elim (Option-cases (after_last 58 local)) [
    | inl q ↦ absurd (ground (arith, q, e))
    | inr (hex, q) ↦
        let (host, joined, last) = after_last-splits 58 local hex q in
        record {
          host = host;
          hex = hex;
          joined = joined;
          last = last;
          number = elim (Result-cases (parse_uint hex 16 65_535)) [
            | inl (v, p) ↦ ground (arith, q, p, e)
            | inr (x, p) ↦ absurd (ground (arith, q, p, e))
          ];
        }
  ],
  λ s.
      let split : after_last 58 local ≡ some s.hex =
        ap (after_last 58) s.joined ∙ after_last-found 58 s.host s.hex s.last in
      ground (arith, split, s.number),
)

pub is_bound_iff :
    (port : ℕ) (require : Bool) (line : List ℕ)
    → (is_bound port require line ≡ true) ↔ IsSocket port require line
unfolding is_bound has_port list_eq nat_eq
is_bound_iff port require line =
    let row = fields line in
    let local = get_or row 1 [] in
    (
      λ e. record {
        long = ground (arith, e);
        bound = elim (Option-cases (parse_local_port local)) [
          | inl q ↦ absurd (ground (arith, q, e))
          | inr (p, q) ↦
              let same : p ≡ port = ground (arith, q, e) in
              (parse_local_port_iff local port).0 (q ∙ ap some same)
        ];
        listening = elim (Bool-cases require) [
          | inr free ↦ inl free
          | inl needed ↦ inr (ground (arith, needed, e))
        ];
      },
      λ s.
          let q = (parse_local_port_iff local port).1 s.bound in
          elim s.listening [
            | inl free ↦ ground (arith, free, q, s.long)
            | inr state ↦ ground (arith, state, q, s.long)
          ],
    )
