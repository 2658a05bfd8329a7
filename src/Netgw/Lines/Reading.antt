-- ===== src/Netgw/Lines/Reading.antt =====
-- What the loop's body of internal/netgw/netgw.go makes of a line.
use Prim.Native.Nat.{bit_and}
use nat_pmp.Common.{
  ℕ, ◌≡◌, ◌⊎◌, inl, inr, refl, sym, ◌∙◌, ap, arith, true, false, List, [], some, none, length,
  get_or, ltb, ◌==◌, nat_eq, list_eq, if◌then◌else◌, Error, is_ok, Bool-cases, Result-cases, ok,
  err,
}
use nat_pmp.Common.Text.{codes, fields, parse_uint}
use nat_pmp.Addr.{Addr}
use nat_pmp.Netgw.{gateway_of, gateway_if, route_of}
use nat_pmp.Netgw.Lines.{IsDefault, IsRoute, IsReadable, short, special, down, unset, route}
use nat_pmp.Netgw.Lines.Fields.{flags-IsUp, gateway_of-read, gateway_of-some, gateway_of-route}

route_of-default :
    (line : List ℕ) (f : ℕ)
    → IsDefault line
    → parse_uint (get_or (fields line) 3 []) 16 65_535 ≡ ok f
    → route_of line ≡ (if bit_and f 3 == 3 then gateway_of (fields line) else ok none)
unfolding route_of gateway_if list_eq nat_eq
route_of-default line f d e = ground (arith, d.long, d.destination, d.mask, e)

route_of-unread :
    (line : List ℕ) (x : Error)
    → IsDefault line
    → parse_uint (get_or (fields line) 3 []) 16 65_535 ≡ err x
    → is_ok (route_of line) ≡ false
unfolding route_of list_eq nat_eq
route_of-unread line x d e = ground (arith, d.long, d.destination, d.mask, e)

-- A line that is no default route is passed over.
IsDefault-or_skipped : (line : List ℕ) → IsDefault line ⊎ (route_of line ≡ ok none)
unfolding route_of list_eq nat_eq
IsDefault-or_skipped line =
    let row = fields line in
    elim (Bool-cases (ltb (length row) 8)) [
      | inl few ↦ inr (ground (arith, few))
      | inr long ↦ elim (Bool-cases (get_or row 1 [] == codes "00000000")) [
        | inr other ↦ inr (ground (arith, long, other))
        | inl zeros ↦ elim (Bool-cases (get_or row 7 [] == codes "00000000")) [
          | inr other ↦ inr (ground (arith, long, zeros, other))
          | inl masked ↦ inl (record {
            long = ground (arith, long);
            destination = ground (arith, zeros);
            mask = ground (arith, masked);
          })
        ]
      ]
    ]

pub route_of-some :
    (line : List ℕ) (a : Addr) (metric : ℕ)
    → route_of line ≡ ok (some (a, metric))
    → IsRoute line a metric
route_of-some line a metric e = elim (IsDefault-or_skipped line) [
  | inr skipped ↦ cc (skipped, e)
  | inl d ↦ elim (Result-cases (parse_uint (get_or (fields line) 3 []) 16 65_535)) [
    | inr (x, q) ↦ let unread = route_of-unread line x d q in cc (unread, ap is_ok e)
    | inl (f, q) ↦
        let opened = route_of-default line f d q in
        elim (Bool-cases (bit_and f 3 == 3)) [
          | inr other ↦ let gone : route_of line ≡ ok none = rw other at opened in cc (gone, e)
          | inl up ↦
              let used : route_of line ≡ gateway_of (fields line) = rw up at opened in
              let (n, next, address, set) = gateway_of-some line a metric (sym used ∙ e) in
              record {
                default = d;
                flags = f;
                read = q;
                up = (flags-IsUp f).0 up;
                number = n;
                next = next;
                address = address;
                set = set;
              }
        ]
  ]
]

pub route_of-IsRoute :
    (line : List ℕ) (a : Addr) (metric : ℕ)
    → IsRoute line a metric
    → route_of line ≡ ok (some (a, metric))
route_of-IsRoute line a metric r =
    route_of-default line r.flags r.default r.read
    ∙ rw ((flags-IsUp r.flags).1 r.up)
        (gateway_of-route line a r.number metric r.next r.address r.set)

pub IsReadable-is_ok : (line : List ℕ) → IsReadable line → is_ok (route_of line) ≡ true
unfolding list_eq nat_eq
IsReadable-is_ok line (short h) = elim (IsDefault-or_skipped line) [
  | inr skipped ↦ ap is_ok skipped
  | inl d ↦ absurd (omega (arith, h, d.long))
]
IsReadable-is_ok line (special h) = elim (IsDefault-or_skipped line) [
  | inr skipped ↦ ap is_ok skipped
  | inl d ↦ absurd (elim h [ inl n ↦ n d.destination | inr n ↦ n d.mask ])
]
IsReadable-is_ok line (down f e h) = elim (IsDefault-or_skipped line) [
  | inr skipped ↦ ap is_ok skipped
  | inl d ↦ elim (Bool-cases (bit_and f 3 == 3)) [
    | inl up ↦ absurd (h ((flags-IsUp f).0 up))
    | inr other ↦ rw (route_of-default line f d e, other) refl
  ]
]
IsReadable-is_ok line (unset f m e h) = elim (IsDefault-or_skipped line) [
  | inr skipped ↦ ap is_ok skipped
  | inl d ↦ elim (Bool-cases (bit_and f 3 == 3)) [
    | inl up ↦ rw (route_of-default line f d e, up, gateway_of-read line 0 m h) refl
    | inr other ↦ rw (route_of-default line f d e, other) refl
  ]
]
IsReadable-is_ok line (route a m r) = rw (route_of-IsRoute line a m r) refl
