-- ===== src/Netgw/Lines/Fields.antt =====
-- The flags and the next hop of a line, as internal/netgw/netgw.go reads them.
use Prim.Native.Nat.{bit_and, bit_and-bitwise, digits, min}
use nat_pmp.Common.{
  ℕ, zero, suc, ◌+◌, ◌*◌, ◌/◌, ◌%◌, ◌≡◌, ◌≢◌, ◌≤◌, ◌↔◌, inl, inr, refl, sym, ◌∙◌, ap, arith, true,
  false, List, [], Option, some, none, get_or, ◌==◌, nat_eq, list_eq, if◌then◌else◌, Bool-cases,
  Result-cases, ok,
}
use nat_pmp.Common.Text.{fields, parse_uint}
use nat_pmp.Common.Bytes.{uint}
use nat_pmp.Addr.{Addr, v4, addr_from4, is_unspecified}
use nat_pmp.Netgw.{little_endian, parse_hex_addr, gateway_of}
use nat_pmp.Netgw.Lines.{IsUp, reversed, HasGateway}

digits-none : (n a : ℕ) → digits (λ b. zero) min n a zero ≡ zero
digits-none zero a = refl
digits-none (suc n) zero = refl
digits-none (suc n) (suc a) = rw (digits-none n (suc a / 2)) (omega arith)

digits-one : (n a : ℕ) → a ≤ n → digits (λ b. zero) min n a 1 ≡ a % 2
digits-one zero a h = omega arith
digits-one (suc n) zero h = refl
digits-one (suc n) (suc a) h = rw (digits-none n (suc a / 2)) (omega arith)

digits-three : (n : ℕ) → digits (λ b. zero) min n n 3 ≡ n / 2 % 2 * 2 + n % 2
digits-three zero = refl
digits-three (suc n) = rw (digits-one n (suc n / 2) (omega arith)) (omega arith)

-- The two low bits.
bit_and-three : (f : ℕ) → bit_and f 3 ≡ f / 2 % 2 * 2 + f % 2
bit_and-three f = bit_and-bitwise f 3 ∙ digits-three f

reversed_lem : (n : ℕ) → addr_from4 (little_endian n) ≡ reversed n
reversed_lem n = ap v4 (omega arith)

-- A zero address is no gateway.
abbrev pub unless_zero : Addr → ℕ → Option (Addr × ℕ)
unless_zero a metric = if is_unspecified a then none else some (a, metric)

-- What is made of the fields behind the flags.
pub gateway_of-read :
    (line : List ℕ) (n metric : ℕ)
    → HasGateway line n metric
    → gateway_of (fields line) ≡ ok (unless_zero (addr_from4 (little_endian n)) metric)
unfolding gateway_of parse_hex_addr
gateway_of-read line n metric h = ground (arith, h.eight, h.hop, h.cost)

gateway_of-fields :
    (line : List ℕ) (r : Option (Addr × ℕ))
    → gateway_of (fields line) ≡ ok r
    → (n metric : ℕ) × HasGateway line n metric
unfolding gateway_of parse_hex_addr
gateway_of-fields line r e =
    elim (Result-cases (parse_uint (get_or (fields line) 6 []) 10 4_294_967_295)) [
      | inr (x, q) ↦ absurd (ground (arith, q, e))
      | inl (m, q) ↦ elim (Result-cases (parse_uint (get_or (fields line) 2 []) 16 4_294_967_295)) [
        | inr (x, p) ↦ absurd (ground (arith, q, p, e))
        | inl (n, p) ↦ (n, m, record { eight = ground (arith, q, p, e); hop = p; cost = q })
      ]
    ]

chosen :
    (x a : Addr) (m metric : ℕ)
    → unless_zero x m ≡ some (a, metric)
    → (x ≡ a) × (m ≡ metric) × (is_unspecified x ≡ false)
chosen x a m metric e = elim (Bool-cases (is_unspecified x)) [
  | inl zero_addr ↦ absurd (ground (arith, zero_addr, e))
  | inr set ↦ (ground (arith, set, e), ground (arith, set, e), set)
]

pub gateway_of-some :
    (line : List ℕ) (a : Addr) (metric : ℕ)
    → gateway_of (fields line) ≡ ok (some (a, metric))
    → (n : ℕ) × HasGateway line n metric × (a ≡ reversed n) × (a ≢ v4 0)
unfolding nat_eq
gateway_of-some line a metric e =
    let (n, m, h) = gateway_of-fields line (some (a, metric)) e in
    let x = addr_from4 (little_endian n) in
    let taken : unless_zero x m ≡ some (a, metric) = cc (gateway_of-read line n m h, e) in
    let (same, cost, set) = chosen x a m metric taken in
    (
      n,
      record { eight = h.eight; hop = h.hop; cost = h.cost ∙ ap ok cost },
      sym same ∙ reversed_lem n,
      λ q. ground (arith, same, set, q),
    )

unless_zero-set :
    (t : ℕ) (a : Addr) (metric : ℕ)
    → a ≡ v4 t
    → a ≢ v4 0
    → unless_zero (v4 t) metric ≡ some (a, metric)
unless_zero-set t a metric p set = elim (Bool-cases (t == 0)) [
  | inl z ↦ absurd (set (p ∙ ap v4 (ground (arith, z))))
  | inr other ↦ rw (other, sym p) refl
]

pub gateway_of-route :
    (line : List ℕ) (a : Addr) (n metric : ℕ)
    → HasGateway line n metric
    → a ≡ reversed n
    → a ≢ v4 0
    → gateway_of (fields line) ≡ ok (some (a, metric))
unfolding nat_eq
gateway_of-route line a n metric h p set =
    gateway_of-read line n metric h
    ∙ ap ok (unless_zero-set (uint (little_endian n)) a metric (p ∙ sym (reversed_lem n)) set)

-- The test of the flags.
pub flags-IsUp : (f : ℕ) → (bit_and f 3 == 3) ≡ true ↔ IsUp f
unfolding nat_eq
flags-IsUp f =
    (λ e. ground (arith, bit_and-three f, e), λ h. ground (arith, bit_and-three f, h.0, h.1))
