-- ===== src/Common/Text/Decimal.antt =====
-- `strconv.Itoa`, `strconv.FormatInt` with base 10 and "%d", for numbers of at most twenty digits, as
-- those of 64 bits are; `strconv.ParseUint` reads them back.
use Prim.Native.Nat.{ℕ, zero, suc, ◌+◌, ◌*◌, ◌/◌, ◌%◌, ◌^◌, ◌≤◌, ◌<◌}
use Prim.Native.String.{String, ◌++◌ as ◌<>◌}
use native.Mathlib.Nat.{pow-suc}
use native.Mathlib.Omega.{arith}
use mathlib.Core.Path.{◌≡◌, refl, ap, sym, ◌∙◌}
use mathlib.Core.Bool.{true, false}
use mathlib.Core.Logic.{◌≢◌, inl, inr}
use mathlib.Core.List.{List, [], ◌∷◌, ◌++◌}
use nat_pmp.Common.Lists.{get_or, All, All-append}
use nat_pmp.Common.Tests.{ltb, ltb→lt, if◌then◌else◌, Bool-cases}
use nat_pmp.Common.Equality.{nat_eq}
use nat_pmp.Common.Errors.{ok}
use nat_pmp.Common.Text.{codes, codes-append, digit, parse_digits, parse_uint}

-- The digit of a number below ten.
abbrev digits_in_order : List String
digits_in_order = "0" ∷ "1" ∷ "2" ∷ "3" ∷ "4" ∷ "5" ∷ "6" ∷ "7" ∷ "8" ∷ "9" ∷ []

unfoldable pub digit_text : ℕ → String
digit_text n = get_or digits_in_order n ""

unfoldable pub decimal_digits : ℕ → ℕ → String
decimal_digits zero n = ""
decimal_digits (suc digits) n =
    let longer = decimal_digits digits (n / 10) <> digit_text (n % 10) in
    if ltb n 10 then digit_text n else longer

unfoldable pub decimal : ℕ → String
unfolding decimal_digits digit_text
decimal n = decimal_digits 20 n

codes-digit_text : (n : ℕ) → n < 10 → codes (digit_text n) ≡ (b'0' + n) ∷ []
unfolding digit_text
codes-digit_text zero h = refl
codes-digit_text (suc zero) h = refl
codes-digit_text (suc (suc zero)) h = refl
codes-digit_text (suc (suc (suc zero))) h = refl
codes-digit_text (suc (suc (suc (suc zero)))) h = refl
codes-digit_text (suc (suc (suc (suc (suc zero))))) h = refl
codes-digit_text (suc (suc (suc (suc (suc (suc zero)))))) h = refl
codes-digit_text (suc (suc (suc (suc (suc (suc (suc zero))))))) h = refl
codes-digit_text (suc (suc (suc (suc (suc (suc (suc (suc zero)))))))) h = refl
codes-digit_text (suc (suc (suc (suc (suc (suc (suc (suc (suc zero))))))))) h = refl
codes-digit_text (suc (suc (suc (suc (suc (suc (suc (suc (suc (suc n)))))))))) h =
    absurd (omega arith)

-- One digit more.
parse_digits-snoc :
    (max : ℕ) (s : List ℕ) (d start v : ℕ)
    → d < 10
    → parse_digits 10 max start s ≡ ok v
    → v * 10 + d ≤ max
    → parse_digits 10 max start (s ++ ((b'0' + d) ∷ [])) ≡ ok (v * 10 + d)
unfolding parse_digits digit
parse_digits-snoc max [] d start v hd e h = ground arith
parse_digits-snoc max (c ∷ s) d start v hd e h =
    ground (arith, parse_digits-snoc max s d (start * 10 + digit c) v hd)

parse_digits-one : (max n : ℕ) → n < 10 → n ≤ max → parse_digits 10 max 0 ((b'0' + n) ∷ []) ≡ ok n
unfolding parse_digits digit
parse_digits-one max n h le = ground arith

too_long :
    (digits n : ℕ)
    → ltb n 10 ≡ false
    → decimal_digits (suc digits) n ≡ decimal_digits digits (n / 10) <> digit_text (n % 10)
unfolding decimal_digits
too_long digits n long = ground arith

decimal_digits-long :
    (digits n : ℕ)
    → ltb n 10 ≡ false
    → codes (decimal_digits (suc digits) n)
      ≡ codes (decimal_digits digits (n / 10)) ++ ((b'0' + n % 10) ∷ [])
unfolding decimal_digits
decimal_digits-long digits n long =
    ap codes (too_long digits n long)
    ∙ (codes-append (decimal_digits digits (n / 10)) (digit_text (n % 10))
        ∙ ap (λ l. codes (decimal_digits digits (n / 10)) ++ l)
            (codes-digit_text (n % 10) (omega arith)))

decimal_digits-short :
    (digits n : ℕ) → ltb n 10 ≡ true → decimal_digits (suc digits) n ≡ digit_text n
unfolding decimal_digits
decimal_digits-short digits n short = ground arith

parse_digits-decimal :
    (max digits n : ℕ)
    → n < 10 ^ suc digits
    → n ≤ max
    → parse_digits 10 max 0 (codes (decimal_digits (suc digits) n)) ≡ ok n
parse_digits-decimal max zero n small le =
    rw (decimal_digits-short 0 n (ground arith), codes-digit_text n (omega arith))
      (parse_digits-one max n (omega arith) le)
parse_digits-decimal max (suc digits) n small le = elim (Bool-cases (ltb n 10)) [
  | inl short ↦
      rw (decimal_digits-short (suc digits) n short, codes-digit_text n (ltb→lt n 10 short))
        (parse_digits-one max n (ltb→lt n 10 short) le)
  | inr long ↦
      let shorter : n / 10 < 10 ^ suc digits = omega (arith, pow-suc 10 (suc digits)) in
      rw (decimal_digits-long (suc digits) n long) (
        parse_digits-snoc max (codes (decimal_digits (suc digits) (n / 10))) (n % 10) 0 (n / 10)
          (omega arith) (parse_digits-decimal max digits (n / 10) shorter (omega arith))
          (omega arith)
        ∙ ap ok (omega arith))
]

abbrev pub IsDigit : ℕ → Type 0
IsDigit c = (b'0' ≤ c) × (c ≤ b'9')

AreDigits-decimal_digits : (digits n : ℕ) → All IsDigit (codes (decimal_digits digits n))
unfolding decimal_digits
AreDigits-decimal_digits zero n = tt
AreDigits-decimal_digits (suc digits) n = elim (Bool-cases (ltb n 10)) [
  | inl short ↦
      rw (decimal_digits-short digits n short, codes-digit_text n (ltb→lt n 10 short))
        (omega (arith, ltb→lt n 10 short))
  | inr long ↦ rw (decimal_digits-long digits n long) (
      All-append IsDigit (codes (decimal_digits digits (n / 10))) _
        (AreDigits-decimal_digits digits (n / 10)) (omega arith))
]

pub AreDigits-decimal : (n : ℕ) → All IsDigit (codes (decimal n))
unfolding decimal
AreDigits-decimal n = AreDigits-decimal_digits 20 n

append-ne-nil : (s : List ℕ) (c : ℕ) → s ++ (c ∷ []) ≢ []
append-ne-nil [] c e = cc
append-ne-nil (x ∷ s) c e = cc

decimal_digits-ne-nil : (digits n : ℕ) → codes (decimal_digits (suc digits) n) ≢ []
decimal_digits-ne-nil digits n e = elim (Bool-cases (ltb n 10)) [
  | inl short ↦
      let one =
        ap codes (decimal_digits-short digits n short) ∙ codes-digit_text n (ltb→lt n 10 short) in
      cc
  | inr long ↦
      append-ne-nil (codes (decimal_digits digits (n / 10))) (b'0' + n % 10)
        (sym (decimal_digits-long digits n long) ∙ e)
]

parse_uint-digits :
    (s : List ℕ) (base max : ℕ) → s ≢ [] → parse_uint s base max ≡ parse_digits base max 0 s
unfolding parse_uint
parse_uint-digits [] base max h = absurd (h refl)
parse_uint-digits (c ∷ s) base max h = refl

-- A number is read back from its decimal text.
pub parse_uint-decimal :
    (max n : ℕ) → n ≤ max → n < 10 ^ 20 → parse_uint (codes (decimal n)) 10 max ≡ ok n
unfolding decimal
parse_uint-decimal max n le small =
    parse_uint-digits (codes (decimal_digits 20 n)) 10 max (decimal_digits-ne-nil 19 n)
    ∙ parse_digits-decimal max 19 n small le
