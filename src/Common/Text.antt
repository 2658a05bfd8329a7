-- ===== src/Common/Text.antt =====
-- Text as the codes of its characters: `strings.Fields` and `strconv.ParseUint` on it.
pub mod Decimal
use Prim.Native.Char.{code}
use Prim.Native.Nat.{ℕ, ◌+◌, ◌*◌, ◌-◌}
use Prim.Native.String.{String, ◌++◌ as ◌<>◌}
use Prim.Native.String.append as Append
use mathlib.Core.Path.{◌≡◌, ap, ◌∙◌}
use mathlib.Core.Bool.{Bool, true, false, not, ◌&&◌, ◌||◌}
use mathlib.Core.List.{List, [], ◌∷◌, ◌++◌}
use nat_pmp.Common.Tests.{ltb, leb, if◌then◌else◌}
use nat_pmp.Common.Equality.{◌==◌, nat_eq}
use nat_pmp.Common.Errors.{Result, ok, err, failed}

abbrev pub codes : String → List ℕ
codes String.[] = []
codes (String.◌∷◌ c s) = code c ∷ codes s

pub codes-append : (s t : String) → codes (s <> t) ≡ codes s ++ codes t
codes-append String.[] t = ap codes (Append.nil t)
codes-append (String.◌∷◌ c s) t =
    ap codes (Append.cons c s t) ∙ ap (λ l. code c ∷ l) (codes-append s t)

-- unicode.IsSpace
unfoldable pub is_space : ℕ → Bool
is_space c =
    (leb 9 c && leb c 13)
    || c == 0x20
    || c == 0x85
    || c == 0xa0
    || c == 0x1680
    || (leb 0x2000 c && leb c 0x200a)
    || c == 0x2028
    || c == 0x2029
    || c == 0x202f
    || c == 0x205f
    || c == 0x3000

begins_word : List ℕ → Bool
begins_word [] = false
begins_word (c ∷ s) = not (is_space c)

-- `c` before the words of the rest, as part of the first of them if that follows at once.
extend : ℕ → Bool → List (List ℕ) → List (List ℕ)
extend c true (w ∷ ws) = (c ∷ w) ∷ ws
extend c true [] = (c ∷ []) ∷ []
extend c false ws = (c ∷ []) ∷ ws

-- strings.Fields
unfoldable pub fields : List ℕ → List (List ℕ)
unfolding begins_word extend
fields [] = []
fields (c ∷ s) = let rest = fields s in if is_space c then rest else extend c (begins_word s) rest

-- The value of a digit of either case; 36 if it is none.
unfoldable pub digit : ℕ → ℕ
digit c =
    if leb b'0' c && leb c b'9'
    then c - b'0'
    else if leb b'a' c && leb c b'z'
    then c - b'a' + 10
    else if leb b'A' c && leb c b'Z'
    then c - b'A' + 10
    else 36

-- The digits behind a prefix of the value `n`.
unfoldable pub parse_digits : ℕ → ℕ → ℕ → List ℕ → Result ℕ
parse_digits base max n [] = ok n
parse_digits base max n (c ∷ s) =
    let value = n * base + digit c in
    let rest = parse_digits base max value s in
    if leb base (digit c)
    then err (failed "invalid syntax")
    else if ltb max value
    then err (failed "value out of range")
    else rest

-- strconv.ParseUint with base 10 or 16, up to the greatest value of at most 32 bits.
unfoldable pub parse_uint : List ℕ → ℕ → ℕ → Result ℕ
parse_uint [] base max = err (failed "invalid syntax")
parse_uint (c ∷ s) base max = parse_digits base max 0 (c ∷ s)
