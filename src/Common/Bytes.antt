-- ===== src/Common/Bytes.antt =====
-- encoding/binary: numbers as big-endian bytes, and writes into a buffer.
use Prim.Native.Nat.{ℕ, zero, suc, ◌+◌, ◌*◌, ◌/◌, ◌%◌, ◌^◌, ◌<◌, ◌≤◌}
use mathlib.Core.Path.{◌≡◌, refl, ap}
use mathlib.Core.List.{List, [], ◌∷◌, ◌++◌}
use native.Mathlib.Omega.{arith}
use nat_pmp.Common.Lists.{length, drop}

abbrev pub IsByte : ℕ → Type 0
IsByte b = b < 256

-- The number that the bytes spell, the first byte the most significant:
-- `binary.BigEndian.Uint16` of two bytes, `Uint32` of four.
abbrev pub be_number : ℕ → List ℕ → ℕ
be_number acc [] = acc
be_number acc (b ∷ bs) = be_number (acc * 256 + b) bs

abbrev pub uint : List ℕ → ℕ
uint = be_number 0

-- The two and the four bytes that `PutUint16` and `PutUint32` write.
abbrev pub uint16_bytes : ℕ → List ℕ
uint16_bytes v = (v / 256 % 256) ∷ (v % 256) ∷ []

abbrev pub uint32_bytes : ℕ → List ℕ
uint32_bytes v = (v / 16_777_216 % 256) ∷ (v / 65_536 % 256) ∷ (v / 256 % 256) ∷ (v % 256) ∷ []

-- `copy(b[at:], src)` and the puts at an offset: the buffer keeps its length.
abbrev pub copy_at : ℕ → List ℕ → List ℕ → List ℕ
copy_at at src [] = []
copy_at zero [] (x ∷ b) = x ∷ b
copy_at zero (s ∷ src) (x ∷ b) = s ∷ copy_at zero src b
copy_at (suc at) src (x ∷ b) = x ∷ copy_at at src b

pub uint-uint16_bytes : (v : ℕ) → v < 2 ^ 16 → uint (uint16_bytes v) ≡ v
uint-uint16_bytes v h = omega arith

pub uint-uint32_bytes : (v : ℕ) → v < 2 ^ 32 → uint (uint32_bytes v) ≡ v
uint-uint32_bytes v h = omega arith

pub uint16_bytes-uint :
    (a b : ℕ) → a < 256 → b < 256 → uint16_bytes (uint (a ∷ b ∷ [])) ≡ a ∷ b ∷ []
uint16_bytes-uint a b ha hb = ground arith

pub uint32_bytes-uint :
    (a b c d : ℕ)
    → a < 256
    → b < 256
    → c < 256
    → d < 256
    → uint32_bytes (uint (a ∷ b ∷ c ∷ d ∷ [])) ≡ a ∷ b ∷ c ∷ d ∷ []
uint32_bytes-uint a b c d ha hb hc hd = ground arith

-- A copy at the front, and one behind a list that is left alone.
pub copy_at-front :
    (src b : List ℕ) → length src ≤ length b → copy_at 0 src b ≡ src ++ drop (length src) b
copy_at-front [] [] h = refl
copy_at-front [] (x ∷ b) h = refl
copy_at-front (s ∷ src) [] h = absurd (omega arith)
copy_at-front (s ∷ src) (x ∷ b) h = ap (λ bs. s ∷ bs) (copy_at-front src b (omega arith))

pub copy_at-past :
    (n k : ℕ) (xs src b : List ℕ)
    → length xs ≡ n
    → copy_at (n + k) src (xs ++ b) ≡ xs ++ copy_at k src b
copy_at-past n k [] src b h = let e : n + k ≡ k = omega arith in rw e
copy_at-past zero k (x ∷ xs) src b h = absurd (omega arith)
copy_at-past (suc n) k (x ∷ xs) src b h =
    let e : suc n + k ≡ suc (n + k) = omega arith in
    rw e (ap (λ bs. x ∷ bs) (copy_at-past n k xs src b (omega arith)))
