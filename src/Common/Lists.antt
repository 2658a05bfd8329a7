-- ===== src/Common/Lists.antt =====
-- Lists measured, sliced and indexed by native numbers, under the library's names.
use Prim.Native.Nat.{ℕ, zero, suc, ◌+◌, ◌-◌, ◌≤◌, ◌<◌, min}
use mathlib.Core.Path.{◌≡◌, refl, ap}
use mathlib.Core.List.{List, [], ◌∷◌, ◌++◌}
use native.Mathlib.Omega.{arith}

module _ {ℓ} {A : Type ℓ} where
  abbrev pub length : List A → ℕ
  length [] = 0
  length (x ∷ xs) = suc (length xs)

  abbrev pub get_or : List A → ℕ → A → A
  get_or [] i d = d
  get_or (x ∷ xs) zero d = x
  get_or (x ∷ xs) (suc i) d = get_or xs i d

  abbrev pub take : ℕ → List A → List A
  take zero xs = []
  take (suc n) [] = []
  take (suc n) (x ∷ xs) = x ∷ take n xs

  abbrev pub drop : ℕ → List A → List A
  drop zero xs = xs
  drop (suc n) [] = []
  drop (suc n) (x ∷ xs) = drop n xs

  abbrev pub replicate : ℕ → A → List A
  replicate zero a = []
  replicate (suc n) a = a ∷ replicate n a

  -- Go's `b[lo:hi]`.
  abbrev pub slice : List A → ℕ → ℕ → List A
  slice b lo hi = take (hi - lo) (drop lo b)

  abbrev pub All {κ} : (A → Type κ) → List A → Type κ
  All P [] = Unit {κ}
  All P (x ∷ xs) = P x × All P xs

  pub length-append : (xs ys : List A) → length (xs ++ ys) ≡ length xs + length ys
  length-append [] ys = omega arith
  length-append (x ∷ xs) ys = omega (arith, length-append xs ys)

  pub length-take : (n : ℕ) (xs : List A) → length (take n xs) ≡ min n (length xs)
  length-take zero xs = omega arith
  length-take (suc n) [] = omega arith
  length-take (suc n) (x ∷ xs) = omega (arith, length-take n xs)

  pub length-drop : (n : ℕ) (xs : List A) → length (drop n xs) ≡ length xs - n
  length-drop zero xs = omega arith
  length-drop (suc n) [] = omega arith
  length-drop (suc n) (x ∷ xs) = omega (arith, length-drop n xs)

  pub All-append {κ} : (P : A → Type κ) (xs ys : List A) → All P xs → All P ys → All P (xs ++ ys)
  All-append P [] ys hx hy = hy
  All-append P (x ∷ xs) ys hx hy = (hx.0, All-append P xs ys hx.1 hy)

  pub All-both {κ μ} :
      (P : A → Type κ) (Q : A → Type μ) (xs : List A)
      → All P xs
      → All Q xs
      → All (λ x. P x × Q x) xs
  All-both P Q [] p q = tt
  All-both P Q (x ∷ xs) p q = ((p.0, q.0), All-both P Q xs p.1 q.1)

  pub get_or-take : (n i : ℕ) (xs : List A) (d : A) → i < n → get_or (take n xs) i d ≡ get_or xs i d
  get_or-take zero i xs d h = absurd (omega arith)
  get_or-take (suc n) i [] d h = refl
  get_or-take (suc n) zero (x ∷ xs) d h = refl
  get_or-take (suc n) (suc i) (x ∷ xs) d h = get_or-take n i xs d (omega arith)

  take-take : (m n : ℕ) (xs : List A) → m ≤ n → take m (take n xs) ≡ take m xs
  take-take zero n xs h = refl
  take-take (suc m) zero xs h = absurd (omega arith)
  take-take (suc m) (suc n) [] h = refl
  take-take (suc m) (suc n) (x ∷ xs) h = ap (λ ys. x ∷ ys) (take-take m n xs (omega arith))

  take-drop-take :
      (n lo m : ℕ) (xs : List A) → lo + m ≤ n → take m (drop lo (take n xs)) ≡ take m (drop lo xs)
  take-drop-take n zero m xs h = take-take m n xs (omega arith)
  take-drop-take zero (suc lo) m xs h = absurd (omega arith)
  take-drop-take (suc n) (suc lo) m [] h = refl
  take-drop-take (suc n) (suc lo) m (x ∷ xs) h = take-drop-take n lo m xs (omega arith)

  -- Within the first `n` elements, a slice is a slice of those.
  pub slice-take :
      (n lo hi : ℕ) (xs : List A) → lo ≤ hi → hi ≤ n → slice (take n xs) lo hi ≡ slice xs lo hi
  slice-take n lo hi xs h k = take-drop-take n lo (hi - lo) xs (omega arith)

module _ {ℓ} {A : Type ℓ} where
  -- A front of known length, and what comes behind it.
  pub take-append_exact : (n : ℕ) (xs ys : List A) → length xs ≡ n → take n (xs ++ ys) ≡ xs
  take-append_exact zero [] ys h = refl
  take-append_exact zero (x ∷ xs) ys h = absurd (omega arith)
  take-append_exact (suc n) [] ys h = absurd (omega arith)
  take-append_exact (suc n) (x ∷ xs) ys h =
      ap (λ zs. x ∷ zs) (take-append_exact n xs ys (omega arith))

  pub drop-append_past :
      (n k : ℕ) (xs ys : List A) → length xs ≡ n → drop (n + k) (xs ++ ys) ≡ drop k ys
  drop-append_past n k [] ys h = let e : n + k ≡ k = omega arith in rw e
  drop-append_past zero k (x ∷ xs) ys h = absurd (omega arith)
  drop-append_past (suc n) k (x ∷ xs) ys h =
      let e : suc n + k ≡ suc (n + k) = omega arith in
      rw e (drop-append_past n k xs ys (omega arith))

  pub get_or-append_past :
      (n k : ℕ) (xs ys : List A) (d : A)
      → length xs ≡ n
      → get_or (xs ++ ys) (n + k) d ≡ get_or ys k d
  get_or-append_past n k [] ys d h = let e : n + k ≡ k = omega arith in rw e
  get_or-append_past zero k (x ∷ xs) ys d h = absurd (omega arith)
  get_or-append_past (suc n) k (x ∷ xs) ys d h =
      let e : suc n + k ≡ suc (n + k) = omega arith in
      rw e (get_or-append_past n k xs ys d (omega arith))

  pub take-all_within : (n : ℕ) (xs : List A) → length xs ≤ n → take n xs ≡ xs
  take-all_within zero [] h = refl
  take-all_within zero (x ∷ xs) h = absurd (omega arith)
  take-all_within (suc n) [] h = refl
  take-all_within (suc n) (x ∷ xs) h = ap (λ zs. x ∷ zs) (take-all_within n xs (omega arith))

  pub take-all : (n : ℕ) (xs : List A) → length xs ≡ n → take n xs ≡ xs
  take-all n xs h = take-all_within n xs (omega arith)
