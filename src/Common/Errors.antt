-- ===== src/Common/Errors.antt =====
-- Go's error values. The four sentinels are those of portmapper; any other error is known by the
-- constant part of its message.
use Prim.Native.String.{String}
use mathlib.Core.Path.{◌≡◌, refl}
use mathlib.Core.Logic.{◌⊎◌, inl, inr}
use mathlib.Core.Bool.{Bool, true, false}

pub data Error : Type 0 where
  unsupported conflict no_resources not_authorized : Error
  failed : String → Error
  wrapped : String → Error → Error

-- Go's (value, error) pair, of which the callers use one side only.
pub data Result {ℓ} (A : Type ℓ) : Type ℓ where
  ok : A → Result A
  err : Error → Result A

-- `if cond { return err }`
abbrev pub reject_if : Bool → Error → Result (Unit {0})
reject_if true e = err e
reject_if false e = ok tt

-- fmt.Errorf(s + ": %w", err) for an error, numbers in the text left out
abbrev pub wrap {ℓ} : {A : Type ℓ} → String → Result A → Result A
wrap s (ok a) = ok a
wrap s (err e) = err (wrapped s e)

pub wrap-ok {ℓ} : {A : Type ℓ} (s : String) (r : Result A) {a : A} → wrap s r ≡ ok a → r ≡ ok a
wrap-ok s (ok a) e = e
wrap-ok s (err x) e = cc

-- err == nil
abbrev pub is_ok {ℓ} : {A : Type ℓ} → Result A → Bool
is_ok (ok a) = true
is_ok (err e) = false

pub Result-cases {ℓ} :
    {A : Type ℓ} (r : Result A) → ((a : A) × (r ≡ ok a)) ⊎ ((e : Error) × (r ≡ err e))
Result-cases (ok a) = inl (a, refl)
Result-cases (err e) = inr (e, refl)

abbrev pub value_or {ℓ} : {A : Type ℓ} → A → Result A → A
value_or d (ok a) = a
value_or d (err e) = d

-- `if err != nil { return err }` after each step of a `do` block.
infixl 5 ◌>>=◌ ◌>>◌
abbrev pub ◌>>=◌ {κ ℓ} : {S : Type κ} {T : Type ℓ} (step : Result S) → (S → Result T) → Result T
err failure >>= next = err failure
ok value >>= next = next value

abbrev pub ◌>>◌ {ℓ} : {T : Type ℓ} → Result (Unit {0}) → Result T → Result T
step >> next = step >>= (λ nothing. next)

-- Inversion of a successful step.
pub >>=-ok {κ ℓ} :
    {S : Type κ} {T : Type ℓ} (step : Result S) (next : S → Result T) {t : T}
    → (step >>= next) ≡ ok t
    → (s : S) × (step ≡ ok s) × (next s ≡ ok t)
>>=-ok (err failure) next e = cc
>>=-ok (ok value) next e = (value, refl, e)
