-- ===== src/Common/Run.antt =====
-- Calls that read and change a state and may fail: the network's history, a client's fields, the
-- daemon's world. An error skips the rest and keeps the state that it was met in.
use mathlib.Core.Path.{◌≡◌, refl}
use Prim.Native.String.{String}
use nat_pmp.Common.Errors.{wrap, Result, ok, err}

abbrev pub Run {ℓ} : Type 0 → Type ℓ → Type ℓ
Run W A = W → Result A × W

abbrev pub then_run {ℓ κ} :
    {W : Type 0} {A : Type ℓ} {B : Type κ} → Result A × W → (A → Run W B) → Result B × W
then_run (ok a, w) f = f a w
then_run (err e, w) f = (err e, w)

infixl 5 ◌>>=◌ ◌>>◌
abbrev pub ◌>>=◌ {ℓ κ} : {W : Type 0} {A : Type ℓ} {B : Type κ} → Run W A → (A → Run W B) → Run W B
◌>>=◌ m f w = then_run (m w) f

abbrev pub ◌>>◌ {κ} : {W : Type 0} {B : Type κ} → Run W (Unit {0}) → Run W B → Run W B
◌>>◌ m k w = then_run (m w) (λ _. k)

-- `Errors.wrap` on the result of a call.
abbrev pub wrap_run {ℓ} : {W : Type 0} {A : Type ℓ} → String → Run W A → Run W A
wrap_run s m w = let (r, w') = m w in (wrap s r, w')

-- A pure function, which touches no state.
abbrev pub lift {ℓ} : {W : Type 0} {A : Type ℓ} → Result A → Run W A
lift r w = (r, w)

-- Inversion of a successful call: the parts stay shut.
pub then_run-ok {ℓ κ} :
    {W : Type 0} {A : Type ℓ} {B : Type κ} (p : Result A × W) (f : A → Run W B) {b : B} {w' : W}
    → then_run p f ≡ (ok b, w')
    → (a : A) × (p.0 ≡ ok a) × (f a p.1 ≡ (ok b, w'))
then_run-ok (ok a, w) f e = (a, refl, e)
then_run-ok (err x, w) f e = cc
