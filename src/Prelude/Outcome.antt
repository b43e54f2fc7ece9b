-- ===== src/Prelude/Outcome.antt =====
-- What a service function returns or throws. `Object.assign(new Error(…), { statusCode, code })`
-- is `thrown statusCode code`; the message text is not modelled.
use Prim.Native.Nat.{ℕ}
use Prim.Native.String.{String}
use mathlib.Core.List.{List}
use mathlib.Core.Bool.{Bool, true, false}
use mathlib.Core.Path.{◌≡◌, refl}

pub data Error : Type 0 where
  thrown : ℕ → String → Error
  -- Prisma's P2002, with the columns of the unique constraint
  unique_violation : List String → Error
  -- any other error that no code of the service raised: a constraint of the database, a lost connection
  fault : String → Error

pub data Result {ℓ} (A : Type ℓ) : Type ℓ where
  ok : A → Result A
  err : Error → Result A

-- An async function over the state `S`: what was written before a throw stays written.
abbrev pub Exec {ℓ} : Type ℓ → Type ℓ → Type ℓ
Exec S A = S → Result A × S

module _ {ℓ} {S A B : Type ℓ} where
  infixl 5 ◌>>=◌ ◌>>◌
  abbrev pub continue : Result A → (A → Exec S B) → Exec S B
  continue (ok a) f s = f a s
  continue (err e) f s = (err e, s)

  abbrev pub ◌>>=◌ : Exec S A → (A → Exec S B) → Exec S B
  ◌>>=◌ m f s = let (r, s') = m s in continue r f s'

  abbrev pub ◌>>◌ : Exec S A → Exec S B → Exec S B
  ◌>>◌ m n = ◌>>=◌ m (λ _. n)

-- `if (!b) throw e`
abbrev pub require {ℓ} : {S : Type ℓ} → Bool → Error → S → Result (Unit {ℓ}) × S
require true e s = (ok tt, s)
require false e s = (err e, s)

-- a value or an error that was computed without the state
abbrev pub lift {ℓ} : {S A : Type ℓ} → Result A → Exec S A
lift r s = (r, s)

-- a read
abbrev pub gets {ℓ} : {S A : Type ℓ} → (S → A) → Exec S A
gets f s = (ok (f s), s)

-- a write
abbrev pub modify : {S : Type 0} → (S → S) → Exec S (Unit {0})
modify f s = (ok tt, f s)

abbrev pub pure {ℓ} : {S A : Type ℓ} → A → Exec S A
pure a s = (ok a, s)

-- What holds of the state that `m` leaves, and is kept by what follows, holds at the end.
pub continue-keeps {ℓ κ} :
    {S A B : Type ℓ} (P : S → Type κ) (r : Result A) (f : A → Exec S B) (s : S)
    → P s
    → ((a : A) → r ≡ ok a → P (f a s).1)
    → P (continue r f s).1
continue-keeps P (ok a) f s h k = k a refl
continue-keeps P (err e) f s h k = h

-- A chain that ends well went through its first step.
pub continue-eq-ok {ℓ} :
    {S A B : Type ℓ} (r : Result A) (f : A → Exec S B) (s : S) (b : B)
    → (continue r f s).0 ≡ ok b
    → (a : A) × (r ≡ ok a) × ((f a s).0 ≡ ok b)
continue-eq-ok (ok a) f s b h = (a, refl, h)
continue-eq-ok (err e) f s b h = cc
