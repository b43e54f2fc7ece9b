-- ===== src/Prelude/Decimal.antt =====
-- Decimal texts of whole numbers, as lists of code points: `String(n)`, `toString` of a BigInt, and
-- the value that `BigInt(text)` reads.
use Prim.Native.Nat.{ℕ, zero, suc, ◌+◌, ◌-◌, ◌*◌, ◌/◌, ◌%◌, ◌<◌}
use mathlib.Core.Path.{◌≡◌, refl}
use mathlib.Core.Bool.{Bool, true, false, ◌&&◌}
use mathlib.Core.List.{List, [], ◌∷◌}
use native.Mathlib.Omega.{arith}
use novatip_backend.Prelude.Tests.{if◌then◌else◌, ltb, Bool-cases}
use novatip_backend.Prelude.Lists.{all}
use novatip_backend.Prelude.Text.{is_digit}
use novatip_backend.Prelude.Int.{ℤ, pos, negsuc}
use mathlib.Core.Logic.{inl, inr}

-- the digits of a number in front of a text; at most so many
digits_before : ℕ → ℕ → List ℕ → List ℕ
digits_before zero n out = out
digits_before (suc fuel) n out =
    let more = digits_before fuel (n / 10) ((b'0' + n % 10) ∷ out) in
    if ltb n 10 then (b'0' + n) ∷ out else more

unfoldable pub decimal : ℕ → List ℕ
unfolding digits_before
decimal n = digits_before (suc n) n []

unfoldable pub decimal_ℤ : ℤ → List ℕ
unfolding decimal
decimal_ℤ (pos n) = decimal n
decimal_ℤ (negsuc n) = b'-' ∷ decimal (suc n)

-- the value of a text of digits, after a number that was already read
abbrev pub value_from : ℕ → List ℕ → ℕ
value_from n [] = n
value_from n (c ∷ s) = value_from (n * 10 + (c - b'0')) s

-- [0-9]+
abbrev pub is_digits : List ℕ → Bool
is_digits [] = false
is_digits (c ∷ s) = is_digit c && all is_digit s

value_from-digits_before :
    (fuel n : ℕ) (out : List ℕ)
    → n < fuel
    → value_from 0 (digits_before fuel n out) ≡ value_from n out
unfolding digits_before
value_from-digits_before zero n out h = ground arith
value_from-digits_before (suc fuel) n out h = elim (Bool-cases (ltb n 10)) [
  | inl small ↦ rw small (ground arith)
  | inr big ↦
      let ih = value_from-digits_before fuel (n / 10) ((b'0' + n % 10) ∷ out) (ground arith) in
      let back : n / 10 * 10 + (b'0' + n % 10 - b'0') ≡ n = omega arith in
      rw big (rw ih (rw back refl))
]

pub value_from-decimal : (n : ℕ) → value_from 0 (decimal n) ≡ n
unfolding decimal
value_from-decimal n = value_from-digits_before (suc n) n [] (omega arith)

digits_before-is_digits :
    (fuel n : ℕ) (out : List ℕ)
    → n < fuel
    → all is_digit out ≡ true
    → is_digits (digits_before fuel n out) ≡ true
unfolding digits_before
digits_before-is_digits zero n out h k = ground arith
digits_before-is_digits (suc fuel) n out h k = elim (Bool-cases (ltb n 10)) [
  | inl small ↦ rw small (ground arith)
  | inr big ↦
      rw big (
        digits_before-is_digits fuel (n / 10) ((b'0' + n % 10) ∷ out) (ground arith) (ground arith))
]

pub decimal-is_digits : (n : ℕ) → is_digits (decimal n) ≡ true
unfolding decimal
decimal-is_digits n = digits_before-is_digits (suc n) n [] (omega arith) refl
