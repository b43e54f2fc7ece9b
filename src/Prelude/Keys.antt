-- ===== src/Prelude/Keys.antt =====
-- Tables whose rows have a key, and lemmas on the rows that a test selects.
use Prim.Native.Nat.{ℕ, zero, suc, ◌+◌, ◌<◌}
use Prim.Native.String.{String}
use mathlib.Core.Path.{◌≡◌, refl, sym, ap, ◌∙◌}
use mathlib.Core.Logic.{◌⊎◌, inl, inr}
use mathlib.Core.Bool.{Bool, true, false, not, ◌&&◌}
use mathlib.Core.List.{List, [], ◌∷◌}
use native.Mathlib.Omega.{arith}
use text.Mathlib.TextEquality.{eq_iff}
use text.Mathlib.TextPositions.{eq_refl}
use novatip_backend.Prelude.Tests.{if◌then◌else◌, Bool-cases, str_eq, ◌==◌}
use novatip_backend.Prelude.Lists.{length, take, filter, any, count_where, In}

module _ {A : Type 0} where
  pub any-In : (q : A → Bool) (xs : List A) → any q xs ≡ true → (a : A) × In a xs × (q a ≡ true)
  any-In q [] h = cc
  any-In q (x ∷ xs) h = elim (Bool-cases (q x)) [
    | inl k ↦ (x, inl refl, k)
    | inr k ↦ let (a, m, e) = any-In q xs (ground arith) in (a, inr m, e)
  ]

  pub In-any : (q : A → Bool) (xs : List A) (a : A) → In a xs → q a ≡ true → any q xs ≡ true
  In-any q [] a m h = elim m [ ]
  In-any q (x ∷ xs) a (inl e) h = let k : q x ≡ true = rw (← e) h in rw k refl
  In-any q (x ∷ xs) a (inr m) h = ground (arith, In-any q xs a m h)

  pub In-take : (n : ℕ) (xs : List A) (a : A) → In a (take n xs) → In a xs
  In-take zero xs a m = elim m [ ]
  In-take (suc n) [] a m = m
  In-take (suc n) (x ∷ xs) a (inl e) = inl e
  In-take (suc n) (x ∷ xs) a (inr m) = inr (In-take n xs a m)

  kept :
      (b : Bool) (x : A) (xs : List A) (a : A)
      → In a (if b then x ∷ xs else xs)
      → ((b ≡ true) × (a ≡ x)) ⊎ In a xs
  kept true x xs a (inl e) = inl (refl, e)
  kept true x xs a (inr m) = inr m
  kept false x xs a m = inr m

  pub filter-In : (p : A → Bool) (xs : List A) (a : A) → In a (filter p xs) → In a xs × (p a ≡ true)
  filter-In p [] a m = elim m [ ]
  filter-In p (x ∷ xs) a m = elim (kept (p x) x (filter p xs) a m) [
    | inl (h, e) ↦ (inl e, ap p e ∙ h)
    | inr n ↦ let (n', h) = filter-In p xs a n in (inr n', h)
  ]

  pub take-all : (n : ℕ) (xs : List A) → length (take n xs) < n → take n xs ≡ xs
  take-all zero xs h = ground arith
  take-all (suc n) [] h = refl
  take-all (suc n) (x ∷ xs) h = ground (arith, take-all n xs)

  pub take-none : (n : ℕ) (xs : List A) → 0 < n → length (take n xs) == 0 ≡ true → xs ≡ []
  take-none zero xs h e = ground arith
  take-none (suc n) [] h e = refl
  take-none (suc n) (x ∷ xs) h e = ground arith

  pub count_where-filter :
      (p : A → Bool) (xs : List A)
      → count_where p xs + length (filter (λ x. not (p x)) xs) ≡ length xs
  count_where-filter p [] = omega arith
  count_where-filter p (x ∷ xs) = ground (arith, count_where-filter p xs)

  -- dropping items that fail a test anyway, and dropping all that pass it
  pub filter-filter :
      (p q : A → Bool) (xs : List A)
      → ((x : A) → In x xs → p x ≡ true → q x ≡ false)
      → filter q (filter (λ x. not (p x)) xs) ≡ filter q xs
  filter-filter p q [] h = refl
  filter-filter p q (x ∷ xs) h =
      ground (arith, filter-filter p q xs (λ y m. h y (inr m)), h x (inl refl))

  pub filter-none :
      (p q : A → Bool) (xs : List A)
      → ((x : A) → In x xs → q x ≡ true → p x ≡ true)
      → filter q (filter (λ x. not (p x)) xs) ≡ []
  filter-none p q [] h = refl
  filter-none p q (x ∷ xs) h =
      ground (arith, filter-none p q xs (λ y m. h y (inr m)), h x (inl refl))

  pub filter-and :
      (p q : A → Bool) (xs : List A) → filter (λ x. p x && q x) xs ≡ filter q (filter p xs)
  filter-and p q [] = refl
  filter-and p q (x ∷ xs) = ground (arith, filter-and p q xs)

module _ {A : Type 0} (id : A → String) where
  -- the ids are a key of the table
  abbrev pub ids_distinct : List A → Bool
  ids_distinct [] = true
  ids_distinct (x ∷ xs) = not (any (λ y. str_eq (id y) (id x)) xs) && ids_distinct xs

  pub any-filter : (p q : A → Bool) (xs : List A) → any q xs ≡ false → any q (filter p xs) ≡ false
  any-filter p q [] h = refl
  any-filter p q (x ∷ xs) h = ground (arith, any-filter p q xs)

  pub ids_distinct-filter :
      (p : A → Bool) (xs : List A) → ids_distinct xs ≡ true → ids_distinct (filter p xs) ≡ true
  ids_distinct-filter p [] h = refl
  ids_distinct-filter p (x ∷ xs) h =
      ground (arith, ids_distinct-filter p xs, any-filter p (λ y. str_eq (id y) (id x)) xs)

  pub same_row :
      (xs : List A) (a b : A)
      → ids_distinct xs ≡ true
      → In a xs
      → In b xs
      → str_eq (id a) (id b) ≡ true
      → a ≡ b
  same_row [] a b h m n e = elim m [ ]
  same_row (x ∷ xs) a b h (inl m) (inl n) e = m ∙ sym n
  same_row (x ∷ xs) a b h (inl m) (inr n) e = ground (
    arith,
    m,
    eq_iff (id a) (id b),
    eq_refl (id b),
    ap id m,
    In-any (λ y. str_eq (id y) (id x)) xs b n,
  )
  same_row (x ∷ xs) a b h (inr m) (inl n) e = ground (
    arith,
    n,
    eq_iff (id a) (id b),
    eq_refl (id a),
    ap id n,
    In-any (λ y. str_eq (id y) (id x)) xs a m,
  )
  same_row (x ∷ xs) a b h (inr m) (inr n) e = same_row xs a b (ground arith) m n e
