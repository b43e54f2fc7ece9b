-- ===== src/Feeds/Select/Sorted.antt =====
-- The order of the rows of a feed, and the part of it that a cursor selects.
use novatip_backend.Prelude.{
  ℕ, ◌≡◌, refl, sym, ◌∙◌, ap, String, Bool, true, false, some, List, [], ◌∷◌, ◌++◌, str_eq,
  if◌then◌else◌, filter, any, All, All-filter, Bool-cases, inl, inr, arith, eq_iff, ids_distinct,
}
use novatip_backend.Feeds.Cursor.{KeyOrder, cursor_filter}
use novatip_backend.Feeds.Select.{cursor_of, is_after, newest_first, insert_row, order_rows}

module _ {A : Type 0} (o : KeyOrder) (time : A → ℕ) (key : A → String) where
  -- `b` comes after `a`
  abbrev pub precedes : A → A → Bool
  precedes a b = newest_first o time key a b

  -- the condition of the cursor of a row selects what the ORDER BY puts behind the row
  pub is_after-precedes :
      (a b : A) → is_after o time key (some (cursor_of o time key a)) b ≡ precedes a b
  unfolding is_after cursor_filter
  is_after-precedes a b = ground arith

  pub precedes_irrefl : (a : A) → precedes a a ≡ false
  precedes_irrefl a = ground (arith, o.lt-irrefl (key a))

  pub precedes_trans : (a b c : A) → precedes a b ≡ true → precedes b c ≡ true → precedes a c ≡ true
  precedes_trans a b c h k = ground (arith, o.lt-trans (key c) (key b) (key a))

  precedes-total :
      (a b : A) → str_eq (key b) (key a) ≡ false → precedes a b ≡ false → precedes b a ≡ true
  precedes-total a b ne h = ground (arith, o.lt-total (key a) (key b), eq_iff (key b) (key a))

  abbrev pub IsDescending : List A → Type 0
  IsDescending [] = Unit
  IsDescending (a ∷ as_) = All (λ b. precedes a b ≡ true) as_ × IsDescending as_

  abbrev insert : A → List A → List A
  insert = insert_row o time key

  abbrev pub ordered : List A → List A
  ordered = order_rows o time key

  insert-All : (P : A → Type 0) (r : A) (xs : List A) → P r → All P xs → All P (insert r xs)
  unfolding insert_row
  insert-All P r [] p _ = (p, tt)
  insert-All P r (x ∷ xs) p (q, h) = elim (Bool-cases (precedes r x)) [
    | inl k ↦ rw k (p, (q, h))
    | inr k ↦ rw k (q, insert-All P r xs p h)
  ]

  pub ordered-All : (P : A → Type 0) (xs : List A) → All P xs → All P (ordered xs)
  unfolding order_rows
  ordered-All P [] _ = tt
  ordered-All P (x ∷ xs) (p, h) = insert-All P x (ordered xs) p (ordered-All P xs h)

  precedes_every :
      (r x : A) (xs : List A)
      → precedes r x ≡ true
      → All (λ b. precedes x b ≡ true) xs
      → All (λ b. precedes r b ≡ true) xs
  precedes_every r x [] h _ = tt
  precedes_every r x (y ∷ xs) h (k, ks) = (precedes_trans r x y h k, precedes_every r x xs h ks)

  insert-IsDescending :
      (r : A) (xs : List A)
      → any (λ y. str_eq (key y) (key r)) xs ≡ false
      → IsDescending xs
      → IsDescending (insert r xs)
  unfolding insert_row
  insert-IsDescending r [] ne _ = (tt, tt)
  insert-IsDescending r (x ∷ xs) ne (h, hs) = elim (Bool-cases (precedes r x)) [
    | inl k ↦ rw k ((k, precedes_every r x xs k h), (h, hs))
    | inr k ↦
        let below = precedes-total r x (ground arith) k in
        rw k (
          insert-All (λ b. precedes x b ≡ true) r xs below h,
          insert-IsDescending r xs (ground arith) hs,
        )
  ]

  any-insert :
      (q : A → Bool) (r : A) (xs : List A)
      → q r ≡ false
      → any q xs ≡ false
      → any q (insert r xs) ≡ false
  unfolding insert_row
  any-insert q r [] h k = ground arith
  any-insert q r (x ∷ xs) h k = ground (arith, any-insert q r xs h)

  any-ordered : (q : A → Bool) (xs : List A) → any q xs ≡ false → any q (ordered xs) ≡ false
  unfolding order_rows
  any-ordered q [] h = refl
  any-ordered q (x ∷ xs) h =
      any-insert q x (ordered xs) (ground arith) (any-ordered q xs (ground arith))

  pub ordered-IsDescending : (xs : List A) → ids_distinct key xs ≡ true → IsDescending (ordered xs)
  unfolding order_rows
  ordered-IsDescending [] h = tt
  ordered-IsDescending (x ∷ xs) h =
      insert-IsDescending x (ordered xs)
        (any-ordered (λ y. str_eq (key y) (key x)) xs (ground arith))
        (ordered-IsDescending xs (ground arith))

  insert-first : (r : A) (xs : List A) → All (λ b. precedes r b ≡ true) xs → insert r xs ≡ r ∷ xs
  unfolding insert_row
  insert-first r [] _ = refl
  insert-first r (x ∷ xs) (h, _) = rw h refl

  filter-insert :
      (p : A → Bool) (r : A) (xs : List A)
      → IsDescending xs
      → filter p (insert r xs) ≡ (if p r then insert r (filter p xs) else filter p xs)
  unfolding insert_row
  filter-insert p r [] _ = ground arith
  filter-insert p r (x ∷ xs) (h, hs) = elim (Bool-cases (precedes r x)) [
    | inl k ↦
        let first =
          insert-first r (filter p (x ∷ xs))
            (All-filter (λ b. precedes r b ≡ true) p (x ∷ xs) (k, precedes_every r x xs k h)) in
        rw k (elim (Bool-cases (p r)) [ inl kept ↦ rw (kept, first) refl | inr cut ↦ rw cut refl ])
    | inr k ↦ ground (arith, k, filter-insert p r xs hs)
  ]

  pub ordered-filter :
      (p : A → Bool) (xs : List A)
      → ids_distinct key xs ≡ true
      → ordered (filter p xs) ≡ filter p (ordered xs)
  unfolding order_rows
  ordered-filter p [] h = refl
  ordered-filter p (x ∷ xs) h =
      let ih = ordered-filter p xs (ground arith) in
      let step = filter-insert p x (ordered xs) (ordered-IsDescending xs (ground arith)) in
      elim (Bool-cases (p x)) [
        | inl kept ↦
            let inserted : (if p x then insert x (filter p (ordered xs)) else filter p (ordered xs))
                ≡ insert x (filter p (ordered xs)) =
              rw kept refl in
            rw kept (ap (insert x) ih ∙ sym (step ∙ inserted))
        | inr cut ↦
            let dropped : (if p x then insert x (filter p (ordered xs)) else filter p (ordered xs))
                ≡ filter p (ordered xs) =
              rw cut refl in
            rw cut (ih ∙ sym (step ∙ dropped))
      ]

  filter-kept : (p : A → Bool) (xs : List A) → All (λ x. p x ≡ true) xs → filter p xs ≡ xs
  filter-kept p [] _ = refl
  filter-kept p (x ∷ xs) (h, hs) = rw h (ap (λ ys. x ∷ ys) (filter-kept p xs hs))

  pub All-middle :
      (P : A → Type 0) (before : List A) (row : A) (rest : List A)
      → All P (before ++ row ∷ rest)
      → P row
  All-middle P [] row rest (h, _) = h
  All-middle P (b ∷ before) row rest (_, h) = All-middle P before row rest h

  pub precedes-asym : (a b : A) → precedes a b ≡ true → precedes b a ≡ false
  precedes-asym a b h = elim (Bool-cases (precedes b a)) [
    | inl k ↦ ground (arith, precedes_trans a b a h k, precedes_irrefl a)
    | inr k ↦ k
  ]

  filter-is_after :
      (a : A) (xs : List A)
      → filter (is_after o time key (some (cursor_of o time key a))) xs ≡ filter (precedes a) xs
  filter-is_after a [] = refl
  filter-is_after a (x ∷ xs) =
      ap
        (λ b.
          if b
          then x ∷ filter (is_after o time key (some (cursor_of o time key a))) xs
          else filter (is_after o time key (some (cursor_of o time key a))) xs)
        (is_after-precedes a x)
      ∙ ap (λ ys. if precedes a x then x ∷ ys else ys) (filter-is_after a xs)

  behind_row :
      (before : List A) (row : A) (rest : List A)
      → IsDescending (before ++ row ∷ rest)
      → filter (precedes row) (before ++ row ∷ rest) ≡ rest
  behind_row [] row rest (h, hs) = rw (precedes_irrefl row) (filter-kept (precedes row) rest h)
  behind_row (b ∷ before) row rest (h, hs) =
      rw (precedes-asym b row (All-middle (λ x. precedes b x ≡ true) before row rest h))
        (behind_row before row rest hs)

  -- in a list in order, the condition of the cursor of a row selects the rows behind it
  pub after_row :
      (before : List A) (row : A) (rest : List A)
      → IsDescending (before ++ row ∷ rest)
      → filter (is_after o time key (some (cursor_of o time key row))) (before ++ row ∷ rest) ≡ rest
  after_row before row rest h =
      filter-is_after row (before ++ row ∷ rest) ∙ behind_row before row rest h
