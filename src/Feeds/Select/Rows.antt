-- ===== src/Feeds/Select/Rows.antt =====
-- All rows of a feed in order, of which each query takes some.
use novatip_backend.Prelude.{
  ℕ, ◌≡◌, refl, ◌∙◌, ap, String, Bool, true, some, Option, List, [], ◌∷◌, ◌++◌, filter, take,
  get_last?, ids_distinct, ids_distinct-filter, filter-and,
}
use novatip_backend.Feeds.Cursor.{Cursor, KeyOrder}
use novatip_backend.Feeds.Select.{is_after, find_many}
use novatip_backend.Feeds.Select.Sorted.{
  IsDescending, ordered, ordered-IsDescending, ordered-filter,
}

module _ {A : Type 0} where
  pub filter-all : (xs : List A) → filter (λ _. true) xs ≡ xs
  filter-all [] = refl
  filter-all (x ∷ xs) = ap (λ ys. x ∷ ys) (filter-all xs)

  pub get_last?-snoc : (xs : List A) (x : A) → get_last? (xs ++ x ∷ []) ≡ some x
  get_last?-snoc [] x = refl
  get_last?-snoc (y ∷ []) x = refl
  get_last?-snoc (y ∷ z ∷ xs) x = get_last?-snoc (z ∷ xs) x

module _ {A : Type 0} (o : KeyOrder) (time : A → ℕ) (key : A → String) (scope : A → Bool)
    (table : List A) where
  -- all rows of the feed, newest first
  abbrev pub feed_of : List A
  feed_of = ordered o time key (filter scope table)

  pub find_many-lem :
      ids_distinct key table ≡ true
      → (after : Option Cursor) (count : ℕ)
      → find_many o time key scope after count table
        ≡ take count (filter (is_after o time key after) feed_of)
  unfolding find_many
  find_many-lem h after count =
      ap (λ rows. take count (ordered o time key rows))
        (filter-and scope (is_after o time key after) table)
      ∙ ap (take count) (
          ordered-filter o time key (is_after o time key after) (filter scope table)
            (ids_distinct-filter key scope table h))

  pub feed-IsDescending : ids_distinct key table ≡ true → IsDescending o time key feed_of
  feed-IsDescending h =
      ordered-IsDescending o time key (filter scope table) (ids_distinct-filter key scope table h)
