-- ===== src/Feeds/Select/Growth.antt =====
-- A feed that grows while a client reads it.
use novatip_backend.Prelude.{
  ℕ, ◌≡◌, refl, ◌∙◌, String, Bool, true, false, ◌&&◌, some, List, [], ◌∷◌, ◌++◌, filter, arith, ok,
}
use novatip_backend.Feeds.Cursor.{KeyOrder, Platform}
use novatip_backend.Feeds.Select.{
  cursor_of, newest_first, is_after, find_many, decode_if_given, read_feed,
}
use novatip_backend.Feeds.Select.Sorted.{is_after-precedes, precedes-asym}

filter-dropped :
    {A : Type 0} (q : A → Bool) (xs : List A) (x : A)
    → q x ≡ false
    → filter q (xs ++ x ∷ []) ≡ filter q xs
filter-dropped q [] x h = rw h refl
filter-dropped q (y ∷ xs) x h = ground (arith, filter-dropped q xs x h)

module _ {A B : Type 0} (p : Platform) (o : KeyOrder) (time : A → ℕ) (key : A → String)
    (view : A → B) where
  -- If the cursor of a request names a row, a new row that the ORDER BY of the feed puts before that
  -- row changes nothing: the page and its next cursor are the same as without it.
  pub read_feed-growth :
      (scope : A → Bool) (size : ℕ) (raw : String) (last : A) (table : List A) (row : A)
      → decode_if_given p (some raw) ≡ ok (some (cursor_of o time key last))
      → newest_first o time key row last ≡ true
      → read_feed p o time key view scope size (some raw) (table ++ row ∷ [])
        ≡ read_feed p o time key view scope size (some raw) table
  unfolding read_feed find_many
  read_feed-growth scope size raw last table row decoded above =
      let after = some (cursor_of o time key last) in
      let beyond : is_after o time key after row ≡ false =
        is_after-precedes o time key last row ∙ precedes-asym o time key row last above in
      let dropped =
        filter-dropped (λ r. scope r && is_after o time key after r) table row
          (ground (arith, beyond)) in
      rw (decoded, dropped) refl
