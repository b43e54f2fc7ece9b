-- ===== src/Feeds/Select.antt =====
-- The query of a feed, `findMany` with a `where`, an ORDER BY on a time and then on a unique key, both
-- descending, and a `take`; and the page that is made of its rows.
pub mod Sorted
pub mod Rows
pub mod Growth
use novatip_backend.Prelude.{
  ℕ, zero, suc, ◌+◌, String, Bool, true, false, ◌&&◌, ◌||◌, Option, none, some, List, [], ◌∷◌, ltb,
  ◌==◌, if◌then◌else◌, filter, take, drop, length, min, max, get_last?, map, str_eq, Result, ok,
  err,
}
use mathlib.Core.Option
use novatip_backend.Feeds.Cursor.{
  Cursor, KeyOrder, Platform, cursor_filter, encode_cursor, decode_cursor,
}

module _ {A : Type 0} (o : KeyOrder) (time : A → ℕ) (key : A → String) where
  -- the cursor that names a row
  abbrev pub cursor_of : A → Cursor
  cursor_of row = record { timestamp = time row; key = key row }

  -- the rows strictly after a cursor; all if there is none
  unfoldable pub is_after : Option Cursor → A → Bool
  unfolding cursor_filter
  is_after none row = true
  is_after (some cursor) row = cursor_filter o cursor (time row) (key row)

  -- `orderBy: [{ time: "desc" }, { key: "desc" }]`: whether `a` stands before `b`
  abbrev pub newest_first : A → A → Bool
  newest_first a b = ltb (time b) (time a) || (time a == time b && o.lt (key b) (key a))

  unfoldable pub insert_row : A → List A → List A
  insert_row row [] = row ∷ []
  insert_row row (first ∷ rest) =
      let later = insert_row row rest in
      if newest_first row first then row ∷ first ∷ rest else first ∷ later

  -- ORDER BY
  unfoldable pub order_rows : List A → List A
  unfolding insert_row
  order_rows [] = []
  order_rows (row ∷ rows) = insert_row row (order_rows rows)

  unfoldable pub find_many : (A → Bool) → Option Cursor → ℕ → List A → List A
  unfolding order_rows is_after
  find_many scope after count table =
      take count (order_rows (filter (λ row. scope row && is_after after row) table))

-- `Math.min(Math.max(limit, 1), ceiling)`
abbrev pub page_size : ℕ → ℕ → ℕ
page_size ceiling limit = min (max limit 1) ceiling

-- the rows of a page, and the row that the next cursor names
pub record Page (A : Type 0) : Type 0 where
  pub rows : List A
  pub next : Option A

-- the row beyond the page tells whether there is another page, and is dropped
unfoldable pub to_page : {A : Type 0} → List A → ℕ → Page A
to_page rows take_ =
    let has_more = ltb take_ (length rows) in
    let page = if has_more then take take_ rows else rows in
    record { rows = page; next = if has_more then get_last? page else none }

-- `cursor ? decode(cursor) : null`: an empty text is no cursor
unfoldable pub decode_if_given : Platform → Option String → Result (Option Cursor)
decode_if_given p none = ok none
decode_if_given p (some raw) =
    if str_eq raw ""
    then ok none
    else (elim (decode_cursor p raw) [ ok cursor ↦ ok (some cursor) | err e ↦ err e ])

-- what a feed answers: the rows as the caller sees them, and `nextCursor`
pub record FeedPage (B : Type 0) : Type 0 where
  pub items : List B
  pub next_cursor : Option String

-- The body that the feeds share, past the clamping of the limit.
module _ {A B : Type 0} (p : Platform) (o : KeyOrder) (time : A → ℕ) (key : A → String)
    (view : A → B) where
  abbrev pub to_feed_page : Page A → FeedPage B
  to_feed_page page = record {
    items = map view page.rows;
    next_cursor = Option.map (λ row. encode_cursor p (time row) (key row)) page.next;
  }

  abbrev pub query : (A → Bool) → ℕ → List A → Result (Option Cursor) → Result (FeedPage B)
  query scope size table (ok after) =
      ok (to_feed_page (to_page (find_many o time key scope after (suc size) table) size))
  query scope size table (err e) = err e

  unfoldable pub read_feed : (A → Bool) → ℕ → Option String → List A → Result (FeedPage B)
  unfolding to_page find_many decode_if_given
  read_feed scope size cursor table = query scope size table (decode_if_given p cursor)
