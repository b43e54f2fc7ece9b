-- ===== src/Feeds/Follow.antt =====
-- A client that follows the cursors of a feed to its end.
use novatip_backend.Prelude.{
  ℕ, zero, suc, ◌≤◌, ◌<◌, ◌≡◌, refl, sym, ◌∙◌, ap, String, Bool, true, false, Option, none, some,
  List, [], ◌∷◌, ◌++◌, ltb, str_eq, filter, take, length, All, All-filter, Bool-cases, ltb→lt, inl,
  inr, arith, ids_distinct, length-append, Result, ok, err, fault, map,
}
use mathlib.Core.Path.{subst}
use mathlib.Core.List.{append_assoc, map-append}
use novatip_backend.Feeds.Cursor.{
  Cursor, KeyOrder, Platform, encode_cursor, decode_cursor-encode_cursor, issued_not_empty,
}
use novatip_backend.Feeds.Select.{
  cursor_of, is_after, order_rows, to_page, FeedPage, query, to_feed_page, decode_if_given,
  read_feed,
}
use novatip_backend.Feeds.Select.Rows.{
  filter-all, get_last?-snoc, feed_of, find_many-lem, feed-IsDescending,
}
use novatip_backend.Feeds.Select.Sorted.{IsDescending, after_row, All-middle, ordered-All}

module _ {A : Type 0} where
  -- a full page ends with a row, and more rows follow
  record IsSplit (size : ℕ) (rest : List A) : Type 0 where
    pub init : List A
    pub last : A
    pub post : List A
    pub page : take size (take (suc size) rest) ≡ init ++ last ∷ []
    pub whole : rest ≡ init ++ last ∷ post

  IsSplit-page :
      (size : ℕ) (rest : List A)
      → size < length (take (suc size) rest)
      → 0 < size
      → IsSplit size rest
  IsSplit-page zero rest h pos = ground arith
  IsSplit-page (suc size) [] h pos = ground arith
  IsSplit-page (suc zero) (x ∷ []) h pos = ground arith
  IsSplit-page (suc zero) (x ∷ y ∷ rest) h pos = record {
    init = [];
    last = x;
    post = y ∷ rest;
    page = refl;
    whole = refl;
  }
  IsSplit-page (suc (suc size)) (x ∷ rest) h pos =
      let s = IsSplit-page (suc size) rest (omega (arith, h)) (omega arith) in
      record {
        init = x ∷ s.init;
        last = s.last;
        post = s.post;
        page = ap (λ ys. x ∷ ys) s.page;
        whole = ap (λ ys. x ∷ ys) s.whole;
      }

  last_page :
      (size : ℕ) (rest : List A)
      → length (take (suc size) rest) ≤ size
      → take (suc size) rest ≡ rest
  last_page size [] h = refl
  last_page zero (x ∷ rest) h = ground arith
  last_page (suc size) (x ∷ rest) h = ap (λ ys. x ∷ ys) (last_page size rest (omega (arith, h)))

prepend : {B : Type 0} → List B → Result (List B) → Result (List B)
prepend items (ok rest) = ok (items ++ rest)
prepend items (err e) = err e

-- the answer to one request, and the rest if there is a cursor
go_on : {B : Type 0} → Result (FeedPage B) → (String → Result (List B)) → Result (List B)
unfolding prepend
go_on (err e) more = err e
go_on (ok page) more = elim page.next_cursor [
  | none ↦ ok page.items
  | some next ↦ prepend page.items (more next)
]

-- What a client gets who asks for the first page and then for the one after each cursor that it is
-- given, in at most so many requests, unless one is refused.
unfoldable pub follow :
    {B : Type 0} → (Option String → Result (FeedPage B)) → ℕ → Option String → Result (List B)
unfolding go_on
follow request zero cursor = err (fault "too many requests")
follow request (suc fuel) cursor = go_on (request cursor) (λ next. follow request fuel (some next))

module _ {A B : Type 0} (p : Platform) (o : KeyOrder) (time : A → ℕ) (key : A → String)
    (view : A → B) (scope : A → Bool) (size : ℕ) (table : List A) where
  abbrev feed : List A
  feed = feed_of o time key scope table

  decode_issued :
      (row : A)
      → str_eq (key row) "" ≡ false
      → decode_if_given p (some (encode_cursor p (time row) (key row)))
        ≡ ok (some (cursor_of o time key row))
  unfolding decode_if_given
  decode_issued row h =
      rw
        (
          issued_not_empty p (time row) (key row),
          decode_cursor-encode_cursor p (time row) (key row) h,
        )
        refl

  request : Option String → Result (FeedPage B)
  request cursor = read_feed p o time key view scope size cursor table

  -- the request with a cursor behind which `rest` stands
  request-lem :
      (cursor : Option String) (after : Option Cursor) (rest : List A)
      → ids_distinct key table ≡ true
      → decode_if_given p cursor ≡ ok after
      → filter (is_after o time key after) feed ≡ rest
      → request cursor ≡ ok (to_feed_page p o time key view (to_page (take (suc size) rest) size))
  unfolding request read_feed
  request-lem cursor after rest h decoded behind =
      ap (query p o time key view scope size table) decoded
      ∙ ap (λ rows. ok (to_feed_page p o time key view (to_page rows size)))
          (find_many-lem o time key scope table h after (suc size) ∙ ap (take (suc size)) behind)

  to_page-more :
      (rest : List A) (s : IsSplit size rest)
      → size < length (take (suc size) rest)
      → to_page (take (suc size) rest) size
        ≡ record { rows = s.init ++ s.last ∷ []; next = some s.last }
  unfolding to_page
  to_page-more rest s h =
      let more : ltb size (length (take (suc size) rest)) ≡ true = ground arith in
      rw (more, s.page, get_last?-snoc s.init s.last) refl

  to_page-last :
      (rest : List A)
      → length (take (suc size) rest) ≤ size
      → to_page (take (suc size) rest) size ≡ record { rows = rest; next = none }
  unfolding to_page
  to_page-last rest h =
      let over : ltb size (length (take (suc size) rest)) ≡ false = ground arith in
      rw (over, last_page size rest h) refl

  follow_from :
      (fuel : ℕ) (cursor : Option String) (after : Option Cursor) (before rest : List A)
      → ids_distinct key table ≡ true
      → All (λ row. str_eq (key row) "" ≡ false) feed
      → 0 < size
      → decode_if_given p cursor ≡ ok after
      → feed ≡ before ++ rest
      → filter (is_after o time key after) feed ≡ rest
      → length rest < fuel
      → follow request fuel cursor ≡ ok (map view rest)
  unfolding follow
  follow_from zero cursor after before rest h named pos decoded parts behind enough = ground arith
  follow_from (suc fuel) cursor after before rest h named pos decoded parts behind enough =
      let answer = request-lem cursor after rest h decoded behind in
      elim (Bool-cases (ltb size (length (take (suc size) rest)))) [
        | inr short ↦
            ap (λ r. go_on r (λ next. follow request fuel (some next)))
              (answer
                ∙ ap (λ page. ok (to_feed_page p o time key view page))
                    (to_page-last rest (ground arith)))
        | inl long ↦
            let s = IsSplit-page size rest (ltb→lt _ _ long) pos in
            let whole : feed ≡ (before ++ s.init) ++ s.last ∷ s.post =
              parts
              ∙ ap (λ xs. before ++ xs) s.whole
              ∙ sym (append_assoc before s.init (s.last ∷ s.post)) in
            let rest_follows =
              follow_from fuel (some (encode_cursor p (time s.last) (key s.last)))
                (some (cursor_of o time key s.last)) ((before ++ s.init) ++ s.last ∷ []) s.post h
                named pos
                (decode_issued s.last (
                  All-middle o time key (λ row. str_eq (key row) "" ≡ false) (before ++ s.init)
                    s.last s.post (subst (All (λ row. str_eq (key row) "" ≡ false)) whole named)))
                (whole ∙ sym (append_assoc (before ++ s.init) (s.last ∷ []) s.post))
                (ap (filter (is_after o time key (some (cursor_of o time key s.last)))) whole
                  ∙ after_row o time key (before ++ s.init) s.last s.post (
                      subst (IsDescending o time key) whole
                        (feed-IsDescending o time key scope table h)))
                (omega
                  (arith, enough, ap length s.whole, length-append s.init (s.last ∷ s.post))) in
            ap (λ r. go_on r (λ next. follow request fuel (some next)))
              (answer
                ∙ ap (λ page. ok (to_feed_page p o time key view page))
                    (to_page-more rest s (ltb→lt _ _ long)))
            ∙ ap (prepend (map view (s.init ++ s.last ∷ []))) rest_follows
            ∙ ap ok (
                sym (map-append view (s.init ++ s.last ∷ []) s.post)
                ∙ ap (map view) (append_assoc s.init (s.last ∷ []) s.post)
                ∙ ap (map view) (sym s.whole))
      ]

  -- On a table whose keys are distinct and not empty, for a positive page size and more requests
  -- than the feed has rows: following the cursors from the first page gives every row of the feed
  -- once, newest first, and the last page ends it.
  pub read_feed-follow :
      (fuel : ℕ)
      → ids_distinct key table ≡ true
      → All (λ row. str_eq (key row) "" ≡ false) table
      → 0 < size
      → length (order_rows o time key (filter scope table)) < fuel
      → follow (λ cursor. read_feed p o time key view scope size cursor table) fuel none
        ≡ ok (map view (order_rows o time key (filter scope table)))
  unfolding request is_after decode_if_given
  read_feed-follow fuel h named pos enough =
      follow_from fuel none none [] feed h
        (ordered-All o time key (λ row. str_eq (key row) "" ≡ false) (filter scope table)
          (All-filter (λ row. str_eq (key row) "" ≡ false) scope table named))
        pos refl refl (filter-all feed) enough
