-- ===== src/Analytics/Csv/Stream.antt =====
-- The export ends and has every tip of the creator once, whatever their number.
use novatip_backend.Prelude.{
  ℕ, zero, suc, ◌≤◌, ◌<◌, ◌≡◌, refl, sym, ap, ◌∙◌, String, true, false, Option, none, some, List,
  [], ◌∷◌, ◌++◌, length, length-append, take, take-all, filter, get_last?, ltb, ltb→lt, ◌==◌,
  Bool-cases, inl, inr, arith, ids_distinct, Result, ok,
}
use mathlib.Core.Path.{subst}
use mathlib.Core.List.{append_assoc, map-append}
use novatip_backend.Store.{Tip, Db}
use novatip_backend.Feeds.Cursor.{Cursor, KeyOrder, Platform}
use novatip_backend.Feeds.Select.{cursor_of, is_after, order_rows}
use novatip_backend.Feeds.Select.Rows.{
  filter-all, get_last?-snoc, feed_of, find_many-lem, feed-IsDescending,
}
use novatip_backend.Feeds.Select.Sorted.{IsDescending, after_row}
use novatip_backend.Feeds.Tips.{is_tip_of}
use novatip_backend.Analytics.Csv.{
  csv_header, csv_line, csv_fields, rows_per_batch, lines_of, after_last, prepend_lines,
  after_batch, csv_batches, stream_tip_history_csv,
}

-- a full batch ends with a row, and some rows may follow
record IsBatch {A : Type 0} (size : ℕ) (rest : List A) : Type 0 where
  pub init : List A
  pub last : A
  pub post : List A
  pub batch : take size rest ≡ init ++ last ∷ []
  pub whole : rest ≡ init ++ last ∷ post

take-IsBatch :
    {A : Type 0} (size : ℕ) (rest : List A)
    → size ≤ length (take size rest)
    → 0 < size
    → IsBatch size rest
take-IsBatch zero rest h pos = ground arith
take-IsBatch (suc size) [] h pos = ground arith
take-IsBatch (suc zero) (x ∷ rest) h pos = record {
  init = [];
  last = x;
  post = rest;
  batch = refl;
  whole = refl;
}
take-IsBatch (suc (suc size)) (x ∷ rest) h pos =
    let s = take-IsBatch (suc size) rest (omega (arith, h)) (omega arith) in
    record {
      init = x ∷ s.init;
      last = s.last;
      post = s.post;
      batch = ap (λ ys. x ∷ ys) s.batch;
      whole = ap (λ ys. x ∷ ys) s.whole;
    }

module _ (p : Platform) (o : KeyOrder) (creator_id : String) (db : Db) where
  -- the tips of the creator, newest first
  abbrev exported : List Tip
  exported = feed_of o (λ t. t.ledger_at) (λ t. t.id) (is_tip_of creator_id) db.tips

  -- an empty batch, a short one and a full one
  last_batch :
      (rows : List Tip) (more : Result (List (List ℕ)))
      → length rows < rows_per_batch
      → after_batch p o rows more ≡ ok (lines_of p o rows)
  last_batch [] more h = refl
  last_batch (r ∷ rows) more h =
      let short : ltb (length (r ∷ rows)) rows_per_batch ≡ true = ground (arith, h) in
      let some_row : length (r ∷ rows) == 0 ≡ false = ground arith in rw (some_row, short) refl

  full_batch :
      (rows : List Tip) (more : Result (List (List ℕ)))
      → rows_per_batch ≤ length rows
      → after_batch p o rows more ≡ prepend_lines p o (lines_of p o rows) more
  full_batch rows more h =
      let full : ltb (length rows) rows_per_batch ≡ false = ground (arith, h) in
      let some_row : length rows == 0 ≡ false = ground (arith, h) in rw (some_row, full) refl

  csv_batches_from :
      (fuel : ℕ) (after : Option Cursor) (before rest : List Tip)
      → ids_distinct (λ t. t.id) db.tips ≡ true
      → exported ≡ before ++ rest
      → filter (is_after o (λ t. t.ledger_at) (λ t. t.id) after) exported ≡ rest
      → length rest < fuel
      → csv_batches p o fuel creator_id after db ≡ ok (lines_of p o rest)
  unfolding csv_batches prepend_lines
  csv_batches_from zero after before rest h parts behind enough = ground arith
  csv_batches_from (suc fuel) after before rest h parts behind enough =
      let next = λ (rows : List Tip).
        after_batch p o rows
          (csv_batches p o fuel creator_id (after_last p o (get_last? rows)) db) in
      let queried =
        find_many-lem o (λ t. t.ledger_at) (λ t. t.id) (is_tip_of creator_id) db.tips h after
          rows_per_batch
        ∙ ap (take rows_per_batch) behind in
      elim (Bool-cases (ltb (length (take rows_per_batch rest)) rows_per_batch)) [
        | inl short ↦
            let few = ltb→lt _ _ short in
            ap next queried
            ∙ last_batch (take rows_per_batch rest) _ few
            ∙ ap (λ rows. ok (lines_of p o rows)) (take-all rows_per_batch rest few)
        | inr full ↦
            let enough_rows : rows_per_batch ≤ length (take rows_per_batch rest) =
              ground (arith, full) in
            let s = take-IsBatch rows_per_batch rest enough_rows (omega arith) in
            let rows = s.init ++ s.last ∷ [] in
            let whole : exported ≡ (before ++ s.init) ++ s.last ∷ s.post =
              parts
              ∙ ap (λ xs. before ++ xs) s.whole
              ∙ sym (append_assoc before s.init (s.last ∷ s.post)) in
            let many : rows_per_batch ≤ length rows =
              omega (arith, ap length s.batch, enough_rows) in
            let later =
              csv_batches_from fuel (some (cursor_of o (λ t. t.ledger_at) (λ t. t.id) s.last))
                ((before ++ s.init) ++ s.last ∷ []) s.post h
                (whole ∙ sym (append_assoc (before ++ s.init) (s.last ∷ []) s.post))
                (ap
                    (filter (
                      is_after o (λ t. t.ledger_at) (λ t. t.id)
                        (some (cursor_of o (λ t. t.ledger_at) (λ t. t.id) s.last))))
                    whole
                  ∙ after_row o (λ t. t.ledger_at) (λ t. t.id) (before ++ s.init) s.last s.post
                      (subst (IsDescending o (λ t. t.ledger_at) (λ t. t.id)) whole (
                        feed-IsDescending o (λ t. t.ledger_at) (λ t. t.id) (is_tip_of creator_id)
                          db.tips h)))
                (omega
                  (arith, enough, ap length s.whole, length-append s.init (s.last ∷ s.post))) in
            ap next queried
            ∙ ap next s.batch
            ∙ full_batch rows _ many
            ∙ ap
                (λ last.
                  prepend_lines p o (lines_of p o rows)
                    (csv_batches p o fuel creator_id (after_last p o last) db))
                (get_last?-snoc s.init s.last)
            ∙ ap (prepend_lines p o (lines_of p o rows)) later
            ∙ ap ok (
                sym (map-append (λ t. csv_line (csv_fields p o t)) rows s.post)
                ∙ ap (lines_of p o) (append_assoc s.init (s.last ∷ []) s.post)
                ∙ ap (lines_of p o) (sym s.whole))
      ]

  -- If the ids of the tips are distinct and there are more rounds than tips of the creator: the export
  -- ends, and yields the header and then one line for each of these tips, newest first.
  pub stream_tip_history_csv-ends :
      (fuel : ℕ)
      → ids_distinct (λ t. t.id) db.tips ≡ true
      → length (order_rows o (λ t. t.ledger_at) (λ t. t.id) (filter (is_tip_of creator_id) db.tips))
        < fuel
      → stream_tip_history_csv p o fuel creator_id db
        ≡ ok (
            csv_header
            ∷ lines_of p o (
                order_rows o
                  (λ t. t.ledger_at)
                  (λ t. t.id)
                  (filter (is_tip_of creator_id) db.tips)))
  unfolding stream_tip_history_csv prepend_lines is_after
  stream_tip_history_csv-ends fuel h enough =
      ap (prepend_lines p o (csv_header ∷ []))
        (csv_batches_from fuel none [] exported h refl (filter-all exported) enough)
