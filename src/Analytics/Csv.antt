-- ===== src/Analytics/Csv.antt =====
-- The CSV export of src/modules/analytics/analytics.service.ts. The texts that the generator yields
-- are lists of code points; it reads the table of tips as it is when the export starts.
pub mod Stream
pub mod ReadBack
use novatip_backend.Prelude.{
  ℕ, zero, suc, ◌+◌, String, Bool, true, false, ◌||◌, Option, none, some, List, [], ◌∷◌, ◌++◌, map,
  codes, ltb, ◌==◌, if◌then◌else◌, any, length, get_last?, decimal, fault, Result, ok, err,
}
use novatip_backend.Store.{Tip, Db}
use novatip_backend.Feeds.Cursor.{Cursor, KeyOrder, Platform}
use novatip_backend.Feeds.Select.{cursor_of, find_many}
use novatip_backend.Feeds.Tips.{is_tip_of}

-- [=+\-@\t\r]
abbrev pub begins_formula : ℕ → Bool
begins_formula c = c == b'=' || c == b'+' || c == b'-' || c == b'@' || c == 9 || c == 13

-- [",\n\r]
abbrev pub needs_quoting : ℕ → Bool
needs_quoting c = c == b'"' || c == b',' || c == 10 || c == 13

-- an apostrophe in front of what a spreadsheet would take for a formula
unfoldable pub guard_formula : List ℕ → List ℕ
guard_formula [] = []
guard_formula (c ∷ s) = if begins_formula c then 39 ∷ c ∷ s else c ∷ s

-- `replace(/"/g, '""')`
unfoldable pub double_quotes : List ℕ → List ℕ
double_quotes [] = []
double_quotes (c ∷ s) =
    let rest = double_quotes s in if c == b'"' then b'"' ∷ b'"' ∷ rest else c ∷ rest

unfoldable pub escape_csv_value : List ℕ → List ℕ
unfolding guard_formula double_quotes
escape_csv_value value =
    let escaped = guard_formula value in
    if any needs_quoting escaped then b'"' ∷ double_quotes escaped ++ b'"' ∷ [] else escaped

-- `join(",")`
unfoldable pub join_commas : List (List ℕ) → List ℕ
join_commas [] = []
join_commas (f ∷ []) = f
join_commas (f ∷ g ∷ fields) = f ++ b',' ∷ join_commas (g ∷ fields)

unfoldable pub csv_line : List (List ℕ) → List ℕ
unfolding escape_csv_value join_commas
csv_line fields = join_commas (map escape_csv_value fields) ++ 10 ∷ []

abbrev pub csv_header : List ℕ
csv_header = codes "id,txHash,fromAddress,amount,message,ledgerAt\n"

abbrev pub rows_per_batch : ℕ
rows_per_batch = 500

module _ (p : Platform) (o : KeyOrder) where
  -- the six fields of a row
  abbrev pub csv_fields : Tip → List (List ℕ)
  csv_fields t =
      codes t.id
      ∷ codes t.tx_hash
      ∷ codes t.from_address
      ∷ decimal t.amount
      ∷ codes t.message
      ∷ codes (p.to_iso t.ledger_at)
      ∷ []

  abbrev pub lines_of : List Tip → List (List ℕ)
  lines_of rows = map (λ t. csv_line (csv_fields t)) rows

  -- where the next batch begins
  abbrev pub after_last : Option Tip → Option Cursor
  after_last none = none
  after_last (some last) = some (cursor_of o (λ t. t.ledger_at) (λ t. t.id) last)

  unfoldable pub prepend_lines : List (List ℕ) → Result (List (List ℕ)) → Result (List (List ℕ))
  prepend_lines lines (ok rest) = ok (lines ++ rest)
  prepend_lines lines (err e) = err e

  abbrev batch : String → Option Cursor → Db → List Tip
  batch creator_id after db =
      find_many o (λ t. t.ledger_at) (λ t. t.id) (is_tip_of creator_id) after rows_per_batch db.tips

  -- what follows the query; `more` are the lines of the later batches
  abbrev pub after_batch : List Tip → Result (List (List ℕ)) → Result (List (List ℕ))
  after_batch rows more =
      if length rows == 0
      then ok []
      else if ltb (length rows) rows_per_batch
      then ok (lines_of rows)
      else prepend_lines (lines_of rows) more

  -- the rounds of the loop, at most so many
  unfoldable pub csv_batches : ℕ → String → Option Cursor → Db → Result (List (List ℕ))
  unfolding find_many csv_line prepend_lines
  csv_batches zero creator_id after db = err (fault "more rounds than fuel")
  csv_batches (suc fuel) creator_id after db =
      let rows = batch creator_id after db in
      after_batch rows (csv_batches fuel creator_id (after_last (get_last? rows)) db)

  unfoldable pub stream_tip_history_csv : ℕ → String → Db → Result (List (List ℕ))
  unfolding csv_batches prepend_lines
  stream_tip_history_csv fuel creator_id db =
      prepend_lines (csv_header ∷ []) (csv_batches fuel creator_id none db)
