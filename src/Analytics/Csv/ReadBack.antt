-- ===== src/Analytics/Csv/ReadBack.antt =====
-- What a reader of quoted fields, with a line feed behind each record, gets out of the exported lines, and that no value it gets is a formula.
use novatip_backend.Prelude.{
  ℕ, ◌≡◌, refl, sym, ap, ◌∙◌, Bool, true, false, ◌||◌, List, [], ◌∷◌, ◌++◌, map, ◌==◌,
  if◌then◌else◌, any, All, Bool-cases, inl, inr, arith, ◌<◌, String, filter, length, ids_distinct,
  codes, ok,
}
use mathlib.Core.List.{append_assoc, append-nil}
use novatip_backend.Store.{Tip, Db}
use novatip_backend.Feeds.Cursor.{KeyOrder, Platform}
use novatip_backend.Feeds.Select.{order_rows}
use novatip_backend.Feeds.Tips.{is_tip_of}
use novatip_backend.Analytics.Csv.Stream.{stream_tip_history_csv-ends}
use novatip_backend.Analytics.Csv.{
  csv_header, csv_fields, lines_of, stream_tip_history_csv, begins_formula, needs_quoting,
  guard_formula, double_quotes, escape_csv_value, join_commas, csv_line,
}

-- between fields, in a plain field, in a quoted field, after a quote in it, and after a fault
pub data Mode : Type 0 where
  between : Mode
  plain : Mode
  quoted : Mode
  closing : Mode
  refused : Mode

pub record Reader : Type 0 where
  pub mode : Mode
  pub value : List ℕ
  pub fields : List (List ℕ)
  pub rows : List (List (List ℕ))

abbrev push : Mode → ℕ → Reader → Reader
push mode c r = record r { mode = mode; value = r.value ++ c ∷ [] }

-- at a comma or a line break
abbrev separate : ℕ → Reader → Reader
separate c r =
    if c == b','
    then record r { mode = between; value = []; fields = r.fields ++ r.value ∷ [] }
    else record {
      mode = between;
      value = [];
      fields = [];
      rows = r.rows ++ (r.fields ++ r.value ∷ []) ∷ [];
    }

abbrev is_separator : ℕ → Bool
is_separator c = c == b',' || c == 10

-- TEXTDATA has no quote and no CR
abbrev step_plain : ℕ → Reader → Reader
step_plain c r =
    if is_separator c
    then separate c r
    else if c == b'"' || c == 13
    then record r { mode = refused }
    else push plain c r

abbrev step_in : Mode → ℕ → Reader → Reader
step_in between c r = if c == b'"' then record r { mode = quoted } else step_plain c r
step_in plain c r = step_plain c r
step_in quoted c r = if c == b'"' then record r { mode = closing } else push quoted c r
step_in closing c r =
    if c == b'"'
    then push quoted c r
    else if is_separator c
    then separate c r
    else record r { mode = refused }
step_in refused c r = r

unfoldable pub read_csv : Reader → List ℕ → Reader
read_csv r [] = r
read_csv r (c ∷ s) = read_csv (step_in r.mode c r) s

abbrev pub new_reader : Reader
new_reader = record { mode = between; value = []; fields = []; rows = [] }

read_csv-append : (r : Reader) (s t : List ℕ) → read_csv r (s ++ t) ≡ read_csv (read_csv r s) t
unfolding read_csv
read_csv-append r [] t = refl
read_csv-append r (c ∷ s) t = read_csv-append (step_in r.mode c r) s t

module _ (fields : List (List ℕ)) (rows : List (List (List ℕ))) where
  abbrev at : Mode → List ℕ → Reader
  at mode value = record { mode = mode; value = value; fields = fields; rows = rows }

  read_plain :
      (value s : List ℕ)
      → any needs_quoting s ≡ false
      → read_csv (at plain value) s ≡ at plain (value ++ s)
  unfolding read_csv
  read_plain value [] h = ap (at plain) (sym (append-nil value))
  read_plain value (c ∷ s) h =
      let one : step_in plain c (at plain value) ≡ at plain (value ++ c ∷ []) = ground arith in
      ap (λ r. read_csv r s) one
      ∙ read_plain (value ++ c ∷ []) s (ground arith)
      ∙ ap (at plain) (append_assoc value (c ∷ []) s)

  read_quoted :
      (value s : List ℕ) → read_csv (at quoted value) (double_quotes s) ≡ at quoted (value ++ s)
  unfolding read_csv double_quotes
  read_quoted value [] = ap (at quoted) (sym (append-nil value))
  read_quoted value (c ∷ s) = elim (Bool-cases (c == b'"')) [
    | inl quote ↦
        let same : 34 ≡ c = ground (arith, quote) in
        rw quote (
          read_quoted (value ++ 34 ∷ []) s
          ∙ ap (at quoted) (append_assoc value (34 ∷ []) s ∙ ap (λ d. value ++ d ∷ s) same))
    | inr other ↦
        let one : step_in quoted c (at quoted value) ≡ at quoted (value ++ c ∷ []) =
          ground (arith, other) in
        rw other (
          ap (λ r. read_csv r (double_quotes s)) one
          ∙ read_quoted (value ++ c ∷ []) s
          ∙ ap (at quoted) (append_assoc value (c ∷ []) s))
  ]

  read_between :
      (s : List ℕ) (sep : ℕ)
      → any needs_quoting s ≡ false
      → is_separator sep ≡ true
      → read_csv (at between []) (s ++ sep ∷ []) ≡ separate sep (at plain s)
  unfolding read_csv
  read_between [] sep h k = ground (arith, k)
  read_between (c ∷ s) sep h k =
      let one : step_in between c (at between []) ≡ at plain (c ∷ []) = ground arith in
      ap (λ r. read_csv r (s ++ sep ∷ [])) one
      ∙ read_csv-append (at plain (c ∷ [])) s (sep ∷ [])
      ∙ ap (λ r. read_csv r (sep ∷ [])) (read_plain (c ∷ []) s (ground arith))
      ∙ ground (arith, k)

  read_closed :
      (v : List ℕ) (sep : ℕ)
      → is_separator sep ≡ true
      → read_csv (at between []) ((b'"' ∷ double_quotes v ++ b'"' ∷ []) ++ sep ∷ [])
        ≡ separate sep (at plain v)
  unfolding read_csv
  read_closed v sep h =
      ap (read_csv (at quoted [])) (append_assoc (double_quotes v) (b'"' ∷ []) (sep ∷ []))
      ∙ read_csv-append (at quoted []) (double_quotes v) (b'"' ∷ sep ∷ [])
      ∙ ap (λ r. read_csv r (b'"' ∷ sep ∷ [])) (read_quoted [] v)
      ∙ ground (arith, h)

  -- an escaped value and the separator behind it
  read_value :
      (v : List ℕ) (sep : ℕ)
      → is_separator sep ≡ true
      → read_csv (at between []) (escape_csv_value v ++ sep ∷ [])
        ≡ separate sep (at plain (guard_formula v))
  unfolding escape_csv_value
  read_value v sep h = elim (Bool-cases (any needs_quoting (guard_formula v))) [
    | inl special ↦ rw special (read_closed (guard_formula v) sep h)
    | inr simple ↦ rw simple (read_between (guard_formula v) sep simple h)
  ]

-- a value that no spreadsheet takes for a formula
abbrev pub IsInert : List ℕ → Type 0
IsInert [] = Unit
IsInert (c ∷ s) = begins_formula c ≡ false

guard_formula-IsInert : (v : List ℕ) → IsInert (guard_formula v)
unfolding guard_formula
guard_formula-IsInert [] = tt
guard_formula-IsInert (c ∷ s) = ground arith

-- the texts of the generator, one after the other
abbrev pub concat_texts : List (List ℕ) → List ℕ
concat_texts [] = []
concat_texts (s ∷ texts) = s ++ concat_texts texts

-- a reader at the beginning of a line
abbrev after_rows : List (List (List ℕ)) → Reader
after_rows rows = at [] rows between []

read_csv_line :
    (done : List (List ℕ)) (rows : List (List (List ℕ))) (f : List ℕ) (fields : List (List ℕ))
    → read_csv (at done rows between []) (csv_line (f ∷ fields))
      ≡ after_rows (rows ++ (done ++ map guard_formula (f ∷ fields)) ∷ [])
unfolding csv_line join_commas
read_csv_line done rows f [] = read_value done rows f 10 refl
read_csv_line done rows f (g ∷ fields) =
    let rest = join_commas (map escape_csv_value (g ∷ fields)) in
    ap (read_csv (at done rows between [])) (
      append_assoc (escape_csv_value f) (b',' ∷ rest) (10 ∷ [])
      ∙ sym (append_assoc (escape_csv_value f) (b',' ∷ []) (rest ++ 10 ∷ [])))
    ∙ read_csv-append (at done rows between []) (escape_csv_value f ++ b',' ∷ []) (rest ++ 10 ∷ [])
    ∙ ap (λ r. read_csv r (rest ++ 10 ∷ [])) (read_value done rows f b',' refl)
    ∙ read_csv_line (done ++ guard_formula f ∷ []) rows g fields
    ∙ ap (λ row. after_rows (rows ++ row ∷ []))
        (append_assoc done (guard_formula f ∷ []) (map guard_formula (g ∷ fields)))

module _ (p : Platform) (o : KeyOrder) where
  -- the values that a reader gets of a tip
  abbrev pub guarded_fields : Tip → List (List ℕ)
  guarded_fields t = map guard_formula (csv_fields p o t)

  read_lines :
      (rows : List (List (List ℕ))) (tips : List Tip)
      → read_csv (after_rows rows) (concat_texts (lines_of p o tips))
        ≡ after_rows (rows ++ map guarded_fields tips)
  unfolding read_csv
  read_lines rows [] = ap after_rows (sym (append-nil rows))
  read_lines rows (t ∷ tips) =
      read_csv-append (after_rows rows) (csv_line (csv_fields p o t))
        (concat_texts (lines_of p o tips))
      ∙ ap (λ r. read_csv r (concat_texts (lines_of p o tips))) (read_csv_line [] rows _ _)
      ∙ read_lines (rows ++ guarded_fields t ∷ []) tips
      ∙ ap after_rows (append_assoc rows (guarded_fields t ∷ []) (map guarded_fields tips))

  -- the names of the columns
  abbrev pub header_fields : List (List ℕ)
  header_fields =
      codes "id"
      ∷ codes "txHash"
      ∷ codes "fromAddress"
      ∷ codes "amount"
      ∷ codes "message"
      ∷ codes "ledgerAt"
      ∷ []

  read_header : read_csv new_reader csv_header ≡ after_rows (header_fields ∷ [])
  unfolding read_csv
  read_header = refl

  fields-IsInert : (fields : List (List ℕ)) → All IsInert (map guard_formula fields)
  fields-IsInert [] = tt
  fields-IsInert (f ∷ fields) = (guard_formula-IsInert f, fields-IsInert fields)

  rows-IsInert : (tips : List Tip) → All (All IsInert) (map guarded_fields tips)
  rows-IsInert [] = tt
  rows-IsInert (t ∷ tips) = (fields-IsInert (csv_fields p o t), rows-IsInert tips)

  -- If the ids of the tips are distinct and there are more rounds than tips of the creator: a reader
  -- of quoted fields gets out of the exported text the row of column names and then one row for each of
  -- these tips, newest first, with the values of its fields, an apostrophe before each that begins
  -- like a formula; and none of the values that it gets of a tip begins like one.
  pub stream_tip_history_csv-read_back :
      (creator_id : String) (db : Db) (fuel : ℕ)
      → ids_distinct (λ t. t.id) db.tips ≡ true
      → length (order_rows o (λ t. t.ledger_at) (λ t. t.id) (filter (is_tip_of creator_id) db.tips))
        < fuel
      → let tips =
          order_rows o (λ t. t.ledger_at) (λ t. t.id) (filter (is_tip_of creator_id) db.tips) in
        (texts : List (List ℕ)) × (stream_tip_history_csv p o fuel creator_id db ≡ ok texts)
        × (read_csv new_reader (concat_texts texts) ≡ record {
          mode = between;
          value = [];
          fields = [];
          rows = header_fields ∷ map guarded_fields tips;
        })
        × All (All IsInert) (map guarded_fields tips)
  stream_tip_history_csv-read_back creator_id db fuel h enough =
      let tips =
        order_rows o (λ t. t.ledger_at) (λ t. t.id) (filter (is_tip_of creator_id) db.tips) in
      (
        csv_header ∷ lines_of p o tips,
        stream_tip_history_csv-ends p o creator_id db fuel h enough,
        read_csv-append new_reader csv_header (concat_texts (lines_of p o tips))
            ∙ ap (λ r. read_csv r (concat_texts (lines_of p o tips))) read_header
            ∙ read_lines (header_fields ∷ []) tips,
        rows-IsInert tips,
      )
