-- ===== src/Tests/Reports.antt =====
-- The theorems on figures and exports at concrete inputs.
use novatip_backend.Prelude.{
  ℕ, ◌≡◌, ◌≤◌, refl, String, Bool, true, false, not, List, [], ◌∷◌, map, filter, str_eq, arith, ok,
  All, decimal, decimal-is_digits, value_from-decimal,
}
use novatip_backend.Store.{Creator, Split, splits_json, Tip, Db}
use novatip_backend.Tests.{empty_db, creator_with, tip_with}
use novatip_backend.Tests.Platforms.{by_code, plain, text_lt}
use novatip_backend.Creator.SplitsSchema.{
  creator_splits_schema, split_array, split_object, refine_splits,
}
use novatip_backend.Feeds.Cursor.{cursor_filter}
use novatip_backend.Feeds.Select.{order_rows, insert_row, is_after}
use novatip_backend.Feeds.Tips.{is_tip_of}
use novatip_backend.Analytics.Sql.{NumericText}
use novatip_backend.Analytics.Earnings.{collaborator_earnings}
use novatip_backend.Analytics.Earnings.Shares.{shared_out, collaborator_earnings-within_total}
use novatip_backend.Analytics.Series.{time_series}
use novatip_backend.Analytics.Series.Days.{IsPointOf, days_from, time_series-days}
use novatip_backend.Analytics.Supporters.{top_supporters}
use novatip_backend.Analytics.Supporters.Ranking.{AreTop, top_supporters-AreTop}
use novatip_backend.Analytics.Csv.{csv_header, lines_of, stream_tip_history_csv}
use novatip_backend.Analytics.Csv.Stream.{stream_tip_history_csv-ends}
use novatip_backend.Analytics.Csv.ReadBack.{
  IsInert, between, read_csv, new_reader, concat_texts, header_fields, guarded_fields,
  stream_tip_history_csv-read_back,
}

abbrev digits : NumericText
digits = record {
  print = decimal;
  print-is_digits = decimal-is_digits;
  value_from-print = value_from-decimal;
}

abbrev shares : List Split
shares = record { to = "GA"; bps = 6000 } ∷ record { to = "GB"; bps = 3000 } ∷ []

abbrev sharing : Creator
sharing = record (creator_with "c1" "alice" "@alice") { splits = splits_json shares }

abbrev table : List Tip
table = tip_with "t1" "x1" 3 false ∷ tip_with "t2" "x2" 5 true ∷ tip_with "t3" "x3" 5 false ∷ []

abbrev shared : Db
shared = record empty_db { creators = sharing ∷ []; tips = table }

-- an address is whatever is not empty
abbrev is_address : String → Bool
is_address s = not (str_eq s "")

not_blank : (s : String) → is_address s ≡ true → str_eq s "" ≡ false
not_blank s h = ground arith

collaborator_earnings-within_total_example :
    (12 ≤ 15)
    × (collaborator_earnings digits (λ s. str_eq s "") "c1" shared
        ≡ ok (record (shared_out table shares false) { unallocated_raw = decimal 3 }))
unfolding creator_splits_schema split_array split_object refine_splits splits_json
collaborator_earnings-within_total_example =
    collaborator_earnings-within_total digits (λ s. str_eq s "") "c1" shared is_address
      (splits_json shares) shares sharing not_blank refl refl refl

time_series-days_example :
    (map (λ p. p.date) (time_series digits 200000000 "c1" 3 shared) ≡ days_from 0 3)
    × All (IsPointOf table) (time_series digits 200000000 "c1" 3 shared)
time_series-days_example =
    time_series-days digits 200000000 "c1" 3 shared (omega arith) (omega arith)

top_supporters-AreTop_example : AreTop digits table 1 (top_supporters digits "c1" 1 shared)
top_supporters-AreTop_example = top_supporters-AreTop digits "c1" 1 shared

stream_tip_history_csv-ends_example :
    stream_tip_history_csv plain by_code 4 "c1" shared
    ≡ ok (
        csv_header
        ∷ lines_of plain by_code
            (order_rows by_code (λ t. t.ledger_at) (λ t. t.id) (filter (is_tip_of "c1") table)))
unfolding order_rows insert_row is_after cursor_filter text_lt
stream_tip_history_csv-ends_example =
    stream_tip_history_csv-ends plain by_code "c1" shared 4 refl (omega arith)

stream_tip_history_csv-read_back_example :
    (texts : List (List ℕ)) × (stream_tip_history_csv plain by_code 4 "c1" shared ≡ ok texts)
    × (read_csv new_reader (concat_texts texts) ≡ record {
      mode = between;
      value = [];
      fields = [];
      rows =
          header_fields plain by_code
          ∷ map
              (guarded_fields plain by_code)
              (order_rows by_code (λ t. t.ledger_at) (λ t. t.id) (filter (is_tip_of "c1") table));
    })
    × All (All IsInert) (
        map
          (guarded_fields plain by_code)
          (order_rows by_code (λ t. t.ledger_at) (λ t. t.id) (filter (is_tip_of "c1") table)))
unfolding order_rows insert_row is_after cursor_filter text_lt
stream_tip_history_csv-read_back_example =
    stream_tip_history_csv-read_back plain by_code "c1" shared 4 refl (omega arith)
