-- ===== src/Analytics/Series.antt =====
-- getTotals and getTimeSeries of src/modules/analytics/analytics.service.ts. A UTC date stands here as
-- the number of days since 1970: of a date the code uses its text, the same for the times of one day.
pub mod Days
use Prim.Native.String
use novatip_backend.Prelude.{
  ℕ, zero, suc, ◌+◌, ◌-◌, ◌*◌, ◌/◌, String, Bool, Option, none, some, List, [], ◌∷◌, map, length,
  filter, sum_of, count_where, leb, ◌==◌, if◌then◌else◌, Result, ok, decimal,
}
use novatip_backend.Store.{Tip, Db}
use novatip_backend.Redis.{Kv, read_through}
use novatip_backend.Analytics.Sql.{NumericText, tips_of, ascending_keys, distinct_senders}

pub record TipTotals : Type 0 where
  pub total_tips : ℕ
  pub total_amount_raw : List ℕ
  pub unique_supporters : ℕ

pub record TimeSeriesPoint : Type 0 where
  pub date : ℕ
  pub tip_count : ℕ
  pub amount_raw : List ℕ

abbrev pub ms_per_day : ℕ
ms_per_day = 86400000

-- the UTC day of a time; its midnight is `utcMidnight`
abbrev pub utc_day : ℕ → ℕ
utc_day time = time / ms_per_day

abbrev pub utc_midnight : ℕ → ℕ
utc_midnight time = utc_day time * ms_per_day

-- a row of the query: one per day with tips
pub record TimeSeriesRow : Type 0 where
  pub date : ℕ
  pub tip_count : ℕ
  pub amount_raw : List ℕ

-- `byDate`
abbrev pub ByDate : Type 0
ByDate = ℕ → Option (ℕ × List ℕ)

abbrev pub set_date : ByDate → TimeSeriesRow → ByDate
set_date by_date row date =
    if row.date == date then some (row.tip_count, row.amount_raw) else by_date date

unfoldable pub by_date_of : List TimeSeriesRow → ByDate → ByDate
by_date_of [] by_date = by_date
by_date_of (row ∷ rows) by_date = by_date_of rows (set_date by_date row)

-- `point?.tipCount ?? 0` and `point?.amountRaw ?? "0"`
abbrev pub to_point : ℕ → Option (ℕ × List ℕ) → TimeSeriesPoint
to_point date none = record { date = date; tip_count = 0; amount_raw = b'0' ∷ [] }
to_point date (some (tip_count, amount_raw)) = record {
  date = date;
  tip_count = tip_count;
  amount_raw = amount_raw;
}

-- the loop over the days, from one of them on
unfoldable pub points_from : ByDate → ℕ → ℕ → List TimeSeriesPoint
points_from by_date zero day = []
points_from by_date (suc left) day = to_point day (by_date day) ∷ points_from by_date left (day + 1)

-- the first day of the window
abbrev pub window_start : ℕ → ℕ → ℕ
window_start now days = utc_day now - (days - 1)

module _ (numeric : NumericText) where
  unfoldable pub totals : String → Db → TipTotals
  unfolding distinct_senders
  totals creator_id db =
      let tips = tips_of creator_id db in
      record {
        total_tips = length tips;
        total_amount_raw = numeric.print (sum_of (λ t. t.amount) tips);
        unique_supporters = length (distinct_senders tips);
      }

  -- the row of a group
  abbrev pub day_row : List Tip → ℕ → TimeSeriesRow
  day_row tips day =
      let group = filter (λ t. utc_day t.ledger_at == day) tips in
      record {
        date = day;
        tip_count = length group;
        amount_raw = numeric.print (sum_of (λ t. t.amount) group);
      }

  -- GROUP BY the day, ascending
  unfoldable pub day_rows : List Tip → List TimeSeriesRow
  unfolding ascending_keys
  day_rows tips = map (day_row tips) (ascending_keys (λ t. utc_day t.ledger_at) tips)

  unfoldable pub time_series : ℕ → String → ℕ → Db → List TimeSeriesPoint
  unfolding day_rows by_date_of points_from
  time_series now creator_id days db =
      let start = window_start now days in
      let tips = filter (λ t. leb (start * ms_per_day) t.ledger_at) (tips_of creator_id db) in
      points_from (by_date_of (day_rows tips) (λ _. none)) days start

  -- both are cached for 30 seconds
  unfoldable pub get_totals :
      (cached : Kv TipTotals) → ℕ → String → Db → cached.Keys → Result TipTotals × cached.Keys
  unfolding totals
  get_totals cached now creator_id db =
      read_through cached now (String.◌++◌ "cache:analytics:totals:" creator_id) 30
        (ok (totals creator_id db))

  unfoldable pub get_time_series :
      (cached : Kv (List TimeSeriesPoint))
      → (ℕ → String)
      → ℕ
      → String
      → ℕ
      → Db
      → cached.Keys
      → Result (List TimeSeriesPoint) × cached.Keys
  unfolding time_series
  get_time_series cached show now creator_id days db =
      read_through cached now
        (String.◌++◌ "cache:analytics:timeseries:"
          (String.◌++◌ creator_id (String.◌++◌ ":" (show days))))
        30 (ok (time_series now creator_id days db))
