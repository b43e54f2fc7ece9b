-- ===== src/Analytics/Series/Days.antt =====
-- Each point of the time series counts the tips of its day.
use novatip_backend.Prelude.{
  ℕ, zero, suc, ◌+◌, ◌-◌, ◌*◌, ◌≤◌, ◌<◌, ◌≡◌, refl, sym, ap, ◌∙◌, String, Bool, true, false, ◌||◌,
  Option, none, some, List, [], ◌∷◌, map, length, filter, sum_of, any, leb, ◌==◌, if◌then◌else◌,
  arith, value_from, All,
}
use mathlib.Core.Path.{subst}
use novatip_backend.Store.{Tip, Db}
use novatip_backend.Analytics.Sql.{NumericText, tips_of, insert_key, ascending_keys}
use novatip_backend.Analytics.Series.{
  TimeSeriesPoint, ms_per_day, utc_day, set_date, window_start, by_date_of, to_point, points_from,
  day_row, day_rows, time_series,
}

any-insert_key :
    (k d : ℕ) (xs : List ℕ) → any (λ x. x == d) (insert_key k xs) ≡ (k == d || any (λ x. x == d) xs)
unfolding insert_key
any-insert_key k d [] = refl
any-insert_key k d (x ∷ xs) = ground (arith, any-insert_key k d xs)

any-ascending_keys :
    (column : Tip → ℕ) (d : ℕ) (tips : List Tip)
    → any (λ x. x == d) (ascending_keys column tips) ≡ any (λ t. column t == d) tips
unfolding ascending_keys
any-ascending_keys column d [] = refl
any-ascending_keys column d (t ∷ tips) =
    any-insert_key (column t) d (ascending_keys column tips)
    ∙ ap (λ b. column t == d || b) (any-ascending_keys column d tips)

filter-empty : (q : Tip → Bool) (tips : List Tip) → any q tips ≡ false → filter q tips ≡ []
filter-empty q [] h = refl
filter-empty q (t ∷ tips) h = ground (arith, filter-empty q tips)

-- a filter that keeps what a later one keeps anyway
filter-wider :
    (w q : Tip → Bool) (tips : List Tip)
    → ((t : Tip) → q t ≡ true → w t ≡ true)
    → filter q (filter w tips) ≡ filter q tips
filter-wider w q [] h = refl
filter-wider w q (t ∷ tips) h = ground (arith, filter-wider w q tips h, h t)

-- the tips of a day
abbrev pub on_day : ℕ → List Tip → List Tip
on_day day tips = filter (λ t. utc_day t.ledger_at == day) tips

-- the point of a day counts and sums its tips
abbrev pub IsPointOf : List Tip → TimeSeriesPoint → Type 0
IsPointOf tips p =
    (p.tip_count ≡ length (on_day p.date tips))
    × (value_from 0 p.amount_raw ≡ sum_of (λ t. t.amount) (on_day p.date tips))

-- so many days in a row
abbrev pub days_from : ℕ → ℕ → List ℕ
days_from day zero = []
days_from day (suc left) = day ∷ days_from (day + 1) left

pick_first :
    {A : Type 0} (found here : Bool) (x y z : A)
    → (here ≡ true → y ≡ x)
    → (if found then x else if here then y else z) ≡ (if here || found then x else z)
pick_first true true x y z h = refl
pick_first true false x y z h = refl
pick_first false true x y z h = h refl
pick_first false false x y z h = refl

to_point-date : (d : ℕ) (o : Option (ℕ × List ℕ)) → (to_point d o).date ≡ d
to_point-date d none = refl
to_point-date d (some (n, s)) = refl

module _ (numeric : NumericText) where
  -- the count and the sum of a day
  abbrev cell : List Tip → ℕ → Option (ℕ × List ℕ)
  cell tips d =
      some (length (on_day d tips), numeric.print (sum_of (λ t. t.amount) (on_day d tips)))

  by_date_of-rows :
      (tips : List Tip) (d : ℕ) (keys : List ℕ) (by_date : ℕ → Option (ℕ × List ℕ))
      → by_date_of (map (day_row numeric tips) keys) by_date d
        ≡ (if any (λ x. x == d) keys then cell tips d else by_date d)
  unfolding by_date_of
  by_date_of-rows tips d [] by_date = refl
  by_date_of-rows tips d (k ∷ keys) by_date =
      by_date_of-rows tips d keys (set_date by_date (day_row numeric tips k))
      ∙ pick_first (any (λ x. x == d) keys) (k == d) (cell tips d) (cell tips k) (by_date d)
          (λ e. let same : k ≡ d = ground arith in ap (cell tips) same)

  point_if-IsPointOf :
      (tips : List Tip) (d : ℕ) (some_tip : Bool)
      → (some_tip ≡ false → on_day d tips ≡ [])
      → IsPointOf tips (to_point d (if some_tip then cell tips d else none))
  point_if-IsPointOf tips d true h = (refl, numeric.value_from-print _)
  point_if-IsPointOf tips d false h =
      (sym (ap length (h refl)), sym (ap (sum_of (λ t. t.amount)) (h refl)))

  to_point-IsPointOf :
      (start : ℕ) (tips : List Tip) (d : ℕ)
      → start ≤ d
      → let seen = filter (λ t. leb (start * ms_per_day) t.ledger_at) tips in
        IsPointOf tips (to_point d (by_date_of (day_rows numeric seen) (λ _. none) d))
  unfolding day_rows
  to_point-IsPointOf start tips d h =
      let seen = filter (λ t. leb (start * ms_per_day) t.ledger_at) tips in
      let days = ascending_keys (λ t. utc_day t.ledger_at) seen in
      let same : on_day d seen ≡ on_day d tips =
        filter-wider (λ t. leb (start * ms_per_day) t.ledger_at) (λ t. utc_day t.ledger_at == d)
          tips (λ t e. ground (arith, h)) in
      let found : by_date_of (day_rows numeric seen) (λ _. none) d
          ≡ (if any (λ t. utc_day t.ledger_at == d) seen then cell tips d else none) =
        by_date_of-rows seen d days (λ _. none)
        ∙ ap (λ b. if b then cell seen d else none)
            (any-ascending_keys (λ t. utc_day t.ledger_at) d seen)
        ∙ ap
            (λ (xs : List Tip).
              if any (λ t. utc_day t.ledger_at == d) seen
              then some (length xs, numeric.print (sum_of (λ t. t.amount) xs))
              else none)
            same in
      subst (λ o. IsPointOf tips (to_point d o)) (sym found)
        (point_if-IsPointOf tips d (any (λ t. utc_day t.ledger_at == d) seen)
          (λ e. sym same ∙ filter-empty (λ t. utc_day t.ledger_at == d) seen e))

  points_from-lem :
      (start : ℕ) (tips : List Tip) (left day : ℕ)
      → start ≤ day
      → let seen = filter (λ t. leb (start * ms_per_day) t.ledger_at) tips in
        let points = points_from (by_date_of (day_rows numeric seen) (λ _. none)) left day in
        (map (λ p. p.date) points ≡ days_from day left) × All (IsPointOf tips) points
  unfolding points_from
  points_from-lem start tips zero day h = (refl, tt)
  points_from-lem start tips (suc left) day h =
      let seen = filter (λ t. leb (start * ms_per_day) t.ledger_at) tips in
      let by_date = by_date_of (day_rows numeric seen) (λ _. none) in
      let (dates, points) = points_from-lem start tips left (day + 1) (omega arith) in
      (
        ap (λ d. d ∷ map (λ p. p.date) (points_from by_date left (day + 1)))
              (to_point-date day (by_date day))
            ∙ ap (λ ds. day ∷ ds) dates,
        (to_point-IsPointOf start tips day h, points),
      )

  -- For a window of `days` days that does not begin before 1970: the series has one point for each
  -- of these days up to and including the UTC day of now, oldest first, and each point counts and sums
  -- the creator's tips of its day.
  pub time_series-days :
      (now : ℕ) (creator_id : String) (days : ℕ) (db : Db)
      → days ≤ utc_day now + 1
      → 0 < days
      → let series = time_series numeric now creator_id days db in
        (map (λ p. p.date) series ≡ days_from (utc_day now + 1 - days) days)
        × All (IsPointOf (tips_of creator_id db)) series
  unfolding time_series
  time_series-days now creator_id days db h k =
      let (dates, points) =
        points_from-lem (window_start now days) (tips_of creator_id db) days (window_start now days)
          (omega arith) in
      (dates ∙ ap (λ start. days_from start days) (omega arith), points)
