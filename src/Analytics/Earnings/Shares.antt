-- ===== src/Analytics/Earnings/Shares.antt =====
-- The breakdown adds up, and the shares that were accepted by the schema never exceed the total.
use novatip_backend.Prelude.{
  ℕ, ◌+◌, ◌-◌, ◌*◌, ◌≤◌, ◌≡◌, refl, ap, ◌∙◌, String, Bool, true, false, some, List, [], ◌∷◌, map,
  length, ok, pos, sub_ℕ, sub_ℕ-sub, decimal, decimal_ℤ, value_from, is_digits, arith, leb, sum_of,
  All, ltb,
}
use native.Mathlib.Nat.{mul-le-mul_right}
use novatip_backend.Store.{Creator, Tip, Json, Split, split_items, splits_json, Db}
use novatip_backend.Creator.Table.{creator_by_id}
use novatip_backend.Creator.SplitsSchema.{creator_splits_schema}
use novatip_backend.Creator.SplitsSchema.Accepted.{IsAccepted, creator_splits_schema-IsAccepted}
use novatip_backend.Analytics.Collaborators.{
  CollaboratorEarnings, bps_total, parse_splits, parse_items, parse_split, check_split, and_splits,
  parse_stroops, bps_to_percent, unallocated,
}
use novatip_backend.Analytics.Sql.{NumericText, tips_of}
use novatip_backend.Analytics.Earnings.{
  CollaboratorBreakdown, tip_share, effective_splits, is_nil, parse_shares, collaborator_rows,
  breakdown, from_sums, with_parsed, sum_shares_per_split, earnings_by, earnings_of,
  collaborator_earnings,
}

-- the row of a split whose share of every tip is rounded down to a whole stroop
abbrev pub earned_by : List Tip → Split → CollaboratorEarnings
earned_by tips split = record {
  to = split.to;
  bps = split.bps;
  share_percent = bps_to_percent split.bps;
  total_earned_raw = decimal (sum_of (tip_share split.bps) tips);
}

-- the breakdown of some tips by some splits, by sums and one subtraction
abbrev pub shared_out : List Tip → List Split → Bool → CollaboratorBreakdown
shared_out tips splits implied = record {
  tip_count = length tips;
  total_amount_raw = decimal (sum_of (λ t. t.amount) tips);
  unallocated_raw = decimal_ℤ (
      sub_ℕ (sum_of (λ t. t.amount) tips)
        (sum_of (λ split. sum_of (tip_share split.bps) tips) splits));
  collaborators = map (earned_by tips) splits;
  implied_owner_split = implied;
}

parse_digits :
    (s : List ℕ) → is_digits s ≡ true → parse_stroops (some s) ≡ ok (pos (value_from 0 s))
unfolding parse_stroops
parse_digits [] h = cc
parse_digits (c ∷ s) h = ground arith

unallocated-sum :
    (total taken : ℕ) (f : Split → ℕ) (splits : List Split)
    → unallocated (sub_ℕ total taken) (map (λ s. pos (f s)) splits)
      ≡ sub_ℕ total (taken + sum_of f splits)
unfolding unallocated
unallocated-sum total taken f [] = ap (sub_ℕ total) (omega arith)
unallocated-sum total taken f (s ∷ splits) =
    ap (λ rest. unallocated rest (map (λ s. pos (f s)) splits)) (sub_ℕ-sub total taken (f s))
    ∙ unallocated-sum total (taken + f s) f splits
    ∙ ap (sub_ℕ total) (omega arith)

rows-earned :
    (tips : List Tip) (splits : List Split)
    → collaborator_rows splits (map (λ s. pos (sum_of (tip_share s.bps) tips)) splits)
      ≡ map (earned_by tips) splits
unfolding collaborator_rows decimal_ℤ
rows-earned tips [] = refl
rows-earned tips (s ∷ splits) = ap (λ rest. earned_by tips s ∷ rest) (rows-earned tips splits)

from_zero : (n : ℕ) → pos n ≡ sub_ℕ n 0
from_zero n = ground arith

module _ (numeric : NumericText) where
  parse-print : (n : ℕ) → parse_stroops (some (numeric.print n)) ≡ ok (pos n)
  parse-print n =
      parse_digits (numeric.print n) (numeric.print-is_digits n)
      ∙ ap (λ m. ok (pos m)) (numeric.value_from-print n)

  parse_shares-print :
      (f : Split → ℕ) (splits : List Split)
      → parse_shares (map (λ s. numeric.print (f s)) splits) ≡ ok (map (λ s. pos (f s)) splits)
  unfolding parse_shares
  parse_shares-print f [] = refl
  parse_shares-print f (s ∷ splits) = rw (parse-print (f s), parse_shares-print f splits) refl

  from_sums-shared_out :
      (creator_id : String) (splits : List Split) (implied : Bool) (db : Db)
      → from_sums (sum_shares_per_split numeric creator_id splits db) splits implied
        ≡ ok (shared_out (tips_of creator_id db) splits implied)
  unfolding from_sums with_parsed sum_shares_per_split breakdown decimal_ℤ
  from_sums-shared_out creator_id splits implied db =
      let tips = tips_of creator_id db in
      let total = sum_of (λ t. t.amount) tips in
      let f : Split → ℕ = λ s. sum_of (tip_share s.bps) tips in
      let rest =
        ap (λ t. unallocated t (map (λ s. pos (f s)) splits)) (from_zero total)
        ∙ unallocated-sum total 0 f splits
        ∙ ap (sub_ℕ total) (omega arith) in
      rw (parse-print total, parse_shares-print f splits, rows-earned tips splits, rest) refl

tip_shares-le :
    (bps : ℕ) (tips : List Tip)
    → 10000 * sum_of (tip_share bps) tips ≤ bps * sum_of (λ t. t.amount) tips
tip_shares-le bps [] = omega arith
tip_shares-le bps (t ∷ tips) = omega (arith, tip_shares-le bps tips)

shares-le :
    (tips : List Tip) (splits : List Split)
    → 10000 * sum_of (λ s. sum_of (tip_share s.bps) tips) splits
      ≤ sum_of (λ s. s.bps) splits * sum_of (λ t. t.amount) tips
shares-le tips [] = omega arith
shares-le tips (s ∷ splits) = omega (arith, tip_shares-le s.bps tips, shares-le tips splits)

-- shares of at most the whole take at most the total
shares-le-total :
    (tips : List Tip) (splits : List Split)
    → sum_of (λ s. s.bps) splits ≤ 10000
    → sum_of (λ s. sum_of (tip_share s.bps) tips) splits ≤ sum_of (λ t. t.amount) tips
shares-le-total tips splits h =
    omega (arith, shares-le tips splits, mul-le-mul_right (sum_of (λ t. t.amount) tips) h)

module _ (is_blank : String → Bool) where
  parse_items-accepted :
      (is_valid_account_id : String → Bool) (splits : List Split)
      → ((s : String) → is_valid_account_id s ≡ true → is_blank s ≡ false)
      → All (IsAccepted is_valid_account_id) splits
      → parse_items is_blank (split_items splits) ≡ ok splits
  unfolding parse_items split_items parse_split check_split and_splits
  parse_items-accepted valid [] law h = refl
  parse_items-accepted valid (s ∷ splits) law (a, h) =
      let fits : ltb bps_total s.bps ≡ false = ground (arith, a.bps_le) in
      rw (law s.to a.valid, fits, parse_items-accepted valid splits law h) refl

module _ (numeric : NumericText) (is_blank : String → Bool) (creator_id : String) (db : Db) where
  -- For a creator whose stored splits can be parsed: the request answers with the sum of the amounts
  -- of the creator's tips; with one row for each split, or one row of the owner for 100% if there are
  -- none, that has the sum of what the split takes of each tip, rounded down tip by tip; and with the
  -- exact difference of the total and these sums as what is unallocated.
  pub collaborator_earnings-shared_out :
      (creator : Creator) (stored : List Split)
      → creator_by_id creator_id db ≡ some creator
      → parse_splits is_blank creator.splits ≡ ok stored
      → collaborator_earnings numeric is_blank creator_id db
        ≡ ok (shared_out (tips_of creator_id db) (effective_splits creator stored) (is_nil stored))
  unfolding collaborator_earnings earnings_of earnings_by
  collaborator_earnings-shared_out creator stored found parsed =
      ap (λ c. earnings_of numeric is_blank creator_id c db) found
      ∙ ap (λ r. earnings_by numeric is_blank creator_id creator r db) parsed
      ∙ from_sums-shared_out numeric creator_id (effective_splits creator stored) (is_nil stored) db

  effective-le :
      (creator : Creator) (stored : List Split)
      → sum_of (λ s. s.bps) stored ≤ 10000
      → sum_of (λ s. s.bps) (effective_splits creator stored) ≤ 10000
  effective-le creator [] h = omega arith
  effective-le creator (s ∷ stored) h = h

  -- If the creator's splits are those of a body that the schema accepted, and an account id that the
  -- SDK calls valid is not blank: the request succeeds, the shares take no more than the total, and
  -- what is unallocated is the rest of it, so that it is never negative.
  pub collaborator_earnings-within_total :
      (is_valid_account_id : String → Bool) (body : Json) (accepted : List Split)
      (creator : Creator)
      → ((s : String) → is_valid_account_id s ≡ true → is_blank s ≡ false)
      → creator_splits_schema is_valid_account_id body ≡ some accepted
      → creator_by_id creator_id db ≡ some creator
      → creator.splits ≡ splits_json accepted
      → let tips = tips_of creator_id db in
        let splits = effective_splits creator accepted in
        let total = sum_of (λ t. t.amount) tips in
        let taken = sum_of (λ s. sum_of (tip_share s.bps) tips) splits in
        (taken ≤ total)
        × (collaborator_earnings numeric is_blank creator_id db
            ≡ ok (record (shared_out tips splits (is_nil accepted)) {
              unallocated_raw = decimal (total - taken);
            }))
  unfolding splits_json parse_splits decimal_ℤ
  collaborator_earnings-within_total valid body accepted creator law schema found same =
      let tips = tips_of creator_id db in
      let splits = effective_splits creator accepted in
      let total = sum_of (λ t. t.amount) tips in
      let taken = sum_of (λ s. sum_of (tip_share s.bps) tips) splits in
      let (each, whole) = creator_splits_schema-IsAccepted valid body accepted schema in
      let within = shares-le-total tips splits (effective-le creator accepted whole) in
      let parsed =
        ap (parse_splits is_blank) same ∙ parse_items-accepted is_blank valid accepted law each in
      let enough : leb taken total ≡ true = ground (arith, within) in
      (within, collaborator_earnings-shared_out creator accepted found parsed ∙ rw enough refl)
