-- ===== src/Analytics/Earnings.antt =====
-- getCollaboratorEarnings of src/modules/analytics/analytics.service.ts. Of the part `basis` of the
-- answer the model has `impliedOwnerSplit`; the rest is a fixed text and the time of the last update.
pub mod Shares
use Prim.Native.String
use novatip_backend.Prelude.{
  ℕ, ◌+◌, ◌*◌, ◌/◌, ◌≡◌, String, Bool, true, false, Option, none, some, List, [], ◌∷◌, map, length,
  filter, sum_of, Error, thrown, Result, ok, err, ℤ, pos, decimal_ℤ, value_from, is_digits,
}
use novatip_backend.Store.{Creator, Tip, Split, Db}
use novatip_backend.Redis.{Kv, read_through}
use novatip_backend.Creator.Table.{creator_by_id}
use novatip_backend.Analytics.Sql.{NumericText, tips_of}
use novatip_backend.Analytics.Collaborators.{
  CollaboratorEarnings, parse_splits, parse_stroops, bps_to_percent, unallocated,
}

pub record CollaboratorBreakdown : Type 0 where
  pub tip_count : ℕ
  pub total_amount_raw : List ℕ
  pub unallocated_raw : List ℕ
  pub collaborators : List CollaboratorEarnings
  pub implied_owner_split : Bool

-- the row of `sumSharesPerSplit`
pub record ShareSums : Type 0 where
  pub tip_count : ℕ
  pub total_amount_raw : Option (List ℕ)
  pub shares : List (List ℕ)

-- floor(amount * bps / 10000)
abbrev pub tip_share : ℕ → Tip → ℕ
tip_share bps t = t.amount * bps / 10000

-- no splits stand for the owner, who gets everything
abbrev pub effective_splits : Creator → List Split → List Split
effective_splits creator [] = record { to = creator.wallet_address; bps = 10000 } ∷ []
effective_splits creator (split ∷ splits) = split ∷ splits

abbrev pub is_nil : List Split → Bool
is_nil [] = true
is_nil (_ ∷ _) = false

and_shares : Result ℤ → Result (List ℤ) → Result (List ℤ)
and_shares (ok share) (ok shares) = ok (share ∷ shares)
and_shares (ok share) (err e) = err e
and_shares (err e) _ = err e

-- the shares, parsed in the order of the splits
unfoldable pub parse_shares : List (List ℕ) → Result (List ℤ)
unfolding and_shares
parse_shares [] = ok []
parse_shares (share ∷ shares) = and_shares (parse_stroops (some share)) (parse_shares shares)

-- `shares[i] ?? 0n` for the i-th split
unfoldable pub collaborator_rows : List Split → List ℤ → List CollaboratorEarnings
collaborator_rows [] shares = []
collaborator_rows (split ∷ splits) [] =
    record {
      to = split.to;
      bps = split.bps;
      share_percent = bps_to_percent split.bps;
      total_earned_raw = decimal_ℤ (pos 0);
    }
    ∷ collaborator_rows splits []
collaborator_rows (split ∷ splits) (share ∷ shares) =
    record {
      to = split.to;
      bps = split.bps;
      share_percent = bps_to_percent split.bps;
      total_earned_raw = decimal_ℤ share;
    }
    ∷ collaborator_rows splits shares

unfoldable pub breakdown : ℕ → ℤ → List ℤ → List Split → Bool → CollaboratorBreakdown
unfolding collaborator_rows
breakdown tip_count total shares splits implied = record {
  tip_count = tip_count;
  total_amount_raw = decimal_ℤ total;
  unallocated_raw = decimal_ℤ (unallocated total shares);
  collaborators = collaborator_rows splits shares;
  implied_owner_split = implied;
}

-- once the total and the shares were parsed, the total first
unfoldable pub with_parsed :
    ℕ → List Split → Bool → Result ℤ → Result (List ℤ) → Result CollaboratorBreakdown
unfolding breakdown
with_parsed tip_count splits implied (ok total) (ok shares) =
    ok (breakdown tip_count total shares splits implied)
with_parsed tip_count splits implied (ok total) (err e) = err e
with_parsed tip_count splits implied (err e) _ = err e

-- from the row of the sums to the answer
unfoldable pub from_sums : ShareSums → List Split → Bool → Result CollaboratorBreakdown
unfolding parse_shares with_parsed
from_sums row splits implied =
    with_parsed row.tip_count splits implied (parse_stroops row.total_amount_raw)
      (parse_shares row.shares)

unfoldable pub sum_shares_per_split : NumericText → String → List Split → Db → ShareSums
sum_shares_per_split numeric creator_id splits db =
    let tips = tips_of creator_id db in
    record {
      tip_count = length tips;
      total_amount_raw = some (numeric.print (sum_of (λ t. t.amount) tips));
      shares = map (λ split. numeric.print (sum_of (tip_share split.bps) tips)) splits;
    }

creator_not_found : Error
creator_not_found = thrown 404 ""

module _ (numeric : NumericText) (is_blank : String → Bool) where
  unfoldable pub earnings_by :
      String → Creator → Result (List Split) → Db → Result CollaboratorBreakdown
  unfolding sum_shares_per_split from_sums
  earnings_by creator_id creator (err e) db = err e
  earnings_by creator_id creator (ok stored) db =
      let splits = effective_splits creator stored in
      from_sums (sum_shares_per_split numeric creator_id splits db) splits (is_nil stored)

  unfoldable pub earnings_of : String → Option Creator → Db → Result CollaboratorBreakdown
  unfolding earnings_by creator_not_found
  earnings_of creator_id none db = err creator_not_found
  earnings_of creator_id (some creator) db =
      earnings_by creator_id creator (parse_splits is_blank creator.splits) db

  -- `getCollaboratorEarnings` past the cache
  unfoldable pub collaborator_earnings : String → Db → Result CollaboratorBreakdown
  unfolding earnings_of
  collaborator_earnings creator_id db = earnings_of creator_id (creator_by_id creator_id db) db

  -- a breakdown is cached for 30 seconds
  unfoldable pub get_collaborator_earnings :
      (cached : Kv CollaboratorBreakdown)
      → ℕ
      → String
      → Db
      → cached.Keys
      → Result CollaboratorBreakdown × cached.Keys
  unfolding collaborator_earnings
  get_collaborator_earnings cached now creator_id db =
      read_through cached now (String.◌++◌ "cache:analytics:collaborators:" creator_id) 30
        (collaborator_earnings creator_id db)
