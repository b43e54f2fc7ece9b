-- ===== src/Analytics/Sql.antt =====
-- What the raw queries of src/modules/analytics/analytics.service.ts have in common: the tips of a
-- creator, their sums, and the keys of a GROUP BY.
use novatip_backend.Prelude.{
  ℕ, ◌≡◌, String, true, List, [], ◌∷◌, ltb, ◌==◌, str_eq, if◌then◌else◌, any, filter, value_from,
  is_digits,
}
use novatip_backend.Store.{Tip, Db}
use novatip_backend.Feeds.Tips.{is_tip_of}

-- The texts that Postgres makes of a whole `numeric` that is not negative: its decimal digits.
pub record NumericText : Type 0 where
  pub print : ℕ → List ℕ
  pub print-is_digits : (n : ℕ) → is_digits (print n) ≡ true
  pub value_from-print : (n : ℕ) → value_from 0 (print n) ≡ n

-- the indexed tips of a creator
abbrev pub tips_of : String → Db → List Tip
tips_of creator_id db = filter (is_tip_of creator_id) db.tips

-- the distinct values of a column of numbers, ascending
unfoldable pub insert_key : ℕ → List ℕ → List ℕ
insert_key k [] = k ∷ []
insert_key k (x ∷ xs) =
    let later = insert_key k xs in
    if k == x then x ∷ xs else if ltb k x then k ∷ x ∷ xs else x ∷ later

unfoldable pub ascending_keys : (Tip → ℕ) → List Tip → List ℕ
unfolding insert_key
ascending_keys column [] = []
ascending_keys column (t ∷ tips) = insert_key (column t) (ascending_keys column tips)

-- the distinct senders
unfoldable pub insert_sender : String → List String → List String
insert_sender s senders = if any (λ x. str_eq x s) senders then senders else s ∷ senders

unfoldable pub distinct_senders : List Tip → List String
unfolding insert_sender
distinct_senders [] = []
distinct_senders (t ∷ tips) = insert_sender t.from_address (distinct_senders tips)
