-- ===== src/Analytics/Supporters/Ranking.antt =====
-- The supporters are ranked by what they sent, and nobody is left out or listed twice.
use novatip_backend.Prelude.{
  ℕ, ◌≤◌, ◌≡◌, refl, ◌∙◌, String, Bool, true, false, ◌||◌, List, [], ◌∷◌, map, take, leb, str_eq,
  any, All, In, ids_distinct, Bool-cases, leb→le, inl, inr, arith, eq_iff, eq_refl,
}
use novatip_backend.Store.{Tip, Db}
use novatip_backend.Analytics.Sql.{NumericText, tips_of, insert_sender, distinct_senders}
use novatip_backend.Analytics.Supporters.{
  TopSupporter, total_from, insert_ranked, rank, supporter_row, top_supporters,
}

abbrev has : String → List String → Bool
has s senders = any (λ x. str_eq x s) senders

has-insert_sender :
    (s r : String) (senders : List String)
    → has s senders ≡ true
    → has s (insert_sender r senders) ≡ true
unfolding insert_sender
has-insert_sender s r senders h = ground (arith, h)

insert_sender-has : (s : String) (senders : List String) → has s (insert_sender s senders) ≡ true
unfolding insert_sender
insert_sender-has s senders = ground (arith, eq_refl s)

-- every sender is listed
has-distinct_senders :
    (tips : List Tip) (t : Tip) → In t tips → has t.from_address (distinct_senders tips) ≡ true
unfolding distinct_senders
has-distinct_senders [] t m = elim m [ ]
has-distinct_senders (x ∷ tips) t (inl e) =
    rw e (insert_sender-has x.from_address (distinct_senders tips))
has-distinct_senders (x ∷ tips) t (inr m) =
    has-insert_sender t.from_address x.from_address (distinct_senders tips)
      (has-distinct_senders tips t m)

distinct_senders-distinct : (tips : List Tip) → ids_distinct (λ s. s) (distinct_senders tips) ≡ true
unfolding distinct_senders insert_sender
distinct_senders-distinct [] = refl
distinct_senders-distinct (x ∷ tips) = ground (arith, distinct_senders-distinct tips)

module _ (tips : List Tip) where
  has-insert_ranked :
      (s r : String) (ranked : List String)
      → has s (insert_ranked tips r ranked) ≡ (str_eq r s || has s ranked)
  unfolding insert_ranked
  has-insert_ranked s r [] = refl
  has-insert_ranked s r (x ∷ ranked) = ground (arith, has-insert_ranked s r ranked)

  has-rank : (s : String) (senders : List String) → has s (rank tips senders) ≡ has s senders
  unfolding rank
  has-rank s [] = refl
  has-rank s (x ∷ senders) =
      ground (arith, has-insert_ranked s x (rank tips senders), has-rank s senders)

  insert_ranked-distinct :
      (r : String) (ranked : List String)
      → has r ranked ≡ false
      → ids_distinct (λ s. s) ranked ≡ true
      → ids_distinct (λ s. s) (insert_ranked tips r ranked) ≡ true
  unfolding insert_ranked
  insert_ranked-distinct r [] h k = refl
  insert_ranked-distinct r (x ∷ ranked) h k =
      ground (
        arith,
        insert_ranked-distinct r ranked,
        has-insert_ranked x r ranked,
        eq_iff r x,
        eq_iff x r,
      )

  rank-distinct :
      (senders : List String)
      → ids_distinct (λ s. s) senders ≡ true
      → ids_distinct (λ s. s) (rank tips senders) ≡ true
  unfolding rank
  rank-distinct [] h = refl
  rank-distinct (x ∷ senders) h =
      insert_ranked-distinct x (rank tips senders) (has-rank x senders ∙ ground arith)
        (rank-distinct senders (ground arith))

  -- nobody sent more than one who is listed before
  abbrev pub IsRanked : List String → Type 0
  IsRanked [] = Unit
  IsRanked (s ∷ ranked) = All (λ r. total_from tips r ≤ total_from tips s) ranked × IsRanked ranked

  insert_ranked-All :
      (P : String → Type 0) (r : String) (ranked : List String)
      → P r
      → All P ranked
      → All P (insert_ranked tips r ranked)
  unfolding insert_ranked
  insert_ranked-All P r [] p _ = (p, tt)
  insert_ranked-All P r (x ∷ ranked) p (q, h) =
      elim (Bool-cases (leb (total_from tips x) (total_from tips r))) [
        | inl k ↦ rw k (p, (q, h))
        | inr k ↦ rw k (q, insert_ranked-All P r ranked p h)
      ]

  All-le :
      (a b : ℕ) (ranked : List String)
      → a ≤ b
      → All (λ r. total_from tips r ≤ a) ranked
      → All (λ r. total_from tips r ≤ b) ranked
  All-le a b [] h _ = tt
  All-le a b (x ∷ ranked) h (p, k) = (omega arith, All-le a b ranked h k)

  insert_ranked-IsRanked :
      (r : String) (ranked : List String) → IsRanked ranked → IsRanked (insert_ranked tips r ranked)
  unfolding insert_ranked
  insert_ranked-IsRanked r [] _ = (tt, tt)
  insert_ranked-IsRanked r (x ∷ ranked) (h, hs) =
      elim (Bool-cases (leb (total_from tips x) (total_from tips r))) [
        | inl k ↦ rw k (
          (leb→le _ _ k, All-le (total_from tips x) (total_from tips r) ranked (leb→le _ _ k) h),
          (h, hs),
        )
        | inr k ↦ rw k (
          insert_ranked-All (λ s. total_from tips s ≤ total_from tips x) r ranked (ground arith) h,
          insert_ranked-IsRanked r ranked hs,
        )
      ]

  rank-IsRanked : (senders : List String) → IsRanked (rank tips senders)
  unfolding rank
  rank-IsRanked [] = tt
  rank-IsRanked (x ∷ senders) = insert_ranked-IsRanked x (rank tips senders) (rank-IsRanked senders)

-- the rows are those of the first senders of a ranking of all of them
pub record AreTop (numeric : NumericText) (tips : List Tip) (limit : ℕ) (rows : List TopSupporter)
    : Type 0 where
  pub ranking : List String
  pub first : rows ≡ map (supporter_row numeric tips) (take limit ranking)
  pub each_once : ids_distinct (λ s. s) ranking ≡ true
  pub everyone : (t : Tip) → In t tips → any (λ s. str_eq s t.from_address) ranking ≡ true
  pub ranked : IsRanked tips ranking

-- The answer is the first `limit` rows of a ranking in which every sender of a tip of the creator
-- stands exactly once and nobody sent more than one who stands before; a row has the count and the
-- sum of the sender's tips to the creator.
pub top_supporters-AreTop :
    (numeric : NumericText) (creator_id : String) (limit : ℕ) (db : Db)
    → AreTop numeric (tips_of creator_id db) limit (top_supporters numeric creator_id limit db)
unfolding top_supporters
top_supporters-AreTop numeric creator_id limit db =
    let tips = tips_of creator_id db in
    record {
      ranking = rank tips (distinct_senders tips);
      first = refl;
      each_once = rank-distinct tips (distinct_senders tips) (distinct_senders-distinct tips);
      everyone = λ t m.
          has-rank tips t.from_address (distinct_senders tips) ∙ has-distinct_senders tips t m;
      ranked = rank-IsRanked tips (distinct_senders tips);
    }
