-- ===== src/Webhooks/Retention/Batches.antt =====
-- One loop of deletions: what it keeps, what it leaves and what it counts.
use novatip_backend.Prelude.{
  ℕ, zero, suc, ◌+◌, ◌<◌, ◌≡◌, refl, sym, ap, ◌∙◌, inl, inr, String, Bool, true, not, List, [],
  filter, take, length, ltb, ◌==◌, str_eq, In, In-filter, In-any, any-In, In-take, filter-In,
  take-all, take-none, count_where-filter, filter-filter, filter-none, ids_distinct,
  ids_distinct-filter, same_row, ltb→lt, Bool-cases, arith, eq_refl,
}
use novatip_backend.Webhooks.Retention.{Pruned, in_page, prune_batches}

module _ {A : Type 0} (id : A → String) (expired : A → Bool) where
  -- the rows that are not expired are left in their order, all others are gone if the loop is
  -- done, and the count is that of the rows that are gone
  pub record IsPruned (rows : List A) (result : Pruned A) : Type 0 where
    pub keeps : filter (λ x. not (expired x)) result.rows ≡ filter (λ x. not (expired x)) rows
    pub complete : result.done ≡ true → filter expired result.rows ≡ []
    pub counts : result.deleted + length result.rows ≡ length rows
    pub distinct : ids_distinct id result.rows ≡ true

  abbrev page_of : ℕ → List A → List A
  page_of batch_size rows = take batch_size (filter expired rows)

  page-expired :
      (n : ℕ) (rows : List A) (x : A)
      → ids_distinct id rows ≡ true
      → In x rows
      → in_page id expired (page_of n rows) x ≡ true
      → expired x ≡ true
  page-expired n rows x h m e =
      let (r, in_r, same) = any-In (λ r. str_eq (id r) (id x)) (page_of n rows) e in
      let (in_rows, old) = filter-In expired rows r (In-take n (filter expired rows) r in_r) in
      ap expired (sym (same_row id rows r x h in_rows m same)) ∙ old

  short_page :
      (n : ℕ) (rows : List A) (x : A)
      → length (page_of n rows) < n
      → In x rows
      → expired x ≡ true
      → in_page id expired (page_of n rows) x ≡ true
  short_page n rows x h m e =
      let in_page_ : In x (page_of n rows) =
        rw (take-all n (filter expired rows) h) (In-filter expired rows x m e) in
      In-any (λ r. str_eq (id r) (id x)) (page_of n rows) x in_page_ (eq_refl (id x))

  pub prune_batches-IsPruned :
      (batch_size batches : ℕ) (rows : List A)
      → 0 < batch_size
      → ids_distinct id rows ≡ true
      → IsPruned rows (prune_batches id expired batch_size batches rows)
  unfolding prune_batches
  prune_batches-IsPruned batch_size zero rows pos h = record {
    keeps = refl;
    complete = λ e. cc;
    counts = omega arith;
    distinct = h;
  }
  prune_batches-IsPruned batch_size (suc batches) rows pos h =
      let page = page_of batch_size rows in
      let left = filter (λ x. not (in_page id expired page x)) rows in
      let distinct = ids_distinct-filter id (λ x. not (in_page id expired page x)) rows h in
      let ih = prune_batches-IsPruned batch_size batches left pos distinct in
      let keeps =
        filter-filter (in_page id expired page) (λ x. not (expired x)) rows
          (λ x m e. ap not (page-expired batch_size rows x h m e)) in
      let count = count_where-filter (in_page id expired page) rows in
      elim (Bool-cases (length page == 0)) [
        | inl empty ↦ rw empty (record {
          keeps = refl;
          complete = λ _. take-none batch_size (filter expired rows) pos empty;
          counts = omega arith;
          distinct = h;
        })
        | inr some_ ↦ elim (Bool-cases (ltb (length page) batch_size)) [
          | inl short ↦
              rw (some_, short)
                (record {
                  keeps = keeps;
                  counts = count;
                  distinct = distinct;
                  complete = λ _.
                      filter-none (in_page id expired page) expired rows
                        (λ x m e. short_page batch_size rows x (ltb→lt _ _ short) m e);
                })
          | inr full ↦
              rw (some_, full)
                (record {
                  keeps = ih.keeps ∙ keeps;
                  complete = ih.complete;
                  counts = omega (arith, ih.counts, count);
                  distinct = ih.distinct;
                })
        ]
      ]
