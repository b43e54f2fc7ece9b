-- ===== src/Indexer/Cursor/Batch.antt =====
-- What a batch plan promises: no event is dropped, the loop moves on, and a restart meets it.
use novatip_backend.Prelude.{
  ℕ, ◌+◌, ◌-◌, ◌≤◌, ◌<◌, ◌≡◌, ◌↔◌, refl, sym, ◌⊎◌, inl, inr, true, false, some, List, [], ◌∷◌,
  arith, ltb, ◌==◌, Bool-cases, ltb→lt, length, filter, all, In, In-filter,
}
use novatip_backend.Indexer.Cursor.{
  max_ledger, min_ledger, plan_bounded, plan_batch, is_saturated_ledger,
}

module _ {E : Type 0} (ledger : E → ℕ) where
  best-le-max_ledger : (best : ℕ) (events : List E) → best ≤ max_ledger ledger best events
  unfolding max_ledger
  best-le-max_ledger best [] = omega arith
  best-le-max_ledger best (e ∷ events) =
      ground (arith, best-le-max_ledger best events, best-le-max_ledger (ledger e) events)

  max_ledger-bounds :
      (best : ℕ) (events : List E) (x : E) → In x events → ledger x ≤ max_ledger ledger best events
  unfolding max_ledger
  max_ledger-bounds best [] x m = elim m [ ]
  max_ledger-bounds best (e ∷ events) x m = ground (
    arith,
    best-le-max_ledger best events,
    best-le-max_ledger (ledger e) events,
    max_ledger-bounds best events x,
    max_ledger-bounds (ledger e) events x,
  )

  min_ledger-le-best : (best : ℕ) (events : List E) → min_ledger ledger best events ≤ best
  unfolding min_ledger
  min_ledger-le-best best [] = omega arith
  min_ledger-le-best best (e ∷ events) =
      ground (arith, min_ledger-le-best best events, min_ledger-le-best (ledger e) events)

  min_ledger-bounds :
      (best : ℕ) (events : List E) (x : E) → In x events → min_ledger ledger best events ≤ ledger x
  unfolding min_ledger
  min_ledger-bounds best [] x m = elim m [ ]
  min_ledger-bounds best (e ∷ events) x m = ground (
    arith,
    min_ledger-le-best best events,
    min_ledger-le-best (ledger e) events,
    min_ledger-bounds best events x,
    min_ledger-bounds (ledger e) events x,
  )

  -- the batch holds only events from `low` on
  abbrev pub From : ℕ → List E → Type 0
  From low events = (x : E) → In x events → low ≤ ledger x

  le-min_ledger :
      (low best : ℕ) (events : List E)
      → low ≤ best
      → From low events
      → low ≤ min_ledger ledger best events
  unfolding min_ledger
  le-min_ledger low best [] h k = h
  le-min_ledger low best (e ∷ events) h k = ground (
    arith,
    k e (inl refl),
    le-min_ledger low best events h (λ x m. k x (inr m)),
    le-min_ledger low (ledger e) events (k e (inl refl)) (λ x m. k x (inr m)),
  )

  In-filter_below :
      (n : ℕ) (events : List E) (x : E)
      → In x (filter (λ e. ltb (ledger e) n) events)
      → (ledger x < n) × In x events
  In-filter_below n [] x m = elim m [ ]
  In-filter_below n (e ∷ events) x m = ground (arith, In-filter_below n events x)

  In-below :
      (n : ℕ) (events : List E) (x : E)
      → In x events
      → ledger x < n
      → In x (filter (λ e. ltb (ledger e) n) events)
  In-below n events x m h = In-filter (λ e. ltb (ledger e) n) events x m (ground arith)

  max_ledger-attained :
      (best : ℕ) (events : List E)
      → (max_ledger ledger best events ≡ best)
        ⊎ ((x : E) × In x events × (ledger x ≡ max_ledger ledger best events))
  unfolding max_ledger
  max_ledger-attained best [] = inl refl
  max_ledger-attained best (e ∷ events) = elim (Bool-cases (ltb best (ledger e))) [
    | inl h ↦ rw h (
        inr (elim (max_ledger-attained (ledger e) events) [
          | inl k ↦ (e, inl refl, sym k)
          | inr (x, m, k) ↦ (x, inr m, k)
        ]))
    | inr h ↦ rw h (elim (max_ledger-attained best events) [
      | inl k ↦ inl k
      | inr (x, m, k) ↦ inr (x, inr m, k)
    ])
  ]

  plan_bounded-partition :
      (events : List E) (limit max_l min_l : ℕ) (x : E)
      → (In x events → ledger x ≤ max_l)
      → In x (plan_bounded ledger events limit max_l min_l).to_process ↔ (
          In x events
          × (ledger x < (plan_bounded ledger events limit max_l min_l).next_start_ledger))
  unfolding plan_bounded
  plan_bounded-partition events limit max_l min_l x h =
      ground (arith, h, In-filter_below max_l events x, In-below max_l events x)

  -- An event is processed exactly when it is in the batch and lies below the ledger from which the
  -- next poll starts: whatever is not processed is fetched again.
  pub plan_batch-partition :
      (events : List E) (start_ledger limit : ℕ) (x : E)
      → In x (plan_batch ledger events start_ledger limit).to_process ↔ (
          In x events
          × (ledger x < (plan_batch ledger events start_ledger limit).next_start_ledger))
  unfolding plan_batch
  plan_batch-partition [] start_ledger limit x = ((λ m. elim m [ ]), (λ h. h.0))
  plan_batch-partition (e ∷ events) start_ledger limit x =
      plan_bounded-partition (e ∷ events) limit _ _ x (max_ledger-bounds (ledger e) (e ∷ events) x)

  -- When every event of a batch that is not empty lies at or after the start, the next poll starts
  -- strictly later, and the ledger to persist is the one before that start, where a restart resumes.
  pub plan_batch-progress :
      (e : E) (events : List E) (start_ledger limit : ℕ)
      → From start_ledger (e ∷ events)
      → (start_ledger < (plan_batch ledger (e ∷ events) start_ledger limit).next_start_ledger)
        × ((plan_batch ledger (e ∷ events) start_ledger limit).cursor_ledger
            ≡ some ((plan_batch ledger (e ∷ events) start_ledger limit).next_start_ledger - 1))
  unfolding plan_batch
  plan_batch-progress e events start_ledger limit h = ground (
    arith,
    h e (inl refl),
    le-min_ledger start_ledger (ledger e) (e ∷ events) (h e (inl refl)) h,
    best-le-max_ledger (ledger e) (e ∷ events),
  )

  all_equal→bounds :
      (l best : ℕ) (events : List E)
      → best ≡ l
      → all (λ x. ledger x == l) events ≡ true
      → (max_ledger ledger best events ≡ l) × (min_ledger ledger best events ≡ l)
  unfolding max_ledger min_ledger
  all_equal→bounds l best [] h k = (h, h)
  all_equal→bounds l best (e ∷ events) h k =
      ground (arith, all_equal→bounds l best events, all_equal→bounds l (ledger e) events)

  equal_all :
      (l : ℕ) (events : List E)
      → ((x : E) → In x events → ledger x ≡ l)
      → all (λ x. ledger x == l) events ≡ true
  equal_all l [] h = refl
  equal_all l (e ∷ events) h =
      ground (arith, h e (inl refl), equal_all l events (λ x m. h x (inr m)))

  flat_equal :
      (e : E) (events : List E)
      → max_ledger ledger (ledger e) (e ∷ events) ≤ min_ledger ledger (ledger e) (e ∷ events)
      → all (λ x. ledger x == ledger e) (e ∷ events) ≡ true
  flat_equal e events h = equal_all (ledger e) (e ∷ events) λ x m. omega (
    arith,
    max_ledger-bounds (ledger e) (e ∷ events) x m,
    min_ledger-bounds (ledger e) (e ∷ events) x m,
    best-le-max_ledger (ledger e) (e ∷ events),
    min_ledger-le-best (ledger e) (e ∷ events),
  )

  -- the plan of a full batch moves past an event of the greatest ledger only if all ledgers agree
  past_max→flat :
      (events : List E) (limit max_l min_l : ℕ)
      → limit ≤ length events
      → max_l < (plan_bounded ledger events limit max_l min_l).next_start_ledger
      → max_l ≤ min_l
  unfolding plan_bounded
  past_max→flat events limit max_l min_l full h = ground arith

  past_all→past_max :
      (e : E) (events : List E) (n : ℕ)
      → ((x : E) → In x (e ∷ events) → ledger x < n)
      → max_ledger ledger (ledger e) (e ∷ events) < n
  past_all→past_max e events n h = elim (max_ledger-attained (ledger e) (e ∷ events)) [
    | inl k ↦ omega (arith, h e (inl refl))
    | inr (x, m, k) ↦ omega (arith, h x m)
  ]

  -- A full batch is reported as saturated exactly when the plan moves past every event of it, so
  -- that nothing of its ledger is fetched again.
  pub is_saturated_ledger_iff :
      (e : E) (events : List E) (start_ledger limit : ℕ)
      → limit ≤ length (e ∷ events)
      → (is_saturated_ledger ledger (e ∷ events) limit ≡ true) ↔ (
          (x : E)
          → In x (e ∷ events)
          → ledger x < (plan_batch ledger (e ∷ events) start_ledger limit).next_start_ledger)
  unfolding plan_batch is_saturated_ledger
  is_saturated_ledger_iff e events start_ledger limit full = (
    (λ h x m. ground (
      arith,
      all_equal→bounds (ledger e) (ledger e) (e ∷ events) refl,
      max_ledger-bounds (ledger e) (e ∷ events) x m,
    )),
    λ h. ground (
      arith,
      flat_equal e events
          (past_max→flat (e ∷ events) limit _ _ full (past_all→past_max e events _ h)),
    ),
  )

  max_ledger-le :
      (e : E) (events : List E) (n : ℕ)
      → ((y : E) → In y (e ∷ events) → ledger y ≤ n)
      → max_ledger ledger (ledger e) (e ∷ events) ≤ n
  max_ledger-le e events n h =
      let below = past_all→past_max e events (n + 1) (λ y m. omega (arith, h y m)) in omega arith

  -- An event that is not in the batch, and before no event of it, is not passed over: if the batch is
  -- short it lies after all of them, and if it is full the batch is not one whole ledger.
  pub next_start-le :
      (e : E) (events : List E) (start_ledger limit n : ℕ)
      → ((y : E) → In y (e ∷ events) → ledger y ≤ n)
      → (length (e ∷ events) < limit → (y : E) → In y (e ∷ events) → ledger y < n)
      → is_saturated_ledger ledger (e ∷ events) limit ≡ false
      → (plan_batch ledger (e ∷ events) start_ledger limit).next_start_ledger ≤ n
  unfolding plan_batch is_saturated_ledger
  next_start-le e events start_ledger limit n before short mixed =
      elim (Bool-cases (ltb (length (e ∷ events)) limit)) [
        | inl h ↦ rw h (omega (arith, past_all→past_max e events n (short (ltb→lt _ _ h))))
        | inr h ↦
            elim (Bool-cases (
              ltb (min_ledger ledger (ledger e) (e ∷ events))
                (max_ledger ledger (ledger e) (e ∷ events)))) [
                  | inl k ↦ rw (h, k) (max_ledger-le e events n before)
                  | inr k ↦ absurd (ground (arith, flat_equal e events, mixed, h, k))
                ]
      ]

  -- the next poll after a batch that one ledger fills starts behind that ledger
  pub next_start-saturated :
      (e : E) (events : List E) (start_ledger limit : ℕ)
      → is_saturated_ledger ledger (e ∷ events) limit ≡ true
      → (plan_batch ledger (e ∷ events) start_ledger limit).next_start_ledger ≡ ledger e + 1
  unfolding plan_batch plan_bounded is_saturated_ledger
  next_start-saturated e events start_ledger limit h =
      ground (arith, h, all_equal→bounds (ledger e) (ledger e) (e ∷ events) refl)
