-- ===== src/Webhooks/Retention/Runs.antt =====
-- One run of the retention job: exactly the rows whose window is over are deleted.
use novatip_backend.Prelude.{
  filter-and, ids_distinct, ℕ, ◌-◌, ◌<◌, ◌≡◌, refl, sym, ap, ◌∙◌, Bool, true, false, ◌&&◌, ◌||◌,
  not, inl, inr, List, [], ◌∷◌, filter, ltb, Bool-cases, arith,
}
use novatip_backend.Store.{WebhookDelivery, Notification, Db}
use novatip_backend.Webhooks.Retention.{
  RetentionConfig, Pruned, cutoff_for, is_old_delivery, is_old_notification, max_batches_per_run,
  prune_batches, prune_older_than, prune_notifications_older_than, prune_deliveries,
  prune_notifications, prune_retained_rows,
}
use novatip_backend.Webhooks.Retention.Batches.{IsPruned, prune_batches-IsPruned}

module _ {A : Type 0} where
  filter_comm : (p q : A → Bool) (xs : List A) → filter p (filter q xs) ≡ filter q (filter p xs)
  filter_comm p q [] = refl
  filter_comm p q (x ∷ xs) = ground (arith, filter_comm p q xs)

  filter-implied :
      (p q : A → Bool) (xs : List A)
      → ((x : A) → p x ≡ true → q x ≡ true)
      → filter p (filter q xs) ≡ filter p xs
  filter-implied p q [] h = refl
  filter-implied p q (x ∷ xs) h = ground (arith, filter-implied p q xs h, h x)

  filter-false : (xs : List A) → filter (λ x. false) xs ≡ []
  filter-false [] = refl
  filter-false (x ∷ xs) = filter-false xs

  filter-true : (xs : List A) → filter (λ x. true) xs ≡ xs
  filter-true [] = refl
  filter-true (x ∷ xs) = ap (λ ys. x ∷ ys) (filter-true xs)

  filter-neither :
      (p q : A → Bool) (xs : List A)
      → filter p xs ≡ []
      → filter q xs ≡ []
      → filter (λ x. not (p x) && not (q x)) xs ≡ xs
  filter-neither p q [] h k = refl
  filter-neither p q (x ∷ xs) h k = ground (arith, filter-neither p q xs)

one_pass-exact :
    {A : Type 0} (p : A → Bool) (xs : List A) → filter p xs ≡ [] → xs ≡ filter (λ x. not (p x)) xs
one_pass-exact p [] h = refl
one_pass-exact p (x ∷ xs) h = ground (arith, one_pass-exact p xs)

all_done : (a b c : Bool) → not a || not b || not c ≡ false → (a ≡ true) × (b ≡ true) × (c ≡ true)
all_done a b c h = (ground arith, ground arith, ground arith)

-- Two passes over `rows`, of which the first deletes what `p` holds of and the second what `q` does.
module _ {A : Type 0} (p q : A → Bool) (rows between left : List A) where
  two_passes-keep :
      filter (λ x. not (p x)) between ≡ filter (λ x. not (p x)) rows
      → filter (λ x. not (q x)) left ≡ filter (λ x. not (q x)) between
      → filter (λ x. not (p x) && not (q x)) left ≡ filter (λ x. not (p x) && not (q x)) rows
  two_passes-keep h k =
      let np : A → Bool = λ x. not (p x) in
      let nq : A → Bool = λ x. not (q x) in
      filter-and np nq left
      ∙ filter_comm nq np left
      ∙ ap (filter np) k
      ∙ filter_comm np nq between
      ∙ ap (filter nq) h
      ∙ sym (filter-and np nq rows)

  two_passes-exact :
      filter (λ x. not (p x)) between ≡ filter (λ x. not (p x)) rows
      → filter (λ x. not (q x)) left ≡ filter (λ x. not (q x)) between
      → ((x : A) → p x ≡ true → not (q x) ≡ true)
      → filter p between ≡ []
      → filter q left ≡ []
      → left ≡ filter (λ x. not (p x) && not (q x)) rows
  two_passes-exact h k apart no_p no_q =
      let nq : A → Bool = λ x. not (q x) in
      let gone : filter p left ≡ [] =
        sym (filter-implied p nq left apart)
        ∙ ap (filter p) k
        ∙ filter-implied p nq between apart
        ∙ no_p in
      sym (filter-neither p q left gone no_q) ∙ two_passes-keep h k

-- the window of the row is set and over
abbrev pub is_due : Bool → ℕ → ℕ → WebhookDelivery → Bool
is_due success days now d = ltb 0 days && is_old_delivery success (cutoff_for days now) d

-- what is to be kept
abbrev pub delivery_outlives : RetentionConfig → ℕ → WebhookDelivery → Bool
delivery_outlives c now d =
    not (is_due true c.success_days now d) && not (is_due false c.failure_days now d)

abbrev pub notification_outlives : RetentionConfig → ℕ → Notification → Bool
notification_outlives c now n =
    not (ltb 0 c.notification_days && is_old_notification (cutoff_for c.notification_days now) n)

module _ (success : Bool) (days now batch_size budget : ℕ) (rows : List WebhookDelivery) where
  abbrev pass : Pruned WebhookDelivery
  pass = prune_deliveries success days now batch_size budget rows

  prune_deliveries-distinct :
      0 < batch_size
      → ids_distinct (λ d. d.id) rows ≡ true
      → ids_distinct (λ d. d.id) pass.rows ≡ true
  unfolding prune_older_than
  prune_deliveries-distinct pos h = elim (Bool-cases (ltb 0 days && ltb 0 budget)) [
    | inr off ↦ rw off h
    | inl on ↦
        rw on
          (prune_batches-IsPruned (λ d. d.id) (is_old_delivery success (cutoff_for days now))
            batch_size budget rows pos h).distinct
  ]

  prune_deliveries-keeps :
      0 < batch_size
      → ids_distinct (λ d. d.id) rows ≡ true
      → filter (λ d. not (is_due success days now d)) pass.rows
        ≡ filter (λ d. not (is_due success days now d)) rows
  unfolding prune_older_than
  prune_deliveries-keeps pos h = elim (Bool-cases (ltb 0 days)) [
    | inr off ↦ rw off refl
    | inl on ↦ elim (Bool-cases (ltb 0 budget)) [
      | inr spent ↦ rw (on, spent) refl
      | inl room ↦
          rw (on, room)
            (prune_batches-IsPruned (λ d. d.id) (is_old_delivery success (cutoff_for days now))
              batch_size budget rows pos h).keeps
    ]
  ]

  pass-on :
      ltb 0 days ≡ true
      → ltb 0 budget ≡ true
      → pass
        ≡ prune_batches
            (λ d. d.id)
            (is_old_delivery success (cutoff_for days now))
            batch_size
            budget
            rows
  unfolding prune_older_than
  pass-on on room = rw (on, room) refl

  prune_deliveries_complete :
      0 < batch_size
      → ids_distinct (λ d. d.id) rows ≡ true
      → 0 < budget
      → pass.done ≡ true
      → filter (λ d. is_due success days now d) pass.rows ≡ []
  unfolding prune_older_than
  prune_deliveries_complete pos h room done = elim (Bool-cases (ltb 0 days)) [
    | inr off ↦ rw off (filter-false rows)
    | inl on ↦
        let has_room : ltb 0 budget ≡ true = ground arith in
        let pruned =
          prune_batches-IsPruned (λ d. d.id) (is_old_delivery success (cutoff_for days now))
            batch_size budget rows pos h in
        rw (on, has_room) (pruned.complete (sym (ap (λ p. p.done) (pass-on on has_room)) ∙ done))
  ]

module _ (days now batch_size budget : ℕ) (rows : List Notification) where
  prune_notifications-lem :
      0 < batch_size
      → ids_distinct (λ n. n.id) rows ≡ true
      → 0 < budget
      → IsPruned
          (λ n. n.id)
          (λ n. ltb 0 days && is_old_notification (cutoff_for days now) n)
          rows
          (prune_notifications days now batch_size budget rows)
  unfolding prune_notifications_older_than
  prune_notifications-lem pos h room = elim (Bool-cases (ltb 0 days)) [
    | inr off ↦ rw off (record {
      keeps = refl;
      complete = λ _. filter-false rows;
      counts = omega arith;
      distinct = h;
    })
    | inl on ↦ rw on (
        prune_batches-IsPruned (λ n. n.id) (is_old_notification (cutoff_for days now)) batch_size
          budget rows pos h)
  ]

module _ (c : RetentionConfig) (now : ℕ) (db : Db) where
  abbrev successes : Pruned WebhookDelivery
  successes = pass true c.success_days now c.batch_size max_batches_per_run db.webhook_deliveries

  abbrev failures : Pruned WebhookDelivery
  failures =
      pass false c.failure_days now c.batch_size (max_batches_per_run - successes.batches_used)
        successes.rows

  due_apart :
      (d : WebhookDelivery)
      → is_due true c.success_days now d ≡ true
      → not (is_due false c.failure_days now d) ≡ true
  due_apart d h = ground arith

  -- For deliveries and notifications whose ids are distinct and a positive batch size: whatever the
  -- run deletes, it keeps every row whose window is off or not over, in the order of the table.
  pub prune_retained_rows-keeps :
      0 < c.batch_size
      → ids_distinct (λ d. d.id) db.webhook_deliveries ≡ true
      → ids_distinct (λ n. n.id) db.notifications ≡ true
      → (filter (delivery_outlives c now) (prune_retained_rows c now db).1.webhook_deliveries
          ≡ filter (delivery_outlives c now) db.webhook_deliveries)
        × (filter (notification_outlives c now) (prune_retained_rows c now db).1.notifications
            ≡ filter (notification_outlives c now) db.notifications)
  unfolding prune_retained_rows
  prune_retained_rows-keeps pos h k =
      let p = is_due true c.success_days now in
      let q = is_due false c.failure_days now in
      let kept =
        prune_deliveries-keeps true c.success_days now c.batch_size max_batches_per_run
          db.webhook_deliveries pos h in
      let distinct =
        prune_deliveries-distinct true c.success_days now c.batch_size max_batches_per_run
          db.webhook_deliveries pos h in
      let budget = max_batches_per_run - successes.batches_used in
      (
        two_passes-keep p q db.webhook_deliveries successes.rows failures.rows kept (
            prune_deliveries-keeps false c.failure_days now c.batch_size budget successes.rows pos
              distinct),
        (prune_notifications-lem c.notification_days now c.batch_size max_batches_per_run
            db.notifications pos k (omega arith)).keeps,
      )

  -- For distinct ids and a positive batch size: if the run reports that it is not truncated, and the
  -- successes did not use up the batches, then what it leaves is exactly the rows whose window is
  -- off or not over, in the order of the table, of the deliveries and of the notifications.
  pub prune_retained_rows-exact :
      0 < c.batch_size
      → ids_distinct (λ d. d.id) db.webhook_deliveries ≡ true
      → ids_distinct (λ n. n.id) db.notifications ≡ true
      → successes.batches_used < max_batches_per_run
      → (prune_retained_rows c now db).0.truncated ≡ false
      → ((prune_retained_rows c now db).1.webhook_deliveries
          ≡ filter (delivery_outlives c now) db.webhook_deliveries)
        × ((prune_retained_rows c now db).1.notifications
            ≡ filter (notification_outlives c now) db.notifications)
  unfolding prune_retained_rows
  prune_retained_rows-exact pos h k room whole =
      let p = is_due true c.success_days now in
      let q = is_due false c.failure_days now in
      let done_notifications =
        (prune_notifications c.notification_days now c.batch_size max_batches_per_run
          db.notifications).done in
      let (done, done_failures, done_all) =
        all_done successes.done failures.done done_notifications whole in
      let distinct =
        prune_deliveries-distinct true c.success_days now c.batch_size max_batches_per_run
          db.webhook_deliveries pos h in
      let budget = max_batches_per_run - successes.batches_used in
      let last =
        prune_notifications-lem c.notification_days now c.batch_size max_batches_per_run
          db.notifications pos k (omega arith) in
      (
        two_passes-exact p q db.webhook_deliveries successes.rows failures.rows
            (prune_deliveries-keeps true c.success_days now c.batch_size max_batches_per_run
              db.webhook_deliveries pos h)
            (prune_deliveries-keeps false c.failure_days now c.batch_size budget successes.rows pos
              distinct)
            due_apart
            (prune_deliveries_complete true c.success_days now c.batch_size max_batches_per_run
              db.webhook_deliveries pos h (omega arith) done)
            (prune_deliveries_complete false c.failure_days now c.batch_size budget successes.rows
              pos distinct (omega (arith, room)) done_failures),
        one_pass-exact _ _ (last.complete done_all) ∙ last.keeps,
      )
