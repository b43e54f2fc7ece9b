-- ===== src/Indexer/Poll/Complete.antt =====
-- Which events of the contract below the loop's start have a row, whatever calls throw.
use novatip_backend.Prelude.{
  ℕ, ◌+◌, ◌≤◌, ◌<◌, ◌≡◌, refl, ◌∙◌, ◌⊎◌, inl, inr, true, Option, none, some, List, [], ◌∷◌, arith,
  ltb, Bool-cases, Result, ok, err, length, In,
}
use mathlib.Core.Path.{subst}
use novatip_backend.Indexer.Cursor.{
  BatchPlan, IdleAdvance, plan_batch, plan_idle_advance, is_saturated_ledger, is_idle_check_due,
}
use novatip_backend.Indexer.Cursor.Batch.{plan_batch-partition, next_start-le, next_start-saturated}
use novatip_backend.Indexer.Cursor.Idle.{plan_idle_advance_iff}
use novatip_backend.Indexer.Persist.{TipEvent}
use novatip_backend.Indexer.Poll.{
  LoopState, Turn, process, settle, poll, advance_idle, observed_head, note_idle_check,
}
use novatip_backend.Indexer.Poll.Cover.{
  IsStored, Keeps, Stores, process_batch-moves, advance_idle-moves,
}

-- What the RPC and the SDK are relied on for, in a turn that fetches from `start` on, about the events
-- that the contract ever emits. `Full` holds for each ledger that the loop warns about, as one that
-- fills a batch by itself. A batch holds no event before the start. An event from the start on that
-- is not in the batch lies before no event of it, and after all of them if the batch is short; if
-- the batch is empty, an event from the start on lies after the head that was read before.
pub record IsHonest (Emitted : TipEvent → Type 0) (Full : ℕ → Type 0) (turn : Turn)
    (poll_limit start : ℕ) : Type 0 where
  pub not_before :
      (events : List TipEvent) (x : TipEvent)
      → turn.batch ≡ some events
      → In x events
      → start ≤ x.ledger
  pub complete :
      (events : List TipEvent) (x : TipEvent)
      → turn.batch ≡ some events
      → Emitted x
      → start ≤ x.ledger
      → In x events
        ⊎ (((y : TipEvent) → In y events → y.ledger ≤ x.ledger)
            × (length events < poll_limit → (y : TipEvent) → In y events → y.ledger < x.ledger))
  pub head_before :
      (h : ℕ) (x : TipEvent)
      → turn.head ≡ some h
      → turn.batch ≡ some []
      → Emitted x
      → start ≤ x.ledger
      → h < x.ledger
  pub warned :
      (events : List TipEvent) (x : TipEvent)
      → turn.batch ≡ some events
      → is_saturated_ledger (λ e. e.ledger) events poll_limit ≡ true
      → In x events
      → Full x.ledger

-- Every event emitted from ledger `low` on and before the loop's start has its row, unless the loop
-- warned about its ledger.
pub record IsCovered (Emitted : TipEvent → Type 0) (Full : ℕ → Type 0) (low : ℕ) (s : LoopState)
    : Type 0 where
  pub stored :
      (x : TipEvent)
      → Emitted x
      → low ≤ x.ledger
      → x.ledger < s.start_ledger
      → IsStored x s.db ⊎ Full x.ledger

abbrev ledger_of : TipEvent → ℕ
ledger_of e = e.ledger

-- a row that was there is there still
or_full : {S T F : Type 0} → (S → T) → S ⊎ F → T ⊎ F
or_full f (inl s) = inl (f s)
or_full f (inr full) = inr full

Keeps-IsCovered :
    {Emitted : TipEvent → Type 0} {Full : ℕ → Type 0} {low : ℕ} {s t : LoopState}
    → Keeps s t
    → IsCovered Emitted Full low s
    → IsCovered Emitted Full low t
Keeps-IsCovered k c = record {
  stored = λ x e l h. or_full (k.rows x) (c.stored x e l (rw k.start at h));
}

abbrev plan_of : ℕ → TipEvent → List TipEvent → LoopState → BatchPlan TipEvent
plan_of poll_limit e events s = plan_batch ledger_of (e ∷ events) s.start_ledger poll_limit

module _ {Emitted : TipEvent → Type 0} {Full : ℕ → Type 0} (turn : Turn) (poll_limit : ℕ) where
  -- an event from the start on that the plan does not reach is not passed over
  reached :
      (e : TipEvent) (events : List TipEvent) (s : LoopState) (x : TipEvent)
      → turn.batch ≡ some (e ∷ events)
      → IsHonest Emitted Full turn poll_limit s.start_ledger
      → Emitted x
      → s.start_ledger ≤ x.ledger
      → x.ledger < (plan_of poll_limit e events s).next_start_ledger
      → In x (plan_of poll_limit e events s).to_process ⊎ Full x.ledger
  reached e events s x b honest em from below = elim (honest.complete (e ∷ events) x b em from) [
    | inl m ↦
        inl ((plan_batch-partition ledger_of (e ∷ events) s.start_ledger poll_limit x).1 (m, below))
    | inr (before, short) ↦
        elim (Bool-cases (is_saturated_ledger ledger_of (e ∷ events) poll_limit)) [
          | inr mixed ↦
              let beyond =
                next_start-le ledger_of e events s.start_ledger poll_limit x.ledger before short
                  mixed in
              absurd (omega arith)
          | inl full ↦
              let next = next_start-saturated ledger_of e events s.start_ledger poll_limit full in
              let same : e.ledger ≡ x.ledger = omega (arith, before e (inl refl)) in
              inr (subst Full same (honest.warned (e ∷ events) e b full (inl refl)))
        ]
  ]

  batch-IsCovered :
      {low : ℕ} (e : TipEvent) (events : List TipEvent) (s t u : LoopState)
      → turn.batch ≡ some (e ∷ events)
      → IsHonest Emitted Full turn poll_limit s.start_ledger
      → IsCovered Emitted Full low s
      → t.db ≡ s.db
      → Stores turn (plan_of poll_limit e events s) t u
      → IsCovered Emitted Full low u
  batch-IsCovered e events s t u b honest c same st = record {
    stored = λ x em l below. elim (Bool-cases (ltb x.ledger s.start_ledger)) [
      | inl old ↦ or_full (λ r. st.rows x (rw same r)) (c.stored x em l (ground arith))
      | inr new ↦
          or_full (st.stored x)
            (reached e events s x b honest em (ground arith) (rw st.start at below))
    ];
  }

  idle-IsCovered :
      {low : ℕ} (s u : LoopState) (a : IdleAdvance)
      → turn.batch ≡ some []
      → IsHonest Emitted Full turn poll_limit s.start_ledger
      → IsCovered Emitted Full low s
      → turn.head ≡ some a.cursor_ledger
      → u.start_ledger ≡ a.cursor_ledger + 1
      → u.db.tips ≡ s.db.tips
      → IsCovered Emitted Full low u
  idle-IsCovered s u a b honest c head start same = record {
    stored = λ x em l below. elim (Bool-cases (ltb x.ledger s.start_ledger)) [
      | inl old ↦ or_full (λ r. rw same r) (c.stored x em l (ground arith))
      | inr new ↦
          let after = honest.head_before a.cursor_ledger x head b em (ground arith) in
          absurd (omega arith)
    ];
  }

  process-IsCovered :
      {low : ℕ} (head : Option ℕ) (batch : Option (List TipEvent)) (s : LoopState)
      → turn.batch ≡ batch
      → ((h : ℕ) → head ≡ some h → turn.head ≡ some h)
      → IsHonest Emitted Full turn poll_limit s.start_ledger
      → IsCovered Emitted Full low s
      → IsCovered Emitted Full low (process turn poll_limit head batch s).1
  unfolding process
  process-IsCovered head none s b read honest c = c
  process-IsCovered head (some []) s b read honest c =
      let plan = plan_idle_advance head s.start_ledger s.persisted_cursor in
      let u = (advance_idle turn plan s).1 in
      elim (advance_idle-moves turn plan s) [
        | inl k ↦ Keeps-IsCovered k c
        | inr (a, planned, rows, start, _) ↦
            let (head_is, _, _, next) = (plan_idle_advance_iff head _ _ a).0 planned in
            idle-IsCovered s u a b honest c (read _ head_is) (start ∙ next) rows
      ]
  process-IsCovered head (some (e ∷ events)) s b read honest c =
      elim (process_batch-moves turn (plan_of poll_limit e events s) s) [
        | inl k ↦ Keeps-IsCovered k c
        | inr st ↦ batch-IsCovered e events s s _ b honest c refl st
      ]

pub note_idle_check-frame :
    (turn : Turn) (s : LoopState)
    → ((note_idle_check turn s).db ≡ s.db)
      × ((note_idle_check turn s).start_ledger ≡ s.start_ledger)
unfolding note_idle_check is_idle_check_due
note_idle_check-frame turn s = ground arith

pub settle-frame :
    (turn : Turn) (interval : ℕ) (r : Result (Unit {0})) (s : LoopState)
    → ((settle turn interval (r, s)).0.db ≡ s.db)
      × ((settle turn interval (r, s)).0.start_ledger ≡ s.start_ledger)
unfolding settle
settle-frame turn interval (ok _) s = (refl, refl)
settle-frame turn interval (err _) s = (refl, refl)

observed_head-read :
    (turn : Turn) (s : LoopState) (h : ℕ) → observed_head turn s ≡ some h → turn.head ≡ some h
unfolding observed_head
observed_head-read turn s h e = ground arith

-- If the RPC answers honestly in a turn, then whatever fails in that turn (the head, the fetch, the
-- rows, the cursor, the metrics), every event of the contract between `low` and the start has its
-- row after the turn, or lies in a ledger that the loop warned about as one that fills a batch, if
-- this held before.
pub poll-IsCovered :
    {Emitted : TipEvent → Type 0} {Full : ℕ → Type 0} {low : ℕ} (turn : Turn)
    (poll_interval_ms poll_limit : ℕ) (s : LoopState)
    → IsHonest Emitted Full turn poll_limit s.start_ledger
    → IsCovered Emitted Full low s
    → IsCovered Emitted Full low (poll turn poll_interval_ms poll_limit s).0
unfolding poll
poll-IsCovered turn poll_interval_ms poll_limit s honest c =
    let noted = note_idle_check turn s in
    let frame = note_idle_check-frame turn s in
    let done =
      process-IsCovered turn poll_limit (observed_head turn s) turn.batch noted refl
        (observed_head-read turn s) (rw frame.1 honest)
        (record { stored = λ x em l h. rw frame.0 (c.stored x em l (rw frame.1 at h)) }) in
    let (r, t) = process turn poll_limit (observed_head turn s) turn.batch noted in
    let settled = settle-frame turn poll_interval_ms r t in
    record { stored = λ x em l h. rw settled.0 (done.stored x em l (rw settled.1 at h)) }
