-- ===== src/Indexer/Poll/Cover.antt =====
-- What the parts of a turn do to the tips and to the loop's start, whatever calls throw.
use novatip_backend.Prelude.{
  ℕ, ◌≡◌, refl, ◌∙◌, continue-keeps, ◌>>◌, continue-eq-ok, ◌⊎◌, inl, inr, true, Option, none, some,
  List, [], ◌∷◌, arith, eq_refl, is_some, Bool-cases, Result, ok, err, In,
}
use novatip_backend.Store.{Db}
use novatip_backend.Indexer.Cursor.{BatchPlan, IdleAdvance}
use novatip_backend.Indexer.Persist.{TipEvent, persist_tip, tip_of_tx, update_cursor}
use novatip_backend.Indexer.Persist.Idempotent.{persist_tip-lookup}
use novatip_backend.Indexer.Poll.{
  LoopState, Turn, handle_event, handle_events, process_batch, save_cursor, advance_idle,
}

-- the event's transaction has a row
abbrev pub IsStored : TipEvent → Db → Type 0
IsStored e db = is_some (tip_of_tx e.tx_hash db.tips) ≡ true

persist_tip-keeps :
    (x e : TipEvent) (id : _) (now : ℕ) (db : Db)
    → IsStored x db
    → IsStored x (persist_tip id now e e.tx_hash db).1
persist_tip-keeps x e id now db h =
    rw (persist_tip-lookup id now e e.tx_hash x.tx_hash db) (ground arith)

persist_tip-stores :
    (e : TipEvent) (id : _) (now : ℕ) (db : Db) → IsStored e (persist_tip id now e e.tx_hash db).1
persist_tip-stores e id now db =
    rw (persist_tip-lookup id now e e.tx_hash e.tx_hash db, eq_refl) refl

-- How a part of a turn may change the state: no row is lost, and the start and the cursor row stay.
pub record Keeps (s t : LoopState) : Type 0 where
  pub rows : (x : TipEvent) → IsStored x s.db → IsStored x t.db
  pub start : t.start_ledger ≡ s.start_ledger
  pub cursor : t.db.indexer_cursor ≡ s.db.indexer_cursor

Keeps-trans : {s t u : LoopState} → Keeps s t → Keeps t u → Keeps s u
Keeps-trans h k = record {
  rows = λ x p. k.rows x (h.rows x p);
  start = k.start ∙ h.start;
  cursor = k.cursor ∙ h.cursor;
}

module _ (turn : Turn) where
  handle_event-Keeps : (e : TipEvent) (s : LoopState) → Keeps s (handle_event turn e s).1
  unfolding handle_event
  handle_event-Keeps e s = record {
    rows = λ x h. ground (arith, persist_tip-keeps x e (turn.row_id e) turn.now_ms s.db h);
    start = ground arith;
    cursor = unfold persist_tip in ground arith;
  }

  handle_event-stores :
      (e : TipEvent) (s : LoopState)
      → (handle_event turn e s).0 ≡ ok tt
      → IsStored e (handle_event turn e s).1.db
  unfolding handle_event
  handle_event-stores e s h = ground (arith, persist_tip-stores e (turn.row_id e) turn.now_ms s.db)

  handle_events-Keeps :
      (events : List TipEvent) (s : LoopState) → Keeps s (handle_events turn events s).1
  unfolding handle_events
  handle_events-Keeps [] s = record { rows = λ x h. h; start = refl; cursor = refl }
  handle_events-Keeps (e ∷ events) s =
      let (r, t) = handle_event turn e s in
      continue-keeps (Keeps s) r (λ _. handle_events turn events) t (handle_event-Keeps e s)
        λ _ _. Keeps-trans (handle_event-Keeps e s) (handle_events-Keeps events t)

  handle_events-stores :
      (events : List TipEvent) (s : LoopState)
      → (handle_events turn events s).0 ≡ ok tt
      → (x : TipEvent) → In x events
      → IsStored x (handle_events turn events s).1.db
  unfolding handle_events
  handle_events-stores [] s h x m = elim m [ ]
  handle_events-stores (e ∷ events) s h x m =
      let t = (handle_event turn e s).1 in
      let (a, done, rest) =
        continue-eq-ok (handle_event turn e s).0 (λ _. handle_events turn events) t tt h in
      let stored : IsStored x (handle_events turn events t).1.db = elim m [
        | inl same ↦ (handle_events-Keeps events t).rows x (rw same (handle_event-stores e s done))
        | inr later ↦ handle_events-stores events t rest x later
      ] in
      rw (done, ◌>>◌) stored

  -- saving the cursor touches neither the tips nor the start, and may not reach the row
  save_cursor-frame :
      (c : Option ℕ) (s : LoopState)
      → ((save_cursor turn c s).1.db.tips ≡ s.db.tips)
        × ((save_cursor turn c s).1.start_ledger ≡ s.start_ledger)
        × (((save_cursor turn c s).1.db.indexer_cursor ≡ s.db.indexer_cursor)
            ⊎ ((save_cursor turn c s).1.db.indexer_cursor ≡ c))
  unfolding save_cursor update_cursor
  save_cursor-frame none s = (refl, refl, inl refl)
  save_cursor-frame (some ledger) s = elim (Bool-cases turn.cursor_write_fails) [
    | inl h ↦ rw h (refl, refl, inl refl)
    | inr h ↦ rw h (refl, refl, inr refl)
  ]

  -- What a turn does to the tips and the start: it keeps the start, or it stores every event of the
  -- plan and then moves the start to the plan's next one.
  pub record Stores (plan : BatchPlan TipEvent) (s t : LoopState) : Type 0 where
    pub rows : (x : TipEvent) → IsStored x s.db → IsStored x t.db
    pub stored : (x : TipEvent) → In x plan.to_process → IsStored x t.db
    pub start : t.start_ledger ≡ plan.next_start_ledger
    pub cursor :
        (t.db.indexer_cursor ≡ s.db.indexer_cursor) ⊎ (t.db.indexer_cursor ≡ plan.cursor_ledger)

  pub process_batch-moves :
      (plan : BatchPlan TipEvent) (s : LoopState)
      → Keeps s (process_batch turn plan s).1 ⊎ Stores plan s (process_batch turn plan s).1
  process_batch-moves plan s = go (handle_events turn plan.to_process s).0 refl
    where
      go :
          (r : Result (Unit {0}))
          → (handle_events turn plan.to_process s).0 ≡ r
          → Keeps s (process_batch turn plan s).1 ⊎ Stores plan s (process_batch turn plan s).1
      go (err x) e =
          inl (unfold process_batch in rw (e, ◌>>◌) (handle_events-Keeps plan.to_process s))
      go (ok x) e =
          let t = (handle_events turn plan.to_process s).1 in
          let frame =
            save_cursor-frame plan.cursor_ledger
              (record t { start_ledger = plan.next_start_ledger }) in
          inr (
            unfold process_batch in
            rw (e, ◌>>◌)
              (record {
                rows = λ y h. rw frame.0 ((handle_events-Keeps plan.to_process s).rows y h);
                stored = λ y m. rw frame.0 (handle_events-stores plan.to_process s e y m);
                start = frame.1;
                cursor = elim frame.2 [
                  | inl same ↦ inl (same ∙ (handle_events-Keeps plan.to_process s).cursor)
                  | inr moved ↦ inr moved
                ];
              }))

  pub advance_idle-moves :
      (a : Option IdleAdvance) (s : LoopState)
      → Keeps s (advance_idle turn a s).1
        ⊎ ((b : IdleAdvance) × (a ≡ some b)
            × ((advance_idle turn a s).1.db.tips ≡ s.db.tips)
            × ((advance_idle turn a s).1.start_ledger ≡ b.next_start_ledger)
            × ((advance_idle turn a s).1.db.indexer_cursor ≡ some b.cursor_ledger))
  unfolding advance_idle update_cursor
  advance_idle-moves none s = inl (record { rows = λ x h. h; start = refl; cursor = refl })
  advance_idle-moves (some b) s = elim (Bool-cases turn.cursor_write_fails) [
    | inl h ↦ rw h (inl (record { rows = λ x h. h; start = refl; cursor = refl }))
    | inr h ↦ rw h (inr (b, refl, refl, refl, refl))
  ]
