-- ===== src/Tests/Indexing.antt =====
-- The theorems on the indexer at concrete inputs.
use mathlib.Core.Path.{subst}
use novatip_backend.Prelude.{
  ℕ, ◌+◌, ◌-◌, ◌≤◌, ◌<◌, ◌≡◌, ◌≢◌, ◌↔◌, refl, ap, sym, inl, inr, true, false, some, or_else, List,
  [], ◌∷◌, arith, In, fault,
}
use novatip_backend.Tests.{empty_db, event_at}
use novatip_backend.Indexer.Cursor.{max_ledger, plan_batch, is_saturated_ledger}
use novatip_backend.Indexer.Cursor.Batch.{plan_batch-partition, plan_batch-progress}
use novatip_backend.Indexer.Backoff.{
  calculate_poll_backoff, base_poll_backoff_ms, max_poll_backoff_ms,
}
use novatip_backend.Indexer.Persist.{TipEvent, persist_tip, tip_of_tx, read_cursor}
use novatip_backend.Indexer.Persist.Idempotent.{persist_tip-replay, persist_tip-answer_new}
use novatip_backend.Indexer.Poll.{
  LoopState, Turn, poll, run_turns, run_loop_start, initial_start_ledger, handle_event,
  handle_events, save_cursor, write_cursor, process_batch, process, settle, observed_head,
  note_idle_check,
}
use novatip_backend.Indexer.Poll.Complete.{IsHonest, IsCovered, poll-IsCovered}
use novatip_backend.Indexer.Poll.Resume.{restart-IsCovered}
use novatip_backend.Indexer.Poll.Metrics.{cursor_move-fails}

abbrev events : List TipEvent
events = event_at "a" 10 ∷ event_at "b" 12 ∷ []

-- the events that the contract ever emits
abbrev Emitted : TipEvent → Type 0
Emitted x = In x events

abbrev turn : Turn
turn = record {
  now_ms = 2000;
  head = some 20;
  batch = some events;
  persist_fails = λ _. false;
  cursor_write_fails = false;
  row_id = λ e. e.tx_hash;
}

some-injective : (xs ys : List TipEvent) → some xs ≡ some ys → xs ≡ ys
some-injective xs ys h = ap (λ o. or_else o []) h

Emitted-late : (x : TipEvent) → In x events → 5 ≤ x.ledger
Emitted-late x (inl e) = omega (arith, ap (λ y. y.ledger) e)
Emitted-late x (inr (inl e)) = omega (arith, ap (λ y. y.ledger) e)
Emitted-late x (inr (inr m)) = elim m [ ]

-- no ledger is warned about
abbrev NotFull : ℕ → Type 0
NotFull ledger = ⊥

turn-IsHonest : IsHonest Emitted NotFull turn 100 5
unfolding is_saturated_ledger
turn-IsHonest = record {
  not_before = λ es x h m. Emitted-late x (subst (λ ys. In x ys) (sym (some-injective _ _ h)) m);
  complete = λ es x h m _. inl (subst (λ ys. In x ys) (some-injective _ _ h) m);
  head_before = λ h x _ none_ _ _. cc;
  warned = λ es x h full m. absurd (
      some_full (
        subst (λ ys. is_saturated_ledger (λ e. e.ledger) ys 100 ≡ true) (sym (some-injective _ _ h))
          full));
}
  where
    some_full : false ≡ true → ⊥
    some_full h = cc

nothing_before : (s : LoopState) → s.start_ledger ≤ 5 → IsCovered Emitted NotFull 5 s
nothing_before s h = record { stored = λ x m low below. ground arith }

poll-IsCovered_example :
    IsCovered Emitted NotFull 5 (poll turn 6000 100 (run_loop_start empty_db 5)).0
unfolding run_loop_start initial_start_ledger read_cursor
poll-IsCovered_example =
    poll-IsCovered turn 6000 100 (run_loop_start empty_db 5) turn-IsHonest
      (nothing_before (run_loop_start empty_db 5) (omega arith))

restart-IsCovered_example :
    let s = run_turns 6000 100 (turn ∷ []) (run_loop_start empty_db 5) in
    IsCovered Emitted NotFull 5 s
    × IsCovered Emitted NotFull 5 (run_loop_start s.db 5)
    × ((run_loop_start s.db 5).start_ledger ≤ s.start_ledger)
unfolding run_loop_start initial_start_ledger read_cursor
restart-IsCovered_example =
    restart-IsCovered 6000 100 5 (turn ∷ []) empty_db (turn-IsHonest, tt)
      (nothing_before (run_loop_start empty_db 5) (omega arith))

plan_batch-partition_example :
    In (event_at "b" 12) (plan_batch (λ e. e.ledger) events 5 2).to_process ↔ (
      In (event_at "b" 12) events
      × (12 < (plan_batch (λ e. e.ledger) events 5 2).next_start_ledger))
plan_batch-partition_example = plan_batch-partition (λ e. e.ledger) events 5 2 (event_at "b" 12)

plan_batch-progress_example :
    (5 < (plan_batch (λ e. e.ledger) events 5 2).next_start_ledger)
    × ((plan_batch (λ e. e.ledger) events 5 2).cursor_ledger
        ≡ some ((plan_batch (λ e. e.ledger) events 5 2).next_start_ledger - 1))
plan_batch-progress_example =
    plan_batch-progress (λ e. e.ledger) (event_at "a" 10) (event_at "b" 12 ∷ []) 5 2 Emitted-late

persist_tip-replay_example :
    persist_tip "t2" 9 (event_at "a" 11) "a" (persist_tip "t1" 7 (event_at "a" 10) "a" empty_db).1
    ≡ persist_tip "t1" 7 (event_at "a" 10) "a" empty_db
persist_tip-replay_example =
    persist_tip-replay "t1" "t2" 7 9 (event_at "a" 10) (event_at "a" 11) "a" empty_db

persist_tip-answer_new_example :
    ((persist_tip "t1" 7 (event_at "a" 10) "a" empty_db).0 ≡ true) ↔ (◌≡◌ {A = ℕ} 7 1000)
unfolding tip_of_tx
persist_tip-answer_new_example = persist_tip-answer_new "t1" 7 (event_at "a" 10) "a" empty_db refl

cursor_moves : (poll turn 6000 100 (run_loop_start empty_db 5)).0.persisted_cursor ≢ 0
unfolding poll process process_batch handle_events handle_event save_cursor write_cursor settle
    observed_head note_idle_check run_loop_start plan_batch max_ledger
cursor_moves = omega arith

cursor_move-fails_example :
    ((poll turn 6000 100 (run_loop_start empty_db 5)).0.last_error ≡ some (fault "ReferenceError"))
    × ((poll turn 6000 100 (run_loop_start empty_db 5)).0.consecutive_failures ≡ 0 + 1)
    × ((poll turn 6000 100 (run_loop_start empty_db 5)).1
        ≡ calculate_poll_backoff (0 + 1) base_poll_backoff_ms max_poll_backoff_ms)
unfolding run_loop_start read_cursor
cursor_move-fails_example = cursor_move-fails turn 6000 100 (run_loop_start empty_db 5) cursor_moves
