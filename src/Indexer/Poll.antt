-- ===== src/Indexer/Poll.antt =====
-- src/indexer/indexer.ts and src/indexer/status.ts: one turn of the loop of `runLoop`. What the RPC,
-- the SDK and the clock answer in a turn is a value of `Turn`; `none` in `head` or `batch` is a call
-- that throws. The loop's variables and the database are the state.
pub mod Cover
pub mod Complete
pub mod Resume
pub mod Metrics
use novatip_backend.Prelude.{
  ℕ, ◌+◌, ◌≡◌, String, Bool, true, false, Option, none, some, List, [], ◌∷◌, ◌++◌, ltb,
  if◌then◌else◌, Error, fault, Result, ok, err, Exec, ◌>>=◌, ◌>>◌,
}
use novatip_backend.Store.{Db}
use novatip_backend.Indexer.Cursor.{
  BatchPlan, IdleAdvance, idle_check_interval_ms, is_idle_check_due, plan_batch, plan_idle_advance,
}
use novatip_backend.Indexer.Backoff.{
  base_poll_backoff_ms, max_poll_backoff_ms, calculate_poll_backoff,
}
use novatip_backend.Indexer.Persist.{TipEvent, persist_tip, update_cursor, read_cursor}

pub record LoopState : Type 0 where
  pub db : Db
  pub start_ledger : ℕ
  pub persisted_cursor : ℕ
  pub last_idle_check_at : Option ℕ
  pub consecutive_failures : ℕ
  -- the events that were handed to `enqueueWebhookDispatch` and `sendTipNotification`
  pub announced : List TipEvent
  -- the two variables of status.ts
  pub last_successful_poll_at : Option ℕ
  pub last_error : Option Error

pub record Turn : Type 0 where
  pub now_ms : ℕ
  -- `fetchLatestLedger`
  pub head : Option ℕ
  -- `fetchTipEvents`
  pub batch : Option (List TipEvent)
  -- whether the database rejects the queries for an event, or the write of the cursor
  pub persist_fails : TipEvent → Bool
  pub cursor_write_fails : Bool
  -- the id that the database gives to a new row
  pub row_id : TipEvent → String

-- `startLedger` at the start of `runLoop`
unfoldable pub initial_start_ledger : Db → ℕ → ℕ
initial_start_ledger db indexer_start_ledger =
    let saved_cursor = read_cursor db in
    if ltb 0 saved_cursor then saved_cursor + 1 else indexer_start_ledger

-- the variables of `runLoop` before its first turn
unfoldable pub run_loop_start : Db → ℕ → LoopState
unfolding initial_start_ledger
run_loop_start db indexer_start_ledger = record {
  db = db;
  start_ledger = initial_start_ledger db indexer_start_ledger;
  persisted_cursor = read_cursor db;
  last_idle_check_at = none;
  consecutive_failures = 0;
  announced = [];
  last_successful_poll_at = none;
  last_error = none;
}

-- `updateIndexerCursor` and `updateIndexerLag` stand in modules/metrics/metrics.service.ts and are not
-- imported by indexer.ts, so that a call of either throws a ReferenceError there. That of
-- `updateIndexerLag` is caught at once, after `observedHead` is assigned, and changes nothing.
unfoldable pub update_indexer_cursor : ℕ → Exec LoopState (Unit {0})
update_indexer_cursor ledger s = (err (fault "ReferenceError"), s)

module _ (turn : Turn) where
  -- `sendTipNotification` catches what it throws
  unfoldable pub handle_event : TipEvent → Exec LoopState (Unit {0})
  handle_event event s =
      if turn.persist_fails event
      then (err (fault "database"), s)
      else let (is_new, db) =
          persist_tip (turn.row_id event) turn.now_ms event event.tx_hash s.db in
        (
          ok tt,
          record s {
            db = db;
            announced = if is_new then s.announced ++ event ∷ [] else s.announced;
          },
        )

  -- the loop over `toProcess`
  unfoldable pub handle_events : List TipEvent → Exec LoopState (Unit {0})
  handle_events [] s = (ok tt, s)
  handle_events (event ∷ events) s = (do handle_event event; handle_events events) s

  unfoldable pub write_cursor : ℕ → Exec LoopState (Unit {0})
  write_cursor ledger s =
      if turn.cursor_write_fails
      then (err (fault "database"), s)
      else (ok tt, record s { db = update_cursor ledger s.db })

  abbrev move_start : ℕ → Exec LoopState (Unit {0})
  move_start ledger s = (ok tt, record s { start_ledger = ledger })

  abbrev set_persisted : ℕ → Exec LoopState (Unit {0})
  set_persisted ledger s = (ok tt, record s { persisted_cursor = ledger })

  -- `if (cursorLedger !== null) { … }`
  unfoldable pub save_cursor : Option ℕ → Exec LoopState (Unit {0})
  unfolding write_cursor update_indexer_cursor
  save_cursor none s = (ok tt, s)
  save_cursor (some ledger) s =
      (do write_cursor ledger; set_persisted ledger; update_indexer_cursor ledger) s

  -- the branch for `events.length > 0`
  unfoldable pub process_batch : BatchPlan TipEvent → Exec LoopState (Unit {0})
  unfolding handle_events handle_event save_cursor
  process_batch plan = do
    handle_events plan.to_process
    move_start plan.next_start_ledger
    save_cursor plan.cursor_ledger

  -- the branch for an empty batch
  pub advance_idle : Option IdleAdvance → Exec LoopState (Unit {0})
  unfolding write_cursor update_indexer_cursor
  advance_idle none s = (ok tt, s)
  advance_idle (some advance) s =
      (do
        write_cursor advance.cursor_ledger
        move_start advance.next_start_ledger
        set_persisted advance.cursor_ledger
        update_indexer_cursor advance.cursor_ledger)
        s

  -- the head, if the idle check is due and the call does not throw
  unfoldable pub observed_head : LoopState → Option ℕ
  observed_head s =
      if is_idle_check_due turn.now_ms s.last_idle_check_at idle_check_interval_ms
      then turn.head
      else none

  unfoldable pub note_idle_check : LoopState → LoopState
  note_idle_check s =
      if is_idle_check_due turn.now_ms s.last_idle_check_at idle_check_interval_ms
      then record s { last_idle_check_at = some turn.now_ms }
      else s

  -- what follows `fetchTipEvents` in the `try`
  unfoldable pub process : ℕ → Option ℕ → Option (List TipEvent) → Exec LoopState (Unit {0})
  unfolding process_batch advance_idle
  process poll_limit head none s = (err (fault "rpc"), s)
  process poll_limit head (some []) s =
      advance_idle (plan_idle_advance head s.start_ledger s.persisted_cursor) s
  process poll_limit head (some (e ∷ events)) s =
      process_batch (plan_batch (λ x. x.ledger) (e ∷ events) s.start_ledger poll_limit) s

  -- the end of the `try`, or the `catch`; with the time to sleep
  unfoldable pub settle : ℕ → Result (Unit {0}) × LoopState → LoopState × ℕ
  settle poll_interval_ms (ok _, s) = (
    record s {
      consecutive_failures = 0;
      last_successful_poll_at = some turn.now_ms;
      last_error = none;
    },
    poll_interval_ms,
  )
  settle poll_interval_ms (err e, s) = (
    record s { consecutive_failures = s.consecutive_failures + 1; last_error = some e },
    calculate_poll_backoff (s.consecutive_failures + 1) base_poll_backoff_ms max_poll_backoff_ms,
  )

  -- the body of the `while` loop
  unfoldable pub poll : ℕ → ℕ → LoopState → LoopState × ℕ
  unfolding observed_head note_idle_check process settle
  poll poll_interval_ms poll_limit s =
      settle poll_interval_ms (process poll_limit (observed_head s) turn.batch (note_idle_check s))

-- the turns of a loop until it is stopped
unfoldable pub run_turns : ℕ → ℕ → List Turn → LoopState → LoopState
run_turns poll_interval_ms poll_limit [] s = s
run_turns poll_interval_ms poll_limit (turn ∷ turns) s =
    run_turns poll_interval_ms poll_limit turns (poll turn poll_interval_ms poll_limit s).0
