-- ===== src/Indexer/Poll/Metrics.antt =====
-- How a turn that saves the cursor ends.
use novatip_backend.Prelude.{
  ℕ, ◌+◌, ◌≡◌, ◌≢◌, refl, ◌⊎◌, inl, inr, Option, none, some, List, [], ◌∷◌, arith, Bool-cases,
  Result, ok, err, fault, continue-keeps, ◌>>◌,
}
use novatip_backend.Indexer.Cursor.{BatchPlan, is_idle_check_due}
use novatip_backend.Indexer.Backoff.{
  base_poll_backoff_ms, max_poll_backoff_ms, calculate_poll_backoff,
}
use novatip_backend.Indexer.Persist.{TipEvent}
use novatip_backend.Indexer.Poll.{
  LoopState, Turn, handle_event, handle_events, save_cursor, process_batch, advance_idle, process,
  settle, poll, observed_head, note_idle_check,
}

-- nothing but the saving of a cursor writes these variables in the `try`
record Same (s t : LoopState) : Type 0 where
  cursor : t.persisted_cursor ≡ s.persisted_cursor
  failures : t.consecutive_failures ≡ s.consecutive_failures

Same-trans : {s t u : LoopState} → Same s t → Same t u → Same s u
Same-trans h k = record { cursor = cc (h.cursor, k.cursor); failures = cc (h.failures, k.failures) }

-- the cursor variable stays, or the turn ends in a ReferenceError
abbrev Saves : LoopState → Result (Unit {0}) × LoopState → Type 0
Saves s (r, t) =
    (t.consecutive_failures ≡ s.consecutive_failures)
    × ((t.persisted_cursor ≡ s.persisted_cursor) ⊎ (r ≡ err (fault "ReferenceError")))

module _ (turn : Turn) where
  handle_events-Same :
      (events : List TipEvent) (s : LoopState) → Same s (handle_events turn events s).1
  unfolding handle_events handle_event
  handle_events-Same [] s = record { cursor = refl; failures = refl }
  handle_events-Same (e ∷ events) s =
      let (r, t) = handle_event turn e s in
      let here : Same s t = record { cursor = ground arith; failures = ground arith } in
      continue-keeps (Same s) r (λ _. handle_events turn events) t here
        λ _ _. Same-trans here (handle_events-Same events t)

  save_cursor-Saves : (c : Option ℕ) (s : LoopState) → Saves s (save_cursor turn c s)
  unfolding save_cursor
  save_cursor-Saves none s = (refl, inl refl)
  save_cursor-Saves (some ledger) s = elim (Bool-cases turn.cursor_write_fails) [
    | inl h ↦ rw h (refl, inl refl)
    | inr h ↦ rw h (refl, inr refl)
  ]

  advance_idle-Saves : (a : _) (s : LoopState) → Saves s (advance_idle turn a s)
  unfolding advance_idle
  advance_idle-Saves none s = (refl, inl refl)
  advance_idle-Saves (some b) s = elim (Bool-cases turn.cursor_write_fails) [
    | inl h ↦ rw h (refl, inl refl)
    | inr h ↦ rw h (refl, inr refl)
  ]

  process_batch-Saves :
      (plan : BatchPlan TipEvent) (s : LoopState) → Saves s (process_batch turn plan s)
  process_batch-Saves plan s = go (handle_events turn plan.to_process s).0 refl
    where
      go :
          (r : Result (Unit {0}))
          → (handle_events turn plan.to_process s).0 ≡ r
          → Saves s (process_batch turn plan s)
      go (err x) e =
          let same = handle_events-Same plan.to_process s in
          unfold process_batch in rw (e, ◌>>◌) (same.failures, inl same.cursor)
      go (ok x) e =
          let t = (handle_events turn plan.to_process s).1 in
          let same = handle_events-Same plan.to_process s in
          let saved =
            save_cursor-Saves plan.cursor_ledger
              (record t { start_ledger = plan.next_start_ledger }) in
          unfold process_batch in rw (e, ◌>>◌) (ground (arith, saved, same.cursor, same.failures))

  process-Saves :
      (limit : ℕ) (head : Option ℕ) (batch : Option (List TipEvent)) (s : LoopState)
      → Saves s (process turn limit head batch s)
  unfolding process
  process-Saves limit head none s = (refl, inl refl)
  process-Saves limit head (some []) s = advance_idle-Saves _ s
  process-Saves limit head (some (e ∷ events)) s = process_batch-Saves _ s

  settle-Saves :
      (interval : ℕ) (s : LoopState) (r : Result (Unit {0})) (t : LoopState)
      → Saves s (r, t)
      → (settle turn interval (r, t)).0.persisted_cursor ≢ s.persisted_cursor
      → ((settle turn interval (r, t)).0.last_error ≡ some (fault "ReferenceError"))
        × ((settle turn interval (r, t)).0.consecutive_failures ≡ s.consecutive_failures + 1)
        × ((settle turn interval (r, t)).1
            ≡ calculate_poll_backoff
                (s.consecutive_failures + 1)
                base_poll_backoff_ms
                max_poll_backoff_ms)
  unfolding settle
  settle-Saves interval s (ok _) t h moved = ground arith
  settle-Saves interval s (err _) t h moved = ground (arith, h)

note_idle_check-Same : (turn : Turn) (s : LoopState) → Same s (note_idle_check turn s)
unfolding note_idle_check is_idle_check_due
note_idle_check-Same turn s = record { cursor = ground arith; failures = ground arith }

-- A turn that moves the persisted cursor ends as a failed one: the reported error is a
-- ReferenceError, the consecutive failures go up by one instead of back to 0, and the loop sleeps for
-- the backoff of that many failures instead of the poll interval.
pub cursor_move-fails :
    (turn : Turn) (poll_interval_ms poll_limit : ℕ) (s : LoopState)
    → (poll turn poll_interval_ms poll_limit s).0.persisted_cursor ≢ s.persisted_cursor
    → ((poll turn poll_interval_ms poll_limit s).0.last_error ≡ some (fault "ReferenceError"))
      × ((poll turn poll_interval_ms poll_limit s).0.consecutive_failures
          ≡ s.consecutive_failures + 1)
      × ((poll turn poll_interval_ms poll_limit s).1
          ≡ calculate_poll_backoff
              (s.consecutive_failures + 1)
              base_poll_backoff_ms
              max_poll_backoff_ms)
unfolding poll
cursor_move-fails turn poll_interval_ms poll_limit s moved =
    let noted = note_idle_check turn s in
    let same = note_idle_check-Same turn s in
    let (r, t) = process turn poll_limit (observed_head turn s) turn.batch noted in
    let saves = process-Saves turn poll_limit (observed_head turn s) turn.batch noted in
    settle-Saves turn poll_interval_ms s r t (ground (arith, saves, same.cursor, same.failures))
      moved
